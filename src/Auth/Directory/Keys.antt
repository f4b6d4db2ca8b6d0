-- ===== src/Auth/Directory/Keys.antt =====
-- Identities by their keys, and what a write of one changes.
use thryve_financial.Base.{
  ℕ, ◌≡◌, refl, sym, ap, ◌∙◌, String, Bool, true, false, not, ◌&&◌, ◌||◌, Option, none, some, List,
  [], ◌∷◌, ◌==◌, eqb, first, is_some, arith, eq_iff, eq_refl, if◌then◌else◌,
}
use thryve_financial.Auth.Directory.{
  AuthIdentityRecord, get_identity, has_identity_key, create_identity, set_identity,
}

-- A row has the id, or the key.
abbrev clashes : AuthIdentityRecord → AuthIdentityRecord → Bool
clashes i x = eqb x.id i.id || has_identity_key i.provider i.issuer i.subject_id x

abbrev is_taken : AuthIdentityRecord → List AuthIdentityRecord → Bool
is_taken i is = is_some (first (clashes i) is)

-- No two rows share an id or a key.
abbrev pub are_keyed : List AuthIdentityRecord → Bool
are_keyed [] = true
are_keyed (i ∷ is) = not (is_taken i is) && are_keyed is

-- The rows with the id of a row have its key and its user.
abbrev pub agrees : AuthIdentityRecord → List AuthIdentityRecord → Bool
agrees next [] = true
agrees next (x ∷ xs) =
    (if eqb x.id next.id
      then has_identity_key next.provider next.issuer next.subject_id x
        && eqb x.user_id next.user_id
      else true)
    && agrees next xs

-- Whom an identity belongs to.
abbrev pub owner_of : Option AuthIdentityRecord → Option ℕ
owner_of none = none
owner_of (some i) = some i.user_id

abbrev pub owner : List AuthIdentityRecord → String → String → String → Option ℕ
owner is provider issuer subject = owner_of (get_identity provider issuer subject is)

untaken-agrees :
    (i next : AuthIdentityRecord) (is : List AuthIdentityRecord)
    → is_taken i is ≡ false
    → next.id ≡ i.id
    → agrees next is ≡ true
untaken-agrees i next [] free same = refl
untaken-agrees i next (x ∷ xs) free same = ground (arith, untaken-agrees i next xs)

found-is_taken :
    (provider issuer subject : String) (x i : AuthIdentityRecord) (is : List AuthIdentityRecord)
    → get_identity provider issuer subject is ≡ some i
    → x.id ≡ i.id
    → is_taken x is ≡ true
found-is_taken provider issuer subject x i [] found same = ground arith
found-is_taken provider issuer subject x i (y ∷ ys) found same =
    ground (arith, found-is_taken provider issuer subject x i ys)

pub found-agrees :
    (provider issuer subject : String) (i next : AuthIdentityRecord) (is : List AuthIdentityRecord)
    → are_keyed is ≡ true
    → get_identity provider issuer subject is ≡ some i
    → next.id ≡ i.id
    → next.user_id ≡ i.user_id
    → has_identity_key next.provider next.issuer next.subject_id i ≡ true
    → agrees next is ≡ true
found-agrees provider issuer subject i next [] keyed found same user key = refl
found-agrees provider issuer subject i next (x ∷ xs) keyed found same user key = ground (
  arith,
  untaken-agrees x next xs,
  found-is_taken provider issuer subject x i xs,
  found-agrees provider issuer subject i next xs,
)

pub owner-set_identity :
    (next : AuthIdentityRecord) (is : List AuthIdentityRecord) (provider issuer subject : String)
    → agrees next is ≡ true
    → owner (set_identity next is) provider issuer subject ≡ owner is provider issuer subject
unfolding set_identity
owner-set_identity next [] provider issuer subject agree = refl
owner-set_identity next (x ∷ xs) provider issuer subject agree = ground (
  arith,
  owner-set_identity next xs provider issuer subject,
  eq_iff x.provider next.provider,
  eq_iff x.issuer next.issuer,
  eq_iff x.subject_id next.subject_id,
)

is_taken-set_identity :
    (i next : AuthIdentityRecord) (is : List AuthIdentityRecord)
    → agrees next is ≡ true
    → is_taken i (set_identity next is) ≡ is_taken i is
unfolding set_identity
is_taken-set_identity i next [] agree = refl
is_taken-set_identity i next (x ∷ xs) agree = ground (
  arith,
  is_taken-set_identity i next xs,
  eq_iff x.provider next.provider,
  eq_iff x.issuer next.issuer,
  eq_iff x.subject_id next.subject_id,
)

is_taken_same :
    (i j : AuthIdentityRecord) (is : List AuthIdentityRecord)
    → i.id ≡ j.id
    → i.provider ≡ j.provider
    → i.issuer ≡ j.issuer
    → i.subject_id ≡ j.subject_id
    → is_taken i is ≡ is_taken j is
is_taken_same i j [] id provider issuer subject = refl
is_taken_same i j (x ∷ xs) id provider issuer subject = ground (arith, is_taken_same i j xs)

pub set_identity-keyed :
    (next : AuthIdentityRecord) (is : List AuthIdentityRecord)
    → agrees next is ≡ true
    → are_keyed is ≡ true
    → are_keyed (set_identity next is) ≡ true
unfolding set_identity
set_identity-keyed next [] agree keyed = refl
set_identity-keyed next (x ∷ xs) agree keyed = ground (
  arith,
  set_identity-keyed next xs,
  is_taken-set_identity x next xs,
  is_taken-set_identity next next xs,
  is_taken_same x next xs,
  eq_iff x.provider next.provider,
  eq_iff x.issuer next.issuer,
  eq_iff x.subject_id next.subject_id,
)

-- A map with one key changed.
abbrev pub updated :
    (String → String → String → Option ℕ)
    → String
    → String
    → String
    → ℕ
    → String
    → String
    → String
    → Option ℕ
updated f provider issuer subject user p i s =
    if provider == p && issuer == i && subject == s then some user else f p i s

create_identity_cons :
    (i : AuthIdentityRecord) (is next : List AuthIdentityRecord)
    → create_identity i is ≡ some next
    → next ≡ i ∷ is
unfolding create_identity
create_identity_cons i is next created = ground arith

owner_cons :
    (i : AuthIdentityRecord) (is : List AuthIdentityRecord) (p r s : String)
    → owner (i ∷ is) p r s ≡ updated (owner is) i.provider i.issuer i.subject_id i.user_id p r s
owner_cons i is p r s = ground arith

-- A change to what the map has already.
pub updated_same :
    (f : String → String → String → Option ℕ) (provider issuer subject : String) (user : ℕ)
    (p r s : String)
    → f provider issuer subject ≡ some user
    → updated f provider issuer subject user p r s ≡ f p r s
updated_same f provider issuer subject user p r s known =
    by_key (provider == p) (issuer == r) (subject == s) refl refl refl
  where
    by_key :
        (a b c : Bool)
        → (provider == p) ≡ a
        → (issuer == r) ≡ b
        → (subject == s) ≡ c
        → (if a && b && c then some user else f p r s) ≡ f p r s
    by_key true true true x y z =
        sym known
        ∙ ap (λ t. f t issuer subject) ((eq_iff provider p).0 x)
        ∙ ap (λ t. f p t subject) ((eq_iff issuer r).0 y)
        ∙ ap (λ t. f p r t) ((eq_iff subject s).0 z)
    by_key true true false x y z = refl
    by_key true false c x y z = refl
    by_key false b c x y z = refl

pub owner-create_identity :
    (i : AuthIdentityRecord) (is next : List AuthIdentityRecord) (p r s : String)
    → create_identity i is ≡ some next
    → owner next p r s ≡ updated (owner is) i.provider i.issuer i.subject_id i.user_id p r s
owner-create_identity i is next p r s created =
    ap (λ x. owner x p r s) (create_identity_cons i is next created) ∙ owner_cons i is p r s

pub create_identity-keyed :
    (i : AuthIdentityRecord) (is next : List AuthIdentityRecord)
    → create_identity i is ≡ some next
    → are_keyed is ≡ true
    → are_keyed next ≡ true
unfolding create_identity
create_identity-keyed i is next created keyed = ground arith

pub own_key : (i : AuthIdentityRecord) → has_identity_key i.provider i.issuer i.subject_id i ≡ true
own_key i = ground (arith, eq_refl i.provider, eq_refl i.issuer, eq_refl i.subject_id)
