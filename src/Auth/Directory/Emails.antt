-- ===== src/Auth/Directory/Emails.antt =====
-- Rows of users with different ids and different emails.
use thryve_financial.Base.{
  ◌≡◌, refl, String, Bool, true, false, not, some, List, [], ◌∷◌, ◌==◌, ◌&&◌, ◌||◌, eqb, first,
  is_some, All, arith, eq_iff, if◌then◌else◌,
}
use thryve_financial.Auth.Directory.{User, get_user_by_email, set_user}

-- The primary key and the unique email set these rows against each other.
abbrev pub user_clash : User → User → Bool
user_clash u x = eqb x.id u.id || x.email == u.email

abbrev pub AreDistinct : List User → Type 0
AreDistinct [] = Unit {0}
AreDistinct (u ∷ us) = All (λ x. user_clash u x ≡ false) us × AreDistinct us

-- Another row has the user's email.
abbrev pub taken : User → User → Bool
taken u x = not (eqb x.id u.id) && x.email == u.email

pub first-All :
    (u : User) (us : List User)
    → is_some (first (user_clash u) us) ≡ false
    → All (λ x. user_clash u x ≡ false) us
first-All u [] h = tt
first-All u (x ∷ xs) h = (ground (arith, h), first-All u xs (ground (arith, h)))

All-set_user :
    (w u : User) (us : List User)
    → user_clash w u ≡ false
    → All (λ x. user_clash w x ≡ false) us
    → All (λ x. user_clash w x ≡ false) (set_user u us)
unfolding set_user
All-set_user w u [] apart all = tt
All-set_user w u (x ∷ xs) apart all = (ground (arith, apart, all), All-set_user w u xs apart all.1)

-- Where no row has the user's id, nothing is set; its email is apart from theirs.
All-apart :
    (w u : User) (us : List User)
    → eqb w.id u.id ≡ true
    → All (λ x. user_clash w x ≡ false) us
    → is_some (first (taken u) us) ≡ false
    → All (λ x. user_clash u x ≡ false) (set_user u us)
unfolding set_user
All-apart w u [] same all free = tt
All-apart w u (x ∷ xs) same all free =
    (ground (arith, same, all, free), All-apart w u xs same all.1 (ground (arith, free)))

pub set_user-AreDistinct :
    (u : User) (us : List User)
    → AreDistinct us
    → is_some (first (taken u) us) ≡ false
    → AreDistinct (set_user u us)
unfolding set_user
set_user-AreDistinct u [] v free = tt
set_user-AreDistinct u (x ∷ xs) v free =
    (head_apart (eqb x.id u.id) refl, set_user-AreDistinct u xs v.1 (ground (arith, free)))
  where
    head_apart :
        (same : Bool)
        → eqb x.id u.id ≡ same
        → All (λ y. user_clash (if same then u else x) y ≡ false) (set_user u xs)
    head_apart true same = All-apart x u xs same v.0 (ground (arith, free))
    head_apart false other =
        All-set_user x u xs
          (ground (arith, free, other, eq_iff x.email u.email, eq_iff u.email x.email)) v.0

others_free :
    (w u : User) (us : List User)
    → (w.email == u.email) ≡ true
    → All (λ x. user_clash w x ≡ false) us
    → is_some (first (taken u) us) ≡ false
others_free w u [] same all = refl
others_free w u (x ∷ xs) same all = ground (
  arith,
  same,
  all,
  eq_iff w.email u.email,
  eq_iff x.email u.email,
  eq_iff x.email w.email,
  others_free w u xs same all.1,
)

-- The email that a user already has is not another's.
pub own_email :
    (u : User) (us : List User)
    → AreDistinct us
    → get_user_by_email u.email us ≡ some u
    → is_some (first (taken u) us) ≡ false
own_email u [] v found = refl
own_email u (x ∷ xs) v found = ground (arith, found, others_free x u xs, v.0, own_email u xs v.1)

pub same_free :
    (u w : User) (us : List User)
    → u.id ≡ w.id
    → u.email ≡ w.email
    → is_some (first (taken w) us) ≡ false
    → is_some (first (taken u) us) ≡ false
same_free u w [] id email free = refl
same_free u w (x ∷ xs) id email free = ground (arith, id, email, free, same_free u w xs id email)

pub user_clash_free :
    (u : User) (us : List User)
    → is_some (first (user_clash u) us) ≡ false
    → is_some (first (taken u) us) ≡ false
user_clash_free u [] h = refl
user_clash_free u (x ∷ xs) h = ground (arith, h, user_clash_free u xs)

pub set_free :
    (u : User) (us : List User)
    → is_some (first (taken u) us) ≡ false
    → is_some (first (taken u) (set_user u us)) ≡ false
unfolding set_user
set_free u [] h = refl
set_free u (x ∷ xs) h = ground (arith, h, set_free u xs)

pub found_email :
    (email : String) (us : List User) (u : User)
    → get_user_by_email email us ≡ some u
    → u.email ≡ email
found_email email [] u found = ground arith
found_email email (x ∷ xs) u found = ground (arith, eq_iff x.email email, found_email email xs u)
