-- ===== src/Auth/Directory/Rows.antt =====
-- Rows that are looked up after they were set.
use thryve_financial.Base.{ℕ, ◌≡◌, String, true, some, List, [], ◌∷◌, is_some, arith}
use thryve_financial.Auth.Directory.{
  User, AuthIdentityRecord, get_user_by_id, get_user_by_email, get_identity, has_identity_key,
  set_user, set_identity,
}

pub get_user-set_user :
    (u : User) (users : List User)
    → is_some (get_user_by_id u.id users) ≡ true
    → get_user_by_id u.id (set_user u users) ≡ some u
unfolding set_user
get_user-set_user u [] known = ground arith
get_user-set_user u (x ∷ xs) known = ground (arith, get_user-set_user u xs)

-- A user that is looked up has the id asked for.
pub get_user_id :
    (i : ℕ) (users : List User) (u : User) → get_user_by_id i users ≡ some u → u.id ≡ i
get_user_id i [] u found = ground arith
get_user_id i (x ∷ xs) u found = ground (arith, get_user_id i xs u)

pub get_identity-set_identity :
    (provider issuer subject : String) (i next : AuthIdentityRecord) (is : List AuthIdentityRecord)
    → next.id ≡ i.id
    → has_identity_key provider issuer subject next ≡ true
    → get_identity provider issuer subject is ≡ some i
    → get_identity provider issuer subject (set_identity next is) ≡ some next
unfolding set_identity
get_identity-set_identity provider issuer subject i next [] same key found = ground arith
get_identity-set_identity provider issuer subject i next (x ∷ xs) same key found =
    ground (arith, get_identity-set_identity provider issuer subject i next xs same key)

-- An identity that is looked up has the key asked for.
pub get_identity_key :
    (provider issuer subject : String) (is : List AuthIdentityRecord) (i : AuthIdentityRecord)
    → get_identity provider issuer subject is ≡ some i
    → has_identity_key provider issuer subject i ≡ true
get_identity_key provider issuer subject [] i found = ground arith
get_identity_key provider issuer subject (x ∷ xs) i found =
    ground (arith, get_identity_key provider issuer subject xs i)

-- A user that is looked up by an email is found by its id.
pub get_user_by_email_id :
    (email : String) (users : List User) (u : User)
    → get_user_by_email email users ≡ some u
    → is_some (get_user_by_id u.id users) ≡ true
get_user_by_email_id email [] u found = ground arith
get_user_by_email_id email (x ∷ xs) u found = ground (arith, get_user_by_email_id email xs u)
