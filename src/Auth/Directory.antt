-- ===== src/Auth/Directory.antt =====
-- pfm/app/auth/service.py and repository.py: the local users and their identities. The provider is
-- the argument that gives a profile. A call is one transaction, which no other session disturbs;
-- `none` of a write is the database's `IntegrityError`.
pub mod Rows
pub mod Linking
pub mod Emails
pub mod Uniqueness
pub mod Keys
pub mod Refinement
use thryve_financial.Base.{
  ℕ, String, Bool, true, false, Option, none, some, List, [], ◌∷◌, ◌&&◌, ◌||◌, ◌==◌, Dict, eqb,
  first, select, is_some, truthy, not, if◌then◌else◌,
}

pub record User : Type 0 where
  pub id : ℕ
  pub email : String
  pub display_name : Option String
  pub email_verified_at : Option ℕ
  pub is_active : Bool
  pub last_login_at : Option ℕ

pub record AuthIdentityRecord : Type 0 where
  pub id : ℕ
  pub user_id : ℕ
  pub provider : String
  pub issuer : String
  pub subject_id : String
  pub email : Option String
  pub email_verified_at : Option ℕ
  pub last_sign_in_at : Option ℕ
  pub provider_metadata : Dict String

pub record ProviderUserProfile : Type 0 where
  pub issuer : String
  pub subject_id : String
  pub email : Option String
  pub display_name : Option String
  pub email_verified_at : Option ℕ
  pub last_sign_in_at : Option ℕ
  pub metadata : Dict String

pub record Directory : Type 0 where
  pub users : List User
  pub auth_identities : List AuthIdentityRecord

pub data AuthError : Type 0 where
  not_provisioned integrity_error : AuthError

pub data Upsert : Type 0 where
  upserted : User → List AuthIdentityRecord → Upsert
  refused : AuthError → Upsert

abbrev pub get_user_by_id : ℕ → List User → Option User
get_user_by_id i users = first (λ u. eqb u.id i) users

abbrev pub get_user_by_email : String → List User → Option User
get_user_by_email email users = first (λ u. u.email == email) users

abbrev pub has_identity_key : String → String → String → AuthIdentityRecord → Bool
has_identity_key provider issuer subject i =
    i.provider == provider && i.issuer == issuer && i.subject_id == subject

abbrev pub get_identity :
    String → String → String → List AuthIdentityRecord → Option AuthIdentityRecord
get_identity provider issuer subject is = first (has_identity_key provider issuer subject) is

abbrev pub list_identities_for_user : ℕ → List AuthIdentityRecord → List AuthIdentityRecord
list_identities_for_user i is = select (λ x. eqb x.user_id i) is

-- `create_user`: the flush fails on a known id or email.
unfoldable pub create_user : User → List User → Option (List User)
create_user u users =
    if is_some (first (λ x. eqb x.id u.id || x.email == u.email) users)
    then none
    else some (u ∷ users)

-- `create_identity`: the flush fails on a known id or key.
unfoldable pub create_identity :
    AuthIdentityRecord → List AuthIdentityRecord → Option (List AuthIdentityRecord)
create_identity i is =
    if is_some
      (first (λ x. eqb x.id i.id || has_identity_key i.provider i.issuer i.subject_id x) is)
    then none
    else some (i ∷ is)

-- The columns of the user with its id are set.
unfoldable pub set_user : User → List User → List User
set_user u [] = []
set_user u (x ∷ xs) = (if eqb x.id u.id then u else x) ∷ set_user u xs

-- The flush of a changed user, which fails on the email of another.
unfoldable pub save_user : User → List User → Option (List User)
unfolding set_user
save_user u users =
    if is_some (first (λ x. not (eqb x.id u.id) && x.email == u.email) users)
    then none
    else some (set_user u users)

unfoldable pub set_identity : AuthIdentityRecord → List AuthIdentityRecord → List AuthIdentityRecord
set_identity i [] = []
set_identity i (x ∷ xs) = (if eqb x.id i.id then i else x) ∷ set_identity i xs

abbrev pub or_else {ℓ} : {A : Type ℓ} → Option A → Option A → Option A
or_else none b = b
or_else (some a) b = some a

-- `sync_user_profile`
abbrev pub sync_user_profile : ProviderUserProfile → User → User
sync_user_profile p u = record u {
  email = elim p.email [ none ↦ u.email | some e ↦ if e == "" then u.email else e ];
  display_name = or_else p.display_name u.display_name;
  email_verified_at = or_else p.email_verified_at u.email_verified_at;
}

-- `sync_identity_profile`
abbrev pub sync_identity_profile : ProviderUserProfile → AuthIdentityRecord → AuthIdentityRecord
sync_identity_profile p i = record i {
  email = p.email;
  email_verified_at = or_else p.email_verified_at i.email_verified_at;
  last_sign_in_at = or_else p.last_sign_in_at i.last_sign_in_at;
  provider_metadata = p.metadata;
}

-- `touch_last_login`, where the call marks the login.
abbrev pub touched : Bool → ProviderUserProfile → ℕ → User → User
touched mark p now u =
    if mark then record u { last_login_at = or_else p.last_sign_in_at (some now) } else u

-- What a call meets: the ids of new rows, the time, and whether it marks a login.
pub record Visit : Type 0 where
  pub new_user_id : ℕ
  pub new_identity_id : ℕ
  pub now : ℕ
  pub mark_last_login : Bool

abbrev pub new_user : Visit → String → ProviderUserProfile → User
new_user visit email p = record {
  id = visit.new_user_id;
  email = email;
  display_name = p.display_name;
  email_verified_at = p.email_verified_at;
  is_active = true;
  last_login_at = none;
}

abbrev pub new_identity : Visit → String → ProviderUserProfile → User → AuthIdentityRecord
new_identity visit provider p u = record {
  id = visit.new_identity_id;
  user_id = u.id;
  provider = provider;
  issuer = p.issuer;
  subject_id = p.subject_id;
  email = p.email;
  email_verified_at = p.email_verified_at;
  last_sign_in_at = p.last_sign_in_at;
  provider_metadata = p.metadata;
}

abbrev pub answer_with : User → List User → List AuthIdentityRecord → Upsert × Directory
answer_with u users is =
    (upserted u (list_identities_for_user u.id is), record { users = users; auth_identities = is })

abbrev pub saved :
    User → List AuthIdentityRecord → Directory → Option (List User) → Upsert × Directory
saved u is d none = (refused integrity_error, d)
saved u is d (some users) = answer_with u users is

-- The end of a call, after the flush of a row.
abbrev pub linked :
    User → List User → Directory → Option (List AuthIdentityRecord) → Upsert × Directory
linked u users d none = (refused integrity_error, d)
linked u users d (some is) = answer_with u users is

-- A new identity of a user that is in the table.
abbrev pub link_identity :
    Visit → String → ProviderUserProfile → User → List User → Directory → Upsert × Directory
link_identity visit provider p u users d =
    let user = touched visit.mark_last_login p visit.now u in
    linked user (set_user user users) d
      (create_identity (new_identity visit provider p u) d.auth_identities)

-- A user that was created, if its flush was.
abbrev pub link_created :
    Visit
    → String
    → ProviderUserProfile
    → User
    → Directory
    → Option (List User)
    → Upsert × Directory
link_created visit provider p u d none = (refused integrity_error, d)
link_created visit provider p u d (some users) = link_identity visit provider p u users d

-- The user of a new identity: the one with its email, or a new one.
abbrev pub link_to :
    Visit → String → ProviderUserProfile → String → Directory → Option User → Upsert × Directory
link_to visit provider p email d (some u) =
    link_identity visit provider p (sync_user_profile p u)
      (set_user (sync_user_profile p u) d.users) d
link_to visit provider p email d none =
    link_created visit provider p (new_user visit email p) d
      (create_user (new_user visit email p) d.users)

abbrev pub link_new : Visit → String → ProviderUserProfile → String → Directory → Upsert × Directory
link_new visit provider p email d =
    link_to visit provider p email d (get_user_by_email email d.users)

-- The user of a known identity, synchronized.
abbrev pub sync_user :
    Visit → ProviderUserProfile → AuthIdentityRecord → Directory → Option User → Upsert × Directory
sync_user visit p i d none = (refused not_provisioned, d)
sync_user visit p i d (some u) =
    let user = touched visit.mark_last_login p visit.now (sync_user_profile p u) in
    saved user (set_identity (sync_identity_profile p i) d.auth_identities) d
      (save_user user d.users)

abbrev pub sync_known :
    Visit → ProviderUserProfile → AuthIdentityRecord → Directory → Upsert × Directory
sync_known visit p i d = sync_user visit p i d (get_user_by_id i.user_id d.users)

-- A profile without an email makes no new identity.
abbrev pub link_profile :
    String → Visit → ProviderUserProfile → Directory → Option String → Upsert × Directory
link_profile provider visit p d none = (refused not_provisioned, d)
link_profile provider visit p d (some email) =
    if email == "" then (refused not_provisioned, d) else link_new visit provider p email d

abbrev pub known_or_new :
    String
    → Visit
    → ProviderUserProfile
    → Directory
    → Option AuthIdentityRecord
    → Upsert × Directory
known_or_new provider visit p d (some i) = sync_known visit p i d
known_or_new provider visit p d none = link_profile provider visit p d p.email

-- `_upsert_local_user`
unfoldable pub upsert_local_user :
    String → Visit → ProviderUserProfile → Directory → Upsert × Directory
unfolding create_user create_identity set_user save_user set_identity
upsert_local_user provider visit p d =
    known_or_new provider visit p d (get_identity provider p.issuer p.subject_id d.auth_identities)

-- A user with its identities, if it is there and active.
abbrev pub active_user : Directory → Option User → Option (User × List AuthIdentityRecord)
active_user d none = none
active_user d (some u) =
    if u.is_active then some (u, list_identities_for_user u.id d.auth_identities) else none

abbrev pub identity_user :
    Directory → Option AuthIdentityRecord → Option (User × List AuthIdentityRecord)
identity_user d none = none
identity_user d (some i) = active_user d (get_user_by_id i.user_id d.users)

-- The user that `authenticate_request` finds for verified claims.
unfoldable pub authenticated_user :
    String → String → String → Directory → Option (User × List AuthIdentityRecord)
authenticated_user provider issuer subject d =
    identity_user d (get_identity provider issuer subject d.auth_identities)
