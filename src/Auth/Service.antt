-- ===== src/Auth/Service.antt =====
-- pfm/app/auth/service.py: the facade of the authentication. The provider is the record of what the
-- service calls; a call of the service meets what the directory's `Visit` says. A user of the
-- application is its row with its identities.
pub mod Sessions
pub mod Accounts
mod Tests
use thryve_financial.Base.{
  ℕ, String, Bool, true, false, Option, none, some, List, [], ◌∷◌, Integer, is_some, truthy,
  if◌then◌else◌,
}
use thryve_financial.Problem.{Problem, unset, built}
use thryve_financial.Problem.Classes.{account_not_provisioned_error}
use thryve_financial.Problem.Factories.{dependency_unavailable}
use thryve_financial.Auth.Directory.{
  User, AuthIdentityRecord, ProviderUserProfile, Directory, Visit, Upsert, upserted, refused,
  AuthError, not_provisioned, integrity_error, upsert_local_user, authenticated_user,
  get_user_by_id, list_identities_for_user,
}
use thryve_financial.Auth.Claims.{
  VerifiedClaims, Principal, ActorType, user, service_account, Audience,
}
use thryve_financial.Auth.Supabase.{Outcome, answered, problem, error, ProviderSession}
use thryve_financial.Auth.Supabase.Flows.{ProviderSignUpResult, bound}

-- `AuthProvider`: its name and its calls.
pub record AuthProvider : Type 0 where
  pub name : String
  pub verify_access_token : String → Outcome VerifiedClaims
  pub sign_up_with_password : String → String → Option String → Outcome ProviderSignUpResult
  pub sign_in_with_password : String → String → Outcome ProviderSession
  pub refresh_session : String → Outcome ProviderSession
  pub confirm_email_verification : String → String → Outcome ProviderUserProfile
  pub request_password_reset : String → Outcome (Unit {0})
  pub confirm_password_reset : String → String → String → Outcome (Unit {0})
  pub request_email_verification : String → Outcome (Unit {0})
  pub logout : String → Outcome (Unit {0})

pub record AuthenticatedUser : Type 0 where
  pub id : ℕ
  pub email : String
  pub display_name : Option String
  pub email_verified_at : Option ℕ
  pub is_active : Bool
  pub tenant_id : Option ℕ
  pub actor_type : ActorType
  pub roles : List String
  pub scopes : List String
  pub identities : List AuthIdentityRecord

pub record AuthSession : Type 0 where
  pub access_token : String
  pub refresh_token : Option String
  pub token_type : String
  pub expires_in : Option Integer
  pub user : AuthenticatedUser

pub record PasswordSignUpResult : Type 0 where
  pub email : String
  pub requires_email_verification : Bool
  pub session : Option AuthSession
  pub user : Option AuthenticatedUser

-- `_to_authenticated_user` with the roles and scopes of a principal or of claims.
abbrev pub to_authenticated_user :
    User
    → List AuthIdentityRecord
    → List String
    → List String
    → Option ℕ
    → ActorType
    → AuthenticatedUser
to_authenticated_user u identities roles scopes tenant_id actor_type = record {
  id = u.id;
  email = u.email;
  display_name = u.display_name;
  email_verified_at = u.email_verified_at;
  is_active = u.is_active;
  tenant_id = tenant_id;
  actor_type = actor_type;
  roles = roles;
  scopes = scopes;
  identities = identities;
}

-- `a or b` of optional texts
abbrev pub or_texts : Option String → Option String → Option String
or_texts a b = if truthy a then a else b

abbrev pub or_claimed : String → Option String → Option String
or_claimed email other = or_texts (some email) other

-- `Principal.from_authenticated_user`
unfoldable pub from_authenticated_user : AuthenticatedUser → VerifiedClaims → Principal
from_authenticated_user u c = record {
  subject_id = c.subject_id;
  user_id = u.id;
  actor_type = u.actor_type;
  session_id = or_texts c.session_id c.jwt_id;
  tenant_id = u.tenant_id;
  issuer = some c.issuer;
  audience = some c.audience;
  email = or_claimed u.email c.email;
  roles = c.roles;
  scopes = c.scopes;
  metadata = c.metadata;
}

module _ (capitalize : String → String) where
  -- What `_provider_call` raises for an exception that is no problem.
  abbrev pub provider_error : String → Option Problem
  provider_error operation =
      dependency_unavailable capitalize "auth" none
        (some "Authentication is temporarily unavailable.") none
        (some (("auth_reason", "provider_error") ∷ ("auth_operation", operation) ∷ []))

  -- `_provider_call`
  unfoldable pub provider_call : {A : Type 0} → String → Outcome A → Outcome A
  unfolding dependency_unavailable
  provider_call operation (answered a) = answered a
  provider_call operation (problem p) = problem p
  provider_call operation error = problem (provider_error operation)

  module _ (provider : AuthProvider) where
    -- The principal of the user that the claims lead to.
    abbrev pub principal_of :
        VerifiedClaims → Option (User × List AuthIdentityRecord) → Outcome Principal
    principal_of c none = problem (some (built account_not_provisioned_error unset))
    principal_of c (some (u, identities)) =
        answered (
          from_authenticated_user (to_authenticated_user u identities c.roles c.scopes none user) c)

    abbrev pub claims_principal : Directory → VerifiedClaims → Outcome Principal
    claims_principal d c = principal_of c (authenticated_user provider.name c.issuer c.subject_id d)

    -- `authenticate_request`
    unfoldable pub authenticate_request : String → Directory → Outcome Principal
    unfolding provider_call authenticated_user from_authenticated_user
    authenticate_request access_token d =
        bound (provider_call "verify_access_token" (provider.verify_access_token access_token))
          (claims_principal d)

    abbrev pub auth_session :
        ProviderSession → VerifiedClaims → User → List AuthIdentityRecord → AuthSession
    auth_session s c u identities = record {
      access_token = s.access_token;
      refresh_token = s.refresh_token;
      token_type = s.token_type;
      expires_in = s.expires_in;
      user = to_authenticated_user u identities c.roles c.scopes none user;
    }

    -- The session of the user that was written, or what the write raises.
    abbrev pub with_user :
        ProviderSession → VerifiedClaims → Upsert × Directory → Outcome AuthSession × Directory
    with_user s c (upserted u identities, d) = (answered (auth_session s c u identities), d)
    with_user s c (refused not_provisioned, d) =
        (problem (some (built account_not_provisioned_error unset)), d)
    with_user s c (refused integrity_error, d) = (error, d)

    abbrev pub with_claims :
        Visit
        → ProviderSession
        → Directory
        → Outcome VerifiedClaims
        → Outcome AuthSession × Directory
    with_claims visit s d (problem p) = (problem p, d)
    with_claims visit s d error = (error, d)
    with_claims visit s d (answered c) =
        with_user s c
          (upsert_local_user provider.name (record visit { mark_last_login = true }) s.user d)

    -- `_materialize_auth_session`
    unfoldable pub materialize_auth_session :
        Visit → ProviderSession → Directory → Outcome AuthSession × Directory
    unfolding provider_call upsert_local_user
    materialize_auth_session visit s d =
        with_claims visit s d
          (provider_call "verify_access_token" (provider.verify_access_token s.access_token))

    -- A session of the provider, if there is one, materialized.
    abbrev pub materialized :
        Visit → Directory → Outcome ProviderSession → Outcome AuthSession × Directory
    materialized visit d (problem p) = (problem p, d)
    materialized visit d error = (error, d)
    materialized visit d (answered s) = materialize_auth_session visit s d

    unfoldable pub sign_in_with_password :
        Visit → String → String → Directory → Outcome AuthSession × Directory
    unfolding provider_call materialize_auth_session
    sign_in_with_password visit email password d =
        materialized visit d
          (provider_call "sign_in_with_password" (provider.sign_in_with_password email password))

    unfoldable pub refresh_session : Visit → String → Directory → Outcome AuthSession × Directory
    unfolding provider_call materialize_auth_session
    refresh_session visit refresh_token d =
        materialized visit d
          (provider_call "refresh_session" (provider.refresh_session refresh_token))

    abbrev pub pending : String → Bool → PasswordSignUpResult
    pending email requires_email_verification = record {
      email = email;
      requires_email_verification = requires_email_verification;
      session = none;
      user = none;
    }

    abbrev pub signed_up :
        String → Outcome AuthSession × Directory → Outcome PasswordSignUpResult × Directory
    signed_up email (problem p, d) = (problem p, d)
    signed_up email (error, d) = (error, d)
    signed_up email (answered s, d) = (
      answered (record {
        email = email;
        requires_email_verification = false;
        session = some s;
        user = some s.user;
      }),
      d,
    )

    -- The result of the provider's sign-up: one without a session leaves the directory.
    abbrev pub sign_up_outcome :
        Visit
        → String
        → Directory
        → Bool
        → Option ProviderSession
        → Outcome PasswordSignUpResult × Directory
    sign_up_outcome visit email d verification none = (answered (pending email verification), d)
    sign_up_outcome visit email d verification (some s) =
        signed_up email (materialize_auth_session visit s d)

    abbrev pub after_sign_up :
        Visit
        → String
        → Directory
        → Outcome ProviderSignUpResult
        → Outcome PasswordSignUpResult × Directory
    after_sign_up visit email d (problem p) = (problem p, d)
    after_sign_up visit email d error = (error, d)
    after_sign_up visit email d (answered r) =
        sign_up_outcome visit email d r.requires_email_verification r.session

    unfoldable pub sign_up_with_password :
        Visit
        → String
        → String
        → Option String
        → Directory
        → Outcome PasswordSignUpResult × Directory
    unfolding provider_call materialize_auth_session
    sign_up_with_password visit email password display_name d = after_sign_up visit email d (
        provider_call "sign_up_with_password"
          (provider.sign_up_with_password email password display_name))

    -- `get_current_user`; none is its `ResourceNotFoundError`.
    abbrev pub get_current_user : ℕ → Principal → Directory → Option AuthenticatedUser
    get_current_user user_id p d = elim (get_user_by_id user_id d.users) [
      | none ↦ none
      | some u ↦ some (
          to_authenticated_user u (list_identities_for_user u.id d.auth_identities) p.roles p.scopes
            p.tenant_id p.actor_type)
    ]
