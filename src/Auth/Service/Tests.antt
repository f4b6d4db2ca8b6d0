-- ===== src/Auth/Service/Tests.antt =====
-- A sign-in, and a request with its token.
use thryve_financial.Base.{◌≡◌, refl, String, true, false, none, some, [], ◌∷◌}
use thryve_financial.Auth.Directory.{
  User, AuthIdentityRecord, ProviderUserProfile, Directory, Visit, upsert_local_user, create_user,
  create_identity, set_user,
}
use thryve_financial.Auth.Directory.Refinement.{Refines, upsert_local_user-Refines}
use thryve_financial.Auth.Json.{no_fields}
use thryve_financial.Auth.Claims.{VerifiedClaims, audience}
use thryve_financial.Auth.Supabase.{
  answered, error, ProviderSession, SupabaseAuthProvider, Transport, replied,
}
use thryve_financial.Auth.Service.Accounts.{
  confirm_email_verification, request_password_reset, request_email_verification, logout,
}
use thryve_financial.Auth.Service.{
  AuthProvider, AuthSession, auth_session, authenticate_request, from_authenticated_user,
  sign_in_with_password, materialize_auth_session, provider_call,
}
use thryve_financial.Auth.Service.Sessions.{signed_in_request_authenticated}

abbrev same : String → String
same s = s

abbrev ada : ProviderUserProfile
ada = record {
  issuer = "i";
  subject_id = "s1";
  email = some "ada@x";
  display_name = some "Ada";
  email_verified_at = some 5;
  last_sign_in_at = none;
  metadata = [];
}

abbrev session : ProviderSession
session = record {
  access_token = "t1";
  refresh_token = none;
  token_type = "bearer";
  expires_in = none;
  user = ada;
}

abbrev claims : VerifiedClaims
claims = record {
  subject_id = "s1";
  issuer = "i";
  audience = audience "app";
  expires_at = 100;
  issued_at = 1;
  not_before = none;
  jwt_id = some "j1";
  session_id = none;
  email = none;
  roles = "user" ∷ [];
  scopes = [];
  metadata = no_fields;
}

abbrev provider : AuthProvider
provider = record {
  name = "supabase";
  verify_access_token = λ t. answered claims;
  sign_up_with_password = λ e p n. error;
  sign_in_with_password = λ e p. answered session;
  refresh_session = λ t. error;
  confirm_email_verification = λ e t. answered ada;
  request_password_reset = λ e. answered tt;
  confirm_password_reset = λ e t p. answered tt;
  request_email_verification = λ e. answered tt;
  logout = λ t. error;
}

abbrev empty : Directory
empty = record { users = []; auth_identities = [] }

abbrev visit : Visit
visit = record { new_user_id = 1; new_identity_id = 2; now = 50; mark_last_login = false }

abbrev row : User
row = record {
  id = 1;
  email = "ada@x";
  display_name = some "Ada";
  email_verified_at = some 5;
  is_active = true;
  last_login_at = some 50;
}

abbrev identity : AuthIdentityRecord
identity = record {
  id = 2;
  user_id = 1;
  provider = "supabase";
  issuer = "i";
  subject_id = "s1";
  email = some "ada@x";
  email_verified_at = some 5;
  last_sign_in_at = none;
  provider_metadata = [];
}

abbrev signed_in : AuthSession
signed_in = auth_session same provider session claims row (identity ∷ [])

abbrev after : Directory
after = record { users = row ∷ []; auth_identities = identity ∷ [] }

signed_in_request_authenticated_example :
    authenticate_request same provider "t1" after
    ≡ answered (from_authenticated_user signed_in.user claims)
signed_in_request_authenticated_example =
    signed_in_request_authenticated same provider visit "ada@x" "pw" empty after session claims
      signed_in refl refl (refl, refl)
      (unfold sign_in_with_password provider_call materialize_auth_session upsert_local_user
          create_user create_identity set_user in
        refl)
      refl

upsert_local_user-Refines_example :
    Refines "supabase" visit ada empty (upsert_local_user "supabase" visit ada empty)
upsert_local_user-Refines_example = upsert_local_user-Refines "supabase" visit ada empty refl

abbrev supabase : SupabaseAuthProvider
supabase = record {
  resolved_issuer = "https://x/auth/v1";
  capitalize = same;
  lower = same;
  from_iso = λ s. some 7;
  conversions = record { show = λ v. ""; truncate = λ v. none; is_zero_float = λ f. false };
  metadata_texts = λ fs. [];
}

-- Supabase knows no such email.
abbrev unknown : Transport
unknown n r = replied 404 none

email_confirmed :
    (confirm_email_verification same provider visit "ada@x" "123456" empty).0
    ≡ answered (record { message = "Your email address has been verified." })
unfolding confirm_email_verification create_user create_identity set_user
email_confirmed = refl
