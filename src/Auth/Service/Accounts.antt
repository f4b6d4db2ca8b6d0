-- ===== src/Auth/Service/Accounts.antt =====
-- pfm/app/auth/service.py: the methods that answer with a message, and the service over the Supabase
-- provider of pfm/app/auth/supabase.py, as pfm/app/dependencies.py builds it.
pub mod Uniform
use thryve_financial.Base.{String, Option, false, none, some}
use thryve_financial.Auth.Directory.{
  ProviderUserProfile, Directory, Visit, Upsert, upserted, refused, not_provisioned,
  integrity_error, upsert_local_user,
}
use thryve_financial.Auth.Claims.{VerifiedClaims}
use thryve_financial.Auth.Supabase.{
  Outcome, answered, problem, error, Transport, SupabaseAuthProvider,
}
use thryve_financial.Auth.Supabase.Flows
use thryve_financial.Auth.Service.{AuthProvider, provider_call}
use thryve_financial.Problem.{unset, built}
use thryve_financial.Problem.Classes.{account_not_provisioned_error}

pub record AuthActionResult : Type 0 where
  pub message : String

-- A message for a call of the provider that came back.
abbrev pub acted : String → Outcome (Unit {0}) → Outcome AuthActionResult
acted message (answered done) = answered (record { message = message })
acted message (problem p) = problem p
acted message error = error

abbrev pub email_verified : AuthActionResult
email_verified = record { message = "Your email address has been verified." }

-- The message for a profile that was written, or what the write raises.
abbrev pub confirmed : Upsert × Directory → Outcome AuthActionResult × Directory
confirmed (upserted u identities, d) = (answered email_verified, d)
confirmed (refused not_provisioned, d) =
    (problem (some (built account_not_provisioned_error unset)), d)
confirmed (refused integrity_error, d) = (error, d)

module _ (capitalize : String → String) (provider : AuthProvider) where
  unfoldable pub request_password_reset : String → Outcome AuthActionResult
  unfolding provider_call
  request_password_reset email =
      acted "If an account exists for that email, reset instructions have been sent."
        (provider_call capitalize "request_password_reset" (provider.request_password_reset email))

  unfoldable pub confirm_password_reset : String → String → String → Outcome AuthActionResult
  unfolding provider_call
  confirm_password_reset email token new_password = acted "Your password has been updated." (
      provider_call capitalize "confirm_password_reset"
        (provider.confirm_password_reset email token new_password))

  unfoldable pub request_email_verification : String → Outcome AuthActionResult
  unfolding provider_call
  request_email_verification email =
      acted "If an account exists for that email, verification instructions have been sent." (
        provider_call capitalize "request_email_verification"
          (provider.request_email_verification email))

  -- The profile of a confirmed email is written, and is no login.
  abbrev pub confirmed_profile :
      Visit → Directory → Outcome ProviderUserProfile → Outcome AuthActionResult × Directory
  confirmed_profile visit d (problem p) = (problem p, d)
  confirmed_profile visit d error = (error, d)
  confirmed_profile visit d (answered profile) =
      confirmed
        (upsert_local_user provider.name (record visit { mark_last_login = false }) profile d)

  unfoldable pub confirm_email_verification :
      Visit → String → String → Directory → Outcome AuthActionResult × Directory
  unfolding provider_call upsert_local_user
  confirm_email_verification visit email token d = confirmed_profile visit d (
      provider_call capitalize "confirm_email_verification"
        (provider.confirm_email_verification email token))

  unfoldable pub logout : String → Outcome AuthActionResult
  unfolding provider_call
  logout access_token =
      acted "You have been signed out."
        (provider_call capitalize "logout" (provider.logout access_token))

-- `SupabaseAuthProvider` as the service calls it; the service gives no redirect.
unfoldable pub supabase_provider :
    SupabaseAuthProvider → Transport → (String → Outcome VerifiedClaims) → AuthProvider
unfolding Flows.sign_up_with_password Flows.sign_in_with_password Flows.refresh_session
    Flows.confirm_email_verification Flows.request_password_reset Flows.confirm_password_reset
    Flows.request_email_verification Flows.logout
supabase_provider s transport verify_access_token = record {
  name = "supabase";
  verify_access_token = verify_access_token;
  sign_up_with_password = λ e p n. (Flows.sign_up_with_password s transport e p n).1;
  sign_in_with_password = λ e p. (Flows.sign_in_with_password s transport e p).1;
  refresh_session = λ t. (Flows.refresh_session s transport t).1;
  confirm_email_verification = λ e t. (Flows.confirm_email_verification s transport e t).1;
  request_password_reset = λ e. (Flows.request_password_reset s transport e none).1;
  confirm_password_reset = λ e t p. (Flows.confirm_password_reset s transport e t p).1;
  request_email_verification = λ e. (Flows.request_email_verification s transport e none).1;
  logout = λ t. (Flows.logout s transport t).1;
}
