-- ===== src/Auth/Supabase/Tests.antt =====
-- Answers of Supabase.
use thryve_financial.Base.{
  ◌≡◌, ℕ, refl, String, false, none, some, [], strip, lstrip, rstrip, remove_prefix, arith,
}
use thryve_financial.Problem.Factories.{already_exists}
use thryve_financial.Auth.Json.{object, JsonFields, no_fields, field_then, Conversions, get_field}
use thryve_financial.Auth.Supabase.{
  answered, problem, Transport, replied, SupabaseAuthProvider, unavailable, client_error, contains,
  read_reply, parse_provider_session, parse_provider_user, with_offset,
}
use thryve_financial.Auth.Supabase.Flows.{
  field, confirm_password_reset, sign_in_with_password, sign_up_with_password,
}
use thryve_financial.Auth.Supabase.Resets.{IsVerifiedFirst, confirm_password_reset-IsVerifiedFirst}
use thryve_financial.Auth.Supabase.SignUp.{sign_up_needs_session}

abbrev same : String → String
same s = s

abbrev conversions : Conversions
conversions = record { show = λ v. ""; truncate = λ v. none; is_zero_float = λ f. false }

abbrev supabase : SupabaseAuthProvider
supabase = record {
  resolved_issuer = "https://x/auth/v1";
  capitalize = same;
  lower = same;
  from_iso = λ s. some 7;
  conversions = conversions;
  metadata_texts = λ fs. [];
}

abbrev user_payload : JsonFields
user_payload =
    field "id" "s1"
      (field "email" "ada@x" (field "email_confirmed_at" "2026-01-01T00:00:00Z" no_fields))

abbrev session_payload : JsonFields
session_payload = field "access_token" " t1 " (field_then "user" (object user_payload) no_fields)

-- A reply to each request.
abbrev says : ℕ → JsonFields → Transport
says status payload n r = replied status (some (object payload))

confirm_password_reset-IsVerifiedFirst_example :
    IsVerifiedFirst supabase
      (says 200 session_payload)
      "ada@x"
      "123456"
      "new"
      (confirm_password_reset supabase (says 200 session_payload) "ada@x" "123456" "new")
confirm_password_reset-IsVerifiedFirst_example =
    confirm_password_reset-IsVerifiedFirst supabase (says 200 session_payload) "ada@x" "123456"
      "new"

sign_up_needs_session_example :
    (sign_up_with_password supabase
      (says 200 (field_then "user" (object user_payload) no_fields))
      "ada@x"
      "pw"
      none).1
    ≡ problem (unavailable supabase (some "Authentication is temporarily unavailable."))
sign_up_needs_session_example =
    sign_up_needs_session supabase (says 200 (field_then "user" (object user_payload) no_fields))
      "ada@x" "pw" none 200 (some (object (field_then "user" (object user_payload) no_fields))) refl
      (omega arith) (unfold get_field strip lstrip rstrip in refl)

signed_in :
    (sign_in_with_password supabase (says 200 session_payload) "ada@x" "pw").1
    ≡ answered (record {
      access_token = "t1";
      refresh_token = none;
      token_type = "bearer";
      expires_in = none;
      user = record {
        issuer = "https://x/auth/v1";
        subject_id = "s1";
        email = some "ada@x";
        display_name = none;
        email_verified_at = some 7;
        last_sign_in_at = none;
        metadata = [];
      };
    })
unfolding sign_in_with_password read_reply parse_provider_session parse_provider_user get_field
    strip lstrip rstrip with_offset
signed_in = refl

taken :
    client_error supabase "/signup" (field "msg" "User already registered" no_fields)
    ≡ already_exists "user" none (some "An account with that email already exists.")
unfolding client_error contains remove_prefix get_field
taken = refl
