-- ===== src/Auth/Supabase/Flows.antt =====
-- pfm/app/auth/supabase.py: the flows of the provider. A flow gives its outcome with the requests that
-- it has sent; a request without a body has an empty one.
use thryve_financial.Base.{
  String, Bool, not, Option, none, some, List, [], ◌∷◌, ◌==◌, is_some, if◌then◌else◌,
}
use thryve_financial.Problem.{unset, built}
use thryve_financial.Problem.Classes.{invalid_verification_code_error}
use thryve_financial.Auth.Directory.{ProviderUserProfile}
use thryve_financial.Auth.Json.{
  text, object, JsonFields, no_fields, field_then, get_field, as_object,
}
use thryve_financial.Auth.Supabase.{
  Outcome, answered, problem, error, HttpRequest, Transport, SupabaseAuthProvider, ClientErrors,
  translated, suppressed, replaced, ProviderSession, request_json, parse_provider_user,
  parse_provider_session,
}

-- The requests of a flow, and its outcome.
abbrev pub Flow : Type 0 → Type 0
Flow A = List HttpRequest × Outcome A

-- A value that goes on, or the failure as it is.
abbrev pub bound : {A B : Type 0} → Outcome A → (A → Outcome B) → Outcome B
bound (answered a) next = next a
bound (problem p) next = problem p
bound error next = error

abbrev pub field : String → String → JsonFields → JsonFields
field name value rest = field_then name (text value) rest

-- A field that is set where there is a text.
abbrev pub text_field : String → Option String → JsonFields → JsonFields
text_field name none rest = rest
text_field name (some value) rest = if value == "" then rest else field name value rest

abbrev pub post : String → JsonFields → HttpRequest
post path body = record {
  method = "POST";
  path = path;
  grant_type = none;
  body = body;
  access_token = none;
}

abbrev pub sign_up_request : String → String → Option String → HttpRequest
sign_up_request email password display_name = post "/signup" (
    field "email" email (
      field "password" password (elim display_name [
        | none ↦ no_fields
        | some name ↦
            if name == ""
            then no_fields
            else field_then "data" (object (field "display_name" name no_fields)) no_fields
      ])))

-- `ProviderSignUpResult`
pub record ProviderSignUpResult : Type 0 where
  pub user : Option ProviderUserProfile
  pub session : Option ProviderSession
  pub requires_email_verification : Bool

abbrev pub verify_request : String → String → String → HttpRequest
verify_request email token kind =
    post "/verify" (field "email" email (field "token" token (field "type" kind no_fields)))

abbrev pub verification_errors : ClientErrors
verification_errors = replaced (some (built invalid_verification_code_error unset))

abbrev pub password_update : String → String → HttpRequest
password_update new_password access_token = record {
  method = "PUT";
  path = "/user";
  grant_type = none;
  body = field "password" new_password no_fields;
  access_token = if access_token == "" then none else some access_token;
}

module _ (s : SupabaseAuthProvider) (transport : Transport) where
  -- A flow of one request.
  abbrev one_request : {A : Type 0} → ClientErrors → HttpRequest → (JsonFields → Outcome A) → Flow A
  one_request errors r next = (r ∷ [], bound (request_json s transport 0 errors r) next)

  -- The user of the payload, where it is a dictionary.
  abbrev pub sign_up_user : Option JsonFields → Outcome (Option ProviderUserProfile)
  sign_up_user none = answered none
  sign_up_user (some user) = bound (parse_provider_user s user) (λ u. answered (some u))

  -- The result, once there is a session.
  abbrev pub sign_up_after : JsonFields → ProviderSession → Outcome ProviderSignUpResult
  sign_up_after payload session =
      bound (sign_up_user (as_object (get_field payload "user"))) (λ user. answered (record {
        user = user;
        session = some session;
        requires_email_verification = not (is_some (some session));
      }))

  abbrev pub sign_up_result : JsonFields → Outcome ProviderSignUpResult
  sign_up_result payload = bound (parse_provider_session s payload) (sign_up_after payload)

  unfoldable pub sign_up_with_password : String → String → Option String → Flow ProviderSignUpResult
  unfolding parse_provider_session parse_provider_user get_field
  sign_up_with_password email password display_name =
      one_request translated (sign_up_request email password display_name) sign_up_result

  unfoldable pub sign_in_with_password : String → String → Flow ProviderSession
  unfolding parse_provider_session
  sign_in_with_password email password =
      one_request translated
        (record (post "/token" (field "email" email (field "password" password no_fields))) {
          grant_type = some "password";
        })
        (parse_provider_session s)

  unfoldable pub refresh_session : String → Flow ProviderSession
  unfolding parse_provider_session
  refresh_session refresh_token =
      one_request translated
        (record (post "/token" (field "refresh_token" refresh_token no_fields)) {
          grant_type = some "refresh_token";
        })
        (parse_provider_session s)

  unfoldable pub request_password_reset : String → Option String → Flow (Unit {0})
  request_password_reset email redirect_to =
      one_request suppressed
        (post "/recover" (field "email" email (text_field "redirect_to" redirect_to no_fields)))
        (λ payload. answered tt)

  -- The second request, with the session of the first.
  abbrev pub update_password : HttpRequest → String → Outcome ProviderSession → Flow (Unit {0})
  update_password verification new_password (problem p) = (verification ∷ [], problem p)
  update_password verification new_password error = (verification ∷ [], error)
  update_password verification new_password (answered session) =
      let r = password_update new_password session.access_token in
      (
        verification ∷ r ∷ [],
        bound (request_json s transport 1 translated r) (λ payload. answered tt),
      )

  unfoldable pub confirm_password_reset : String → String → String → Flow (Unit {0})
  unfolding parse_provider_session
  confirm_password_reset email token new_password =
      let r = verify_request email token "recovery" in
      update_password r new_password
        (bound (request_json s transport 0 verification_errors r) (parse_provider_session s))

  unfoldable pub request_email_verification : String → Option String → Flow (Unit {0})
  request_email_verification email redirect_to =
      one_request suppressed
        (post "/resend" (
          field "email" email (
            field "type" "signup" (elim redirect_to [
              | none ↦ no_fields
              | some url ↦
                  if url == ""
                  then no_fields
                  else field_then "options" (object (field "email_redirect_to" url no_fields))
                      no_fields
            ]))))
        (λ payload. answered tt)

  unfoldable pub confirm_email_verification : String → String → Flow ProviderUserProfile
  unfolding parse_provider_session
  confirm_email_verification email token =
      one_request verification_errors (verify_request email token "email")
        (λ payload. bound (parse_provider_session s payload) (λ session. answered session.user))

  unfoldable pub logout : String → Flow (Unit {0})
  logout access_token =
      one_request suppressed
        (record (post "/logout" no_fields) {
          access_token = if access_token == "" then none else some access_token;
        })
        (λ payload. answered tt)
