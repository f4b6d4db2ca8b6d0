-- ===== src/Auth/Supabase/SignUp.antt =====
-- What a sign-up without a session comes to.
use thryve_financial.Base.{ℕ, ◌<◌, ◌≡◌, refl, ap, ◌∙◌, String, Option, none, some, arith}
use thryve_financial.Auth.Json.{JsonValue, JsonFields, get_field, as_object}
use thryve_financial.Auth.Supabase.{
  answered, problem, Transport, replied, SupabaseAuthProvider, unavailable, read_reply,
  response_payload, token_of, parse_provider_session, translated, session_for,
}
use thryve_financial.Auth.Supabase.Flows.{
  bound, sign_up_with_password, sign_up_request, sign_up_after, sign_up_result,
}

session_for_tokenless :
    (s : SupabaseAuthProvider) (payload : JsonFields) (user : Option JsonFields)
    → session_for s payload "" user
      ≡ problem (unavailable s (some "Authentication is temporarily unavailable."))
session_for_tokenless s payload none = refl
session_for_tokenless s payload (some user) = ground arith

read_reply-accepted :
    (s : SupabaseAuthProvider) (path : String) (status : ℕ) (body : Option JsonValue)
    → status < 400
    → read_reply s translated path (replied status body) ≡ answered (response_payload body)
unfolding read_reply
read_reply-accepted s path status body accepted = ground arith

sign_up_result_tokenless :
    (s : SupabaseAuthProvider) (transport : Transport) (payload : JsonFields)
    → token_of s payload ≡ ""
    → sign_up_result s transport payload
      ≡ problem (unavailable s (some "Authentication is temporarily unavailable."))
unfolding parse_provider_session
sign_up_result_tokenless s transport payload tokenless =
    let user = as_object (get_field payload "user") in
    ap (λ o. bound o (sign_up_after s transport payload))
      (ap (λ token. session_for s payload token user) tokenless
        ∙ session_for_tokenless s payload user)

-- A sign-up that Supabase accepts without an access token, as it does where the email has to be verified
-- first, is not answered with a result that asks for the verification: it raises that the
-- authentication is unavailable.
pub sign_up_needs_session :
    (s : SupabaseAuthProvider) (transport : Transport) (email password : String)
    (name : Option String) (status : ℕ) (body : Option JsonValue)
    → transport 0 (sign_up_request email password name) ≡ replied status body
    → status < 400
    → token_of s (response_payload body) ≡ ""
    → (sign_up_with_password s transport email password name).1
      ≡ problem (unavailable s (some "Authentication is temporarily unavailable."))
unfolding sign_up_with_password
sign_up_needs_session s transport email password name status body reply accepted tokenless =
    ap (λ r. bound (read_reply s translated "/signup" r) (sign_up_result s transport)) reply
    ∙ ap (λ o. bound o (sign_up_result s transport))
        (read_reply-accepted s "/signup" status body accepted)
    ∙ sign_up_result_tokenless s transport (response_payload body) tokenless
