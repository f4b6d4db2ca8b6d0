-- ===== src/Auth/Supabase/Resets.antt =====
-- The flows that start from an email alone, and the change of a password.
use thryve_financial.Base.{◌<◌, ◌≡◌, ◌⊎◌, inl, inr, refl, ap, String, Option, [], ◌∷◌, arith}
use thryve_financial.Auth.Json.{JsonFields}
use thryve_financial.Auth.Supabase.{
  Outcome, answered, problem, error, HttpRequest, Transport, Reply, timed_out, unreachable, replied,
  SupabaseAuthProvider, suppressed, ProviderSession, read_reply, request_json, response_payload,
  parse_provider_session,
}
use thryve_financial.Auth.Supabase.Flows.{
  Flow, bound, request_password_reset, request_email_verification, logout, confirm_password_reset,
  verify_request, verification_errors, update_password, password_update,
}

-- Supabase has answered, and not with an error of its own.
abbrev pub IsReached : Reply → Type 0
IsReached timed_out = ⊥
IsReached unreachable = ⊥
IsReached (replied status body) = status < 500

read_reply-suppressed :
    (s : SupabaseAuthProvider) (path : String) (r : Reply)
    → IsReached r
    → (payload : JsonFields) × (read_reply s suppressed path r ≡ answered payload)
unfolding read_reply
read_reply-suppressed s path timed_out reached = absurd reached
read_reply-suppressed s path unreachable reached = absurd reached
read_reply-suppressed s path (replied status body) reached =
    (response_payload body, ground (arith, reached))

abbrev done : JsonFields → Outcome (Unit {0})
done payload = answered tt

finished :
    (s : SupabaseAuthProvider) (path : String) (r : Reply)
    → IsReached r
    → bound (read_reply s suppressed path r) done ≡ answered tt
finished s path r reached =
    let found = read_reply-suppressed s path r reached in ap (λ o. bound o done) found.1

module _ (s : SupabaseAuthProvider) (transport : Transport) where
  -- If Supabase is reached, a reset and a resend are answered in the same way whatever it says, so
  -- the answer does not tell whether the email has an account; and a logout always succeeds.
  pub suppressed_flows_uniform :
      (email token : String) (redirect_to : Option String)
      → ((r : HttpRequest) → IsReached (transport 0 r))
      → ((request_password_reset s transport email redirect_to).1 ≡ answered tt)
        × ((request_email_verification s transport email redirect_to).1 ≡ answered tt)
        × ((logout s transport token).1 ≡ answered tt)
  unfolding request_password_reset request_email_verification logout
  suppressed_flows_uniform email token redirect_to reached = (
    finished s "/recover" _ (reached _),
    finished s "/resend" _ (reached _),
    finished s "/logout" _ (reached _),
  )

  -- What a verification gives.
  abbrev pub verified : String → String → Outcome ProviderSession
  verified email token =
      bound (request_json s transport 0 verification_errors (verify_request email token "recovery"))
        (parse_provider_session s)

  -- The requests of a reset: the verification alone, or, if it gave a session, also the update with the
  -- token of that session.
  abbrev pub IsVerifiedFirst : String → String → String → Flow (Unit {0}) → Type 0
  IsVerifiedFirst email token new_password flow =
      ((flow.0 ≡ (verify_request email token "recovery" ∷ [])) × (flow.1 ≡ answered tt → ⊥))
      ⊎ ((session : ProviderSession) × (verified email token ≡ answered session)
          × (flow.0 ≡ (
              verify_request email token "recovery"
              ∷ password_update new_password session.access_token
              ∷ [])))

  update_password-IsVerifiedFirst :
      (email token new_password : String) (o : Outcome ProviderSession)
      → verified email token ≡ o
      → IsVerifiedFirst email token new_password
          (update_password s transport (verify_request email token "recovery") new_password o)
  update_password-IsVerifiedFirst email token new_password (answered session) e =
      inr (session, e, refl)
  update_password-IsVerifiedFirst email token new_password (problem p) e =
      inl (refl, λ f. ground arith)
  update_password-IsVerifiedFirst email token new_password error e = inl (refl, λ f. ground arith)

  -- A reset sends the verification first, and the new password only after it has given a session, with
  -- the access token of that session; without one it does not succeed.
  pub confirm_password_reset-IsVerifiedFirst :
      (email token new_password : String)
      → IsVerifiedFirst email token new_password
          (confirm_password_reset s transport email token new_password)
  unfolding confirm_password_reset
  confirm_password_reset-IsVerifiedFirst email token new_password =
      update_password-IsVerifiedFirst email token new_password (verified email token) refl
