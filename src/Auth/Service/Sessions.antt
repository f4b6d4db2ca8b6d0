-- ===== src/Auth/Service/Sessions.antt =====
-- A session that was handed out, and the requests that come with its token.
use thryve_financial.Base.{
  ◌≡◌, sym, ap, ◌∙◌, String, true, Option, none, some, List, arith, if◌then◌else◌,
}
use thryve_financial.Auth.Directory.{
  User, AuthIdentityRecord, Directory, Visit, Upsert, upserted, refused, upsert_local_user,
  authenticated_user, not_provisioned, integrity_error,
}
use thryve_financial.Auth.Directory.Linking.{IsKnown, upsert_local_user-IsKnown}
use thryve_financial.Auth.Claims.{VerifiedClaims}
use thryve_financial.Auth.Supabase.{Outcome, answered, problem, error, ProviderSession}
use thryve_financial.Auth.Supabase.Flows.{bound}
use thryve_financial.Auth.Service.{
  AuthProvider, AuthSession, from_authenticated_user, provider_call, authenticate_request,
  claims_principal, principal_of, with_user, with_claims, materialize_auth_session, materialized,
  sign_in_with_password,
}

-- The session of an outcome, or another one.
abbrev session_in : AuthSession → Outcome AuthSession → AuthSession
session_in other (answered s) = s
session_in other (problem p) = other
session_in other error = other

module _ (capitalize : String → String) (provider : AuthProvider) where
  -- The claims name the identity of the session's user.
  abbrev pub IsAbout : VerifiedClaims → ProviderSession → Type 0
  IsAbout c s = (c.issuer ≡ s.user.issuer) × (c.subject_id ≡ s.user.subject_id)

  known_principal :
      (c : VerifiedClaims) (s : ProviderSession) (d : Directory)
      (o : Option (User × List AuthIdentityRecord))
      → IsAbout c s
      → authenticated_user provider.name s.user.issuer s.user.subject_id d ≡ o
      → claims_principal capitalize provider d c ≡ principal_of capitalize provider c o
  known_principal c s d o about found =
      ap
        (λ i.
          principal_of capitalize provider c (authenticated_user provider.name i c.subject_id d))
        about.0
      ∙ ap
          (λ n.
            principal_of capitalize provider c (authenticated_user provider.name s.user.issuer n d))
          about.1
      ∙ ap (principal_of capitalize provider c) found

  written_session :
      (visit : Visit) (c : VerifiedClaims) (s : ProviderSession) (d : Directory)
      (x : Upsert × Directory) (session : AuthSession) (next : Directory)
      → IsAbout c s
      → IsKnown provider.name visit s.user d x
      → with_user capitalize provider s c x ≡ (answered session, next)
      → session.user.is_active ≡ true
      → claims_principal capitalize provider next c
        ≡ answered (from_authenticated_user session.user c)
  written_session visit c s d (refused not_provisioned, d') session next about known e active =
      ground arith
  written_session visit c s d (refused integrity_error, d') session next about known e active =
      ground arith
  written_session visit c s d (upserted u is, d') session next about known e active =
      let same = ap (λ z. session_in session z.0) e in
      let found = known_principal c s d' (some (u, is)) about (
        known
        ∙ ap (λ b. if b then some (u, is) else none) (ap (λ z. z.user.is_active) same ∙ active)) in
      sym (ap (λ z. claims_principal capitalize provider z.1 c) e)
      ∙ found
      ∙ ap (λ z. answered (from_authenticated_user z.user c)) same

  -- After a sign-in that hands out a session of an active user, whose token the provider verifies to
  -- claims about that user's identity, a request with the token is authenticated as that user, with
  -- the roles and scopes of the claims.
  pub signed_in_request_authenticated :
      (visit : Visit) (email password : String) (d next : Directory) (s : ProviderSession)
      (c : VerifiedClaims) (session : AuthSession)
      → provider.sign_in_with_password email password ≡ answered s
      → provider.verify_access_token s.access_token ≡ answered c
      → IsAbout c s
      → sign_in_with_password capitalize provider visit email password d ≡ (answered session, next)
      → session.user.is_active ≡ true
      → authenticate_request capitalize provider s.access_token next
        ≡ answered (from_authenticated_user session.user c)
  unfolding sign_in_with_password materialize_auth_session authenticate_request provider_call
  signed_in_request_authenticated visit email password d next s c session signed verified about e
        active =
      let login : Visit = record visit { mark_last_login = true } in
      let written : with_user capitalize provider s c
            (upsert_local_user provider.name login s.user d)
          ≡ (answered session, next) =
        sym (
          ap
            (λ o.
              materialized capitalize provider visit d
                (provider_call capitalize "sign_in_with_password" o))
            signed
          ∙ ap
              (λ o.
                with_claims capitalize provider visit s d
                  (provider_call capitalize "verify_access_token" o))
              verified)
        ∙ e in
      ap
        (λ o.
          bound (provider_call capitalize "verify_access_token" o)
            (claims_principal capitalize provider next))
        verified
      ∙ written_session login c s d (upsert_local_user provider.name login s.user d) session next
          about (upsert_local_user-IsKnown provider.name login s.user d) written active
