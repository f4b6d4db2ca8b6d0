-- ===== src/Auth/Verifier.antt =====
-- pfm/app/auth/verifier.py: the verification of a token. PyJWT and the validation of the claims are
-- the parameter `Package`, whose keys are the dictionaries that the cache keeps.
pub mod Soundness
use thryve_financial.Base.{
  ℕ, String, Bool, true, false, not, Option, none, some, List, elem, truthy, if◌then◌else◌,
}
use thryve_financial.Problem.Factories.{authentication_required, invalid_token}
use thryve_financial.Auth.{Answer, given_back, raises}
use thryve_financial.Auth.Jwks.{JwksCache, Refresh, get_signing_key}

pub record JwtVerifier : Type 0 where
  pub issuer : String
  pub audience : String
  pub algorithms : List String
  pub required_claims : List String
  pub clock_skew_seconds : ℕ

-- `jwt.get_unverified_header`: the name of the error, or `alg` and `kid` where they are texts.
pub data Header : Type 0 where
  bad_header : String → Header
  header : Option String → Option String → Header

-- `jwt.decode` and `VerifiedClaims.model_validate`: claims, or what is raised.
pub data Decoded (C : Type 0) : Type 0 where
  signature_expired claims_refused : Decoded C
  token_refused : String → Decoded C
  claims : C → Decoded C

pub record Package (A C : Type 0) : Type 0 where
  pub get_unverified_header : String → Header
  pub decode : JwtVerifier → String → A → Decoded C

-- Membership of an optional text.
abbrev pub accepts : List String → Option String → Bool
accepts algorithms none = false
accepts algorithms (some a) = elem a algorithms

abbrev pub refuse : {C : Type 0} → String → Answer C
refuse error = raises (invalid_token (some error))

abbrev pub decoded : {C : Type 0} → Decoded C → Answer C
decoded signature_expired = raises (authentication_required "token_expired")
decoded claims_refused = refuse "ClaimsValidationError"
decoded (token_refused error) = refuse error
decoded (claims c) = given_back c

module _ {A C : Type 0} where
  -- The verification with the key.
  abbrev pub with_key :
      Package A C → JwtVerifier → String → Answer A × JwksCache A → Answer C × JwksCache A
  with_key jwt v token (raises p, c) = (raises p, c)
  with_key jwt v token (given_back key, c) = (decoded (jwt.decode v token key), c)

  -- The checks of the header.
  abbrev pub with_header :
      Package A C
      → JwtVerifier
      → String
      → (String → Answer A × JwksCache A)
      → JwksCache A
      → Header
      → Answer C × JwksCache A
  with_header jwt v token signing_key c (bad_header error) = (refuse error, c)
  with_header jwt v token signing_key c (header alg kid) =
      if not (accepts v.algorithms alg) then (refuse "UnsupportedAlgorithm", c) else elim kid [
        | none ↦ (refuse "MissingKeyId", c)
        | some k ↦
            if not (truthy (some k))
            then (refuse "MissingKeyId", c)
            else with_key jwt v token (signing_key k)
      ]

  unfoldable pub verify_token :
      (String → String)
      → ℕ
      → Package A C
      → JwtVerifier
      → ℕ
      → Refresh A
      → Refresh A
      → (JwksCache A → JwksCache A)
      → String
      → JwksCache A
      → Answer C × JwksCache A
  unfolding get_signing_key
  verify_token capitalize ttl jwt v now r forced meanwhile token c =
      with_header jwt v token (λ kid. get_signing_key capitalize ttl now r forced meanwhile kid c) c
        (jwt.get_unverified_header token)
