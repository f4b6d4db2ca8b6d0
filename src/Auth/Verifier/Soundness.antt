-- ===== src/Auth/Verifier/Soundness.antt =====
-- What a verified token has passed.
use thryve_financial.Base.{
  ℕ, ◌≡◌, ◌≢◌, refl, String, Bool, true, false, not, none, some, elem, ◌==◌, arith, item, eq_iff,
  if◌then◌else◌,
}
use thryve_financial.Auth.{Answer, given_back, raises}
use thryve_financial.Auth.Jwks.{JwksCache, Refresh, get_signing_key}
use thryve_financial.Auth.Jwks.Laws.{IsServed, get_signing_key-IsServed}
use thryve_financial.Auth.Verifier.{
  JwtVerifier, Header, bad_header, header, Decoded, claims, signature_expired, claims_refused,
  token_refused, refuse, Package, decoded, with_key, with_header, verify_token,
}

module _ {A C : Type 0} (jwt : Package A C) (v : JwtVerifier) (token : String) where
  -- Claims that are given back come with a header that names an accepted algorithm and a key, and
  -- from the token decoded with the key that the cache then has under that name.
  abbrev pub IsVerified : Answer C × JwksCache A → Type 0
  IsVerified (raises p, c) = Unit {0}
  IsVerified (given_back result, c) =
      (alg : String) × (kid : String) × (key : A) × (jwt.get_unverified_header token
        ≡ header (some alg) (some kid))
      × (elem alg v.algorithms ≡ true)
      × (kid ≢ "")
      × (item c.keys_by_kid kid ≡ some key)
      × (jwt.decode v token key ≡ claims result)

  with_key-IsVerified :
      (alg kid : String) (x : Answer A × JwksCache A)
      → jwt.get_unverified_header token ≡ header (some alg) (some kid)
      → elem alg v.algorithms ≡ true
      → kid ≢ ""
      → IsServed kid x
      → IsVerified (with_key jwt v token x)
  with_key-IsVerified alg kid (raises p, c) h accepted named served = tt
  with_key-IsVerified alg kid (given_back key, c) h accepted named served =
      decoded_case (jwt.decode v token key) refl
    where
      decoded_case : (d : Decoded C) → jwt.decode v token key ≡ d → IsVerified (decoded d, c)
      decoded_case signature_expired e = tt
      decoded_case claims_refused e = tt
      decoded_case (token_refused error) e = tt
      decoded_case (claims result) e = (alg, kid, key, h, accepted, named, served, e)

  module _ (signing_key : String → Answer A × JwksCache A)
      (served : (kid : String) → IsServed kid (signing_key kid)) (c : JwksCache A) where
    named_case :
        (alg kid : String) (accepted blank : Bool)
        → jwt.get_unverified_header token ≡ header (some alg) (some kid)
        → elem alg v.algorithms ≡ accepted
        → (kid == "") ≡ blank
        → IsVerified (
            if not accepted
            then (refuse "UnsupportedAlgorithm", c)
            else if not (if blank then false else true)
            then (refuse "MissingKeyId", c)
            else with_key jwt v token (signing_key kid))
    named_case alg kid false blank h e k = tt
    named_case alg kid true true h e k = tt
    named_case alg kid true false h e k =
        with_key-IsVerified alg kid (signing_key kid) h e (ground (arith, k, eq_iff kid ""))
          (served kid)

    with_header-IsVerified :
        (h : Header)
        → jwt.get_unverified_header token ≡ h
        → IsVerified (with_header jwt v token signing_key c h)
    with_header-IsVerified (bad_header error) e = tt
    with_header-IsVerified (header none kid) e = tt
    with_header-IsVerified (header (some alg) none) e =
        elim (elem alg v.algorithms)
          as (λ b.
            IsVerified
              (if not b then (refuse "UnsupportedAlgorithm", c) else (refuse "MissingKeyId", c))) [
                | true ↦ tt
                | false ↦ tt
              ]
    with_header-IsVerified (header (some alg) (some kid)) e =
        named_case alg kid (elem alg v.algorithms) (kid == "") e refl refl

-- A token is verified only if its header names an accepted algorithm and a key, and the package
-- decoded it, to claims that are valid, with the key that the cache then has under that name;
-- whatever other tasks do in between.
pub verify_token-IsVerified :
    {A C : Type 0} (capitalize : String → String) (ttl : ℕ) (jwt : Package A C) (v : JwtVerifier)
    (now : ℕ) (r forced : Refresh A) (meanwhile : JwksCache A → JwksCache A) (token : String)
    (c : JwksCache A)
    → IsVerified jwt v token (verify_token capitalize ttl jwt v now r forced meanwhile token c)
unfolding verify_token
verify_token-IsVerified capitalize ttl jwt v now r forced meanwhile token c =
    with_header-IsVerified jwt v token
      (λ kid. get_signing_key capitalize ttl now r forced meanwhile kid c)
      (λ kid. get_signing_key-IsServed capitalize ttl now r forced meanwhile kid c) c
      (jwt.get_unverified_header token) refl
