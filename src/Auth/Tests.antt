-- ===== src/Auth/Tests.antt =====
-- Keys and tokens at small inputs; a key is a number.
use thryve_financial.Base.{
  true, ℕ, ◌≡◌, refl, String, none, some, [], ◌∷◌, item, eqb, if◌then◌else◌,
}
use thryve_financial.Auth.{given_back}
use thryve_financial.Auth.Jwks.{
  JwksCache, new_cache_of_keys, Refresh, keyset, endpoint_timed_out, get_signing_key, parse_keys,
}
use thryve_financial.Auth.Directory.{User, ProviderUserProfile, Directory, Visit, upsert_local_user}
use thryve_financial.Auth.Directory.Emails.{AreDistinct}
use thryve_financial.Auth.Directory.Uniqueness.{upsert_local_user-AreDistinct}
use thryve_financial.Auth.Verifier.{
  JwtVerifier, Package, header, claims, token_refused, verify_token,
}
use thryve_financial.Auth.Verifier.Soundness.{IsVerified, verify_token-IsVerified}

abbrev same : String → String
same s = s

abbrev filled : Refresh ℕ
filled = record {
  now = 10;
  fetched = keyset (some (record { kid = some "k"; jwk = 7 }) ∷ none ∷ []);
  after = 20;
}

abbrev outage : Refresh ℕ
outage = record { now = 10; fetched = endpoint_timed_out; after = 20 }

abbrev cache : JwksCache ℕ
cache = record { keys_by_kid = ("k", 7) ∷ []; expires_at = 1000 }

abbrev jwt : Package ℕ String
jwt = record {
  get_unverified_header = λ token. header (some "RS256") (some "k");
  decode = λ v token key. if eqb key 7 then claims token else token_refused "InvalidSignatureError";
}

abbrev verifier : JwtVerifier
verifier = record {
  issuer = "i";
  audience = "a";
  algorithms = "RS256" ∷ [];
  required_claims = "sub" ∷ [];
  clock_skew_seconds = 0;
}

verified :
    (verify_token same 300 jwt verifier 5 filled filled (λ c. c) "t" new_cache_of_keys).0
    ≡ given_back "t"
unfolding verify_token get_signing_key parse_keys item
verified = refl

verify_token-IsVerified_example :
    IsVerified jwt verifier "t"
      (verify_token same 300 jwt verifier 5 filled filled (λ c. c) "t" cache)
verify_token-IsVerified_example =
    verify_token-IsVerified same 300 jwt verifier 5 filled filled (λ c. c) "t" cache

abbrev ada : User
ada = record {
  id = 1;
  email = "ada@x";
  display_name = none;
  email_verified_at = some 3;
  is_active = true;
  last_login_at = none;
}

abbrev directory : Directory
directory = record { users = ada ∷ []; auth_identities = [] }

abbrev unverified : ProviderUserProfile
unverified = record {
  issuer = "other";
  subject_id = "s";
  email = some "ada@x";
  display_name = none;
  email_verified_at = none;
  last_sign_in_at = none;
  metadata = [];
}

abbrev visit : Visit
visit = record { new_user_id = 5; new_identity_id = 6; now = 9; mark_last_login = true }

upsert_local_user-AreDistinct_example :
    AreDistinct (upsert_local_user "supabase" visit unverified directory).1.users
upsert_local_user-AreDistinct_example =
    upsert_local_user-AreDistinct "supabase" visit unverified directory (tt, tt)
