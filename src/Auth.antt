-- ===== src/Auth.antt =====
-- pfm/app/auth: the keys that verify a token, and the verification.
pub mod Jwks
pub mod Verifier
pub mod Directory
pub mod Json
pub mod Supabase
pub mod Claims
pub mod Service
mod Tests
use thryve_financial.Base.{Option, Bool, true, false}
use thryve_financial.Problem.{Problem}

-- What a call gives: its value, or the problem that it raises, as the factory builds it.
pub data Answer (A : Type 0) : Type 0 where
  given_back : A → Answer A
  raises : Option Problem → Answer A

abbrev pub is_given : {A : Type 0} → Answer A → Bool
is_given (given_back a) = true
is_given (raises p) = false
