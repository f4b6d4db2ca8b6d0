-- ===== src/Base/Prefixes.antt =====
-- Texts that start with a given text.
use Prim.Native.Char.{Char, code}
use Prim.Native.String
use Prim.Native.String.{String, ◌++◌}
use mathlib.Core.Path.{◌≡◌, ap, ◌∙◌}
use mathlib.Core.Bool.{false}
use mathlib.Core.Option.{some, none}
use native.Mathlib.Omega.{arith}
use thryve_financial.Base.Tests.{eqb}
use thryve_financial.Base.Text.{remove_prefix}

pub remove_prefix-append : (p s : String) → remove_prefix p (p ++ s) ≡ some s
unfolding remove_prefix
remove_prefix-append String.[] s = ap some (λ i. String.append.nil s i)
remove_prefix-append (String.◌∷◌ c p) s =
    ap (remove_prefix (String.◌∷◌ c p)) (λ i. String.append.cons c p s i)
    ∙ ground (arith, remove_prefix-append p s)

-- Texts whose first characters differ.
pub remove_prefix-none :
    (c d : Char) (p q s : String)
    → eqb (code c) (code d) ≡ false
    → remove_prefix (String.◌∷◌ c p) (String.◌∷◌ d q ++ s) ≡ none
unfolding remove_prefix
remove_prefix-none c d p q s differ =
    ap (remove_prefix (String.◌∷◌ c p)) (λ i. String.append.cons d q s i) ∙ ground arith
