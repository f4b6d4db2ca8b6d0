-- ===== src/Base/Lists.antt =====
-- Lists measured and cut by native numbers, and dictionaries as association lists.
use Prim.Native.Nat.{ℕ, zero, suc, ◌+◌, min}
use Prim.Native.String.{String}
use mathlib.Core.Path.{◌≡◌, refl}
use mathlib.Core.List.{List, [], ◌∷◌, ◌++◌}
use mathlib.Core.Bool.{Bool}
use mathlib.Core.Option.{Option, none, some}
use native.Mathlib.Omega.{arith}
use text.Mathlib.Text.{◌==◌}
use text.Mathlib.TextEquality.{eq_iff}
use thryve_financial.Base.Tests.{if◌then◌else◌}

module _ {ℓ} {A : Type ℓ} where
  abbrev pub length : List A → ℕ
  length [] = 0
  length (x ∷ xs) = suc (length xs)

  abbrev pub take : ℕ → List A → List A
  take zero xs = []
  take (suc n) [] = []
  take (suc n) (x ∷ xs) = x ∷ take n xs

  pub length-append : (xs ys : List A) → length (xs ++ ys) ≡ length xs + length ys
  length-append [] ys = omega arith
  length-append (x ∷ xs) ys = omega (arith, length-append xs ys)

  pub length-take : (n : ℕ) (xs : List A) → length (take n xs) ≡ min n (length xs)
  length-take zero xs = omega arith
  length-take (suc n) [] = omega arith
  length-take (suc n) (x ∷ xs) = omega (arith, length-take n xs)

  -- Python's comprehension with an `if`.
  abbrev pub select : (A → Bool) → List A → List A
  select p [] = []
  select p (x ∷ xs) = let rest = select p xs in if p x then x ∷ rest else rest

  -- Python's `next((x for x in xs if p(x)), None)`.
  abbrev pub first : (A → Bool) → List A → Option A
  first p [] = none
  first p (x ∷ xs) = let rest = first p xs in if p x then some x else rest

  -- A predicate of each element.
  abbrev pub All {κ} : (A → Type κ) → List A → Type κ
  All P [] = Unit
  All P (x ∷ xs) = P x × All P xs

-- A Python dictionary with text keys: its items, in the order in which the keys came in.
abbrev pub Dict {ℓ} : Type ℓ → Type ℓ
Dict V = List (String × V)

module _ {ℓ} {V : Type ℓ} where
  -- `d.get(key)`
  unfoldable pub item : Dict V → String → Option V
  item [] key = none
  item ((name, value) ∷ rest) key = if name == key then some value else item rest key

  -- `d[key] = value`: a known key keeps its place.
  unfoldable pub set_item : Dict V → String → V → Dict V
  set_item [] key value = (key, value) ∷ []
  set_item ((name, old) ∷ rest) key value =
      let changed = set_item rest key value in
      if name == key then (name, value) ∷ rest else (name, old) ∷ changed

  -- `d.pop(key, None)`
  unfoldable pub pop_item : Dict V → String → Dict V
  pop_item [] key = []
  pop_item ((name, old) ∷ rest) key =
      let others = pop_item rest key in if name == key then others else (name, old) ∷ others

  pub item-set_item :
      (d : Dict V) (key other : String) (value : V)
      → item (set_item d key value) other ≡ (if key == other then some value else item d other)
  unfolding item set_item
  item-set_item [] key other value = refl
  item-set_item ((name, old) ∷ rest) key other value = ground (
    arith,
    item-set_item rest key other value,
    eq_iff name key,
    eq_iff name other,
    eq_iff key other,
  )

  pub item-pop_item :
      (d : Dict V) (key other : String)
      → item (pop_item d key) other ≡ (if key == other then none else item d other)
  unfolding item pop_item
  item-pop_item [] key other = ground arith
  item-pop_item ((name, old) ∷ rest) key other =
      ground
        (arith, item-pop_item rest key other, eq_iff name key, eq_iff name other, eq_iff key other)
