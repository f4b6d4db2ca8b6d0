-- ===== src/Base/Sorting.antt =====
-- Python's `sorted`: texts ordered by the numbers of their characters, and a stable sort.
use Prim.Native.Char.{Char, code}
use Prim.Native.String.{String}
use mathlib.Core.Path.{◌≡◌, refl}
use mathlib.Core.Bool.{Bool, true, false, ◌&&◌, ◌||◌}
use mathlib.Core.List.{List, [], ◌∷◌, Perm}
use mathlib.Core.List.Perm
use native.Mathlib.Omega.{arith}
use text.Mathlib.TextEquality.{Char-path}
use thryve_financial.Base.Tests.{eqb, ltb, if◌then◌else◌}

-- `s <= t`
unfoldable pub text_leb : String → String → Bool
text_leb String.[] t = true
text_leb (String.◌∷◌ c s) String.[] = false
text_leb (String.◌∷◌ c s) (String.◌∷◌ d t) =
    ltb (code c) (code d) || (eqb (code c) (code d) && text_leb s t)

pub text_leb-total : (s t : String) → text_leb s t ≡ false → text_leb t s ≡ true
unfolding text_leb
text_leb-total String.[] t h = ground (arith, h)
text_leb-total (String.◌∷◌ c s) String.[] h = refl
text_leb-total (String.◌∷◌ c s) (String.◌∷◌ d t) h = ground (arith, h, text_leb-total s t)

pub text_leb_trans :
    (s t u : String) → text_leb s t ≡ true → text_leb t u ≡ true → text_leb s u ≡ true
unfolding text_leb
text_leb_trans String.[] t u h k = refl
text_leb_trans (String.◌∷◌ c s) String.[] u h k = ground (arith, h)
text_leb_trans (String.◌∷◌ c s) (String.◌∷◌ d t) String.[] h k = ground (arith, k)
text_leb_trans (String.◌∷◌ c s) (String.◌∷◌ d t) (String.◌∷◌ e u) h k =
    ground (arith, h, k, text_leb_trans s t u)

perm_if {ℓ} :
    {A : Type ℓ} (b : Bool) {l r t : List A} → Perm l t → Perm r t → Perm (if b then l else r) t
perm_if true p q = p
perm_if false p q = q

cons_eq : (c d : Char) (s t : String) → code c ≡ code d → s ≡ t → String.◌∷◌ c s ≡ String.◌∷◌ d t
cons_eq c d s t e h = λ i. String.◌∷◌ (Char-path c d e i) (h i)

pub text_leb-anti : (s t : String) → text_leb s t ≡ true → text_leb t s ≡ true → s ≡ t
unfolding text_leb
text_leb-anti String.[] String.[] h k = refl
text_leb-anti String.[] (String.◌∷◌ d t) h k = ground (arith, k)
text_leb-anti (String.◌∷◌ c s) String.[] h k = ground (arith, h)
text_leb-anti (String.◌∷◌ c s) (String.◌∷◌ d t) h k =
    ground (arith, h, k, text_leb-anti s t, cons_eq c d s t)

-- The sort, for a test whether one item may stand before another.
module _ {ℓ} {A : Type ℓ} (may_precede : A → A → Bool) where
  unfoldable pub insert_by : A → List A → List A
  insert_by x [] = x ∷ []
  insert_by x (y ∷ ys) =
      let rest = insert_by x ys in if may_precede x y then x ∷ y ∷ ys else y ∷ rest

  unfoldable pub sort_by : List A → List A
  unfolding insert_by
  sort_by [] = []
  sort_by (x ∷ xs) = insert_by x (sort_by xs)

  insert_by-perm : (x : A) (l : List A) → Perm (insert_by x l) (x ∷ l)
  unfolding insert_by
  insert_by-perm x [] = Perm.rfl
  insert_by-perm x (y ∷ ys) =
      perm_if (may_precede x y) Perm.rfl
        (Perm.trans (Perm.cons y (insert_by-perm x ys)) (Perm.swap x y ys))

  pub sort_by-perm : (l : List A) → Perm (sort_by l) l
  unfolding sort_by
  sort_by-perm [] = Perm.rfl
  sort_by-perm (x ∷ xs) = Perm.trans (insert_by-perm x (sort_by xs)) (Perm.cons x (sort_by-perm xs))

  pub insert_by_comm :
      (x y : A)
      → (may_precede x y ≡ false → may_precede y x ≡ true)
      → (may_precede x y ≡ true → may_precede y x ≡ true → x ≡ y)
      → ((z : A) → may_precede x y ≡ true → may_precede y z ≡ true → may_precede x z ≡ true)
      → ((z : A) → may_precede y x ≡ true → may_precede x z ≡ true → may_precede y z ≡ true)
      → (l : List A) → insert_by x (insert_by y l) ≡ insert_by y (insert_by x l)
  unfolding insert_by
  insert_by_comm x y total anti up down [] = ground (arith, total, anti)
  insert_by_comm x y total anti up down (z ∷ l) =
      ground (arith, total, anti, up z, down z, insert_by_comm x y total anti up down l)
