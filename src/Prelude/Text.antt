-- ===== src/Prelude/Text.antt =====
-- Membership of a text in a sequence of texts (Python's `in`), and lists without repetition.
use Prim.Native.String.{String}
use mathlib.Core.Path.{◌≡◌, refl}
use mathlib.Core.Logic.{◌≢◌}
use mathlib.Core.Bool.{Bool, false, ◌||◌}
use mathlib.Core.List.{List, [], ◌∷◌, ◌++◌}
use native.Mathlib.Omega.{arith}
use text.Mathlib.Text.{◌==◌}
use text.Mathlib.TextEquality.{eq_iff}

abbrev pub elem : String → List String → Bool
elem k [] = false
elem k (x ∷ xs) = k == x || elem k xs

-- No text occurs twice.
abbrev pub Distinct : List String → Type 0
Distinct [] = Unit
Distinct (x ∷ xs) = (elem x xs ≡ false) × Distinct xs

pub eq_ne : (s t : String) → s ≢ t → (s == t) ≡ false
eq_ne s t h = ground (arith, eq_iff s t)

pub ne_eq : (s t : String) → (s == t) ≡ false → s ≢ t
ne_eq s t h = ground (arith, eq_iff s t)

pub elem-append : (k : String) (xs ys : List String) → elem k (xs ++ ys) ≡ (elem k xs || elem k ys)
elem-append k [] ys = refl
elem-append k (x ∷ xs) ys = ground (arith, elem-append k xs ys)

pub Distinct-snoc :
    (xs : List String) (y : String) → Distinct xs → elem y xs ≡ false → Distinct (xs ++ y ∷ [])
Distinct-snoc [] y d h = (refl, tt)
Distinct-snoc (x ∷ xs) y d h = (
  ground (arith, elem-append x xs (y ∷ []), eq_iff x y, eq_iff y x),
  Distinct-snoc xs y d.1 (ground arith),
)
