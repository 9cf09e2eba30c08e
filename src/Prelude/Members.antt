-- ===== src/Prelude/Members.antt =====
-- Membership in lists that the shared functions build.
use mathlib.Core.List.{List, [], ◌∷◌, map, Memᴰ}
use mathlib.Core.List.Memᴰ
use mathlib.Core.Path.{◌≡◌, refl, sym, ap, ◌∙◌}
use mathlib.Core.Logic.{inl, inr}
use mathlib.Core.Bool.{Bool, true}
use native.Mathlib.Omega.{arith}
use human_review_console.Prelude.Tests.{Bool-cases}
use human_review_console.Prelude.Lists.{keep, any}

module _ {ℓ} {A : Type ℓ} where
  pub mem-keep_of :
      (p : A → Bool) (x : A) (xs : List A) → Memᴰ x xs → p x ≡ true → Memᴰ x (keep p xs)
  mem-keep_of p x [] m h = elim m [ ]
  mem-keep_of p x (y ∷ ys) (Memᴰ.head e) h = rw (ap p (sym e) ∙ h) (Memᴰ.head e)
  mem-keep_of p x (y ∷ ys) (Memᴰ.tail m) h = elim (Bool-cases (p y)) [
    | inl t ↦ rw t (Memᴰ.tail (mem-keep_of p x ys m h))
    | inr f ↦ rw f (mem-keep_of p x ys m h)
  ]

  pub of_mem-keep :
      (p : A → Bool) (x : A) (xs : List A) → Memᴰ x (keep p xs) → Memᴰ x xs × (p x ≡ true)
  of_mem-keep p x [] m = absurd (Memᴰ.not-nil m)
  of_mem-keep p x (y ∷ ys) m = elim (Bool-cases (p y)) [
    | inl t ↦ elim (Memᴰ.cases_cons (rw t at m)) [
      | inl e ↦ (Memᴰ.head e, ap p e ∙ t)
      | inr n ↦ let (k, h) = of_mem-keep p x ys n in (Memᴰ.tail k, h)
    ]
    | inr f ↦ let (k, h) = of_mem-keep p x ys (rw f at m) in (Memᴰ.tail k, h)
  ]

  pub any-of_mem : (p : A → Bool) (x : A) (xs : List A) → Memᴰ x xs → p x ≡ true → any p xs ≡ true
  any-of_mem p x [] m h = elim m [ ]
  any-of_mem p x (y ∷ ys) (Memᴰ.head e) h = rw (ap p (sym e) ∙ h)
  any-of_mem p x (y ∷ ys) (Memᴰ.tail m) h = ground (arith, any-of_mem p x ys m h)

module _ {ℓ κ} {A : Type ℓ} {B : Type κ} (f : A → B) where
  pub mem-map_of : (x : A) (xs : List A) → Memᴰ x xs → Memᴰ (f x) (map f xs)
  mem-map_of x [] m = elim m [ ]
  mem-map_of x (y ∷ ys) (Memᴰ.head e) = Memᴰ.head (ap f e)
  mem-map_of x (y ∷ ys) (Memᴰ.tail m) = Memᴰ.tail (mem-map_of x ys m)

  pub of_mem-map : (b : B) (xs : List A) → Memᴰ b (map f xs) → (x : A) × Memᴰ x xs × (f x ≡ b)
  of_mem-map b [] m = absurd (Memᴰ.not-nil m)
  of_mem-map b (y ∷ ys) m = elim (Memᴰ.cases_cons m) [
    | inl e ↦ (y, Memᴰ.head refl, sym e)
    | inr n ↦ let (x, k, h) = of_mem-map b ys n in (x, Memᴰ.tail k, h)
  ]
