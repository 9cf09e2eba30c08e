-- ===== src/Stores/Reviews/Listing.antt =====
-- The order and the members of a listing.
use mathlib.Core.List.{Memᴰ}
use mathlib.Core.List.Memᴰ
use human_review_console.Prelude.{
  String, false, ◌&&◌, ◌≡◌, ◌≢◌, ◌∙◌, true, refl, sym, none, some, All, List, [], ◌∷◌, ◌==◌, ◌⊎◌,
  inl, inr, eq_iff, arith, Bool-cases, any-of_mem,
}
use human_review_console.Time.{before}
use human_review_console.Stores.Reviews.{
  Row, same_key, in_order, place, sorted_rows, select_key, select_source,
}
use human_review_console.Stores.Reviews.Index.{IsIndexed}

module _ {Payload : Type 0} where
  mem-place :
      (x r : Row Payload) (rows : List (Row Payload))
      → Memᴰ x (place r rows)
      → (x ≡ r) ⊎ Memᴰ x rows
  mem-place x r [] m = elim (Memᴰ.cases_cons m) [ inl e ↦ inl e | inr n ↦ elim n [ ] ]
  mem-place x r (y ∷ ys) m = elim (Bool-cases (in_order r y)) [
    | inl t ↦ Memᴰ.cases_cons (rw t at m)
    | inr f ↦ elim (Memᴰ.cases_cons (rw f at m)) [
      | inl e ↦ inr (Memᴰ.head e)
      | inr n ↦ elim (mem-place x r ys n) [ inl e ↦ inl e | inr k ↦ inr (Memᴰ.tail k) ]
    ]
  ]

  place-head : (r : Row Payload) (rows : List (Row Payload)) → Memᴰ r (place r rows)
  place-head r [] = Memᴰ.head refl
  place-head r (y ∷ ys) = elim (Bool-cases (in_order r y)) [
    | inl t ↦ rw t (Memᴰ.head refl)
    | inr f ↦ rw f (Memᴰ.tail (place-head r ys))
  ]

  place-tail : (x r : Row Payload) (rows : List (Row Payload)) → Memᴰ x rows → Memᴰ x (place r rows)
  place-tail x r [] m = elim m [ ]
  place-tail x r (y ∷ ys) m = elim (Bool-cases (in_order r y)) [
    | inl t ↦ rw t (Memᴰ.tail m)
    | inr f ↦ elim (Memᴰ.cases_cons m) [
      | inl e ↦ rw f (Memᴰ.head e)
      | inr n ↦ rw f (Memᴰ.tail (place-tail x r ys n))
    ]
  ]

  pub of_mem-sorted_rows :
      (x : Row Payload) (rows : List (Row Payload)) → Memᴰ x (sorted_rows rows) → Memᴰ x rows
  of_mem-sorted_rows x [] m = m
  of_mem-sorted_rows x (r ∷ rows) m = elim (mem-place x r (sorted_rows rows) m) [
    | inl e ↦ Memᴰ.head e
    | inr n ↦ Memᴰ.tail (of_mem-sorted_rows x rows n)
  ]

  pub mem-sorted_rows_of :
      (x : Row Payload) (rows : List (Row Payload)) → Memᴰ x rows → Memᴰ x (sorted_rows rows)
  mem-sorted_rows_of x [] m = m
  mem-sorted_rows_of x (r ∷ rows) m = elim (Memᴰ.cases_cons m) [
    | inl e ↦ rw e (place-head r (sorted_rows rows))
    | inr n ↦ place-tail x r (sorted_rows rows) (mem-sorted_rows_of x rows n)
  ]

  -- No row was submitted before the row that precedes it.
  abbrev pub IsOldestFirst : List (Row Payload) → Type 0
  IsOldestFirst [] = Unit
  IsOldestFirst (r ∷ []) = Unit
  IsOldestFirst (r ∷ s ∷ rows) =
      (before s.submitted_at r.submitted_at ≡ false) × IsOldestFirst (s ∷ rows)

  place-IsOldestFirst :
      (r : Row Payload) (rows : List (Row Payload))
      → IsOldestFirst rows
      → IsOldestFirst (place r rows)
  place-IsOldestFirst r [] h = tt
  place-IsOldestFirst r (y ∷ []) h = ground arith
  place-IsOldestFirst r (y ∷ z ∷ ys) h = ground (arith, place-IsOldestFirst r (z ∷ ys) h.1)

  -- Sorted rows are in the order of their submission, rows of one instant in that of their id.
  pub sorted_rows-IsOldestFirst : (rows : List (Row Payload)) → IsOldestFirst (sorted_rows rows)
  sorted_rows-IsOldestFirst [] = tt
  sorted_rows-IsOldestFirst (r ∷ rows) =
      place-IsOldestFirst r (sorted_rows rows) (sorted_rows-IsOldestFirst rows)

  pub of_select_key :
      (tenant review_id : String) (r : Row Payload) (rows : List (Row Payload))
      → select_key tenant review_id rows ≡ some r
      → Memᴰ r rows × (r.tenant ≡ tenant) × (r.review_id ≡ review_id)
  of_select_key tenant review_id r [] h = cc
  of_select_key tenant review_id r (y ∷ ys) h =
      elim (Bool-cases (y.tenant == tenant && y.review_id == review_id)) [
        | inl t ↦
            let e : y ≡ r = cc (rw t at h) in
            (
              Memᴰ.head (sym e),
              rw (← e) (ground (arith, eq_iff y.tenant tenant)),
              rw (← e) (ground (arith, eq_iff y.review_id review_id)),
            )
        | inr f ↦
            let (m, a, b) = of_select_key tenant review_id r ys (rw f at h) in (Memᴰ.tail m, a, b)
      ]

  pub select_key-mem :
      (r : Row Payload) (rows : List (Row Payload))
      → IsIndexed rows
      → Memᴰ r rows
      → select_key r.tenant r.review_id rows ≡ some r
  select_key-mem r [] v m = elim m [ ]
  select_key-mem r (y ∷ ys) v m = elim (Memᴰ.cases_cons m) [
    | inl e ↦ rw e (ground (arith, eq_iff y.tenant y.tenant, eq_iff y.review_id y.review_id))
    | inr n ↦ elim (Bool-cases (y.tenant == r.tenant && y.review_id == r.review_id)) [
      | inl t ↦ let found = any-of_mem (same_key y) r ys n t in cc (v.0)
      | inr f ↦ rw f (select_key-mem r ys v.2 n)
    ]
  ]

  pub IsOldestFirst-tail :
      (r : Row Payload) (rows : List (Row Payload)) → IsOldestFirst (r ∷ rows) → IsOldestFirst rows
  IsOldestFirst-tail r [] h = tt
  IsOldestFirst-tail r (s ∷ rows) h = h.1

  abbrev IsAfter : Row Payload → Row Payload → Type 0
  IsAfter r s = before s.submitted_at r.submitted_at ≡ false

  -- In such a list, no row was submitted before one that it follows.
  pub IsOldestFirst-after :
      (r : Row Payload) (rows : List (Row Payload))
      → IsOldestFirst (r ∷ rows)
      → All (λ (s : Row Payload). before s.submitted_at r.submitted_at ≡ false) rows
  IsOldestFirst-after r [] h = tt
  IsOldestFirst-after r (s ∷ rows) (first, rest) =
      (first, later rows (IsOldestFirst-after s rows rest))
    where
      later : (xs : List (Row Payload)) → All (IsAfter s) xs → All (IsAfter r) xs
      later [] h = tt
      later (x ∷ xs) (h, k) =
          let after : before x.submitted_at r.submitted_at ≡ false = ground (arith, h, first) in
          (after, later xs k)

  pub of_select_source :
      (tenant source_key : String) (r : Row Payload) (rows : List (Row Payload))
      → select_source tenant source_key rows ≡ some r
      → Memᴰ r rows × (r.tenant ≡ tenant) × (r.source_key ≡ source_key)
  of_select_source tenant source_key r [] h = cc
  of_select_source tenant source_key r (y ∷ ys) h =
      elim (Bool-cases (y.tenant == tenant && y.source_key == source_key)) [
        | inl t ↦
            let e : y ≡ r = cc (rw t at h) in
            (
              Memᴰ.head (sym e),
              rw (← e) (ground (arith, eq_iff y.tenant tenant)),
              rw (← e) (ground (arith, eq_iff y.source_key source_key)),
            )
        | inr f ↦
            let (m, a, b) = of_select_source tenant source_key r ys (rw f at h) in
            (Memᴰ.tail m, a, b)
      ]

  pub select_source-mem :
      (r : Row Payload) (rows : List (Row Payload))
      → Memᴰ r rows
      → select_source r.tenant r.source_key rows ≢ none
  select_source-mem r [] m h = elim m [ ]
  select_source-mem r (y ∷ ys) m h =
      elim (Bool-cases (y.tenant == r.tenant && y.source_key == r.source_key)) [
        | inl t ↦ cc (rw t at h)
        | inr f ↦ elim (Memᴰ.cases_cons m) [
          | inl e ↦
              let own : (y.tenant == r.tenant && y.source_key == r.source_key) ≡ true =
                rw e (ground (arith, eq_iff y.tenant y.tenant, eq_iff y.source_key y.source_key)) in
              cc (sym f ∙ own)
          | inr n ↦ select_source-mem r ys n (rw f at h)
        ]
      ]
