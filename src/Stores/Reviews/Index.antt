-- ===== src/Stores/Reviews/Index.antt =====
-- The unique indexes of the review table under its statements.
use human_review_console.Prelude.{
  String, Bool, true, false, ◌&&◌, ◌≡◌, refl, none, some, List, [], ◌∷◌, ◌++◌, ◌==◌, any, eq_iff,
  arith, if◌then◌else◌, Bool-cases, inl, inr,
}
use human_review_console.Stores.Reviews.{
  Row, same_key, same_source, select_key, select_source, write_row, source_clash,
}

-- No two rows share a key, and no two rows of a tenant share a source key that is not empty.
abbrev pub IsIndexed : {Payload : Type 0} → List (Row Payload) → Type 0
IsIndexed [] = Unit
IsIndexed (r ∷ rows) =
    (any (same_key r) rows ≡ false) × (any (same_source r) rows ≡ false) × IsIndexed rows

module _ {Payload : Type 0} where
  pub any-write_row :
      (p : Row Payload → Bool) (row : Row Payload) (rows : List (Row Payload))
      → p row ≡ false
      → any p rows ≡ false
      → any p (write_row row rows) ≡ false
  any-write_row p row [] h k = ground arith
  any-write_row p row (r ∷ rows) h k = ground (arith, any-write_row p row rows)

  any-snoc :
      (p : Row Payload → Bool) (row : Row Payload) (rows : List (Row Payload))
      → p row ≡ false
      → any p rows ≡ false
      → any p (rows ++ row ∷ []) ≡ false
  any-snoc p row [] h k = ground arith
  any-snoc p row (r ∷ rows) h k = ground (arith, any-snoc p row rows)

  same_source_symm : (a b : Row Payload) → same_source a b ≡ false → same_source b a ≡ false
  same_source_symm a b h = ground (
    arith,
    eq_iff a.source_key "",
    eq_iff b.source_key "",
    eq_iff a.tenant b.tenant,
    eq_iff b.tenant a.tenant,
    eq_iff a.source_key b.source_key,
    eq_iff b.source_key a.source_key,
  )

  same_key_symm : (a b : Row Payload) → same_key a b ≡ false → same_key b a ≡ false
  same_key_symm a b h = ground (
    arith,
    eq_iff a.tenant b.tenant,
    eq_iff b.tenant a.tenant,
    eq_iff a.review_id b.review_id,
    eq_iff b.review_id a.review_id,
  )

  same_key-move :
      (r row : Row Payload) (rows : List (Row Payload))
      → same_key r row ≡ true
      → any (same_key r) rows ≡ false
      → any (same_key row) rows ≡ false
  same_key-move r row [] e h = refl
  same_key-move r row (x ∷ rows) e h = ground (
    arith,
    same_key-move r row rows e,
    eq_iff r.tenant row.tenant,
    eq_iff r.review_id row.review_id,
    eq_iff r.tenant x.tenant,
    eq_iff row.tenant x.tenant,
    eq_iff r.review_id x.review_id,
    eq_iff row.review_id x.review_id,
  )

  -- A row that clashes with none but a row of its own key shares no source key with the others.
  clash-free :
      (row : Row Payload) (rows : List (Row Payload))
      → source_clash row rows ≡ false
      → any (same_key row) rows ≡ false
      → any (same_source row) rows ≡ false
  clash-free row [] h k = refl
  clash-free row (x ∷ rows) h k = ground (arith, clash-free row rows, same_key_symm row x)

  pub write_row-IsIndexed :
      (row : Row Payload) (rows : List (Row Payload))
      → source_clash row rows ≡ false
      → IsIndexed rows
      → IsIndexed (write_row row rows)
  write_row-IsIndexed row [] h v = (refl, refl, tt)
  write_row-IsIndexed row (r ∷ rows) h v = elim (Bool-cases (same_key r row)) [
    | inl same ↦ rw same (
        let moved = same_key-move r row rows same v.0 in
        (moved, clash-free row rows (ground arith) moved, v.2))
    | inr other ↦ rw other (
      any-write_row (same_key r) row rows other v.0,
      any-write_row (same_source r) row rows (same_source_symm row r (ground arith)) v.1,
      write_row-IsIndexed row rows (ground arith) v.2,
    )
  ]

  pub snoc-IsIndexed :
      (row : Row Payload) (rows : List (Row Payload))
      → any (same_key row) rows ≡ false
      → any (same_source row) rows ≡ false
      → IsIndexed rows
      → IsIndexed (rows ++ row ∷ [])
  snoc-IsIndexed row [] k s v = (refl, refl, tt)
  snoc-IsIndexed row (r ∷ rows) k s v = (
    any-snoc (same_key r) row rows (same_key_symm row r (ground arith)) v.0,
    any-snoc (same_source r) row rows (same_source_symm row r (ground arith)) v.1,
    snoc-IsIndexed row rows (ground arith) (ground arith) v.2,
  )

  pub select_key-write_row :
      (row : Row Payload) (rows : List (Row Payload)) (tenant review_id : String)
      → select_key tenant review_id (write_row row rows) ≡ (
          if row.tenant == tenant && row.review_id == review_id
          then some row
          else select_key tenant review_id rows)
  select_key-write_row row [] tenant review_id = refl
  select_key-write_row row (r ∷ rows) tenant review_id = ground (
    arith,
    select_key-write_row row rows tenant review_id,
    eq_iff r.tenant row.tenant,
    eq_iff r.review_id row.review_id,
    eq_iff r.tenant tenant,
    eq_iff row.tenant tenant,
    eq_iff r.review_id review_id,
    eq_iff row.review_id review_id,
  )

  pub select_key-snoc :
      (row : Row Payload) (rows : List (Row Payload)) (tenant review_id : String)
      → any (same_key row) rows ≡ false
      → select_key tenant review_id (rows ++ row ∷ []) ≡ (
          if row.tenant == tenant && row.review_id == review_id
          then some row
          else select_key tenant review_id rows)
  select_key-snoc row [] tenant review_id h = refl
  select_key-snoc row (r ∷ rows) tenant review_id h = ground (
    arith,
    select_key-snoc row rows tenant review_id,
    eq_iff row.tenant r.tenant,
    eq_iff row.review_id r.review_id,
    eq_iff r.tenant tenant,
    eq_iff row.tenant tenant,
    eq_iff r.review_id review_id,
    eq_iff row.review_id review_id,
  )

  -- A source key is free exactly if no row would share it.
  pub select_source-free :
      (row : Row Payload) (rows : List (Row Payload))
      → (row.source_key == "") ≡ false
      → select_source row.tenant row.source_key rows ≡ none
      → any (same_source row) rows ≡ false
  select_source-free row [] k h = refl
  select_source-free row (r ∷ rows) k h = ground (
    arith,
    select_source-free row rows k,
    eq_iff row.tenant r.tenant,
    eq_iff r.tenant row.tenant,
    eq_iff row.source_key r.source_key,
    eq_iff r.source_key row.source_key,
  )

  pub select_source-taken :
      (row r : Row Payload) (rows : List (Row Payload))
      → (row.source_key == "") ≡ false
      → select_source row.tenant row.source_key rows ≡ some r
      → any (same_source row) rows ≡ true
  select_source-taken row r [] k h = cc
  select_source-taken row r (x ∷ rows) k h = ground (
    arith,
    select_source-taken row r rows k,
    eq_iff row.tenant x.tenant,
    eq_iff x.tenant row.tenant,
    eq_iff row.source_key x.source_key,
    eq_iff x.source_key row.source_key,
  )

  pub select_source-snoc :
      (row : Row Payload) (rows : List (Row Payload))
      → select_source row.tenant row.source_key rows ≡ none
      → select_source row.tenant row.source_key (rows ++ row ∷ []) ≡ some row
  select_source-snoc row [] h =
      ground (arith, eq_iff row.tenant row.tenant, eq_iff row.source_key row.source_key)
  select_source-snoc row (r ∷ rows) h = ground (arith, select_source-snoc row rows)
