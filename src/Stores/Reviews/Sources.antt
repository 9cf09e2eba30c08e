-- ===== src/Stores/Reviews/Sources.antt =====
-- The SQLite store by source keys.
use human_review_console.Prelude.{
  String, Bool, true, false, ◌≡◌, ◌≢◌, sym, ap, ◌∙◌, none, some, [], ◌∷◌, ◌++◌, ◌==◌, any, inl, inr,
  eq_iff, eq_ne, arith, if◌then◌else◌, Bool-cases, Option-cases,
}
use human_review_console.Models.{ReviewItem}
use human_review_console.Errors.{Result, ok, ◌>>=◌}
use human_review_console.Stores.ReviewPort.{is_key}
use human_review_console.Stores.Reviews.{
  Codec, Row, Table, row_of, same_key, select_key, select_source, created_or_found, put,
  put_if_absent_by_source_key, get, find_by_source_key,
}
use human_review_console.Stores.Reviews.Index.{
  snoc-IsIndexed, select_key-snoc, select_source-free, select_source-taken, select_source-snoc,
}
use human_review_console.Stores.Reviews.Listing.{of_select_key, of_select_source, select_source-mem}
use human_review_console.Stores.Reviews.Mirrors.{
  IsValid, row_of-IsMirror, mirrors-snoc, IsMirror-mem, stored_get,
}

module _ (codec : Codec) where
  open codec use {Payload, dump, hydrate, hydrate-dump}

  pub find-scoped :
      (item : ReviewItem) (s : Table codec) (tenant source_key : String)
      → IsValid codec s
      → find_by_source_key codec tenant source_key s ≡ some item
      → (item.tenant ≡ tenant)
        × (item.request.source_key ≡ source_key)
        × (get codec tenant item.review_id s ≡ some item)
  unfolding find_by_source_key
  find-scoped item s tenant source_key v h = elim (Bool-cases (source_key == "")) [
    | inl unkeyed ↦ cc (rw unkeyed at h)
    | inr keyed ↦ elim (Option-cases (select_source tenant source_key s)) [
      | inl missing ↦ cc (rw (keyed, missing) at h)
      | inr (r, found) ↦
          let (m, a, b) = of_select_source tenant source_key r s found in
          let same : hydrate r.payload ≡ item = cc (rw (keyed, found) at h) in
          let row : r ≡ row_of codec item = IsMirror-mem codec r s v.1 m ∙ ap (row_of codec) same in
          (
            ap (λ (x : Row Payload). x.tenant) (sym row) ∙ a,
            ap (λ (x : Row Payload). x.source_key) (sym row) ∙ b,
            ap (λ (t : String). get codec t item.review_id s) (sym a)
                ∙ ap (λ (i : String). get codec r.tenant i s)
                    (ap (λ (x : Row Payload). x.review_id) (sym row))
                ∙ stored_get codec r s v m
                ∙ ap some same,
          )
    ]
  ]

  pub find-missing :
      (item : ReviewItem) (s : Table codec) (tenant : String)
      → IsValid codec s
      → item.request.source_key ≢ ""
      → get codec tenant item.review_id s ≡ some item
      → find_by_source_key codec tenant item.request.source_key s ≢ none
  unfolding find_by_source_key get
  find-missing item s tenant v k h nothing =
      let keyed = eq_ne item.request.source_key "" k in
      elim (Option-cases (select_key tenant item.review_id s)) [
        | inl missing ↦ cc (rw missing at h)
        | inr (r, there) ↦
            let (m, a, b) = of_select_key tenant item.review_id r s there in
            let same : hydrate r.payload ≡ item = cc (rw there at h) in
            let source : r.source_key ≡ item.request.source_key =
              ap (λ (x : Row Payload). x.source_key)
                (IsMirror-mem codec r s v.1 m ∙ ap (row_of codec) same) in
            elim (Option-cases (select_source tenant item.request.source_key s)) [
              | inl none_there ↦ select_source-mem r s m (
                  ap (λ (t : String). select_source t r.source_key s) a
                  ∙ ap (λ (x : String). select_source tenant x s) source
                  ∙ none_there)
              | inr (other, found) ↦ cc (rw (keyed, found) at nothing)
            ]
      ]

  pub absent-unkeyed :
      (item : ReviewItem) (s : Table codec)
      → item.request.source_key ≡ ""
      → put_if_absent_by_source_key codec item s ≡ (put codec item s >>= λ t. ok (item, true, t))
  unfolding put_if_absent_by_source_key
  absent-unkeyed item s h = rw ((eq_iff item.request.source_key "").1 h)

  -- A taken source key: the insert is skipped and the row that holds the key is read back.
  pub absent-found :
      (item old : ReviewItem) (s : Table codec)
      → item.request.source_key ≢ ""
      → find_by_source_key codec item.tenant item.request.source_key s ≡ some old
      → put_if_absent_by_source_key codec item s ≡ ok (old, false, s)
  unfolding put_if_absent_by_source_key find_by_source_key
  absent-found item old s k h =
      let keyed = eq_ne item.request.source_key "" k in
      elim (Option-cases (select_source item.tenant item.request.source_key s)) [
        | inl missing ↦ cc (rw (keyed, missing) at h)
        | inr (r, found) ↦
            let same : hydrate r.payload ≡ old = cc (rw (keyed, found) at h) in
            rw keyed (
              rw (select_source-taken (row_of codec item) r s keyed found)
                (rw (found, created_or_found) (rw same)))
      ]

  pub absent-new :
      (item stored : ReviewItem) (created : Bool) (s t : Table codec)
      → IsValid codec s
      → item.request.source_key ≢ ""
      → find_by_source_key codec item.tenant item.request.source_key s ≡ none
      → put_if_absent_by_source_key codec item s ≡ ok (stored, created, t)
      → (stored ≡ item)
        × (created ≡ true)
        × IsValid codec t
        × (find_by_source_key codec item.tenant item.request.source_key t ≡ some item)
        × ((tenant review_id : String)
            → get codec tenant review_id t
              ≡ (if is_key item tenant review_id then some item else get codec tenant review_id s))
  unfolding put_if_absent_by_source_key find_by_source_key get
  absent-new item stored created s t v k h e =
      let row = row_of codec item in
      let keyed = eq_ne item.request.source_key "" k in
      elim (Option-cases (select_source item.tenant item.request.source_key s)) [
        | inr (r, taken) ↦ cc (rw (keyed, taken) at h)
        | inl missing ↦
            let free = select_source-free row s keyed missing in
            elim (Bool-cases (any (same_key row) s)) [
              | inl clash ↦ cc (rw (keyed, free, clash) at e)
              | inr new_key ↦
                  let built : ◌≡◌ {A = Result (ReviewItem × Bool × Table codec)}
                      (ok (item, true, s ++ row ∷ [])) (ok (stored, created, t)) =
                    rw (keyed, free, new_key) at e in
                  let end : t ≡ s ++ row ∷ [] = cc built in
                  (
                    cc built,
                    cc built,
                    rw end (
                      snoc-IsIndexed row s new_key free v.0,
                      mirrors-snoc codec row s (row_of-IsMirror codec item) v.1,
                    ),
                    rw end (
                        rw keyed
                          (rw (select_source-snoc row s missing) (ap some (hydrate-dump item)))),
                    λ tenant review_id. rw end (
                        rw (select_key-snoc row s tenant review_id new_key)
                          (ground (arith, hydrate-dump item))),
                  )
            ]
      ]
