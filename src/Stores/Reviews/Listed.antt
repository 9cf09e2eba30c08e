-- ===== src/Stores/Reviews/Listed.antt =====
-- The members and the order of the SQLite store's listings.
use mathlib.Core.List.{Memᴰ}
use human_review_console.Prelude.{
  String, false, ◌≡◌, ◌↔◌, refl, sym, ap, ◌∙◌, some, List, [], ◌∷◌, ◌==◌, map, inl, inr, keep,
  eq_iff, Option-cases, mem-keep_of, of_mem-keep, mem-map_of, of_mem-map, All,
}
use human_review_console.Time.{Datetime, before}
use human_review_console.Models.{ReviewItem}
use human_review_console.Stores.ReviewPort.{IsOldestFirst}
use human_review_console.Stores.Reviews.{
  Codec, Row, Table, row_of, select_key, sorted_rows, get, list_all,
}
use human_review_console.Stores.Reviews.Listing.{
  of_mem-sorted_rows, mem-sorted_rows_of, of_select_key, select_key-mem, IsOldestFirst as InOrder,
  IsOldestFirst-after, IsOldestFirst-tail, sorted_rows-IsOldestFirst,
}
use human_review_console.Stores.Reviews.Mirrors.{IsMirror, IsValid, IsMirror-mem}

module _ (codec : Codec) where
  open codec use {Payload, dump, hydrate, hydrate-dump}

  -- The items of rows that mirror them, and that are in the order of their submission, are too.
  items-IsOldestFirst :
      (rows : List (Row Payload))
      → ((r : Row Payload) → Memᴰ r rows → IsMirror codec r)
      → InOrder rows
      → IsOldestFirst (map (λ (x : Row Payload). hydrate x.payload) rows)
  items-IsOldestFirst [] mirrors h = tt
  items-IsOldestFirst (r ∷ rows) mirrors h = (
    after rows (λ x m. mirrors x (Memᴰ.tail m)) (IsOldestFirst-after r rows h),
    items-IsOldestFirst rows (λ x m. mirrors x (Memᴰ.tail m)) (IsOldestFirst-tail r rows h),
  )
    where
      after :
          (xs : List (Row Payload))
          → ((x : Row Payload) → Memᴰ x xs → IsMirror codec x)
          → All (λ (s : Row Payload). before s.submitted_at r.submitted_at ≡ false) xs
          → All
              (λ (y : ReviewItem).
                before y.request.submitted_at (hydrate r.payload).request.submitted_at ≡ false)
              (map (λ (x : Row Payload). hydrate x.payload) xs)
      after [] each k = tt
      after (x ∷ xs) each (k, more) = (
        ap (λ (t : Datetime). before t (hydrate r.payload).request.submitted_at)
              (sym (ap (λ (y : Row Payload). y.submitted_at) (each x (Memᴰ.head refl))))
            ∙ ap (λ (t : Datetime). before x.submitted_at t)
                (sym (ap (λ (y : Row Payload). y.submitted_at) (mirrors r (Memᴰ.head refl))))
            ∙ k,
        after xs (λ y m. each y (Memᴰ.tail m)) more,
      )

  pub list_all-IsOldestFirst :
      (s : Table codec) (tenant : String)
      → IsValid codec s
      → IsOldestFirst (list_all codec tenant s)
  unfolding list_all
  list_all-IsOldestFirst s tenant v =
      let own = keep (λ (x : Row Payload). x.tenant == tenant) s in
      items-IsOldestFirst (sorted_rows own)
        (λ r m.
          let (in_rows, _) =
            of_mem-keep (λ (x : Row Payload). x.tenant == tenant) r s
              (of_mem-sorted_rows r own m) in
          IsMirror-mem codec r s v.1 in_rows)
        (sorted_rows-IsOldestFirst own)

  pub mem-list_all :
      (item : ReviewItem) (s : Table codec) (tenant : String)
      → IsValid codec s
      → Memᴰ item (list_all codec tenant s) ↔ (get codec tenant item.review_id s ≡ some item)
  unfolding list_all get
  mem-list_all item s tenant v = (listed, found)
    where
      listed : Memᴰ item (list_all codec tenant s) → get codec tenant item.review_id s ≡ some item
      listed m =
          let (r, in_sorted, same) =
            of_mem-map (λ (x : Row Payload). hydrate x.payload) item
              (sorted_rows (keep (λ (x : Row Payload). x.tenant == tenant) s)) m in
          let (in_rows, own) =
            of_mem-keep (λ (x : Row Payload). x.tenant == tenant) r s
              (of_mem-sorted_rows r (keep (λ (x : Row Payload). x.tenant == tenant) s) in_sorted) in
          let row : r ≡ row_of codec item =
            IsMirror-mem codec r s v.1 in_rows ∙ ap (row_of codec) same in
          let here : item.tenant ≡ tenant =
            ap (λ (x : Row Payload). x.tenant) (sym row) ∙ (eq_iff r.tenant tenant).0 own in
          let there : select_key item.tenant item.review_id s ≡ some (row_of codec item) =
            rw row at (select_key-mem r s v.0 in_rows) in
          rw (← here) (rw there (ap some (hydrate-dump item)))

      found : get codec tenant item.review_id s ≡ some item → Memᴰ item (list_all codec tenant s)
      found h = elim (Option-cases (select_key tenant item.review_id s)) [
        | inl missing ↦ cc (rw missing at h)
        | inr (r, there) ↦
            let (m, a, b) = of_select_key tenant item.review_id r s there in
            let same : hydrate r.payload ≡ item = cc (rw there at h) in
            let own =
              mem-keep_of (λ (x : Row Payload). x.tenant == tenant) r s m
                ((eq_iff r.tenant tenant).1 a) in
            rw same at (
              mem-map_of (λ (x : Row Payload). hydrate x.payload) r
                (sorted_rows (keep (λ (x : Row Payload). x.tenant == tenant) s))
                (mem-sorted_rows_of r (keep (λ (x : Row Payload). x.tenant == tenant) s) own))
      ]
