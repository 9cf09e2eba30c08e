-- ===== src/Stores/Reviews/Lawful.antt =====
-- The SQLite store keeps the promises of the review store's port.
use human_review_console.Prelude.{
  String, true, ◌≡◌, refl, ap, ◌∙◌, some, [], inl, inr, eq_iff, arith, if◌then◌else◌, Option-cases,
}
use human_review_console.Models.{ReviewItem}
use human_review_console.Errors.{ok}
use human_review_console.Stores.ReviewPort.{
  ReviewStorePort, IsLawful, IsReviewStore, keep-IsOldestFirst, is_key,
}
use human_review_console.Stores.Reviews.{
  Codec, Row, Table, row_of, select_key, put, put_if_absent_by_source_key, get, find_by_source_key,
  list_all, list_pending,
}
use human_review_console.Stores.Reviews.Index.{write_row-IsIndexed, select_key-write_row}
use human_review_console.Stores.Reviews.Listing.{of_select_key}
use human_review_console.Stores.Reviews.Mirrors.{
  IsValid, row_of-IsMirror, mirrors-write_row, IsMirror-mem, upsert-ok,
}
use human_review_console.Stores.Reviews.Sources.{
  find-scoped, find-missing, absent-unkeyed, absent-found, absent-new,
}
use human_review_console.Stores.Reviews.Listed.{list_all-IsOldestFirst, mem-list_all}

module _ (codec : Codec) where
  open codec use {Payload, dump, hydrate, hydrate-dump}

  put-IsValid :
      (item : ReviewItem) (s t : Table codec)
      → IsValid codec s
      → put codec item s ≡ ok t
      → IsValid codec t
  unfolding put
  put-IsValid item s t v h =
      let row = row_of codec item in
      let (free, same) = upsert-ok codec row s t h in
      rw same (
        write_row-IsIndexed row s free v.0,
        mirrors-write_row codec row s (row_of-IsMirror codec item) v.1,
      )

  get-put :
      (item : ReviewItem) (s t : Table codec) (tenant review_id : String)
      → put codec item s ≡ ok t
      → get codec tenant review_id t
        ≡ (if is_key item tenant review_id then some item else get codec tenant review_id s)
  unfolding put get
  get-put item s t tenant review_id h =
      let row = row_of codec item in
      let (free, same) = upsert-ok codec row s t h in
      rw same (rw (select_key-write_row row s tenant review_id) (ground (arith, hydrate-dump item)))

  get-scoped :
      (item : ReviewItem) (s : Table codec) (tenant review_id : String)
      → IsValid codec s
      → get codec tenant review_id s ≡ some item
      → is_key item tenant review_id ≡ true
  unfolding get
  get-scoped item s tenant review_id v h = elim (Option-cases (select_key tenant review_id s)) [
    | inl missing ↦ cc (rw missing at h)
    | inr (r, found) ↦
        let (m, a, b) = of_select_key tenant review_id r s found in
        let same : hydrate r.payload ≡ item = cc (rw found at h) in
        let mirror = IsMirror-mem codec r s v.1 m in
        let row : r ≡ row_of codec item = mirror ∙ ap (row_of codec) same in
        ground (
          arith,
          eq_iff item.tenant tenant,
          eq_iff item.review_id review_id,
          ap (λ (x : Row Payload). x.tenant) row,
          ap (λ (x : Row Payload). x.review_id) row,
        )
  ]

-- The store of the local profile, behind its port.
abbrev pub local_reviews : Codec → ReviewStorePort
local_reviews codec = record {
  Store = Table codec;
  empty = [];
  put = put codec;
  put_if_absent_by_source_key = put_if_absent_by_source_key codec;
  get = get codec;
  find_by_source_key = find_by_source_key codec;
  list_pending = list_pending codec;
  list_all = list_all codec;
}

pub local_reviews-IsReviewStore : (codec : Codec) → IsReviewStore (local_reviews codec)
local_reviews-IsReviewStore codec = record {
  lawful = record {
    IsValid = IsValid codec;
    empty-IsValid = (tt, tt);
    get-empty = λ tenant review_id. unfold get in refl;
    put-IsValid = put-IsValid codec;
    get-put = get-put codec;
    get-scoped = get-scoped codec;
    find-unkeyed = λ s tenant. unfold find_by_source_key in refl;
    find-scoped = find-scoped codec;
    find-missing = find-missing codec;
    absent-unkeyed = absent-unkeyed codec;
    absent-found = absent-found codec;
    absent-new = absent-new codec;
    mem-list_all = mem-list_all codec;
    list_pending_lem = λ s tenant. unfold list_pending in refl;
  };
  list_all-IsOldestFirst = list_all-IsOldestFirst codec;
  list_pending-IsOldestFirst = λ s tenant v.
      unfold list_pending in
      keep-IsOldestFirst _ (list_all codec tenant s) (list_all-IsOldestFirst codec s tenant v);
}

pub local_reviews-IsLawful : (codec : Codec) → IsLawful (local_reviews codec)
local_reviews-IsLawful codec = (local_reviews-IsReviewStore codec).lawful
