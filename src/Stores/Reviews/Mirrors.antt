-- ===== src/Stores/Reviews/Mirrors.antt =====
-- The rows of the SQLite store as the items that their payloads hold.
use mathlib.Core.List.{Memᴰ}
use human_review_console.Prelude.{
  false, ◌≡◌, refl, sym, ap, some, List, [], ◌∷◌, ◌++◌, inl, inr, Bool-cases, All,
}
use human_review_console.Models.{ReviewItem}
use human_review_console.Errors.{ok}
use human_review_console.Stores.Reviews.{
  Codec, Row, Table, row_of, same_key, write_row, source_clash, upsert, get,
}
use human_review_console.Stores.Reviews.Index.{IsIndexed}
use human_review_console.Stores.Reviews.Listing.{select_key-mem}

module _ (codec : Codec) where
  open codec use {Payload, dump, hydrate, hydrate-dump}

  -- The columns of a row are those of the item in its payload.
  abbrev pub IsMirror : Row Payload → Type 0
  IsMirror r = r ≡ row_of codec (hydrate r.payload)

  abbrev pub IsValid : Table codec → Type 0
  IsValid rows = IsIndexed rows × All IsMirror rows

  pub row_of-IsMirror : (item : ReviewItem) → IsMirror (row_of codec item)
  row_of-IsMirror item = ap (row_of codec) (sym (hydrate-dump item))

  pub mirrors-write_row :
      (row : Row Payload) (rows : List (Row Payload))
      → IsMirror row
      → All IsMirror rows
      → All IsMirror (write_row row rows)
  mirrors-write_row row [] h v = (h, tt)
  mirrors-write_row row (r ∷ rows) h v = elim (Bool-cases (same_key r row)) [
    | inl t ↦ rw t (h, v.1)
    | inr f ↦ rw f (v.0, mirrors-write_row row rows h v.1)
  ]

  pub mirrors-snoc :
      (row : Row Payload) (rows : List (Row Payload))
      → IsMirror row
      → All IsMirror rows
      → All IsMirror (rows ++ row ∷ [])
  mirrors-snoc row [] h v = (h, tt)
  mirrors-snoc row (r ∷ rows) h v = (v.0, mirrors-snoc row rows h v.1)

  pub IsMirror-mem :
      (r : Row Payload) (rows : List (Row Payload)) → All IsMirror rows → Memᴰ r rows → IsMirror r
  IsMirror-mem r [] v m = elim m [ ]
  IsMirror-mem r (y ∷ ys) v (Memᴰ.head e) = rw e v.0
  IsMirror-mem r (y ∷ ys) v (Memᴰ.tail m) = IsMirror-mem r ys v.1 m

  -- A write that succeeds met no clash and wrote the row.
  pub upsert-ok :
      (row : Row Payload) (rows written : List (Row Payload))
      → upsert row rows ≡ ok written
      → (source_clash row rows ≡ false) × (written ≡ write_row row rows)
  unfolding upsert
  upsert-ok row rows written h = elim (Bool-cases (source_clash row rows)) [
    | inl clash ↦ cc (rw clash at h)
    | inr free ↦ (free, cc (rw free at h))
  ]

  -- A row that is stored, read by its key and as the item that it mirrors.
  pub stored_get :
      (r : Row Payload) (s : Table codec)
      → IsValid s
      → Memᴰ r s
      → get codec r.tenant r.review_id s ≡ some (hydrate r.payload)
  unfolding get
  stored_get r s v m = rw (select_key-mem r s v.0 m) refl
