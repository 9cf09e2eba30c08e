-- ===== src/Stores/Reviews.antt =====
-- adapters/local/review_store.py: the review queue in one SQLite table. An operation is the effect
-- of its SQL statement on the rows; the table keeps two unique indexes, (tenant, review_id) and,
-- where the source key is not empty, (tenant, source_key).
pub mod Index
pub mod Listing
pub mod Mirrors
pub mod Sources
pub mod Listed
pub mod Lawful
use human_review_console.Prelude.{
  String, Bool, true, false, ◌&&◌, ◌||◌, not, ◌≡◌, Option, none, some, List, [], ◌∷◌, ◌++◌, ◌==◌,
  any, keep, map, if◌then◌else◌,
}
use Prim.Native.String.{compare}
use text.Mathlib.Text.{is_le}
use mathlib.Core.Option
use human_review_console.Time.{Datetime, before, same_instant}
use human_review_console.Models.{ReviewItem, is_terminal}
use human_review_console.Errors.{Result, ok, err, integrity_error, runtime_error, ◌>>=◌}

-- `json.dumps(to_jsonable(item))` and its inverse, from the commons.
pub record Codec : Type 1 where
  pub Payload : Type 0
  pub dump : ReviewItem → Payload
  pub hydrate : Payload → ReviewItem
  pub hydrate-dump : (item : ReviewItem) → hydrate (dump item) ≡ item

pub record Row (Payload : Type 0) : Type 0 where
  pub tenant : String
  pub review_id : String
  pub source_key : String
  pub submitted_at : Datetime
  pub payload : Payload

module _ {Payload : Type 0} where
  abbrev pub same_key : Row Payload → Row Payload → Bool
  same_key a b = a.tenant == b.tenant && a.review_id == b.review_id

  -- Two rows that the partial unique index on the source key does not admit together.
  abbrev pub same_source : Row Payload → Row Payload → Bool
  same_source a b =
      not (a.source_key == "") && (a.tenant == b.tenant && a.source_key == b.source_key)

  abbrev pub select_key : String → String → List (Row Payload) → Option (Row Payload)
  select_key tenant review_id [] = none
  select_key tenant review_id (r ∷ rows) =
      if r.tenant == tenant && r.review_id == review_id
      then some r
      else select_key tenant review_id rows

  abbrev pub select_source : String → String → List (Row Payload) → Option (Row Payload)
  select_source tenant source_key [] = none
  select_source tenant source_key (r ∷ rows) =
      if r.tenant == tenant && r.source_key == source_key
      then some r
      else select_source tenant source_key rows

  -- INSERT ... ON CONFLICT (tenant, review_id) DO UPDATE
  abbrev pub write_row : Row Payload → List (Row Payload) → List (Row Payload)
  write_row row [] = row ∷ []
  write_row row (r ∷ rows) = if same_key r row then row ∷ rows else r ∷ write_row row rows

  -- The written row would share its source key with another row.
  abbrev pub source_clash : Row Payload → List (Row Payload) → Bool
  source_clash row rows = any (λ r. same_source row r && not (same_key r row)) rows

  unfoldable pub upsert : Row Payload → List (Row Payload) → Result (List (Row Payload))
  upsert row rows = if source_clash row rows then err integrity_error else ok (write_row row rows)

  -- INSERT ... ON CONFLICT (tenant, source_key) DO NOTHING, and whether a row was inserted.
  unfoldable pub insert_or_skip :
      Row Payload → List (Row Payload) → Result (List (Row Payload) × Bool)
  insert_or_skip row rows =
      if any (same_source row) rows
      then ok (rows, false)
      else if any (same_key row) rows
      then err integrity_error
      else ok (rows ++ row ∷ [], true)

  -- ORDER BY submitted_at ASC, review_id ASC. (The column holds the instant as ISO text in UTC,
  -- whose order is that of the instants.)
  abbrev pub in_order : Row Payload → Row Payload → Bool
  in_order a b =
      before a.submitted_at b.submitted_at
      || (same_instant a.submitted_at b.submitted_at && is_le (compare a.review_id b.review_id))

  abbrev pub place : Row Payload → List (Row Payload) → List (Row Payload)
  place row [] = row ∷ []
  place row (r ∷ rows) = if in_order row r then row ∷ r ∷ rows else r ∷ place row rows

  abbrev pub sorted_rows : List (Row Payload) → List (Row Payload)
  sorted_rows [] = []
  sorted_rows (r ∷ rows) = place r (sorted_rows rows)

module _ (codec : Codec) where
  open codec use {Payload, dump, hydrate}

  abbrev pub Table : Type 0
  Table = List (Row Payload)

  abbrev pub row_of : ReviewItem → Row Payload
  row_of item = record {
    tenant = item.tenant;
    review_id = item.review_id;
    source_key = item.request.source_key;
    submitted_at = item.request.submitted_at;
    payload = dump item;
  }

  unfoldable pub put : ReviewItem → Table → Result Table
  unfolding upsert
  put item rows = upsert (row_of item) rows

  -- What follows the insert: the row that was there is read back.
  unfoldable pub created_or_found : ReviewItem → Table × Bool → Result (ReviewItem × Bool × Table)
  created_or_found item (rows, true) = ok (item, true, rows)
  created_or_found item (rows, false) =
      elim (select_source item.tenant item.request.source_key rows) [
        | none ↦ err runtime_error
        | some row ↦ ok (hydrate row.payload, false, rows)
      ]

  unfoldable pub put_if_absent_by_source_key :
      ReviewItem → Table → Result (ReviewItem × Bool × Table)
  unfolding put insert_or_skip created_or_found
  put_if_absent_by_source_key item rows =
      if item.request.source_key == ""
      then (put item rows >>= λ written. ok (item, true, written))
      else (insert_or_skip (row_of item) rows >>= created_or_found item)

  unfoldable pub get : String → String → Table → Option ReviewItem
  get tenant review_id rows =
      Option.map (λ (r : Row Payload). hydrate r.payload) (select_key tenant review_id rows)

  unfoldable pub find_by_source_key : String → String → Table → Option ReviewItem
  find_by_source_key tenant source_key rows =
      if source_key == ""
      then none
      else Option.map (λ (r : Row Payload). hydrate r.payload)
          (select_source tenant source_key rows)

  unfoldable pub list_all : String → Table → List ReviewItem
  list_all tenant rows =
      map (λ (r : Row Payload). hydrate r.payload)
        (sorted_rows (keep (λ (r : Row Payload). r.tenant == tenant) rows))

  unfoldable pub list_pending : String → Table → List ReviewItem
  unfolding list_all
  list_pending tenant rows = keep (λ item. not (is_terminal item)) (list_all tenant rows)
