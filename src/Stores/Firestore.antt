-- ===== src/Stores/Firestore.antt =====
-- adapters/gcp/review_store.py: the review queue in Firestore, a collection for each tenant. The
-- client's calls are parameters; Firestore runs a transaction as one step.
pub mod Valid
pub mod Sources
pub mod Lawful
use human_review_console.Prelude.{
  String, Bool, true, false, not, ◌≡◌, ◌≢◌, ◌&&◌, Option, none, some, List, [], ◌∷◌, ◌==◌, keep,
  map, if◌then◌else◌,
}
use mathlib.Core.Option
use mathlib.Core.List.{Memᴰ}
use human_review_console.Models.{ReviewItem, is_terminal}
use human_review_console.Errors.{Result, ok, err, ◌>>=◌}

-- `to_jsonable` and `dataclass_from_jsonable` of the service kit, and the field of a document that
-- the query compares.
pub record Documents : Type 1 where
  pub Data : Type 0
  pub to_jsonable : ReviewItem → Data
  pub hydrate : Data → ReviewItem
  pub source_key : Data → String

-- The client's calls on the collection `tenants/<tenant>/reviews`.
pub record Client (Data : Type 0) : Type 1 where
  pub Database : Type 0
  pub empty : Database
  pub set : (tenant review_id : String) → Data → Database → Result Database
  pub document : (tenant review_id : String) → Database → Option Data
  pub stream : (tenant : String) → Database → List Data
  -- `where("request.source_key", "==", key).limit(1)`
  pub where_source_key : (tenant source_key : String) → Database → List Data

module _ (documents : Documents) (client : Client (documents.Data)) where
  open documents use {Data, to_jsonable, hydrate}

  unfoldable pub put : ReviewItem → client.Database → Result (client.Database)
  put item db = client.set item.tenant item.review_id (to_jsonable item) db

  abbrev pub first_of : List Data → Option ReviewItem
  first_of [] = none
  first_of (doc ∷ docs) = some (hydrate doc)

  -- `create_or_load`, the transaction's callback.
  unfoldable pub create_or_load :
      ReviewItem → client.Database → Result (ReviewItem × Bool × client.Database)
  create_or_load item db = elim (client.where_source_key item.tenant item.request.source_key db) [
    | doc ∷ docs ↦ ok (hydrate doc, false, db)
    | [] ↦
        (client.set item.tenant item.review_id (to_jsonable item) db >>= λ written.
        ok (item, true, written))
  ]

  unfoldable pub put_if_absent_by_source_key :
      ReviewItem → client.Database → Result (ReviewItem × Bool × client.Database)
  unfolding put create_or_load
  put_if_absent_by_source_key item db =
      if item.request.source_key == ""
      then (put item db >>= λ written. ok (item, true, written))
      else create_or_load item db

  unfoldable pub get : String → String → client.Database → Option ReviewItem
  get tenant review_id db = Option.map hydrate (client.document tenant review_id db)

  unfoldable pub find_by_source_key : String → String → client.Database → Option ReviewItem
  find_by_source_key tenant source_key db =
      if source_key == "" then none else first_of (client.where_source_key tenant source_key db)

  unfoldable pub list_all : String → client.Database → List ReviewItem
  list_all tenant db = map hydrate (client.stream tenant db)

  unfoldable pub list_pending : String → client.Database → List ReviewItem
  unfolding list_all
  list_pending tenant db = keep (λ item. not (is_terminal item)) (list_all tenant db)

-- What the code relies on: decoding undoes encoding, and a document keeps the field of the query.
pub record IsFaithful (documents : Documents) : Type 0 where
  pub hydrate-to_jsonable :
      (item : ReviewItem) → documents.hydrate (documents.to_jsonable item) ≡ item
  pub source_key-to_jsonable :
      (item : ReviewItem)
      → documents.source_key (documents.to_jsonable item) ≡ item.request.source_key

-- What Firestore documents of a collection: a write replaces one document; a stream is the
-- collection's documents.
pub record IsCollection {Data : Type 0} (client : Client Data) : Type 0 where
  pub document-empty :
      (tenant review_id : String) → client.document tenant review_id client.empty ≡ none
  pub document-set :
      (tenant review_id : String) (doc : Data) (db written : client.Database) (t k : String)
      → client.set tenant review_id doc db ≡ ok written
      → client.document t k written
        ≡ (if tenant == t && review_id == k then some doc else client.document t k db)
  pub of_mem-stream :
      (tenant : String) (doc : Data) (db : client.Database)
      → Memᴰ doc (client.stream tenant db)
      → (review_id : String) × (client.document tenant review_id db ≡ some doc)
  pub mem-stream_of :
      (tenant review_id : String) (doc : Data) (db : client.Database)
      → client.document tenant review_id db ≡ some doc
      → Memᴰ doc (client.stream tenant db)

-- And of a query with a limit of 1: it gives a document of the collection that matches, if one
-- does.
pub record IsFirestore (documents : Documents) (client : Client (documents.Data)) : Type 0 where
  pub collection : IsCollection client
  pub of_mem-where :
      (tenant source_key : String) (doc : documents.Data) (db : client.Database)
      → Memᴰ doc (client.where_source_key tenant source_key db)
      → (documents.source_key doc ≡ source_key)
        × ((review_id : String) × (client.document tenant review_id db ≡ some doc))
  pub where-matched :
      (tenant source_key review_id : String) (doc : documents.Data) (db : client.Database)
      → client.document tenant review_id db ≡ some doc
      → documents.source_key doc ≡ source_key
      → client.where_source_key tenant source_key db ≢ []
