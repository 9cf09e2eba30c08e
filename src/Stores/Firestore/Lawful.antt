-- ===== src/Stores/Firestore/Lawful.antt =====
-- What the Firestore store keeps of the promises of the review store's port.
use mathlib.Core.List.{Memᴰ}
use mathlib.Core.Option
use human_review_console.Prelude.{
  String, true, ◌≡◌, ◌↔◌, refl, sym, ap, ◌∙◌, some, inl, inr, eq_iff, arith, Option-cases,
  mem-map_of, of_mem-map,
}
use human_review_console.Models.{ReviewItem}
use human_review_console.Stores.ReviewPort.{ReviewStorePort, IsLawful, is_key}
use human_review_console.Stores.Firestore.{
  Documents, Client, IsFaithful, IsFirestore, put, put_if_absent_by_source_key, get,
  find_by_source_key, list_all, list_pending,
}
use human_review_console.Stores.Firestore.Valid.{IsValid, set-IsValid, get-set, get-scoped}
use human_review_console.Stores.Firestore.Sources.{
  find-scoped, find-missing, absent-unkeyed, absent-found, absent-new,
}

module _ (documents : Documents) (client : Client (documents.Data))
    (faithful : IsFaithful documents) (laws : IsFirestore documents client) where
  open documents use {Data, to_jsonable, hydrate}

  mem-list_all :
      (item : ReviewItem) (s : client.Database) (tenant : String)
      → IsValid documents client s
      → Memᴰ item (list_all documents client tenant s)
        ↔ (get documents client tenant item.review_id s ≡ some item)
  unfolding list_all get
  mem-list_all item s tenant v = (
    (λ m.
        let (doc, streamed, same) = of_mem-map hydrate item (client.stream tenant s) m in
        let (k, found) = laws.collection.of_mem-stream tenant doc s streamed in
        let key : item.review_id ≡ k =
          (let own : is_key item tenant k ≡ true =
              ap (λ (i : ReviewItem). is_key i tenant k) (sym same) ∙ (v tenant k doc found).1 in
            ground (arith, eq_iff item.review_id k)) in
        ap (λ (x : String). Option.map hydrate (client.document tenant x s)) key
        ∙ rw found (ap some same)),
    (λ h. elim (Option-cases (client.document tenant item.review_id s)) [
      | inl missing ↦ cc (rw missing at h)
      | inr (doc, found) ↦
          let same : hydrate doc ≡ item = cc (rw found at h) in
          rw same at (
            mem-map_of hydrate doc (client.stream tenant s)
              (laws.collection.mem-stream_of tenant item.review_id doc s found))
    ]),
  )

-- The Firestore store, behind its port.
abbrev pub firestore_reviews : (documents : Documents) → Client (documents.Data) → ReviewStorePort
firestore_reviews documents client = record {
  Store = client.Database;
  empty = client.empty;
  put = put documents client;
  put_if_absent_by_source_key = put_if_absent_by_source_key documents client;
  get = get documents client;
  find_by_source_key = find_by_source_key documents client;
  list_pending = list_pending documents client;
  list_all = list_all documents client;
}

-- If decoding undoes encoding and the client does what Firestore documents, the Firestore store does
-- what the console relies on: a write changes its own key alone, a source key is taken once and
-- finds an item of its tenant that has it, and a listing holds exactly the tenant's items. Nothing
-- is said of the order of a listing.
pub firestore_reviews-IsLawful :
    (documents : Documents) (client : Client (documents.Data))
    → IsFaithful documents
    → IsFirestore documents client
    → IsLawful (firestore_reviews documents client)
firestore_reviews-IsLawful documents client faithful laws = record {
  IsValid = IsValid documents client;
  empty-IsValid = λ tenant review_id doc found.
      cc (sym (laws.collection.document-empty tenant review_id) ∙ found);
  get-empty =
      λ tenant review_id. unfold get in rw (laws.collection.document-empty tenant review_id) refl;
  put-IsValid =
      λ item s t v h. unfold put in set-IsValid documents client faithful laws item s t v h;
  get-put = λ item s t tenant review_id h.
      unfold put in get-set documents client faithful laws item s t tenant review_id h;
  get-scoped = get-scoped documents client faithful laws;
  find-unkeyed = λ s tenant. unfold find_by_source_key in refl;
  find-scoped = find-scoped documents client faithful laws;
  find-missing = find-missing documents client faithful laws;
  absent-unkeyed = absent-unkeyed documents client faithful laws;
  absent-found = absent-found documents client faithful laws;
  absent-new = absent-new documents client faithful laws;
  mem-list_all = mem-list_all documents client faithful laws;
  list_pending_lem = λ s tenant. unfold list_pending in refl;
}
