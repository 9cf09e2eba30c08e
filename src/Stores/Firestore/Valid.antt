-- ===== src/Stores/Firestore/Valid.antt =====
-- The documents of the Firestore store as the items that they encode.
use human_review_console.Prelude.{
  String, true, ◌≡◌, ◌&&◌, refl, sym, ap, ◌∙◌, some, List, [], ◌∷◌, ◌==◌, inl, inr, ◌⊎◌,
  if◌then◌else◌, Bool-cases, Option-cases,
}
use human_review_console.Models.{ReviewItem}
use human_review_console.Errors.{ok}
use human_review_console.Stores.ReviewPort.{is_key}
use human_review_console.Stores.Firestore.{Documents, Client, IsFaithful, IsFirestore, get}

pub List-cases :
    {A : Type 0} (xs : List A) → (xs ≡ []) ⊎ ((x : A) × (rest : List A) × (xs ≡ x ∷ rest))
List-cases [] = inl refl
List-cases (x ∷ rest) = inr (x, rest, refl)

module _ (documents : Documents) (client : Client (documents.Data)) where
  open documents use {Data, to_jsonable, hydrate}

  -- Each document is the encoding of an item, at the item's key.
  abbrev pub IsValid : client.Database → Type 0
  IsValid db =
      (tenant review_id : String) (doc : Data)
      → client.document tenant review_id db ≡ some doc
      → (doc ≡ to_jsonable (hydrate doc)) × (is_key (hydrate doc) tenant review_id ≡ true)

  module _ (faithful : IsFaithful documents) (laws : IsFirestore documents client) where
    pub set-IsValid :
        (item : ReviewItem) (s t : client.Database)
        → IsValid s
        → client.set item.tenant item.review_id (to_jsonable item) s ≡ ok t
        → IsValid t
    set-IsValid item s t v h tenant review_id doc found =
        let after =
          laws.collection.document-set item.tenant item.review_id (to_jsonable item) s t tenant
            review_id h in
        let back = faithful.hydrate-to_jsonable item in
        elim (Bool-cases (item.tenant == tenant && item.review_id == review_id)) [
          | inl own ↦
              let same : to_jsonable item ≡ doc = cc (sym (rw own at after) ∙ found) in
              (
                sym same ∙ ap to_jsonable (sym back ∙ ap hydrate same),
                ap (λ (i : ReviewItem). is_key i tenant review_id) (ap hydrate (sym same) ∙ back)
                    ∙ own,
              )
          | inr other ↦ v tenant review_id doc (sym (rw other at after) ∙ found)
        ]

    pub get-set :
        (item : ReviewItem) (s t : client.Database) (tenant review_id : String)
        → client.set item.tenant item.review_id (to_jsonable item) s ≡ ok t
        → get documents client tenant review_id t ≡ (
            if is_key item tenant review_id
            then some item
            else get documents client tenant review_id s)
    unfolding get
    get-set item s t tenant review_id h =
        rw
          (laws.collection.document-set item.tenant item.review_id (to_jsonable item) s t tenant
            review_id h)
          (elim (Bool-cases (item.tenant == tenant && item.review_id == review_id)) [
            | inl own ↦ rw own (ap some (faithful.hydrate-to_jsonable item))
            | inr other ↦ rw other refl
          ])

    pub get-scoped :
        (item : ReviewItem) (s : client.Database) (tenant review_id : String)
        → IsValid s
        → get documents client tenant review_id s ≡ some item
        → is_key item tenant review_id ≡ true
    unfolding get
    get-scoped item s tenant review_id v h =
        elim (Option-cases (client.document tenant review_id s)) [
          | inl missing ↦ cc (rw missing at h)
          | inr (doc, found) ↦
              let same : hydrate doc ≡ item = cc (rw found at h) in
              ap (λ (i : ReviewItem). is_key i tenant review_id) (sym same)
              ∙ (v tenant review_id doc found).1
        ]
