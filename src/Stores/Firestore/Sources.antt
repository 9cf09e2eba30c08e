-- ===== src/Stores/Firestore/Sources.antt =====
-- The Firestore store by source keys.
use mathlib.Core.List.{Memᴰ}
use mathlib.Core.Option
use human_review_console.Prelude.{
  String, Bool, true, false, ◌≡◌, ◌≢◌, ◌&&◌, refl, sym, ap, ◌∙◌, none, some, [], ◌==◌, inl, inr,
  eq_iff, eq_ne, arith, if◌then◌else◌, Bool-cases, Option-cases,
}
use human_review_console.Models.{ReviewItem}
use human_review_console.Errors.{ok, ◌>>=◌, bind_ok}
use human_review_console.Stores.ReviewPort.{is_key}
use human_review_console.Stores.Firestore.{
  Documents, Client, IsFaithful, IsFirestore, put, create_or_load, put_if_absent_by_source_key, get,
  find_by_source_key,
}
use human_review_console.Stores.Firestore.Valid.{List-cases, IsValid, set-IsValid, get-set}

module _ (documents : Documents) (client : Client (documents.Data))
    (faithful : IsFaithful documents) (laws : IsFirestore documents client) where
  open documents use {Data, to_jsonable, hydrate}

  pub find-scoped :
      (item : ReviewItem) (s : client.Database) (tenant source_key : String)
      → IsValid documents client s
      → find_by_source_key documents client tenant source_key s ≡ some item
      → (item.tenant ≡ tenant)
        × (item.request.source_key ≡ source_key)
        × (get documents client tenant item.review_id s ≡ some item)
  unfolding find_by_source_key get
  find-scoped item s tenant source_key v h = elim (Bool-cases (source_key == "")) [
    | inl unkeyed ↦ cc (rw unkeyed at h)
    | inr keyed ↦ elim (List-cases (client.where_source_key tenant source_key s)) [
      | inl nothing ↦ cc (rw (keyed, nothing) at h)
      | inr (doc, docs, there) ↦
          let (matched, (k, found)) =
            laws.of_mem-where tenant source_key doc s (rw there (Memᴰ.head refl)) in
          let same : hydrate doc ≡ item = cc (rw (keyed, there) at h) in
          let (encoded, placed) = v tenant k doc found in
          let own : is_key item tenant k ≡ true =
            ap (λ (i : ReviewItem). is_key i tenant k) (sym same) ∙ placed in
          let key : item.review_id ≡ k = ground (arith, eq_iff item.review_id k) in
          (
            ground (arith, eq_iff item.tenant tenant),
            sym (faithful.source_key-to_jsonable item)
                ∙ ap documents.source_key (ap to_jsonable (sym same) ∙ sym encoded)
                ∙ matched,
            ap (λ (x : String). Option.map hydrate (client.document tenant x s)) key
                ∙ rw found (ap some same),
          )
    ]
  ]

  pub find-missing :
      (item : ReviewItem) (s : client.Database) (tenant : String)
      → IsValid documents client s
      → item.request.source_key ≢ ""
      → get documents client tenant item.review_id s ≡ some item
      → find_by_source_key documents client tenant item.request.source_key s ≢ none
  unfolding find_by_source_key get
  find-missing item s tenant v k h absent =
      let keyed = eq_ne item.request.source_key "" k in
      elim (Option-cases (client.document tenant item.review_id s)) [
        | inl missing ↦ cc (rw missing at h)
        | inr (doc, found) ↦
            let same : hydrate doc ≡ item = cc (rw found at h) in
            let source : documents.source_key doc ≡ item.request.source_key =
              ap documents.source_key ((v tenant item.review_id doc found).0 ∙ ap to_jsonable same)
              ∙ faithful.source_key-to_jsonable item in
            elim (List-cases (client.where_source_key tenant item.request.source_key s)) [
              | inl nothing ↦
                  laws.where-matched tenant item.request.source_key item.review_id doc s found
                    source nothing
              | inr (other, docs, there) ↦ cc (rw (keyed, there) at absent)
            ]
      ]

  pub absent-unkeyed :
      (item : ReviewItem) (s : client.Database)
      → item.request.source_key ≡ ""
      → put_if_absent_by_source_key documents client item s
        ≡ (put documents client item s >>= λ t. ok (item, true, t))
  unfolding put_if_absent_by_source_key
  absent-unkeyed item s h = rw ((eq_iff item.request.source_key "").1 h) refl

  pub absent-found :
      (item old : ReviewItem) (s : client.Database)
      → item.request.source_key ≢ ""
      → find_by_source_key documents client item.tenant item.request.source_key s ≡ some old
      → put_if_absent_by_source_key documents client item s ≡ ok (old, false, s)
  unfolding put_if_absent_by_source_key find_by_source_key create_or_load
  absent-found item old s k h =
      let keyed = eq_ne item.request.source_key "" k in
      elim (List-cases (client.where_source_key item.tenant item.request.source_key s)) [
        | inl nothing ↦ cc (rw (keyed, nothing) at h)
        | inr (doc, docs, there) ↦
            let same : hydrate doc ≡ old = cc (rw (keyed, there) at h) in
            rw keyed (rw (there, create_or_load) (rw same refl))
      ]

  -- A document that the query finds after a write of a source key that nothing had is the one
  -- that was written.
  written_found :
      (item : ReviewItem) (s t : client.Database) (doc : Data)
      → client.where_source_key item.tenant item.request.source_key s ≡ []
      → client.set item.tenant item.review_id (to_jsonable item) s ≡ ok t
      → Memᴰ doc (client.where_source_key item.tenant item.request.source_key t)
      → hydrate doc ≡ item
  written_found item s t doc nothing h m =
      let (keyed, (k, found)) = laws.of_mem-where item.tenant item.request.source_key doc t m in
      let after =
        laws.collection.document-set item.tenant item.review_id (to_jsonable item) s t item.tenant k
          h in
      elim (Bool-cases (item.tenant == item.tenant && item.review_id == k)) [
        | inl own ↦
            let same : to_jsonable item ≡ doc = cc (sym (rw own at after) ∙ found) in
            ap hydrate (sym same) ∙ faithful.hydrate-to_jsonable item
        | inr other ↦
            let before : client.document item.tenant k s ≡ some doc =
              sym (rw other at after) ∙ found in
            elim (laws.where-matched item.tenant item.request.source_key k doc s before keyed
              nothing) [ ]
      ]

  pub absent-new :
      (item stored : ReviewItem) (created : Bool) (s t : client.Database)
      → IsValid documents client s
      → item.request.source_key ≢ ""
      → find_by_source_key documents client item.tenant item.request.source_key s ≡ none
      → put_if_absent_by_source_key documents client item s ≡ ok (stored, created, t)
      → (stored ≡ item)
        × (created ≡ true)
        × IsValid documents client t
        × (find_by_source_key documents client item.tenant item.request.source_key t ≡ some item)
        × ((tenant review_id : String)
            → get documents client tenant review_id t ≡ (
                if is_key item tenant review_id
                then some item
                else get documents client tenant review_id s))
  unfolding put_if_absent_by_source_key find_by_source_key create_or_load
  absent-new item stored created s t v k missing e =
      let keyed = eq_ne item.request.source_key "" k in
      elim (List-cases (client.where_source_key item.tenant item.request.source_key s)) [
        | inr (doc, docs, there) ↦ cc (rw (keyed, there) at missing)
        | inl nothing ↦
            let (written, set, made) =
              bind_ok (client.set item.tenant item.review_id (to_jsonable item) s)
                (λ db. ok (item, true, db)) (rw (keyed, nothing, create_or_load) at e) in
            let end : written ≡ t = cc made in
            let put_t : client.set item.tenant item.review_id (to_jsonable item) s ≡ ok t =
              set ∙ ap (λ (x : client.Database). ok x) end in
            let own : client.document item.tenant item.review_id t ≡ some (to_jsonable item) =
              laws.collection.document-set item.tenant item.review_id (to_jsonable item) s t
                item.tenant item.review_id put_t
              ∙ rw
                  (
                    (eq_iff item.tenant item.tenant).1 refl,
                    (eq_iff item.review_id item.review_id).1 refl,
                  )
                  refl in
            (
              cc made,
              cc made,
              set-IsValid documents client faithful laws item s t v put_t,
              rw keyed
                  (elim (List-cases
                    (client.where_source_key item.tenant item.request.source_key t)) [
                      | inl none_there ↦
                          elim (laws.where-matched item.tenant item.request.source_key
                            item.review_id (to_jsonable item) t own
                            (faithful.source_key-to_jsonable item) none_there) [ ]
                      | inr (doc, docs, there) ↦ rw there (
                          ap some
                            (written_found item s t doc nothing put_t (rw there (Memᴰ.head refl))))
                    ]),
              λ tenant review_id.
                  get-set documents client faithful laws item s t tenant review_id put_t,
            )
      ]
