-- ===== src/Tests/Firestores.antt =====
-- Firestore as a list of documents with their tenants and ids, newest first.
use mathlib.Core.List.{Memᴰ}
use mathlib.Core.List.Memᴰ
use human_review_console.Prelude.{
  String, true, ◌&&◌, ◌≡◌, ◌≢◌, refl, sym, ◌∙◌, ap, Option, none, some, List, [], ◌∷◌, ◌==◌, eq_iff,
  arith, Bool-cases, Option-cases, inl, inr, if◌then◌else◌,
}
use human_review_console.Models.{ReviewItem}
use human_review_console.Errors.{Result, ok}
use human_review_console.Stores.ReviewPort.{IsLawful}
use human_review_console.Stores.Firestore.{Documents, Client, IsFaithful, IsCollection, IsFirestore}
use human_review_console.Stores.Firestore.Lawful.{firestore_reviews, firestore_reviews-IsLawful}

abbrev plain : Documents
plain = record {
  Data = ReviewItem;
  to_jsonable = λ item. item;
  hydrate = λ item. item;
  source_key = λ item. item.request.source_key;
}

pub record Entry (Data : Type 0) : Type 0 where
  pub tenant : String
  pub review_id : String
  pub item : Data

module _ {Data : Type 0} where
  abbrev pub document : String → String → List (Entry Data) → Option Data
  document tenant review_id [] = none
  document tenant review_id (e ∷ es) =
      if e.tenant == tenant && e.review_id == review_id
      then some (e.item)
      else document tenant review_id es

  abbrev pub without : String → String → List (Entry Data) → List (Entry Data)
  without tenant review_id [] = []
  without tenant review_id (e ∷ es) =
      if e.tenant == tenant && e.review_id == review_id
      then without tenant review_id es
      else e ∷ without tenant review_id es

  abbrev pub set : String → String → Data → List (Entry Data) → List (Entry Data)
  set tenant review_id item es =
      record { tenant = tenant; review_id = review_id; item = item } ∷ without tenant review_id es

  -- The documents under the keys of the entries.
  abbrev pub collect : String → List (Entry Data) → List (Entry Data) → List Data
  collect tenant [] all = []
  collect tenant (e ∷ es) all =
      let rest = collect tenant es all in
      elim (document tenant e.review_id all) [ none ↦ rest | some item ↦ item ∷ rest ]

  abbrev pub listed : (String → List Data → List Data) → Client Data
  listed matching = record {
    Database = List (Entry Data);
    empty = [];
    set = λ tenant review_id item es. ok (set tenant review_id item es);
    document = document;
    stream = λ tenant es. collect tenant es es;
    where_source_key = λ tenant source_key es. matching source_key (collect tenant es es);
  }

  document-without :
      (tenant review_id : String) (es : List (Entry Data)) (t k : String)
      → document t k (without tenant review_id es)
        ≡ (if tenant == t && review_id == k then none else document t k es)
  document-without tenant review_id [] t k = ground arith
  document-without tenant review_id (e ∷ es) t k = ground (
    arith,
    document-without tenant review_id es t k,
    eq_iff e.tenant tenant,
    eq_iff e.review_id review_id,
    eq_iff tenant t,
    eq_iff review_id k,
  )

  document-set :
      (tenant review_id : String) (doc : Data) (db written : List (Entry Data)) (t k : String)
      → ◌≡◌ {A = Result (List (Entry Data))} (ok (set tenant review_id doc db)) (ok written)
      → document t k written ≡ (if tenant == t && review_id == k then some doc else document t k db)
  document-set tenant review_id doc db written t k h =
      let same : set tenant review_id doc db ≡ written = cc h in
      rw (← same) (ground (arith, document-without tenant review_id db t k))

  of_mem-collect :
      (tenant : String) (doc : Data) (es all : List (Entry Data))
      → Memᴰ doc (collect tenant es all)
      → (review_id : String) × (document tenant review_id all ≡ some doc)
  of_mem-collect tenant doc [] all m = elim m [ ]
  of_mem-collect tenant doc (e ∷ es) all m = elim (Option-cases (document tenant e.review_id all)) [
    | inl missing ↦ of_mem-collect tenant doc es all (rw (missing, collect) at m)
    | inr (item, found) ↦ elim (Memᴰ.cases_cons (rw (found, collect) at m)) [
      | inl same ↦ (e.review_id, found ∙ ap some (sym same))
      | inr n ↦ of_mem-collect tenant doc es all n
    ]
  ]

  -- A document that is found is that of some entry's key, so it is collected.
  mem-collect_of :
      (tenant review_id : String) (doc seen : Data) (es all : List (Entry Data))
      → document tenant review_id es ≡ some seen
      → document tenant review_id all ≡ some doc
      → Memᴰ doc (collect tenant es all)
  mem-collect_of tenant review_id doc seen [] all h found = cc h
  mem-collect_of tenant review_id doc seen (e ∷ es) all h found =
      elim (Bool-cases (e.tenant == tenant && e.review_id == review_id)) [
        | inl own ↦
            let same : e.review_id ≡ review_id = ground (arith, eq_iff e.review_id review_id) in
            let there : document tenant e.review_id all ≡ some doc =
              ap (λ (k : String). document tenant k all) same ∙ found in
            rw (there, collect) (Memᴰ.head refl)
        | inr other ↦
            let further = mem-collect_of tenant review_id doc seen es all (rw other at h) found in
            elim (Option-cases (document tenant e.review_id all)) [
              | inl missing ↦ rw (missing, collect) further
              | inr (item, there) ↦ rw (there, collect) (Memᴰ.tail further)
            ]
      ]

  pub listed-IsCollection :
      (matching : String → List Data → List Data) → IsCollection (listed matching)
  listed-IsCollection matching = record {
    document-empty = λ tenant review_id. refl;
    document-set = document-set;
    of_mem-stream = λ tenant doc db m. of_mem-collect tenant doc db db m;
    mem-stream_of = λ tenant review_id doc db h. mem-collect_of tenant review_id doc doc db db h h;
  }

abbrev matching : String → List ReviewItem → List ReviewItem
matching source_key [] = []
matching source_key (i ∷ is) =
    let rest = matching source_key is in if i.request.source_key == source_key then i ∷ [] else rest

of_mem-matching :
    (source_key : String) (doc : ReviewItem) (is : List ReviewItem)
    → Memᴰ doc (matching source_key is)
    → (doc.request.source_key ≡ source_key) × Memᴰ doc is
of_mem-matching source_key doc [] m = elim m [ ]
of_mem-matching source_key doc (i ∷ is) m = elim (Bool-cases (i.request.source_key == source_key)) [
  | inl own ↦ elim (Memᴰ.cases_cons (rw own at m)) [
    | inl same ↦ (
      ap (λ (x : ReviewItem). x.request.source_key) same
          ∙ (eq_iff i.request.source_key source_key).0 own,
      Memᴰ.head same,
    )
    | inr n ↦ elim n [ ]
  ]
  | inr other ↦
      let (keyed, n) = of_mem-matching source_key doc is (rw other at m) in (keyed, Memᴰ.tail n)
]

matching-found :
    (source_key : String) (doc : ReviewItem) (is : List ReviewItem)
    → Memᴰ doc is
    → doc.request.source_key ≡ source_key
    → matching source_key is ≢ []
matching-found source_key doc [] m keyed none_there = elim m [ ]
matching-found source_key doc (i ∷ is) m keyed none_there =
    elim (Bool-cases (i.request.source_key == source_key)) [
      | inl own ↦ cc (rw own at none_there)
      | inr other ↦ elim (Memᴰ.cases_cons m) [
        | inl same ↦
            let again : (i.request.source_key == source_key) ≡ true =
              (eq_iff i.request.source_key source_key).1
                (ap (λ (x : ReviewItem). x.request.source_key) (sym same) ∙ keyed) in
            cc (sym other ∙ again)
        | inr n ↦ matching-found source_key doc is n keyed (rw other at none_there)
      ]
    ]

plain-IsFaithful : IsFaithful plain
plain-IsFaithful = record {
  hydrate-to_jsonable = λ item. refl;
  source_key-to_jsonable = λ item. refl;
}

listed-IsFirestore : IsFirestore plain (listed matching)
listed-IsFirestore = record {
  collection = listed-IsCollection matching;
  of_mem-where = λ tenant source_key doc db m.
      let (keyed, n) = of_mem-matching source_key doc (collect tenant db db) m in
      (keyed, of_mem-collect tenant doc db db n);
  where-matched = λ tenant source_key review_id doc db h keyed.
      matching-found source_key doc (collect tenant db db)
        (mem-collect_of tenant review_id doc doc db db h h) keyed;
}

firestore_reviews-IsLawful_example : IsLawful (firestore_reviews plain (listed matching))
firestore_reviews-IsLawful_example =
    firestore_reviews-IsLawful plain (listed matching) plain-IsFaithful listed-IsFirestore
