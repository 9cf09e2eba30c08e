-- ===== src/Stores/ReviewPort.antt =====
-- ports/review_store.py: what a review store offers, and what it promises to the console.
use mathlib.Core.List.{Memᴰ}
use human_review_console.Prelude.{
  String, Bool, true, false, ◌&&◌, not, ◌≡◌, ◌≢◌, ◌↔◌, Option, none, some, List, [], ◌∷◌, ◌==◌,
  keep, All, Bool-cases, inl, inr, if◌then◌else◌,
}
use human_review_console.Time.{before}
use human_review_console.Models.{ReviewItem, is_terminal}
use human_review_console.Errors.{Result, ok, ◌>>=◌}

pub record ReviewStorePort : Type 1 where
  pub Store : Type 0
  pub empty : Store
  pub put : ReviewItem → Store → Result Store
  pub put_if_absent_by_source_key : ReviewItem → Store → Result (ReviewItem × Bool × Store)
  pub get : String → String → Store → Option ReviewItem
  pub find_by_source_key : String → String → Store → Option ReviewItem
  pub list_pending : String → Store → List ReviewItem
  pub list_all : String → Store → List ReviewItem

abbrev pub is_key : ReviewItem → String → String → Bool
is_key item tenant review_id = item.tenant == tenant && item.review_id == review_id

-- No item was submitted before one that it follows.
abbrev pub IsOldestFirst : List ReviewItem → Type 0
IsOldestFirst [] = Unit
IsOldestFirst (x ∷ xs) =
    All (λ (y : ReviewItem). before y.request.submitted_at x.request.submitted_at ≡ false) xs
    × IsOldestFirst xs

pub keep-IsOldestFirst :
    (p : ReviewItem → Bool) (xs : List ReviewItem) → IsOldestFirst xs → IsOldestFirst (keep p xs)
keep-IsOldestFirst p [] h = tt
keep-IsOldestFirst p (x ∷ xs) (after, rest) =
    let more = keep-IsOldestFirst p xs rest in
    elim (Bool-cases (p x)) [
      | inl kept ↦ rw kept (
        All-keep (λ (y : ReviewItem). before y.request.submitted_at x.request.submitted_at ≡ false)
            p xs after,
        more,
      )
      | inr dropped ↦ rw dropped more
    ]
  where
    All-keep :
        (P : ReviewItem → Type 0) (q : ReviewItem → Bool) (ys : List ReviewItem)
        → All P ys
        → All P (keep q ys)
    All-keep P q [] h = tt
    All-keep P q (y ∷ ys) (h, k) = elim (Bool-cases (q y)) [
      | inl kept ↦ rw kept (h, All-keep P q ys k)
      | inr dropped ↦ rw dropped (All-keep P q ys k)
    ]

-- What the console relies on: a key names one item, within its tenant; a write changes its own key
-- alone; a source key is taken once and finds an item of its tenant that has it; a listing holds the
-- tenant's items.
pub record IsLawful (port : ReviewStorePort) : Type 1 where
  pub IsValid : port.Store → Type 0
  pub empty-IsValid : IsValid port.empty
  pub get-empty : (tenant review_id : String) → port.get tenant review_id port.empty ≡ none
  pub put-IsValid :
      (item : ReviewItem) (s t : port.Store) → IsValid s → port.put item s ≡ ok t → IsValid t
  pub get-put :
      (item : ReviewItem) (s t : port.Store) (tenant review_id : String)
      → port.put item s ≡ ok t
      → port.get tenant review_id t
        ≡ (if is_key item tenant review_id then some item else port.get tenant review_id s)
  pub get-scoped :
      (item : ReviewItem) (s : port.Store) (tenant review_id : String)
      → IsValid s
      → port.get tenant review_id s ≡ some item
      → is_key item tenant review_id ≡ true
  pub find-unkeyed : (s : port.Store) (tenant : String) → port.find_by_source_key tenant "" s ≡ none
  pub find-scoped :
      (item : ReviewItem) (s : port.Store) (tenant source_key : String)
      → IsValid s
      → port.find_by_source_key tenant source_key s ≡ some item
      → (item.tenant ≡ tenant)
        × (item.request.source_key ≡ source_key)
        × (port.get tenant item.review_id s ≡ some item)
  pub find-missing :
      (item : ReviewItem) (s : port.Store) (tenant : String)
      → IsValid s
      → item.request.source_key ≢ ""
      → port.get tenant item.review_id s ≡ some item
      → port.find_by_source_key tenant item.request.source_key s ≢ none
  pub absent-unkeyed :
      (item : ReviewItem) (s : port.Store)
      → item.request.source_key ≡ ""
      → port.put_if_absent_by_source_key item s ≡ (port.put item s >>= λ t. ok (item, true, t))
  pub absent-found :
      (item old : ReviewItem) (s : port.Store)
      → item.request.source_key ≢ ""
      → port.find_by_source_key item.tenant item.request.source_key s ≡ some old
      → port.put_if_absent_by_source_key item s ≡ ok (old, false, s)
  pub absent-new :
      (item stored : ReviewItem) (created : Bool) (s t : port.Store)
      → IsValid s
      → item.request.source_key ≢ ""
      → port.find_by_source_key item.tenant item.request.source_key s ≡ none
      → port.put_if_absent_by_source_key item s ≡ ok (stored, created, t)
      → (stored ≡ item)
        × (created ≡ true)
        × IsValid t
        × (port.find_by_source_key item.tenant item.request.source_key t ≡ some item)
        × ((tenant review_id : String)
            → port.get tenant review_id t
              ≡ (if is_key item tenant review_id then some item else port.get tenant review_id s))
  pub mem-list_all :
      (item : ReviewItem) (s : port.Store) (tenant : String)
      → IsValid s
      → Memᴰ item (port.list_all tenant s) ↔ (port.get tenant item.review_id s ≡ some item)
  pub list_pending_lem :
      (s : port.Store) (tenant : String)
      → port.list_pending tenant s ≡ keep (λ item. not (is_terminal item)) (port.list_all tenant s)

-- Every promise of the port: the order of the listings too.
pub record IsReviewStore (port : ReviewStorePort) : Type 1 where
  pub lawful : IsLawful port
  pub list_all-IsOldestFirst :
      (s : port.Store) (tenant : String) → lawful.IsValid s → IsOldestFirst (port.list_all tenant s)
  pub list_pending-IsOldestFirst :
      (s : port.Store) (tenant : String)
      → lawful.IsValid s
      → IsOldestFirst (port.list_pending tenant s)
