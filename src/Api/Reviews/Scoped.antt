-- ===== src/Api/Reviews/Scoped.antt =====
-- The reviews that the routes show are those of the principal's tenant.
use mathlib.Core.List.{Memᴰ}
use human_review_console.Prelude.{
  ℕ, String, true, ◌≡◌, refl, sym, ◌∙◌, ap, some, inl, inr, arith, eq_iff, of_mem-map, Option-cases,
}
use human_review_console.Time.{Datetime}
use human_review_console.Kernel.{Disposition, approve, reject, amend, state_value}
use human_review_console.Models.{ReviewItem, ReviewDecision}
use human_review_console.Errors.{ok}
use human_review_console.MakerChecker.{RoutingPolicy, apply_disposition}
use human_review_console.Stores.ReviewPort.{ReviewStorePort, IsLawful, is_key}
use human_review_console.Console.{World, with_effective_routing, list_queue, get}
use human_review_console.Console.Routing.{with_effective_routing_lem}
use human_review_console.Console.Queue.{list_queue_iff}
use human_review_console.Identity.{Principal}
use human_review_console.Api.Schemas.{
  DecisionRequest, DecisionResponse, ReviewItemModel, item_model,
}
use human_review_console.Api.Reviews.{list_reviews, get_review, decide_review}
use human_review_console.Api.Reviews.Decisions.{decide_review_lem}

-- A disposition keeps the tenant.
apply-tenant :
    (policy : RoutingPolicy) (item : ReviewItem) (d : ReviewDecision) (stamp : Datetime)
    (disposition : Disposition)
    → (apply_disposition policy item d stamp disposition).tenant ≡ item.tenant
unfolding apply_disposition
apply-tenant policy item d stamp approve = refl
apply-tenant policy item d stamp reject = refl
apply-tenant policy item d stamp amend = refl

routed-tenant :
    (policy : RoutingPolicy) (item : ReviewItem)
    → (with_effective_routing policy item).tenant ≡ item.tenant
routed-tenant policy item =
    ap (λ (i : ReviewItem). i.tenant) (with_effective_routing_lem policy item)

item_model-tenant : (item : ReviewItem) → (item_model item).tenant ≡ item.tenant
unfolding item_model
item_model-tenant item = refl

item_model-state : (item : ReviewItem) → (item_model item).state ≡ state_value item.state
unfolding item_model
item_model-state item = refl

module _ (port : ReviewStorePort) (lawful : IsLawful port) (redact : String → String)
    (policy : RoutingPolicy) (actor : Principal → String) where
  found-tenant :
      (tenant review_id : String) (w : World port) (item : ReviewItem)
      → lawful.IsValid w.store
      → port.get tenant review_id w.store ≡ some item
      → item.tenant ≡ tenant
  found-tenant tenant review_id w item valid found =
      let key : is_key item tenant review_id ≡ true =
        lawful.get-scoped item w.store tenant review_id valid found in
      ground (arith, eq_iff item.tenant tenant)

  shown_one :
      (p : Principal) (review_id : String) (w v : World port) (m : ReviewItemModel)
      → lawful.IsValid w.store
      → get_review port redact policy actor p review_id w ≡ (ok m, v)
      → (m.tenant ≡ p.tenant) × (v ≡ w)
  unfolding get_review get
  shown_one p review_id w v m valid h = elim (Option-cases (port.get p.tenant review_id w.store)) [
    | inl missing ↦ cc (simp missing at h)
    | inr (item, found) ↦
        let same : item_model (with_effective_routing policy item) ≡ m = cc (simp found at h) in
        let world : w ≡ v = cc (simp found at h) in
        (
          ap (λ (x : ReviewItemModel). x.tenant) (sym same)
              ∙ item_model-tenant (with_effective_routing policy item)
              ∙ routed-tenant policy item
              ∙ found-tenant p.tenant review_id w item valid found,
          sym world,
        )
  ]

  listed_one :
      (p : Principal) (w : World port) (m : ReviewItemModel)
      → lawful.IsValid w.store
      → Memᴰ m (list_reviews port redact policy actor p w)
      → (m.tenant ≡ p.tenant) × (m.state ≡ "pending")
  unfolding list_reviews
  listed_one p w m valid listed =
      let (item, queued, same) =
        of_mem-map item_model m (list_queue port redact policy p.tenant w) listed in
      let (stored, found, own, open_state, routed) =
        (list_queue_iff port lawful redact policy p.tenant w item valid).0 queued in
      (
        ap (λ (x : ReviewItemModel). x.tenant) (sym same)
            ∙ item_model-tenant item
            ∙ ap (λ (i : ReviewItem). i.tenant) routed
            ∙ routed-tenant policy stored
            ∙ own,
        ap (λ (x : ReviewItemModel). x.state) (sym same)
            ∙ item_model-state item
            ∙ ap (λ (i : ReviewItem). state_value i.state) routed
            ∙ ap (λ (i : ReviewItem). state_value i.state)
                (with_effective_routing_lem policy stored)
            ∙ ap state_value open_state,
      )

  -- Over a store in its invariant, every review that a route shows to a principal is one of the
  -- principal's tenant: the one that is read, which changes nothing; each one of the queue, which
  -- is pending; and the one that a decision answers, with 200 or with 403.
  pub shown_in_tenant :
      (p : Principal) (review_id : String) (body : DecisionRequest) (now b : Datetime)
      (w : World port)
      → lawful.IsValid w.store
      → ((m : ReviewItemModel) (v : World port)
          → get_review port redact policy actor p review_id w ≡ (ok m, v)
          → (m.tenant ≡ p.tenant) × (v ≡ w))
        × ((m : ReviewItemModel)
            → Memᴰ m (list_reviews port redact policy actor p w)
            → (m.tenant ≡ p.tenant) × (m.state ≡ "pending"))
        × ((status : ℕ) (response : DecisionResponse) (v : World port)
            → decide_review port redact policy actor p review_id body now b w
              ≡ (ok (status, response), v)
            → response.item.tenant ≡ p.tenant)
  shown_in_tenant p review_id body now b w valid = (
    (λ m v h. shown_one p review_id w v m valid h),
    (λ m listed. listed_one p w m valid listed),
    (λ status response v h.
        let (missing, resolved, answered) =
          decide_review_lem port lawful redact policy actor p review_id body now b w in
        let (stored, found, cases) = answered status response v h in
        let own =
          routed-tenant policy stored ∙ found-tenant p.tenant review_id w stored valid found in
        elim cases [
          | inl (code, eligible, shown, put) ↦
              ap (λ (x : ReviewItemModel). x.tenant) shown
              ∙ item_model-tenant _
              ∙ apply-tenant policy (with_effective_routing policy stored) _ _ _
              ∙ own
          | inr (code, reasons, listed, shown, kept) ↦
              ap (λ (x : ReviewItemModel). x.tenant) shown
              ∙ item_model-tenant (with_effective_routing policy stored)
              ∙ own
        ]),
  )
