-- ===== src/Api/Reviews/Routes.antt =====
-- Submission and reading through the routes, and the states that the routes reach.
use human_review_console.Prelude.{
  String, true, ◌&&◌, ◌≡◌, refl, sym, ◌∙◌, ap, some, eq_iff, arith, Bool-cases, inl, inr,
}
use human_review_console.Prelude.Int.{pos, ◌≤ℤ◌, leb_ℤ}
use human_review_console.Time.{Datetime}
use human_review_console.Kernel.{state_value}
use human_review_console.Models.{ReviewItem}
use human_review_console.Errors.{Result, ok, err}
use human_review_console.Action.{answer, rescue-answer}
use human_review_console.MakerChecker.{RoutingPolicy}
use human_review_console.Stores.ReviewPort.{ReviewStorePort, IsLawful, is_key}
use human_review_console.Console.{Submission, World, with_effective_routing, new_item, get, submit}
use human_review_console.Console.Outcomes.{Submitted, submit-Submitted}
use human_review_console.Console.Routing.{with_effective_routing_lem, required-routed}
use human_review_console.Identity.{Principal}
use human_review_console.Api.Schemas.{SubmitRequest, checked_submit, ReviewItemModel, item_model}
use human_review_console.Api.Reviews.{submission_of, submit_review, get_review}

-- Routing an item again changes nothing.
routed_idem :
    (policy : RoutingPolicy) (item : ReviewItem)
    → with_effective_routing policy (with_effective_routing policy item)
      ≡ with_effective_routing policy item
routed_idem policy item =
    with_effective_routing_lem policy (with_effective_routing policy item)
    ∙ rw (required-routed policy item) (rw (with_effective_routing_lem policy item) refl)

module _ (port : ReviewStorePort) (lawful : IsLawful port) (redact : String → String)
    (policy : RoutingPolicy) (actor : Principal → String) where
  -- What `get_review` answers of a stored item.
  get_review_found :
      (q : Principal) (review_id : String) (w : World port) (item : ReviewItem)
      → port.get q.tenant review_id w.store ≡ some item
      → get_review port redact policy actor q review_id w
        ≡ (ok (item_model (with_effective_routing policy item)), w)
  unfolding get_review get
  get_review_found q review_id w item found = rw found refl

  -- The item of a submission that returned.
  submitted_item :
      (p : Principal) (review_id : String) (body : SubmitRequest) (a b : Datetime)
      (w v : World port) (m : ReviewItemModel)
      → submit_review port redact policy actor p review_id body a b w ≡ (ok m, v)
      → let item = new_item policy (submission_of body (actor p) p.tenant review_id "") a in
        (m ≡ item_model item)
        × (port.put item w.store ≡ ok v.store)
        × ((leb_ℤ (pos 1) body.required_approvals && leb_ℤ body.required_approvals (pos 8)) ≡ true)
  unfolding submit_review checked_submit
  submitted_item p review_id body a b w v m h =
      elim (Bool-cases
        (leb_ℤ (pos 1) body.required_approvals && leb_ℤ body.required_approvals (pos 8))) [
          | inr refused ↦ cc (rw refused at h)
          | inl within ↦
              let s = submission_of body (actor p) p.tenant review_id "" in
              let (same, put) =
                go s (submit port redact policy s a b w).0 (submit port redact policy s a b w).1
                  (submit-Submitted port redact policy s a b w) (rw within at h) in
              (same, put, within)
        ]
    where
      go :
          (s : Submission) (r : Result ReviewItem) (u : World port)
          → Submitted port redact policy s a b w (r, u)
          → human_review_console.Action.continue
              (λ item. human_review_console.Action.pure (item_model item))
              r
              u
            ≡ (ok m, v)
          → (m ≡ item_model (new_item policy s a))
            × (port.put (new_item policy s a) w.store ≡ ok v.store)
      go s (err e) u done k = cc k
      go s (ok item) u (new, put, grown) k =
          let same : item_model item ≡ m = cc k in
          let world : u ≡ v = cc k in
          (
            sym same ∙ ap item_model new,
            ap (λ (i : ReviewItem). port.put i w.store) (sym new)
                ∙ put
                ∙ ap (λ (x : World port). ok x.store) world,
          )

  new_key :
      (p : Principal) (review_id : String) (body : SubmitRequest) (a : Datetime)
      → is_key
          (new_item policy (submission_of body (actor p) p.tenant review_id "") a)
          p.tenant
          review_id
        ≡ true
  unfolding new_item submission_of
  new_key p review_id body a =
      ap (λ (i : ReviewItem). is_key i p.tenant review_id) (with_effective_routing_lem policy _)
      ∙ ground (arith, eq_iff p.tenant p.tenant, eq_iff review_id review_id)

  new_model :
      (p : Principal) (review_id : String) (body : SubmitRequest) (a : Datetime)
      → let m =
          item_model (new_item policy (submission_of body (actor p) p.tenant review_id "") a) in
        (m.maker ≡ actor p) × (m.tenant ≡ p.tenant) × (m.state ≡ "pending")
  unfolding new_item submission_of item_model
  new_model p review_id body a = (
    ap (λ (i : ReviewItem). i.request.maker) (with_effective_routing_lem policy _),
    ap (λ (i : ReviewItem). i.request.tenant) (with_effective_routing_lem policy _),
    ap (λ (i : ReviewItem). state_value i.state) (with_effective_routing_lem policy _),
  )

  -- A submission that the route accepts, over a lawful store, asked for 1 to 8 approvals, is
  -- pending, has the principal as its maker and the principal's tenant as its own, and is read
  -- back as it was answered by every principal of that tenant.
  pub submit_review-get_review :
      (p q : Principal) (review_id : String) (body : SubmitRequest) (a b : Datetime)
      (w v : World port) (m : ReviewItemModel)
      → q.tenant ≡ p.tenant
      → submit_review port redact policy actor p review_id body a b w ≡ (ok m, v)
      → (pos 1 ≤ℤ body.required_approvals)
        × (body.required_approvals ≤ℤ pos 8)
        × (m.state ≡ "pending")
        × (m.maker ≡ actor p)
        × (m.tenant ≡ p.tenant)
        × (get_review port redact policy actor q review_id v ≡ (ok m, v))
  submit_review-get_review p q review_id body a b w v m same_tenant h =
      let (shown, put, within) = submitted_item p review_id body a b w v m h in
      let item = new_item policy (submission_of body (actor p) p.tenant review_id "") a in
      let (maker, tenant, state) = new_model p review_id body a in
      let found : port.get q.tenant review_id v.store ≡ some item =
        ap (λ (t : String). port.get t review_id v.store) same_tenant
        ∙ lawful.get-put item w.store v.store p.tenant review_id put
        ∙ rw (new_key p review_id body a) refl in
      let again : with_effective_routing policy item ≡ item =
        unfold new_item in routed_idem policy _ in
      (
        ground arith,
        ground arith,
        ap (λ (x : ReviewItemModel). x.state) shown ∙ state,
        ap (λ (x : ReviewItemModel). x.maker) shown ∙ maker,
        ap (λ (x : ReviewItemModel). x.tenant) shown ∙ tenant,
        get_review_found q review_id v item found
            ∙ ap (λ (x : ReviewItemModel). (ok x, v)) (ap item_model again ∙ sym shown),
      )
