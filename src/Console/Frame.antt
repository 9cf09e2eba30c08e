-- ===== src/Console/Frame.antt =====
-- What a disposition leaves alone and what it refuses.
use human_review_console.Prelude.{
  String, true, false, ◌&&◌, ◌≡◌, refl, ◌∙◌, ap, none, some, arith, Bool-cases, inl, inr, ◌==◌,
  eq_iff,
}
use human_review_console.Time.{Datetime}
use human_review_console.Models.{ReviewRequest, ReviewItem, is_terminal}
use human_review_console.Errors.{Result, ok, err, review_not_found, already_resolved}
use human_review_console.MakerChecker.{
  RoutingPolicy, DispositionOutcome, is_allowed, dispose, stamp_of,
}
use human_review_console.MakerChecker.Soundness.{outcome_cases}
use human_review_console.MakerChecker.Quorum.{apply-request}
use human_review_console.Stores.ReviewPort.{ReviewStorePort, IsLawful, is_key}
use human_review_console.Console.{
  DisposeRequest, World, with_effective_routing, dispose_review, decision_of,
}
use human_review_console.Console.Outcomes.{Disposed, dispose_review-Disposed}
use human_review_console.Console.Routing.{with_effective_routing_lem}

module _ (port : ReviewStorePort) (lawful : IsLawful port) (redact : String → String)
    (policy : RoutingPolicy) where
  -- The item that the engine returns has the key of the item that it was given.
  settled_key :
      (item : ReviewItem) (q : DisposeRequest) (now : Datetime) (o : DispositionOutcome)
      (tenant review_id : String)
      → dispose policy (with_effective_routing policy item) (decision_of q now) q.as_of ≡ ok o
      → is_key o.item tenant review_id ≡ is_key item tenant review_id
  settled_key item q now o tenant review_id h =
      let d = decision_of q now in
      let routed = with_effective_routing policy item in
      let same : routed ≡ _ = with_effective_routing_lem policy item in
      let (p, cases) = outcome_cases policy routed d q.as_of o h in
      elim cases [
        | inl (refused, unchanged, rest, some_found) ↦
            ap (λ (i : ReviewItem). is_key i tenant review_id) (unchanged ∙ same)
        | inr (granted, no_findings, eligible, applied) ↦
            ap (λ (i : ReviewItem). is_key i tenant review_id) applied
            ∙ ap (λ (r : ReviewRequest). r.tenant == tenant && r.review_id == review_id)
                (apply-request policy routed d (stamp_of d q.as_of) d.disposition)
            ∙ ap (λ (i : ReviewItem). is_key i tenant review_id) same
      ]

  Disposed-frame :
      (q : DisposeRequest) (now b : Datetime) (w : World port) (tenant review_id : String)
      (r : Result DispositionOutcome) (v : World port)
      → lawful.IsValid w.store
      → (q.checker_tenant == tenant && q.review_id == review_id) ≡ false
      → Disposed port redact policy q now b w (r, v)
      → port.get tenant review_id v.store ≡ port.get tenant review_id w.store
  Disposed-frame q now b w tenant review_id (err e) v valid other h =
      ap (λ (x : World port). port.get tenant review_id x.store) h
  Disposed-frame q now b w tenant review_id (ok o) v valid other
        (item, found, settled, grown, on_allowed, on_denied) =
      elim (Bool-cases (is_allowed o)) [
        | inr refused ↦ ap (port.get tenant review_id) (on_denied refused)
        | inl granted ↦
            let scoped = lawful.get-scoped item w.store q.checker_tenant q.review_id valid found in
            let apart : is_key o.item tenant review_id ≡ false =
              settled_key item q now o tenant review_id settled
              ∙ ground (
                arith,
                eq_iff item.tenant q.checker_tenant,
                eq_iff item.review_id q.review_id,
                eq_iff item.tenant tenant,
                eq_iff item.review_id review_id,
                eq_iff q.checker_tenant tenant,
                eq_iff q.review_id review_id,
              ) in
            lawful.get-put o.item w.store v.store tenant review_id (on_allowed granted)
            ∙ rw apart refl
      ]

  -- Over a store in its invariant, a disposition leaves every review of another key, of the
  -- checker's tenant or of another one, stored as before.
  pub dispose_touches_one :
      (q : DisposeRequest) (now b : Datetime) (w : World port) (tenant review_id : String)
      → lawful.IsValid w.store
      → (q.checker_tenant == tenant && q.review_id == review_id) ≡ false
      → port.get tenant review_id (dispose_review port redact policy q now b w).1.store
        ≡ port.get tenant review_id w.store
  dispose_touches_one q now b w tenant review_id valid other =
      Disposed-frame q now b w tenant review_id _ _ valid other
        (dispose_review-Disposed port redact policy q now b w)

  routed-state : (item : ReviewItem) → (with_effective_routing policy item).state ≡ item.state
  routed-state item = ap (λ (i : ReviewItem). i.state) (with_effective_routing_lem policy item)

  -- A disposition of a review that the checker's tenant does not have raises ReviewNotFound, and,
  -- over a store in its invariant, one of a resolved review raises AlreadyResolved with its state.
  -- Both leave the store and the trail as they were: no event is written.
  pub dispose_refuses :
      (q : DisposeRequest) (now b : Datetime) (w : World port)
      → (port.get q.checker_tenant q.review_id w.store ≡ none
          → dispose_review port redact policy q now b w ≡ (err (review_not_found q.review_id), w))
        × ((item : ReviewItem)
            → lawful.IsValid w.store
            → port.get q.checker_tenant q.review_id w.store ≡ some item
            → is_terminal item ≡ true
            → dispose_review port redact policy q now b w
              ≡ (err (already_resolved q.review_id item.state), w))
  unfolding dispose_review dispose
  dispose_refuses q now b w = (
    (λ missing. rw missing refl),
    (λ item valid found t.
        let key = lawful.get-scoped item w.store q.checker_tenant q.review_id valid found in
        let same_id : (with_effective_routing policy item).review_id ≡ q.review_id =
          ap (λ (i : ReviewItem). i.review_id) (with_effective_routing_lem policy item)
          ∙ ground (arith, eq_iff item.review_id q.review_id) in
        rw found (rw (routed-state item) (rw t (rw same_id refl)))),
  )
