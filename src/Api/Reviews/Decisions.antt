-- ===== src/Api/Reviews/Decisions.antt =====
-- What the decision route answers.
use human_review_console.Prelude.{
  ℕ, String, true, false, ◌≡◌, ◌≢◌, ◌⊎◌, refl, sym, ◌∙◌, ap, none, some, [], map, inl, inr,
  if◌then◌else◌,
}
use human_review_console.Time.{Datetime}
use human_review_console.Kernel.{finding_value}
use human_review_console.Models.{ReviewItem, is_terminal}
use human_review_console.Errors.{Result, ok, err, http_error}
use human_review_console.Action.{answer, rescue-answer}
use human_review_console.MakerChecker.{
  RoutingPolicy, DispositionOutcome, is_allowed, apply_disposition, stamp_of,
}
use human_review_console.MakerChecker.Eligibility.{findings, IsEligible}
use human_review_console.MakerChecker.Soundness.{outcome_cases}
use human_review_console.Stores.ReviewPort.{ReviewStorePort, IsLawful}
use human_review_console.Console.{World, with_effective_routing, decision_of, dispose_review}
use human_review_console.Console.Outcomes.{Disposed, dispose_review-Disposed}
use human_review_console.Console.Frame.{dispose_refuses}
use human_review_console.Identity.{Principal}
use human_review_console.Api.Schemas.{
  DecisionRequest, DecisionResponse, item_model, decision_response,
}
use human_review_console.Api.Reviews.{disposal_of, decide_error, decide_review}

abbrev pub status_and_response : DispositionOutcome → ℕ × DecisionResponse
status_and_response o = (if is_allowed o then 200 else 403, decision_response o)

module _ (port : ReviewStorePort) (lawful : IsLawful port) (redact : String → String)
    (policy : RoutingPolicy) (actor : Principal → String) where
  decide_review-answer :
      (p : Principal) (review_id : String) (body : DecisionRequest) (now b : Datetime)
      (w : World port)
      → decide_review port redact policy actor p review_id body now b w
        ≡ answer decide_error status_and_response
            (dispose_review port redact policy (disposal_of actor p review_id body) now b w)
  unfolding decide_review
  decide_review-answer p review_id body now b w =
      rescue-answer decide_error status_and_response
        (dispose_review port redact policy (disposal_of actor p review_id body) now b) w

  -- An answer of 200: the checker was eligible, and the item that the disposition makes of the
  -- stored one was stored and is shown.
  abbrev pub IsApplied :
      Principal
      → String
      → DecisionRequest
      → Datetime
      → World port
      → ReviewItem
      → ℕ
      → DecisionResponse
      → World port
      → Type 0
  IsApplied p review_id body now w stored status response v =
      let routed = with_effective_routing policy stored in
      let d = decision_of (disposal_of actor p review_id body) now in
      let applied = apply_disposition policy routed d (stamp_of d none) body.disposition in
      (status ≡ 200)
      × IsEligible policy routed (actor p) p.tenant p.principals
      × (response.item ≡ item_model applied)
      × (port.put applied w.store ≡ ok v.store)

  -- An answer of 403: every reason against the checker is shown, and the store is as it was.
  abbrev pub IsDenied :
      Principal → World port → ReviewItem → ℕ → DecisionResponse → World port → Type 0
  IsDenied p w stored status response v =
      let routed = with_effective_routing policy stored in
      let reasons = findings policy routed (actor p) p.tenant p.principals in
      (status ≡ 403)
      × (reasons ≢ [])
      × (response.findings ≡ map finding_value reasons)
      × (response.item ≡ item_model routed)
      × (v.store ≡ w.store)

  abbrev pub IsAnswer :
      Principal
      → String
      → DecisionRequest
      → Datetime
      → World port
      → ℕ
      → DecisionResponse
      → World port
      → Type 0
  IsAnswer p review_id body now w status response v =
      (stored : ReviewItem) × (port.get p.tenant review_id w.store ≡ some stored)
      × (IsApplied p review_id body now w stored status response v
          ⊎ IsDenied p w stored status response v)

  Disposed-IsAnswer :
      (p : Principal) (review_id : String) (body : DecisionRequest) (now b : Datetime)
      (w : World port) (r : Result DispositionOutcome) (u : World port) (status : ℕ)
      (response : DecisionResponse) (v : World port)
      → Disposed port redact policy (disposal_of actor p review_id body) now b w (r, u)
      → answer decide_error status_and_response (r, u) ≡ (ok (status, response), v)
      → IsAnswer p review_id body now w status response v
  unfolding disposal_of decision_response
  Disposed-IsAnswer p review_id body now b w (err e) u status response v h same = cc same
  Disposed-IsAnswer p review_id body now b w (ok o) u status response v
        (stored, found, settled, grown, on_allowed, on_denied) same =
      let d = decision_of (disposal_of actor p review_id body) now in
      let routed = with_effective_routing policy stored in
      let code : (if is_allowed o then 200 else 403) ≡ status = cc same in
      let body_same : decision_response o ≡ response = cc same in
      let world : u ≡ v = cc same in
      let (open_state, cases) = outcome_cases policy routed d none o settled in
      (
        stored,
        found,
        elim cases [
          | inl (refused, unchanged, listed, some_found) ↦
              let no : is_allowed o ≡ false = rw refused refl in
              inr (
                sym code ∙ rw no refl,
                (λ e. some_found (listed ∙ e)),
                ap (λ (x : DecisionResponse). x.findings) (sym body_same)
                    ∙ ap (map finding_value) listed,
                ap (λ (x : DecisionResponse). x.item) (sym body_same) ∙ ap item_model unchanged,
                ap (λ (x : World port). x.store) (sym world) ∙ on_denied no,
              )
          | inr (granted, clear, eligible, applied) ↦
              let yes : is_allowed o ≡ true = rw granted refl in
              inl (
                sym code ∙ rw yes refl,
                eligible,
                ap (λ (x : DecisionResponse). x.item) (sym body_same) ∙ ap item_model applied,
                ap (λ (i : ReviewItem). port.put i w.store) (sym applied)
                    ∙ on_allowed yes
                    ∙ ap (λ (x : World port). ok x.store) world,
              )
        ],
      )

  -- The decision route answers 404 for a review that the principal's tenant does not have and,
  -- over a store in its invariant, 409 for a resolved one, with nothing written. A response that
  -- it returns has status 200, for an eligible principal, with the disposition applied and stored,
  -- or status 403, with every finding and the store as it was.
  pub decide_review_lem :
      (p : Principal) (review_id : String) (body : DecisionRequest) (now b : Datetime)
      (w : World port)
      → let out = decide_review port redact policy actor p review_id body now b w in
        (port.get p.tenant review_id w.store ≡ none → out ≡ (err (http_error 404), w))
        × ((item : ReviewItem)
            → lawful.IsValid w.store
            → port.get p.tenant review_id w.store ≡ some item
            → is_terminal item ≡ true
            → out ≡ (err (http_error 409), w))
        × ((status : ℕ) (response : DecisionResponse) (v : World port)
            → out ≡ (ok (status, response), v)
            → IsAnswer p review_id body now w status response v)
  unfolding disposal_of
  decide_review_lem p review_id body now b w =
      let q = disposal_of actor p review_id body in
      let shape = decide_review-answer p review_id body now b w in
      let (missing, resolved) = dispose_refuses port lawful redact policy q now b w in
      (
        (λ none_there. shape ∙ ap (answer decide_error status_and_response) (missing none_there)),
        (λ item valid found t.
            shape ∙ ap (answer decide_error status_and_response) (resolved item valid found t)),
        (λ status response v h.
            let call = dispose_review port redact policy q now b w in
            Disposed-IsAnswer p review_id body now b w call.0 call.1 status response v
              (dispose_review-Disposed port redact policy q now b w) (sym shape ∙ h)),
      )
