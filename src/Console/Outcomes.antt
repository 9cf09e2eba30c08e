-- ===== src/Console/Outcomes.antt =====
-- What one call of a console operation has done, by how it ended.
use human_review_console.Prelude.{
  String, Bool, true, false, ◌≡◌, refl, some, if◌then◌else◌, [], ◌∷◌, ◌++◌, Option-cases,
  Bool-cases, inl, inr, ◌⊎◌,
}
use human_review_console.Time.{Datetime}
use human_review_console.Kernel.{SignOffEvent}
use human_review_console.Models.{ReviewItem}
use human_review_console.Errors.{Result, ok, err}
use human_review_console.MakerChecker.{RoutingPolicy, DispositionOutcome, is_allowed, dispose}
use human_review_console.Stores.ReviewPort.{ReviewStorePort}
use human_review_console.Console.{
  Submission, DisposeRequest, World, with_effective_routing, new_item, sign_off, submission_event,
  decision_of, store_put, store_put_if_absent, submit, submit_idempotent, dispose_review,
}

pub Result-cases : {A : Type 0} (r : Result A) → ((a : A) × (r ≡ ok a)) ⊎ ((e : _) × (r ≡ err e))
Result-cases (ok a) = inl (a, refl)
Result-cases (err e) = inr (e, refl)

module _ (port : ReviewStorePort) (redact : String → String) (policy : RoutingPolicy) where
  -- The event of a disposition that returned the outcome.
  abbrev pub disposition_event : DisposeRequest → DispositionOutcome → Datetime → SignOffEvent
  disposition_event q o recorded_at =
      sign_off redact o.item "dispose" q.checker q.disposition o.decision q.reason o.findings
        recorded_at

  -- Over the sink that takes every event, a disposition that raises has changed nothing. One that returns had found its item in the
  -- checker's tenant, appended its one event, and stored the engine's item just if it was allowed.
  abbrev pub Disposed :
      DisposeRequest
      → Datetime
      → Datetime
      → World port
      → Result DispositionOutcome × World port
      → Type 0
  Disposed q now recorded_at w (err e, v) = v ≡ w
  Disposed q now recorded_at w (ok o, v) =
      (item : ReviewItem) × (port.get q.checker_tenant q.review_id w.store ≡ some item)
      × (dispose policy (with_effective_routing policy item) (decision_of q now) q.as_of ≡ ok o)
      × (v.audit ≡ w.audit ++ disposition_event q o recorded_at ∷ [])
      × ((if_allowed : is_allowed o ≡ true) → port.put o.item w.store ≡ ok v.store)
      × ((if_denied : is_allowed o ≡ false) → v.store ≡ w.store)

  -- Over that sink, a disposition that raises leaves the store and the trail. One that returns found
  -- its item in the checker's tenant, returned what the engine says of it, appended the one event
  -- of the outcome, and stored the engine's item if the outcome was allowed; else the store is the
  -- same.
  pub dispose_review-Disposed :
      (q : DisposeRequest) (now recorded_at : Datetime) (w : World port)
      → Disposed q now recorded_at w (dispose_review port redact policy q now recorded_at w)
  unfolding dispose_review
  dispose_review-Disposed q now recorded_at w =
      elim (Option-cases (port.get q.checker_tenant q.review_id w.store)) [
        | inl missing ↦ rw missing refl
        | inr (item, found) ↦
            let routed = with_effective_routing policy item in
            elim (Result-cases (dispose policy routed (decision_of q now) q.as_of)) [
              | inr (e, refused) ↦ rw found (rw refused refl)
              | inl (o, settled) ↦ rw found (
                  rw settled (elim (Bool-cases (is_allowed o)) [
                    | inr denial ↦ rw denial (item, found, settled, refl, (λ h. cc), (λ h. refl))
                    | inl allowance ↦ rw allowance (elim (Result-cases (port.put o.item w.store)) [
                      | inr (e, failed) ↦ rw (failed, store_put) refl
                      | inl (s, written) ↦
                          rw (written, store_put)
                            (item, found, settled, refl, (λ h. written), (λ h. cc))
                    ])
                  ]))
            ]
      ]

  -- A submission that raises has changed nothing; one that returns has stored the new item and
  -- appended its one event.
  abbrev pub Submitted :
      Submission → Datetime → Datetime → World port → Result ReviewItem × World port → Type 0
  Submitted s submitted_at recorded_at w (err e, v) = v ≡ w
  Submitted s submitted_at recorded_at w (ok item, v) =
      (item ≡ new_item policy s submitted_at)
      × (port.put item w.store ≡ ok v.store)
      × (v.audit ≡ w.audit ++ submission_event redact item recorded_at ∷ [])

  pub submit-Submitted :
      (s : Submission) (submitted_at recorded_at : Datetime) (w : World port)
      → Submitted s submitted_at recorded_at w
          (submit port redact policy s submitted_at recorded_at w)
  unfolding submit
  submit-Submitted s submitted_at recorded_at w =
      elim (Result-cases (port.put (new_item policy s submitted_at) w.store)) [
        | inr (e, failed) ↦ rw (failed, store_put) refl
        | inl (t, written) ↦ rw (written, store_put) (refl, written, refl)
      ]

  -- The same for a producer's submission: it returns what the store holds for the source key, and
  -- appends an event just if the store created the item.
  abbrev pub SubmittedOnce :
      Submission → Datetime → Datetime → World port → Result ReviewItem × World port → Type 0
  SubmittedOnce s submitted_at recorded_at w (err e, v) = v ≡ w
  SubmittedOnce s submitted_at recorded_at w (ok item, v) =
      (stored : ReviewItem) × (created : Bool) × (port.put_if_absent_by_source_key
          (new_item policy s submitted_at) w.store
        ≡ ok (stored, created, v.store))
      × (item ≡ with_effective_routing policy stored)
      × (v.audit
          ≡ (if created then w.audit ++ submission_event redact item recorded_at ∷ [] else w.audit))

  pub submit_idempotent-SubmittedOnce :
      (s : Submission) (submitted_at recorded_at : Datetime) (w : World port)
      → SubmittedOnce s submitted_at recorded_at w
          (submit_idempotent port redact policy s submitted_at recorded_at w)
  unfolding submit_idempotent
  submit_idempotent-SubmittedOnce s submitted_at recorded_at w =
      elim (Result-cases
        (port.put_if_absent_by_source_key (new_item policy s submitted_at) w.store)) [
          | inr (e, failed) ↦ rw (failed, store_put_if_absent) refl
          | inl ((stored, created, t), written) ↦
              rw (written, store_put_if_absent)
                (elim (Bool-cases created) [
                  | inl c ↦ rw c (stored, created, written, refl, rw c refl)
                  | inr c ↦ rw c (stored, created, written, refl, rw c refl)
                ])
        ]
