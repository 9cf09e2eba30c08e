-- ===== src/Console/Recording.antt =====
-- What a disposition has done, over any store and any audit sink.
use human_review_console.Prelude.{
  String, true, false, ◌≡◌, refl, sym, ap, subst, ◌∙◌, none, some, Option-cases, Bool-cases, inl,
  inr,
}
use human_review_console.Time.{Datetime}
use human_review_console.Models.{ReviewItem}
use human_review_console.Errors.{Error, Result, ok, err, review_not_found}
use human_review_console.Action.{pure, ◌>>=◌}
use human_review_console.MakerChecker.{RoutingPolicy, DispositionOutcome, is_allowed, dispose}
use human_review_console.Stores.ReviewPort.{ReviewStorePort}
use human_review_console.Console.{
  DisposeRequest, World, with_effective_routing, Sink, record_event, dispose_recording, decision_of,
  store_put,
}
use human_review_console.Console.Outcomes.{Result-cases, disposition_event}

module _ (port : ReviewStorePort) (redact : String → String) (policy : RoutingPolicy) where
  -- The engine's item is stored just if the outcome was allowed.
  abbrev pub Saved : DispositionOutcome → World port → World port → Type 0
  Saved o w v =
      ((if_allowed : is_allowed o ≡ true) → port.put o.item w.store ≡ ok v.store)
      × ((if_denied : is_allowed o ≡ false) → v.store ≡ w.store)

  -- Why a disposition raised, and what it left.
  pub data Raised (sink : Sink) (q : DisposeRequest) (now recorded_at : Datetime) (w : World port)
      (e : Error) (v : World port) : Type 0 where
    missing :
        port.get q.checker_tenant q.review_id w.store ≡ none
        → e ≡ review_not_found q.review_id
        → v ≡ w
        → Raised sink q now recorded_at w e v
    refused :
        (item : ReviewItem)
        → port.get q.checker_tenant q.review_id w.store ≡ some item
        → dispose policy (with_effective_routing policy item) (decision_of q now) q.as_of ≡ err e
        → v ≡ w
        → Raised sink q now recorded_at w e v
    unsaved :
        (item : ReviewItem) (o : DispositionOutcome)
        → port.get q.checker_tenant q.review_id w.store ≡ some item
        → dispose policy (with_effective_routing policy item) (decision_of q now) q.as_of ≡ ok o
        → is_allowed o ≡ true
        → port.put o.item w.store ≡ err e
        → v ≡ w
        → Raised sink q now recorded_at w e v
    unrecorded :
        (item : ReviewItem) (o : DispositionOutcome)
        → port.get q.checker_tenant q.review_id w.store ≡ some item
        → dispose policy (with_effective_routing policy item) (decision_of q now) q.as_of ≡ ok o
        → sink (disposition_event port redact policy q o recorded_at) w.audit ≡ err e
        → v.audit ≡ w.audit
        → Saved o w v
        → Raised sink q now recorded_at w e v

  abbrev pub Settled :
      Sink
      → DisposeRequest
      → Datetime
      → Datetime
      → World port
      → Result DispositionOutcome × World port
      → Type 0
  Settled sink q now recorded_at w (err e, v) = Raised sink q now recorded_at w e v
  Settled sink q now recorded_at w (ok o, v) =
      (item : ReviewItem) × (port.get q.checker_tenant q.review_id w.store ≡ some item)
      × (dispose policy (with_effective_routing policy item) (decision_of q now) q.as_of ≡ ok o)
      × (sink (disposition_event port redact policy q o recorded_at) w.audit ≡ ok v.audit)
      × Saved o w v

  record_event-Settled :
      (sink : Sink) (q : DisposeRequest) (now recorded_at : Datetime) (item : ReviewItem)
      (o : DispositionOutcome) (w v : World port)
      → port.get q.checker_tenant q.review_id w.store ≡ some item
      → dispose policy (with_effective_routing policy item) (decision_of q now) q.as_of ≡ ok o
      → v.audit ≡ w.audit
      → Saved o w v
      → Settled sink q now recorded_at w (
          (record_event port sink (disposition_event port redact policy q o recorded_at) >>= λ _.
          pure o)
            v)
  record_event-Settled sink q now recorded_at item o w v found settled same saved =
      let event = disposition_event port redact policy q o recorded_at in
      let run = (record_event port sink event >>= λ _. pure o) v in
      elim (Result-cases (sink event v.audit)) [
        | inl (events, taken) ↦
            let step : run ≡ (ok o, record v { audit = events }) = rw (taken, record_event) refl in
            subst (Settled sink q now recorded_at w) (sym step)
              (item, found, settled, ap (sink event) (sym same) ∙ taken, saved)
        | inr (e, failed) ↦
            let step : run ≡ (err e, v) = rw (failed, record_event) refl in
            subst (Settled sink q now recorded_at w) (sym step)
              (unrecorded item o found settled (ap (sink event) (sym same) ∙ failed) same saved)
      ]

  -- What a disposition has done, whatever the store and the audit sink do. One that raises did so
  -- because the checker's tenant has no such review, because the engine raised, because the store
  -- raised on the item of an allowed outcome, or because the sink raised on the event of the
  -- outcome. In the first three cases nothing has changed; in the last the trail is as it was, and
  -- the item of an allowed outcome is stored all the same. One that returns found its item in the
  -- checker's tenant, returned what the engine says of it, and the sink took the one event of the
  -- outcome; the engine's item is stored if the outcome was allowed, else the store is the same.
  pub dispose_recording-Settled :
      (sink : Sink) (q : DisposeRequest) (now recorded_at : Datetime) (w : World port)
      → Settled sink q now recorded_at w
          (dispose_recording port redact policy sink q now recorded_at w)
  unfolding dispose_recording
  dispose_recording-Settled sink q now recorded_at w =
      elim (Option-cases (port.get q.checker_tenant q.review_id w.store)) [
        | inl absent ↦ rw absent (missing absent refl refl)
        | inr (item, found) ↦
            let routed = with_effective_routing policy item in
            elim (Result-cases (dispose policy routed (decision_of q now) q.as_of)) [
              | inr (e, raised) ↦ rw found (rw raised (refused item found raised refl))
              | inl (o, settled) ↦ rw found (
                  rw settled (elim (Bool-cases (is_allowed o)) [
                    | inr denial ↦ rw denial (
                        record_event-Settled sink q now recorded_at item o w w found settled refl
                          ((λ h. cc), (λ h. refl)))
                    | inl allowance ↦ rw allowance (elim (Result-cases (port.put o.item w.store)) [
                      | inr (e, failed) ↦
                          rw (failed, store_put)
                            (unsaved item o found settled allowance failed refl)
                      | inl (s, written) ↦
                          rw (written, store_put)
                            (record_event-Settled sink q now recorded_at item o w
                              (record w { store = s }) found settled refl
                              ((λ h. written), (λ h. cc)))
                    ])
                  ]))
            ]
      ]
