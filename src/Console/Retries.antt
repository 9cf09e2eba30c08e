-- ===== src/Console/Retries.antt =====
-- A producer's retry, and what a trusted producer's submission leaves in the store.
use human_review_console.Prelude.{
  String, Bool, true, ◌≡◌, ◌≢◌, refl, sym, ◌∙◌, ap, subst, none, some, Option-cases, inl, inr,
}
use human_review_console.Time.{Datetime}
use human_review_console.Models.{ReviewItem}
use human_review_console.Errors.{Error, ok, err}
use human_review_console.MakerChecker.{RoutingPolicy}
use human_review_console.Stores.ReviewPort.{ReviewStorePort, IsLawful}
use human_review_console.Console.{
  Sink, accepting, record_event, submission_event, submit_idempotent_recording, Submission, World,
  with_effective_routing, new_item, submit_idempotent, store_put_if_absent,
}
use human_review_console.Console.Outcomes.{SubmittedOnce, submit_idempotent-SubmittedOnce}
use human_review_console.Console.Routing.{with_effective_routing_lem}

new_item-tenant :
    (policy : RoutingPolicy) (s : Submission) (a : Datetime)
    → (new_item policy s a).request.tenant ≡ s.tenant
unfolding new_item
new_item-tenant policy s a =
    ap (λ (i : ReviewItem). i.request.tenant) (with_effective_routing_lem policy _)

new_item-source_key :
    (policy : RoutingPolicy) (s : Submission) (a : Datetime)
    → (new_item policy s a).request.source_key ≡ s.source_key
unfolding new_item
new_item-source_key policy s a =
    ap (λ (i : ReviewItem). i.request.source_key) (with_effective_routing_lem policy _)

module _ (port : ReviewStorePort) (lawful : IsLawful port) (redact : String → String)
    (policy : RoutingPolicy) where
  -- After a keyed submission that returned, the store finds the item by its source key.
  once_found :
      (s : Submission) (a b : Datetime) (w v : World port) (item : ReviewItem)
      → lawful.IsValid w.store
      → s.source_key ≢ ""
      → SubmittedOnce port redact policy s a b w (ok item, v)
      → (stored : ReviewItem) × (item ≡ with_effective_routing policy stored)
        × (port.find_by_source_key s.tenant s.source_key v.store ≡ some stored)
  once_found s a b w v item valid keyed (stored, created, put, routed, grown) =
      let new = new_item policy s a in
      let tenant = new_item-tenant policy s a in
      let key = new_item-source_key policy s a in
      let new_keyed : new.request.source_key ≢ "" = λ h. keyed (sym key ∙ h) in
      let found : port.find_by_source_key new.request.tenant new.request.source_key v.store
          ≡ some stored =
        elim (Option-cases
          (port.find_by_source_key new.request.tenant new.request.source_key w.store)) [
            | inr (old, taken) ↦
                let same = sym (lawful.absent-found new old w.store new_keyed taken) ∙ put in
                let same_item : old ≡ stored = cc same in
                let same_store : w.store ≡ v.store = cc same in
                ap (port.find_by_source_key new.request.tenant new.request.source_key)
                  (sym same_store)
                ∙ taken
                ∙ ap (λ (i : ReviewItem). some i) same_item
            | inl free ↦
                let (is_new, is_created, still_valid, kept, look) =
                  lawful.absent-new new stored created w.store v.store valid new_keyed free put in
                kept ∙ ap (λ (i : ReviewItem). some i) (sym is_new)
          ] in
      (
        stored,
        routed,
        ap (λ (t : String). port.find_by_source_key t s.source_key v.store) (sym tenant)
            ∙ ap (λ (k : String). port.find_by_source_key new.request.tenant k v.store) (sym key)
            ∙ found,
      )

  -- A submission whose source key is taken returns the stored item and changes nothing.
  found_again :
      (sink : Sink) (s : Submission) (a b : Datetime) (w : World port) (stored : ReviewItem)
      → s.source_key ≢ ""
      → port.find_by_source_key s.tenant s.source_key w.store ≡ some stored
      → submit_idempotent_recording port redact policy sink s a b w
        ≡ (ok (with_effective_routing policy stored), w)
  unfolding submit_idempotent_recording
  found_again sink s a b w stored keyed found =
      let new = new_item policy s a in
      let tenant = new_item-tenant policy s a in
      let key = new_item-source_key policy s a in
      let taken =
        lawful.absent-found new stored w.store (λ h. keyed (sym key ∙ h))
          (ap (λ (t : String). port.find_by_source_key t new.request.source_key w.store) tenant
            ∙ ap (λ (k : String). port.find_by_source_key s.tenant k w.store) key
            ∙ found) in
      rw (taken, store_put_if_absent) refl

  -- A producer that submits again under the source key of a submission that returned, with
  -- whatever content, gets the item of the first submission back, and neither the store nor the
  -- trail changes. The store is in its invariant at the first submission.
  pub retry_returns_first :
      (first again : Submission) (a b c d : Datetime) (w v : World port) (item : ReviewItem)
      → lawful.IsValid w.store
      → first.source_key ≢ ""
      → again.tenant ≡ first.tenant
      → again.source_key ≡ first.source_key
      → submit_idempotent port redact policy first a b w ≡ (ok item, v)
      → submit_idempotent port redact policy again c d v ≡ (ok item, v)
  unfolding submit_idempotent
  retry_returns_first first again a b c d w v item valid keyed same_tenant same_key h =
      let (stored, routed, found) = once_found first a b w v item valid keyed (
        subst (SubmittedOnce port redact policy first a b w) h
          (submit_idempotent-SubmittedOnce port redact policy first a b w)) in
      found_again accepting again c d v stored (λ e. keyed (sym same_key ∙ e))
        (ap (λ (t : String). port.find_by_source_key t again.source_key v.store) same_tenant
          ∙ ap (λ (k : String). port.find_by_source_key first.tenant k v.store) same_key
          ∙ found)
      ∙ ap (λ (i : ReviewItem). (ok i, v)) (sym routed)

  unrecorded :
      (sink : Sink) (s : Submission) (a b : Datetime) (w : World port) (t : port.Store) (e : Error)
      → port.put_if_absent_by_source_key (new_item policy s a) w.store
        ≡ ok (new_item policy s a, true, t)
      → sink
          (submission_event redact (with_effective_routing policy (new_item policy s a)) b)
          w.audit
        ≡ err e
      → submit_idempotent_recording port redact policy sink s a b w
        ≡ (err e, record w { store = t })
  unfolding submit_idempotent_recording
  unrecorded sink s a b w t e put refused =
      rw (put, store_put_if_absent) (rw (refused, record_event) refl)

  -- A producer's new submission, under a source key that is not taken, that the store takes and
  -- whose event the audit sink refuses: it raises the sink's error, the item is stored and found by
  -- its source key, and the trail is as it was. A retry under the same key, whatever the sink does
  -- then, returns the item and changes nothing: the submission is left without an event. The store
  -- is in its invariant at the submission.
  pub unrecorded_submission :
      (sink later_sink : Sink) (first again : Submission) (a b c d : Datetime) (w : World port)
      (stored : ReviewItem) (created : Bool) (t : port.Store) (e : Error)
      → lawful.IsValid w.store
      → first.source_key ≢ ""
      → again.tenant ≡ first.tenant
      → again.source_key ≡ first.source_key
      → port.find_by_source_key first.tenant first.source_key w.store ≡ none
      → port.put_if_absent_by_source_key (new_item policy first a) w.store ≡ ok (stored, created, t)
      → sink
          (submission_event redact (with_effective_routing policy (new_item policy first a)) b)
          w.audit
        ≡ err e
      → (submit_idempotent_recording port redact policy sink first a b w
          ≡ (err e, record w { store = t }))
        × (port.find_by_source_key first.tenant first.source_key t ≡ some (new_item policy first a))
        × (submit_idempotent_recording port redact policy later_sink again c d
              (record w { store = t })
            ≡ (
              ok (with_effective_routing policy (new_item policy first a)),
              record w { store = t },
            ))
  unrecorded_submission sink later_sink first again a b c d w stored created t e valid keyed
        same_tenant same_key free put refused =
      let new = new_item policy first a in
      let tenant = new_item-tenant policy first a in
      let key = new_item-source_key policy first a in
      let new_keyed : new.request.source_key ≢ "" = λ h. keyed (sym key ∙ h) in
      let new_free : port.find_by_source_key new.request.tenant new.request.source_key w.store
          ≡ none =
        ap (λ (x : String). port.find_by_source_key x new.request.source_key w.store) tenant
        ∙ ap (λ (k : String). port.find_by_source_key first.tenant k w.store) key
        ∙ free in
      let (is_new, is_created, still_valid, kept, look) =
        lawful.absent-new new stored created w.store t valid new_keyed new_free put in
      let found : port.find_by_source_key first.tenant first.source_key t ≡ some new =
        ap (λ (x : String). port.find_by_source_key x first.source_key t) (sym tenant)
        ∙ ap (λ (k : String). port.find_by_source_key new.request.tenant k t) (sym key)
        ∙ kept in
      let put_new : port.put_if_absent_by_source_key new w.store ≡ ok (new, true, t) =
        put
        ∙ ap (λ (i : ReviewItem). ok (i, created, t)) is_new
        ∙ ap (λ (x : Bool). ok (new, x, t)) is_created in
      (
        unrecorded sink first a b w t e put_new refused,
        found,
        found_again later_sink again c d (record w { store = t }) new
            (λ h. keyed (sym same_key ∙ h))
            (ap (λ (x : String). port.find_by_source_key x again.source_key t) same_tenant
              ∙ ap (λ (k : String). port.find_by_source_key first.tenant k t) same_key
              ∙ found),
      )
