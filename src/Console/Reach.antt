-- ===== src/Console/Reach.antt =====
-- The states of a console under any sequence of calls, and what holds in all of them.
use human_review_console.Prelude.{String, false, ◌≡◌, sym, ◌∙◌, some, [], All, elem, Distinct}
use human_review_console.Prelude.Int.{pos, ◌≤ℤ◌}
use human_review_console.Time.{Datetime}
use human_review_console.Kernel.{approved}
use human_review_console.Models.{ReviewItem, approvers, approvals_count}
use human_review_console.MakerChecker.{RoutingPolicy, required_approvals}
use human_review_console.Stores.ReviewPort.{ReviewStorePort, IsLawful}
use human_review_console.Console.{
  Submission, DisposeRequest, World, submit, submit_idempotent, dispose_review,
}
use human_review_console.Console.Outcomes.{
  dispose_review-Disposed, submit-Submitted, submit_idempotent-SubmittedOnce,
}
use human_review_console.Console.Trust.{IsSignedOff}
use human_review_console.Console.Consistency.{
  IsConsistent, Submitted-IsConsistent, SubmittedOnce-IsConsistent, Disposed-IsConsistent,
}

module _ (port : ReviewStorePort) (lawful : IsLawful port) (redact : String → String)
    (policy : RoutingPolicy) where
  -- One call that can change the state; reads change nothing. A call that raises is a step too.
  pub data Step : World port → World port → Type 0 where
    submits :
        (s : Submission) (a b : Datetime) (w : World port)
        → Step w (submit port redact policy s a b w).1
    submits_once :
        (s : Submission) (a b : Datetime) (w : World port)
        → Step w (submit_idempotent port redact policy s a b w).1
    disposes :
        (q : DisposeRequest) (a b : Datetime) (w : World port)
        → Step w (dispose_review port redact policy q a b w).1

  pub data Reach (w : World port) : World port → Type 0 where
    here : Reach w w
    next : {u v : World port} → Reach w u → Step u v → Reach w v

  abbrev pub start : World port
  start = record { store = port.empty; audit = [] }

  pub Step-IsConsistent :
      {w v : World port}
      → Step w v
      → IsConsistent port lawful redact policy w
      → IsConsistent port lawful redact policy v
  Step-IsConsistent (submits s a b w) c =
      let call = submit port redact policy s a b w in
      Submitted-IsConsistent port lawful redact policy s a b w call.0 call.1 c
        (submit-Submitted port redact policy s a b w)
  Step-IsConsistent (submits_once s a b w) c =
      let call = submit_idempotent port redact policy s a b w in
      SubmittedOnce-IsConsistent port lawful redact policy s a b w call.0 call.1 c
        (submit_idempotent-SubmittedOnce port redact policy s a b w)
  Step-IsConsistent (disposes q a b w) c =
      let call = dispose_review port redact policy q a b w in
      Disposed-IsConsistent port lawful redact policy q a b w call.0 call.1 c
        (dispose_review-Disposed port redact policy q a b w)

  start-IsConsistent : IsConsistent port lawful redact policy start
  start-IsConsistent = record {
    valid = lawful.empty-IsValid;
    trusted = λ tenant review_id item h. cc (sym (lawful.get-empty tenant review_id) ∙ h);
  }

  pub Reach-IsConsistent :
      {w : World port} → Reach start w → IsConsistent port lawful redact policy w
  Reach-IsConsistent here = start-IsConsistent
  Reach-IsConsistent (next r step) = Step-IsConsistent step (Reach-IsConsistent r)

  -- In every state that a new console reaches by any calls, an approved item in the store has at
  -- least the approvals that the policy requires, from distinct checkers, none of them the maker,
  -- and each of them is in the trail as an allowed approval by that checker of that review.
  pub approved_item-IsSignedOff :
      {w : World port} (tenant review_id : String) (item : ReviewItem)
      → Reach start w
      → port.get tenant review_id w.store ≡ some item
      → item.state ≡ approved
      → (required_approvals policy item ≤ℤ pos (approvals_count item))
        × Distinct (approvers item)
        × (elem item.request.maker (approvers item) ≡ false)
        × All (IsSignedOff redact w.audit item) item.approvals
  approved_item-IsSignedOff tenant review_id item r found h =
      let (sound, signed) = (Reach-IsConsistent r).trusted tenant review_id item found in
      (sound.approved_enough h, sound.distinct_approvers, sound.no_self_approval, signed)
