-- ===== src/Console.antt =====
-- domain/console_service.py: submission, the queue and disposition, over a review store port and
-- what the `record` of an audit log does (ports/audit.py). `redact` is the PII redaction of the shared pii-kit
-- with the deployment's patterns (domain/pii.py); the clock's readings are arguments.
pub mod Outcomes
pub mod Recording
pub mod Routing
pub mod Trust
pub mod Consistency
pub mod Reach
pub mod Frame
pub mod Retries
pub mod Queue
use Prim.Native.String.{◌++◌ as text_append}
use human_review_console.Prelude.{
  String, Bool, true, false, Option, none, some, List, [], ◌∷◌, ◌++◌, map, if◌then◌else◌,
}
use human_review_console.Prelude.Int.{ℤ, eqb_ℤ}
use human_review_console.Time.{Datetime}
use human_review_console.Kernel.{
  Severity, Disposition, amend, pending, EligibilityFinding, Decision, allowed, Citation,
  SignOffEvent,
}
use human_review_console.Models.{ReviewRequest, ReviewDecision, ReviewItem}
use human_review_console.Errors.{Result, ok, err, review_not_found}
use human_review_console.Action.{Action, pure, lift, gets, require, modify, ◌>>=◌, ◌>>◌}
use human_review_console.MakerChecker.{
  RoutingPolicy, DispositionOutcome, is_allowed, required_approvals, dispose,
}
use human_review_console.Stores.ReviewPort.{ReviewStorePort}

-- The arguments of `submit` and `submit_idempotent`.
pub record Submission : Type 0 where
  pub review_id : String
  pub maker : String
  pub tenant : String
  pub action : String
  pub subject : String
  pub summary : String
  pub severity : Severity
  pub required_approvals : ℤ
  pub sod_group : String
  pub case_ref : String
  pub citations : List Citation
  pub source_key : String

-- `_with_effective_routing`
unfoldable pub with_effective_routing : RoutingPolicy → ReviewItem → ReviewItem
with_effective_routing policy item =
    let effective = required_approvals policy item in
    if eqb_ℤ effective item.request.required_approvals
    then item
    else record item { request = record (item.request) { required_approvals = effective } }

-- `_new_item`; `submitted_at` is the clock's reading.
unfoldable pub new_item : RoutingPolicy → Submission → Datetime → ReviewItem
unfolding with_effective_routing
new_item policy s submitted_at = with_effective_routing policy (record {
  request = record {
    review_id = s.review_id;
    tenant = s.tenant;
    action = s.action;
    maker = s.maker;
    subject = s.subject;
    summary = s.summary;
    severity = s.severity;
    required_approvals = s.required_approvals;
    sod_group = s.sod_group;
    case_ref = s.case_ref;
    citations = s.citations;
    source_key = s.source_key;
    submitted_at = submitted_at;
  };
  state = pending;
  approvals = [];
  terminal_reason = "";
})

-- The event that `_record` writes for an item.
unfoldable pub sign_off :
    (String → String)
    → ReviewItem
    → String
    → String
    → Disposition
    → Decision
    → String
    → List EligibilityFinding
    → Datetime
    → SignOffEvent
sign_off redact item action checker disposition decision reason findings recorded_at = record {
  action = action;
  review_id = item.request.review_id;
  tenant = item.request.tenant;
  maker = item.request.maker;
  checker = checker;
  disposition = disposition;
  decision = decision;
  state = item.state;
  severity = item.request.severity;
  redacted_reason = redact reason;
  redacted_summary =
      redact (text_append item.request.subject (text_append " :: " item.request.summary));
  findings = findings;
  citations = item.request.citations;
  timestamp = recorded_at;
}

-- The event of `_record_submission`.
unfoldable pub submission_event : (String → String) → ReviewItem → Datetime → SignOffEvent
unfolding sign_off
submission_event redact item recorded_at =
    sign_off redact item "submit" "" amend allowed "submitted for review" [] recorded_at

-- A disposition request: the arguments of `ConsoleService.dispose`.
pub record DisposeRequest : Type 0 where
  pub review_id : String
  pub checker : String
  pub checker_tenant : String
  pub checker_groups : List String
  pub disposition : Disposition
  pub reason : String
  pub amendments : List String
  pub as_of : Option Datetime

-- The decision that is handed to the engine; `now` stands in for an `as_of` that is not given.
abbrev pub decision_of : DisposeRequest → Datetime → ReviewDecision
decision_of q now = record {
  checker = q.checker;
  checker_tenant = q.checker_tenant;
  checker_groups = q.checker_groups;
  disposition = q.disposition;
  reason = q.reason;
  amendments = q.amendments;
  decided_at = (elim q.as_of [ none ↦ now | some t ↦ t ]);
}

-- What the audit port's `record` makes of an event and the events of its log.
abbrev pub Sink : Type 0
Sink = SignOffEvent → List SignOffEvent → Result (List SignOffEvent)

-- The sink that takes every event.
abbrev pub accepting : Sink
accepting event events = ok (events ++ event ∷ [])

module _ (port : ReviewStorePort) where
  pub record World : Type 0 where
    pub store : port.Store
    pub audit : List SignOffEvent

  -- `self._audit.record(event)`, which may raise.
  abbrev pub record_event : Sink → SignOffEvent → Action World (Unit {0})
  record_event sink event w = elim (sink event w.audit) [
    | ok events ↦ (ok tt, record w { audit = events })
    | err e ↦ (err e, w)
  ]

  -- `self._store.put(item)`
  unfoldable pub store_put : ReviewItem → Action World (Unit {0})
  store_put item w = elim (port.put item w.store) [
    | ok s ↦ (ok tt, record w { store = s })
    | err e ↦ (err e, w)
  ]

  -- `self._store.put_if_absent_by_source_key(item)`
  unfoldable pub store_put_if_absent : ReviewItem → Action World (ReviewItem × Bool)
  store_put_if_absent item w = elim (port.put_if_absent_by_source_key item w.store) [
    | ok (stored, created, s) ↦ (ok (stored, created), record w { store = s })
    | err e ↦ (err e, w)
  ]

  module _ (redact : String → String) (policy : RoutingPolicy) where
    -- `ConsoleService.submit`, by what the sink does.
    unfoldable pub submit_recording :
        Sink → Submission → Datetime → Datetime → Action World ReviewItem
    unfolding store_put
    submit_recording sink s submitted_at recorded_at = do
      let item = new_item policy s submitted_at
      store_put item
      record_event sink (submission_event redact item recorded_at)
      pure item

    unfoldable pub submit : Submission → Datetime → Datetime → Action World ReviewItem
    unfolding submit_recording
    submit = submit_recording accepting

    -- `ConsoleService.submit_idempotent`
    unfoldable pub submit_idempotent_recording :
        Sink → Submission → Datetime → Datetime → Action World ReviewItem
    unfolding store_put_if_absent
    submit_idempotent_recording sink s submitted_at recorded_at = do
      (stored, created) ← store_put_if_absent (new_item policy s submitted_at)
      let persisted = with_effective_routing policy stored
      if created then record_event sink (submission_event redact persisted recorded_at) else pure tt
      pure persisted

    unfoldable pub submit_idempotent : Submission → Datetime → Datetime → Action World ReviewItem
    unfolding submit_idempotent_recording
    submit_idempotent = submit_idempotent_recording accepting

    unfoldable pub get_by_source_key : String → String → World → Option ReviewItem
    get_by_source_key tenant source_key w = port.find_by_source_key tenant source_key w.store

    unfoldable pub list_queue : String → World → List ReviewItem
    list_queue tenant w = map (with_effective_routing policy) (port.list_pending tenant w.store)

    unfoldable pub list_all : String → World → List ReviewItem
    list_all tenant w = map (with_effective_routing policy) (port.list_all tenant w.store)

    unfoldable pub get : String → String → Action World ReviewItem
    get tenant review_id = do
      found ← gets (λ w. port.get tenant review_id w.store)
      item ← require (review_not_found review_id) found
      pure (with_effective_routing policy item)

    -- `ConsoleService.dispose`
    unfoldable pub dispose_recording :
        Sink → DisposeRequest → Datetime → Datetime → Action World DispositionOutcome
    unfolding store_put
    dispose_recording sink q now recorded_at = do
      found ← gets (λ w. port.get q.checker_tenant q.review_id w.store)
      stored ← require (review_not_found q.review_id) found
      let item = with_effective_routing policy stored
      outcome ← lift (dispose policy item (decision_of q now) q.as_of)
      if is_allowed outcome then store_put outcome.item else pure tt
      record_event sink (
          sign_off redact outcome.item "dispose" q.checker q.disposition outcome.decision q.reason
            outcome.findings recorded_at)
      pure outcome

    unfoldable pub dispose_review :
        DisposeRequest → Datetime → Datetime → Action World DispositionOutcome
    unfolding dispose_recording
    dispose_review = dispose_recording accepting
