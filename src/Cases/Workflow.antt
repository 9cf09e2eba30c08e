-- ===== src/Cases/Workflow.antt =====
-- domain/cases/workflow_service.py over the adapters of the local profile, and
-- adapters/review_router.py, which hands an escalated case to the console in the same process.
-- The case events and the sign-off events are kept as two trails. An optional port that is not
-- bound is `false` in the wiring; clock readings and the router's uuid are arguments.
pub mod Moves
pub mod Evaluation
pub mod Frames
pub mod Openings
pub mod Consoles
pub mod Reach
use Prim.Native.String.{◌++◌ as text_append, compare}
use text.Mathlib.Text.{is_le}
use human_review_console.Prelude.{
  ℕ, String, Bool, true, false, Option, none, some, List, [], ◌∷◌, ◌++◌, ◌==◌, map, if◌then◌else◌,
}
use human_review_console.Prelude.Int.{ℤ, pos}
use human_review_console.Time.{Datetime}
use human_review_console.Kernel.{Severity, Citation, severity_value}
use human_review_console.Errors.{Error, Result, ok, err, unknown_workflow, case_not_found, or_raise}
use human_review_console.Action.{Action, pure, raise, lift, gets, require, modify, ◌>>=◌, ◌>>◌}
use human_review_console.MakerChecker.{RoutingPolicy}
use human_review_console.Stores.ReviewPort.{ReviewStorePort}
use human_review_console.Console.{World, Submission, submit}
use human_review_console.Cases.Kernel.{
  CaseDecision, allowed, escalated, rejected, CaseAuditEvent, CaseFinding, finding_value,
}
use human_review_console.Cases.Models.{
  ClockSpec, WorkflowDefinition, is_terminal, Transition, Case, last_transition, first_entered,
  CaseAssessment, new_case,
}
use human_review_console.Cases.Clock.{Holidays, Floats, deadline_for}
use human_review_console.Cases.StateMachine.{transition}
use human_review_console.Cases.Assessment.{assess}
use human_review_console.Cases.Trail.{case_event, or_text}
use human_review_console.Cases.Escalation.{escalation, last_actor}
use human_review_console.Cases.LocalPorts.{
  put_case, get_case, list_by_tenant, Timer, schedule, cancel, Event, publish,
}

-- `as_of or utcnow()`
abbrev pub or_now : Option Datetime → Datetime → Datetime
or_now as_of now = elim as_of [ none ↦ now | some t ↦ t ]

-- Which of the optional ports are bound.
pub record Wiring : Type 0 where
  pub events : Bool
  pub timers : Bool
  pub review_router : Bool

pub record CaseWorld (port : ReviewStorePort) : Type 0 where
  pub cases : List Case
  pub timers : List Timer
  pub events : List Event
  pub trail : List CaseAuditEvent
  pub console : World port

module _ (port : ReviewStorePort) (redact : String → String) (policy : RoutingPolicy)
    (floats : Floats) (definitions : String → Option (WorkflowDefinition (floats.Float)))
    (wiring : Wiring) (holidays : Holidays) where
  -- `_definition`
  abbrev pub definition_of : String → Result (WorkflowDefinition (floats.Float))
  definition_of case_type = or_raise (definitions case_type) (unknown_workflow case_type)

  abbrev pub store_case : Case → Action (CaseWorld port) (Unit {0})
  store_case c = modify (λ w. record w { cases = put_case c w.cases })

  -- `_record`
  abbrev pub record_case : CaseAuditEvent → Action (CaseWorld port) (Unit {0})
  record_case event = modify (λ w. record w { trail = w.trail ++ event ∷ [] })

  -- `_emit`
  unfoldable pub emit : String → Case → Action (CaseWorld port) (Unit {0})
  emit event_type c =
      let event : Event = record {
        event_type = event_type;
        tenant = c.tenant;
        case_id = c.case_id;
        attributes = ("state", c.state) ∷ ("severity", severity_value c.severity) ∷ [];
      } in
      if wiring.events then modify (λ w. record w { events = publish event w.events }) else pure tt

  -- `if status.due_at is not None`
  abbrev pub schedule_due : Case → String → Option Datetime → Action (CaseWorld port) (Unit {0})
  schedule_due c clock none = pure tt
  schedule_due c clock (some due) =
      let timer : Timer = record {
        tenant = c.tenant;
        case_id = c.case_id;
        clock = clock;
        fire_at = due;
      } in
      modify (λ w. record w { timers = schedule timer w.timers })

  -- The loop of `_schedule_clocks`
  unfoldable pub schedule_all :
      Case
      → WorkflowDefinition (floats.Float)
      → Datetime
      → List (ClockSpec (floats.Float))
      → Action (CaseWorld port) (Unit {0})
  schedule_all c definition as_of [] = pure tt
  schedule_all c definition as_of (spec ∷ specs) = do
    status ← lift (
        deadline_for floats spec (first_entered c spec.start_state definition.initial) as_of
          holidays)
    schedule_due c spec.name status.due_at
    schedule_all c definition as_of specs

  -- `_schedule_clocks`
  unfoldable pub schedule_clocks :
      Case → WorkflowDefinition (floats.Float) → Datetime → Action (CaseWorld port) (Unit {0})
  unfolding schedule_all
  schedule_clocks c definition as_of =
      if wiring.timers then schedule_all c definition as_of definition.clocks else pure tt

  unfoldable pub cancel_all : Case → List (ClockSpec (floats.Float)) → List Timer → List Timer
  cancel_all c [] timers = timers
  cancel_all c (spec ∷ specs) timers =
      cancel_all c specs (cancel c.tenant c.case_id spec.name timers)

  -- `_cancel_clocks`
  unfoldable pub cancel_clocks :
      Case → WorkflowDefinition (floats.Float) → Action (CaseWorld port) (Unit {0})
  cancel_clocks c definition =
      if wiring.timers
      then modify (λ w. record w { timers = cancel_all c definition.clocks w.timers })
      else pure tt

  unfoldable pub open_case :
      String
      → String
      → String
      → String
      → Severity
      → List (String × String)
      → String
      → Option Datetime
      → List Citation
      → Datetime
      → Datetime
      → Action (CaseWorld port) Case
  open_case case_id tenant case_type actor severity attributes summary as_of citations now
        recorded_at =
      do
        definition ← lift (definition_of case_type)
        let c = new_case case_id tenant definition severity (or_now as_of now) attributes citations
        store_case c
        schedule_clocks c definition c.opened_at
        emit "case.opened" c
        record_case (
            case_event redact c "open" actor "" c.state allowed (or_text summary case_type) []
              recorded_at)
        pure c

  -- `_load`
  unfoldable pub load : String → String → Action (CaseWorld port) Case
  load tenant case_id = do
    found ← gets (λ w. get_case tenant case_id w.cases)
    require (case_not_found case_id) found

  -- What follows a legal move.
  unfoldable pub finish_move :
      WorkflowDefinition (floats.Float)
      → Case
      → Case
      → String
      → String
      → Datetime
      → Action (CaseWorld port) Case
  finish_move definition c moved actor reason recorded_at = do
    store_case moved
    if is_terminal definition moved.state then cancel_clocks moved definition else pure tt
    emit "case.transitioned" moved
    record_case (
        case_event redact moved "transition" actor c.state moved.state allowed reason []
          recorded_at)
    pure moved

  -- The `try` of `transition_case`: a refused edge is recorded, then raised again.
  unfoldable pub settle_move :
      WorkflowDefinition (floats.Float)
      → Case
      → String
      → String
      → String
      → Datetime
      → Result Case
      → Action (CaseWorld port) Case
  settle_move definition c to_state actor reason recorded_at (ok moved) =
      finish_move definition c moved actor reason recorded_at
  settle_move definition c to_state actor reason recorded_at (err e) = do
    record_case
        (case_event redact c "transition" actor c.state to_state rejected reason [] recorded_at)
    raise e

  unfoldable pub transition_case :
      String
      → String
      → String
      → String
      → String
      → Option Datetime
      → Datetime
      → Datetime
      → Action (CaseWorld port) Case
  unfolding load
  transition_case case_id tenant to_state actor reason as_of now recorded_at = do
    c ← load tenant case_id
    definition ← lift (definition_of c.case_type)
    settle_move definition c to_state actor reason recorded_at
        (transition definition c to_state actor reason (or_now as_of now))

  -- `self._review_router.route(case, assessment, maker=maker)`
  unfoldable pub route :
      Case → CaseAssessment → String → Datetime → Datetime → Action (CaseWorld port) (Unit {0})
  route c assessment review_id submitted_at recorded_at w =
      let (result, console) =
        submit port redact policy (escalation redact c assessment (last_actor c) review_id)
          submitted_at recorded_at w.console in
      elim result [
        | ok item ↦ (ok tt, record w { console = console })
        | err e ↦ (err e, record w { console = console })
      ]

  -- The soft escalation of `evaluate_case`.
  unfoldable pub escalate :
      Case → CaseAssessment → String → Datetime → Datetime → Action (CaseWorld port) (Unit {0})
  escalate c assessment review_id submitted_at recorded_at = do
    emit "case.escalated" c
    if wiring.review_router then route c assessment review_id submitted_at recorded_at else pure tt

  unfoldable pub evaluate_case :
      String
      → String
      → String
      → Option Datetime
      → String
      → (now evaluated_at submitted_at recorded_at : Datetime)
      → Action (CaseWorld port) CaseAssessment
  unfolding load
  evaluate_case case_id tenant actor as_of review_id now evaluated_at submitted_at recorded_at = do
    c ← load tenant case_id
    definition ← lift (definition_of c.case_type)
    assessment ← lift (assess floats definition c (or_now as_of now) holidays)
    record_case (
        case_event redact c "evaluate" actor c.state c.state
          (if assessment.requires_human_review then escalated else allowed) c.case_type
          assessment.findings evaluated_at)
    if assessment.requires_human_review
        then escalate c assessment review_id submitted_at recorded_at
        else pure tt
    pure assessment

  -- `get` and `list_cases`
  unfoldable pub list_cases : String → CaseWorld port → List Case
  list_cases tenant w = list_by_tenant tenant w.cases
