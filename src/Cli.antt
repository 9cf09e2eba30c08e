-- ===== src/Cli.antt =====
-- cli/main.py: what each command does with the services, what it prints and its exit status. A
-- command is its parsed arguments, `argparse` and the exit by an uncaught exception are Python's;
-- `repr` of a text and the text of an integer are arguments.
pub mod Decisions
use Prim.Native.String.{◌++◌ as text_append, count}
use human_review_console.Prelude.{
  ℕ, zero, suc, ◌-◌, String, Bool, true, false, not, Option, none, some, List, [], ◌∷◌, ◌==◌, map,
  keep, leb, if◌then◌else◌,
}
use human_review_console.Prelude.Int.{ℤ}
use human_review_console.Strings.{strip, split_commas, join}
use human_review_console.Time.{Datetime}
use human_review_console.Kernel.{
  Severity, Disposition, severity_value, disposition_value, state_value, finding_value,
}
use human_review_console.Models.{ReviewItem}
use human_review_console.Errors.{Error, Result, ok, err, illegal_transition}
use human_review_console.Action.{Action, pure, raise, gets, ◌>>=◌, ◌>>◌}
use human_review_console.MakerChecker.{RoutingPolicy, DispositionOutcome, is_allowed}
use human_review_console.Stores.ReviewPort.{ReviewStorePort}
use human_review_console.Console.{
  World, Submission, DisposeRequest, submit, dispose_review, list_queue,
}
use human_review_console.Cases.Kernel as CasesKernel
use human_review_console.Cases.Models.{WorkflowDefinition, Case, DeadlineStatus, CaseAssessment}
use human_review_console.Cases.Clock.{Holidays, Floats}
use human_review_console.Cases.Workflow.{
  Wiring, CaseWorld, open_case, transition_case, evaluate_case, list_cases,
}

pub record SubmitArgs : Type 0 where
  pub action : String
  pub subject : String
  pub summary : String
  pub maker : String
  pub tenant : String
  pub severity : Severity
  pub approvals : ℤ
  pub sod_group : String

pub record DecideArgs : Type 0 where
  pub review_id : String
  pub disposition : Disposition
  pub checker : String
  pub tenant : String
  pub groups : String
  pub reason : String

pub record OpenArgs : Type 0 where
  pub case_type : String
  pub tenant : String
  pub actor : String
  pub severity : Severity

pub record TransitionArgs : Type 0 where
  pub case_id : String
  pub to_state : String
  pub tenant : String
  pub actor : String
  pub reason : String

pub data CasesCommand : Type 0 where
  opening : OpenArgs → CasesCommand
  transition : TransitionArgs → CasesCommand
  evaluate : (case_id tenant : String) → CasesCommand
  listing : (tenant : String) → CasesCommand

pub data Command : Type 0 where
  submitting : SubmitArgs → Command
  decide : DecideArgs → Command
  queue : (tenant : String) → Command
  cases : CasesCommand → Command

-- The exit status, and the lines on the two streams.
pub record Exit : Type 0 where
  pub status : ℕ
  pub stdout : List String
  pub stderr : List String

abbrev pub text : List String → String
text pieces = join "" pieces

abbrev pub success : List String → Exit
success lines = record { status = 0; stdout = lines; stderr = [] }

abbrev pub failure : List String → Exit
failure lines = record { status = 1; stdout = []; stderr = lines }

abbrev spaces : ℕ → String
spaces zero = ""
spaces (suc n) = text_append " " (spaces n)

-- `{value:8}`
abbrev pub padded : String → String
padded s = text_append s (spaces (8 - count s))

-- `tuple(g.strip() for g in args.groups.split(",") if g.strip())`
abbrev pub groups_of_text : String → List String
groups_of_text groups = map strip (keep (λ g. not (strip g == "")) (split_commas groups))

-- The lines of `submit`, of `decide` and of an entry of the queue.
abbrev pub submitted_line : ReviewItem → String
submitted_line item = text (
    "submitted "
    ∷ item.review_id
    ∷ ": "
    ∷ item.request.action
    ∷ " ["
    ∷ state_value item.state
    ∷ "]"
    ∷ [])

abbrev pub decided_exit : Disposition → DispositionOutcome → Exit
decided_exit disposition outcome =
    if is_allowed outcome
    then success (
        text (
          disposition_value disposition
          ∷ ": "
          ∷ outcome.item.review_id
          ∷ " -> "
          ∷ state_value outcome.item.state
          ∷ [])
        ∷ [])
    else failure (text ("DENIED: " ∷ join ", " (map finding_value outcome.findings) ∷ []) ∷ [])

abbrev pub queue_line : ReviewItem → String
queue_line item = text (
    item.review_id
    ∷ "  "
    ∷ padded (severity_value item.request.severity)
    ∷ "  "
    ∷ item.request.action
    ∷ "  by "
    ∷ item.request.maker
    ∷ [])

abbrev pub submission_of : SubmitArgs → (review_id : String) → Submission
submission_of args review_id = record {
  review_id = review_id;
  maker = args.maker;
  tenant = args.tenant;
  action = args.action;
  subject = args.subject;
  summary = args.summary;
  severity = args.severity;
  required_approvals = args.approvals;
  sod_group = args.sod_group;
  case_ref = "";
  citations = [];
  source_key = "";
}

abbrev pub disposal_of : DecideArgs → DisposeRequest
disposal_of args = record {
  review_id = args.review_id;
  checker = args.checker;
  checker_tenant = args.tenant;
  checker_groups = groups_of_text args.groups;
  disposition = args.disposition;
  reason = args.reason;
  amendments = [];
  as_of = none;
}

-- The readings of the clock and the uuids that a command makes.
pub record Readings : Type 0 where
  pub fresh_id : String
  pub escalation_id : String
  pub now : Datetime
  pub evaluated_at : Datetime
  pub submitted_at : Datetime
  pub recorded_at : Datetime

module _ (repr : String → String) (int_text : ℤ → String) where
  -- `flag`, and the line of a deadline.
  abbrev pub deadline_line : DeadlineStatus → String
  deadline_line d = text (
      "  "
      ∷ d.clock
      ∷ ": "
      ∷ int_text d.remaining_days
      ∷ "d remaining ["
      ∷ (if d.breached then "BREACHED" else if d.approaching then "APPROACHING" else "ok")
      ∷ "]"
      ∷ [])

  abbrev pub assessment_lines : CaseAssessment → List String
  assessment_lines a =
      text (
        a.case_id
        ∷ " ["
        ∷ a.state
        ∷ "] findings=["
        ∷ join ", " (map (λ f. repr (CasesKernel.finding_value f)) a.findings)
        ∷ "]"
        ∷ [])
      ∷ text
          ("  requires_human_review: " ∷ (if a.requires_human_review then "True" else "False") ∷ [])
      ∷ map deadline_line a.deadlines

  abbrev pub case_line : Case → String
  case_line c =
      text (c.case_id ∷ "  " ∷ c.case_type ∷ "  " ∷ c.state ∷ "  " ∷ severity_value c.severity ∷ [])

  -- The `try` of the transition command: an illegal edge is printed, any other error is raised.
  abbrev pub refused_exit : Error → Result Exit
  refused_exit (illegal_transition from_state to_state) = ok (
      failure (
        text ("REFUSED: illegal transition " ∷ repr from_state ∷ " -> " ∷ repr to_state ∷ []) ∷ []))
  refused_exit e = err e

  abbrev pub moved_exit : Result Case → Result Exit
  moved_exit (ok c) = ok (success (text (c.case_id ∷ ": -> " ∷ c.state ∷ []) ∷ []))
  moved_exit (err e) = refused_exit e

  module _ (port : ReviewStorePort) (redact : String → String) (policy : RoutingPolicy)
      (floats : Floats) (definitions : String → Option (WorkflowDefinition (floats.Float)))
      (wiring : Wiring) (holidays : Holidays) where
    abbrev pub at_console : {A : Type 0} → Action (World port) A → Action (CaseWorld port) A
    at_console m w = let (r, console) = m w.console in (r, record w { console = console })

    -- `_run_cases`
    unfoldable pub run_cases : Readings → CasesCommand → Action (CaseWorld port) Exit
    run_cases r (opening args) = do
      c ←
          open_case port redact policy floats definitions wiring holidays r.fresh_id args.tenant
            args.case_type args.actor args.severity [] "" none [] r.now r.recorded_at
      pure (
          success
            (text ("opened " ∷ c.case_id ∷ ": " ∷ c.case_type ∷ " [" ∷ c.state ∷ "]" ∷ []) ∷ []))
    run_cases r (transition args) = λ w.
        let (moved, v) =
          transition_case port redact policy floats definitions wiring holidays args.case_id
            args.tenant args.to_state args.actor args.reason none r.now r.recorded_at w in
        (moved_exit moved, v)
    run_cases r (evaluate case_id tenant) = do
      a ←
          evaluate_case port redact policy floats definitions wiring holidays case_id tenant
            "system" none r.escalation_id r.now r.evaluated_at r.submitted_at r.recorded_at
      pure (success (assessment_lines a))
    run_cases r (listing tenant) = do
      found ← gets (list_cases port redact policy floats definitions wiring holidays tenant)
      pure (success (map case_line found))

    -- `main`, after the arguments are parsed.
    unfoldable pub main : Readings → Command → Action (CaseWorld port) Exit
    unfolding run_cases
    main r (cases command) = run_cases r command
    main r (submitting args) = do
      item ←
          at_console
            (submit port redact policy (submission_of args r.fresh_id) r.submitted_at r.recorded_at)
      pure (success (submitted_line item ∷ []))
    main r (decide args) = do
      outcome ←
          at_console (dispose_review port redact policy (disposal_of args) r.now r.recorded_at)
      pure (decided_exit args.disposition outcome)
    main r (queue tenant) = do
      items ← gets (λ w. list_queue port redact policy tenant w.console)
      pure (success (map queue_line items))
