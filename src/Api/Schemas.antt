-- ===== src/Api/Schemas.antt =====
-- api/schemas.py: the bodies of requests and responses. `datetime.isoformat` is an argument; a
-- request that a field's bounds refuse is answered with 422.
use Prim.Native.String.{count, compare}
use text.Mathlib.Text.{is_le}
use human_review_console.Prelude.{
  ℕ, String, Bool, ◌&&◌, Option, none, some, List, [], ◌∷◌, map, leb, if◌then◌else◌,
}
use human_review_console.Prelude.Int.{ℤ, pos, leb_ℤ}
use human_review_console.Time.{Datetime}
use human_review_console.Kernel.{
  Severity, Disposition, Citation, severity_value, state_value, finding_value, decision_value,
}
use human_review_console.Models.{Approval, ReviewItem, approvals_count}
use human_review_console.MakerChecker.{DispositionOutcome}
use human_review_console.Errors.{Result, ok, err, http_error}
use human_review_console.Cases.Kernel as CasesKernel
use human_review_console.Cases.Models.{
  Transition, Case, DeadlineStatus, CaseAssessment, WorkflowDefinition,
}
use human_review_console.Cases.StateMachine.{legal_next_states}

pub record SubmitRequest : Type 0 where
  pub action : String
  pub subject : String
  pub summary : String
  pub severity : Severity
  pub required_approvals : ℤ
  pub sod_group : String
  pub case_ref : String
  pub citations : List Citation

pub record ServiceSubmitRequest : Type 0 where
  pub submit : SubmitRequest
  pub maker : String
  pub tenant : String
  pub source_key : String

pub record DecisionRequest : Type 0 where
  pub disposition : Disposition
  pub reason : String
  pub amendments : List String

-- `Field(1, ge=1, le=8)`
unfoldable pub checked_submit : SubmitRequest → Result SubmitRequest
checked_submit body =
    if leb_ℤ (pos 1) body.required_approvals && leb_ℤ body.required_approvals (pos 8)
    then ok body
    else err (http_error 422)

-- The bounds of the base class, and `Field("", max_length=255)`.
unfoldable pub checked_service_submit : ServiceSubmitRequest → Result ServiceSubmitRequest
checked_service_submit body =
    if (leb_ℤ (pos 1) body.submit.required_approvals
        && leb_ℤ body.submit.required_approvals (pos 8))
      && leb (count body.source_key) 255
    then ok body
    else err (http_error 422)

pub record ApprovalModel : Type 0 where
  pub checker : String
  pub reason : String

pub record ReviewItemModel : Type 0 where
  pub review_id : String
  pub tenant : String
  pub source_key : String
  pub action : String
  pub maker : String
  pub subject : String
  pub summary : String
  pub severity : String
  pub required_approvals : ℤ
  pub sod_group : String
  pub case_ref : String
  pub state : String
  pub approvals_count : ℕ
  pub approvals : List ApprovalModel
  pub citations : List Citation

abbrev pub approval_model : Approval → ApprovalModel
approval_model a = record { checker = a.checker; reason = a.reason }

-- `ReviewItemModel.from_domain`
unfoldable pub item_model : ReviewItem → ReviewItemModel
item_model item = record {
  review_id = item.request.review_id;
  tenant = item.request.tenant;
  source_key = item.request.source_key;
  action = item.request.action;
  maker = item.request.maker;
  subject = item.request.subject;
  summary = item.request.summary;
  severity = severity_value item.request.severity;
  required_approvals = item.request.required_approvals;
  sod_group = item.request.sod_group;
  case_ref = item.request.case_ref;
  state = state_value item.state;
  approvals_count = approvals_count item;
  approvals = map approval_model item.approvals;
  citations = item.request.citations;
}

pub record DecisionResponse : Type 0 where
  pub decision : String
  pub findings : List String
  pub item : ReviewItemModel

-- `DecisionResponse.from_outcome`
unfoldable pub decision_response : DispositionOutcome → DecisionResponse
decision_response outcome = record {
  decision = decision_value outcome.decision;
  findings = map finding_value outcome.findings;
  item = item_model outcome.item;
}

pub record HealthResponse : Type 0 where
  pub status : String
  pub profile : String
  pub runtime : String
  pub generator_model : String
  pub region : String

pub record OpenCaseRequest : Type 0 where
  pub case_type : String
  pub severity : Severity
  pub summary : String
  pub attributes : List (String × String)

pub record TransitionRequest : Type 0 where
  pub to_state : String
  pub reason : String

pub record TransitionModel : Type 0 where
  pub seq : ℕ
  pub from_state : String
  pub to_state : String
  pub actor : String
  pub reason : String
  pub at : String

pub record CaseModel : Type 0 where
  pub case_id : String
  pub tenant : String
  pub case_type : String
  pub state : String
  pub severity : String
  pub opened_at : String
  pub history : List TransitionModel
  pub attributes : List (String × String)
  pub legal_next_states : List String

pub record DeadlineModel : Type 0 where
  pub clock : String
  pub kind : String
  pub due_at : Option String
  pub remaining_days : ℤ
  pub breached : Bool
  pub approaching : Bool

pub record AssessmentModel : Type 0 where
  pub case_id : String
  pub state : String
  pub severity : String
  pub deadlines : List DeadlineModel
  pub findings : List String
  pub requires_human_review : Bool

pub record CaseSummaryModel : Type 0 where
  pub case_id : String
  pub case_type : String
  pub state : String
  pub severity : String

pub record WorkflowModel : Type 0 where
  pub case_type : String
  pub states : List String
  pub initial : String
  pub terminal : List String

-- `CaseSummaryModel.from_domain`
unfoldable pub case_summary : Case → CaseSummaryModel
case_summary c = record {
  case_id = c.case_id;
  case_type = c.case_type;
  state = c.state;
  severity = severity_value c.severity;
}

abbrev pub place_text : String → List String → List String
place_text t [] = t ∷ []
place_text t (u ∷ rest) = if is_le (compare t u) then t ∷ u ∷ rest else u ∷ place_text t rest

-- `sorted` on texts
abbrev pub sorted_texts : List String → List String
sorted_texts [] = []
sorted_texts (t ∷ rest) = place_text t (sorted_texts rest)

-- `WorkflowModel.from_domain`
unfoldable pub workflow_model : {Float : Type 0} → WorkflowDefinition Float → WorkflowModel
workflow_model d = record {
  case_type = d.case_type;
  states = d.states;
  initial = d.initial;
  terminal = sorted_texts d.terminal;
}

module _ (isoformat : Datetime → String) where
  abbrev pub transition_model : Transition → TransitionModel
  transition_model t = record {
    seq = t.seq;
    from_state = t.from_state;
    to_state = t.to_state;
    actor = t.actor;
    reason = t.reason;
    at = isoformat t.at;
  }

  -- `CaseModel.from_domain`
  unfoldable pub case_model : {Float : Type 0} → Case → WorkflowDefinition Float → CaseModel
  case_model c definition = record {
    case_id = c.case_id;
    tenant = c.tenant;
    case_type = c.case_type;
    state = c.state;
    severity = severity_value c.severity;
    opened_at = isoformat c.opened_at;
    history = map transition_model c.history;
    attributes = c.attributes;
    legal_next_states = legal_next_states definition c;
  }

  abbrev pub iso_if_any : Option Datetime → Option String
  iso_if_any none = none
  iso_if_any (some t) = some (isoformat t)

  abbrev pub deadline_model : DeadlineStatus → DeadlineModel
  deadline_model d = record {
    clock = d.clock;
    kind = d.kind;
    due_at = iso_if_any d.due_at;
    remaining_days = d.remaining_days;
    breached = d.breached;
    approaching = d.approaching;
  }

  -- `AssessmentModel.from_domain`
  unfoldable pub assessment_model : CaseAssessment → AssessmentModel
  assessment_model a = record {
    case_id = a.case_id;
    state = a.state;
    severity = severity_value a.severity;
    deadlines = map deadline_model a.deadlines;
    findings = map CasesKernel.finding_value a.findings;
    requires_human_review = a.requires_human_review;
  }
