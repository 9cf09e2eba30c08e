-- ===== src/Cases/Models.antt =====
-- domain/cases/models.py: clocks, workflow definitions, cases and assessments.
-- `Float` is the type of Python's floats.
use human_review_console.Prelude.{
  ℕ, suc, String, Bool, false, Option, none, some, List, [], ◌∷◌, ◌==◌, ◌&&◌, elem, any, length,
  if◌then◌else◌,
}
use human_review_console.Prelude.Int.{ℤ}
use human_review_console.Time.{Datetime}
use human_review_console.Kernel.{Severity, Citation}
use human_review_console.Cases.Kernel.{ClockKind, CaseFinding}

pub record ClockSpec (Float : Type 0) : Type 0 where
  pub name : String
  pub kind : ClockKind
  pub duration_days : ℤ
  pub start_state : String
  pub warn_ratio : Float

-- The sets are a list of edges, a list of states, and a test on findings.
pub record WorkflowDefinition (Float : Type 0) : Type 0 where
  pub case_type : String
  pub states : List String
  pub initial : String
  pub terminal : List String
  pub transitions : List (String × String)
  pub clocks : List (ClockSpec Float)
  pub escalate_on : CaseFinding → Bool
  pub stuck_after_days : String → Option ℤ

module _ {Float : Type 0} where
  -- `(from_state, to_state) in self.transitions`
  abbrev pub is_legal : WorkflowDefinition Float → String → String → Bool
  is_legal definition from_state to_state =
      any (λ (edge : String × String). edge.0 == from_state && edge.1 == to_state)
        definition.transitions

  -- `WorkflowDefinition.is_terminal`
  abbrev pub is_terminal : WorkflowDefinition Float → String → Bool
  is_terminal definition state = elem state definition.terminal

pub record Transition : Type 0 where
  pub seq : ℕ
  pub from_state : String
  pub to_state : String
  pub actor : String
  pub reason : String
  pub at : Datetime

-- `attributes` is a dict: its entries in order, the keys distinct.
pub record Case : Type 0 where
  pub case_id : String
  pub tenant : String
  pub case_type : String
  pub state : String
  pub severity : Severity
  pub opened_at : Datetime
  pub history : List Transition
  pub attributes : List (String × String)
  pub citations : List Citation

abbrev pub next_seq : Case → ℕ
next_seq c = suc (length c.history)

-- `self.history[-1]`, if there is one.
abbrev pub last_transition : List Transition → Option Transition
last_transition [] = none
last_transition (t ∷ []) = some t
last_transition (t ∷ u ∷ rest) = last_transition (u ∷ rest)

unfoldable pub entered_current_at : Case → Datetime
entered_current_at c = elim (last_transition c.history) [ none ↦ c.opened_at | some t ↦ t.at ]

-- The loop of `first_entered`.
abbrev pub first_arrival : String → List Transition → Option Datetime
first_arrival state [] = none
first_arrival state (t ∷ rest) = if t.to_state == state then some t.at else first_arrival state rest

unfoldable pub first_entered : Case → String → String → Option Datetime
first_entered c state initial =
    if state == initial then some c.opened_at else first_arrival state c.history

pub record DeadlineStatus : Type 0 where
  pub clock : String
  pub kind : String
  pub due_at : Option Datetime
  pub remaining_days : ℤ
  pub breached : Bool
  pub approaching : Bool

pub record CaseAssessment : Type 0 where
  pub case_id : String
  pub state : String
  pub severity : Severity
  pub deadlines : List DeadlineStatus
  pub findings : List CaseFinding
  pub requires_human_review : Bool

-- `CaseAssessment.empty`
abbrev pub empty_assessment : Case → CaseAssessment
empty_assessment c = record {
  case_id = c.case_id;
  state = c.state;
  severity = c.severity;
  deadlines = [];
  findings = [];
  requires_human_review = false;
}

-- `new_case`; `opened_at` is the given instant, or the clock's reading.
unfoldable pub new_case :
    {Float : Type 0}
    → String
    → String
    → WorkflowDefinition Float
    → Severity
    → Datetime
    → List (String × String)
    → List Citation
    → Case
new_case case_id tenant definition severity opened_at attributes citations = record {
  case_id = case_id;
  tenant = tenant;
  case_type = definition.case_type;
  state = definition.initial;
  severity = severity;
  opened_at = opened_at;
  history = [];
  attributes = attributes;
  citations = citations;
}
