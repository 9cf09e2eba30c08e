-- ===== src/Kernel.antt =====
-- domain/kernel.py: the taxonomies of a review, its provenance, and the sign-off event.
-- An enum member is its wire value (`LenientStrEnum`); `severity_value` and its like are `.value`.
use human_review_console.Prelude.{String, Bool, true, false, List}
use human_review_console.Time.{Datetime}

pub data Severity : Type 0 where
  low medium high critical : Severity

pub data Disposition : Type 0 where
  approve reject amend : Disposition

pub data ReviewState : Type 0 where
  pending approved rejected amended : ReviewState

-- `ReviewState.is_terminal`: `self is not ReviewState.PENDING`
abbrev pub is_terminal_state : ReviewState → Bool
is_terminal_state pending = false
is_terminal_state _ = true

pub data EligibilityFinding : Type 0 where
  wrong_tenant self_approval segregation_of_duties insufficient_role : EligibilityFinding
  duplicate_approver : EligibilityFinding

pub data Decision : Type 0 where
  allowed denied : Decision

pub record Citation : Type 0 where
  pub source_id : String
  pub title : String
  pub snippet : String

pub record SignOffEvent : Type 0 where
  pub action : String
  pub review_id : String
  pub tenant : String
  pub maker : String
  pub checker : String
  pub disposition : Disposition
  pub decision : Decision
  pub state : ReviewState
  pub severity : Severity
  pub redacted_reason : String
  pub redacted_summary : String
  pub findings : List EligibilityFinding
  pub citations : List Citation
  pub timestamp : Datetime

abbrev pub severity_value : Severity → String
severity_value low = "low"
severity_value medium = "medium"
severity_value high = "high"
severity_value critical = "critical"

abbrev pub disposition_value : Disposition → String
disposition_value approve = "approve"
disposition_value reject = "reject"
disposition_value amend = "amend"

abbrev pub state_value : ReviewState → String
state_value pending = "pending"
state_value approved = "approved"
state_value rejected = "rejected"
state_value amended = "amended"

abbrev pub finding_value : EligibilityFinding → String
finding_value wrong_tenant = "wrong_tenant"
finding_value self_approval = "self_approval"
finding_value segregation_of_duties = "segregation_of_duties"
finding_value insufficient_role = "insufficient_role"
finding_value duplicate_approver = "duplicate_approver"

abbrev pub decision_value : Decision → String
decision_value allowed = "allowed"
decision_value denied = "denied"
