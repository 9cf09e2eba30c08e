-- ===== src/Cases/Kernel.antt =====
-- domain/cases/kernel.py: clock kinds, findings, audit decisions and the case audit event.
use human_review_console.Prelude.{String, List}
use human_review_console.Time.{Datetime}
use human_review_console.Kernel.{Severity, Citation}

pub data ClockKind : Type 0 where
  calendar business : ClockKind

pub data CaseFinding : Type 0 where
  sla_breach approaching_deadline stuck_in_state illegal_transition : CaseFinding

pub data CaseDecision : Type 0 where
  allowed escalated rejected : CaseDecision

pub record CaseAuditEvent : Type 0 where
  pub action : String
  pub case_id : String
  pub tenant : String
  pub actor : String
  pub from_state : String
  pub to_state : String
  pub decision : CaseDecision
  pub severity : Severity
  pub redacted_summary : String
  pub findings : List CaseFinding
  pub citations : List Citation
  pub timestamp : Datetime

abbrev pub kind_value : ClockKind → String
kind_value calendar = "calendar"
kind_value business = "business"

abbrev pub finding_value : CaseFinding → String
finding_value sla_breach = "sla_breach"
finding_value approaching_deadline = "approaching_deadline"
finding_value stuck_in_state = "stuck_in_state"
finding_value illegal_transition = "illegal_transition"
