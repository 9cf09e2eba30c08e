-- ===== src/Cases/SampleWorkflows.antt =====
-- domain/cases/sample_workflows.py: the workflow that ships with the platform. A float is written
-- as its text in the source.
use human_review_console.Prelude.{
  String, Bool, true, false, Option, none, some, List, [], ◌∷◌, ◌==◌, if◌then◌else◌,
}
use human_review_console.Prelude.Int.{ℤ, pos}
use human_review_console.Cases.Kernel.{
  CaseFinding, business, sla_breach, approaching_deadline, stuck_in_state, illegal_transition,
}
use human_review_console.Cases.Models.{ClockSpec, WorkflowDefinition}

module _ {Float : Type 0} (float : String → Float) where
  abbrev complaint_clocks : List (ClockSpec Float)
  complaint_clocks =
      (record {
        name = "acknowledgement";
        kind = business;
        duration_days = pos 2;
        start_state = "received";
        warn_ratio = float "0.5";
      })
      ∷ (record {
        name = "resolution";
        kind = business;
        duration_days = pos 20;
        start_state = "received";
        warn_ratio = float "0.8";
      })
      ∷ []

  abbrev complaint_escalates : CaseFinding → Bool
  complaint_escalates sla_breach = true
  complaint_escalates stuck_in_state = true
  complaint_escalates approaching_deadline = false
  complaint_escalates illegal_transition = false

  abbrev complaint_stuck_after : String → Option ℤ
  complaint_stuck_after state =
      if state == "awaiting_customer"
      then some (pos 30)
      else if state == "under_review"
      then some (pos 15)
      else none

  abbrev pub complaint_workflow : WorkflowDefinition Float
  complaint_workflow = record {
    case_type = "complaint";
    states =
        "received" ∷ "under_review" ∷ "awaiting_customer" ∷ "escalated" ∷ "resolved" ∷ "closed"
        ∷ [];
    initial = "received";
    terminal = "resolved" ∷ "closed" ∷ [];
    transitions =
        ("received", "under_review")
        ∷ ("under_review", "awaiting_customer")
        ∷ ("awaiting_customer", "under_review")
        ∷ ("under_review", "escalated")
        ∷ ("escalated", "under_review")
        ∷ ("under_review", "resolved")
        ∷ ("escalated", "resolved")
        ∷ ("resolved", "closed")
        ∷ [];
    clocks = complaint_clocks;
    escalate_on = complaint_escalates;
    stuck_after_days = complaint_stuck_after;
  }

  -- `SAMPLE_DEFINITIONS`
  abbrev pub sample_definitions : String → Option (WorkflowDefinition Float)
  sample_definitions case_type = if case_type == "complaint" then some complaint_workflow else none
