-- ===== src/Tests/Clocks.antt =====
-- Deadlines in tenths of a day's warning, a two-state workflow, and an assessment of its case.
use human_review_console.Prelude.{
  ℕ, ◌<◌, ◌≤◌, String, Bool, true, false, ◌≡◌, ◌↔◌, refl, Option, some, [], ◌∷◌, ◌++◌, any, elem,
  arith,
}
use human_review_console.Prelude.Int.{ℤ, pos, negsuc}
use human_review_console.Time.{Datetime}
use human_review_console.Kernel.{medium}
use human_review_console.Errors.{ok, err, illegal_transition}
use human_review_console.Cases.Kernel.{
  CaseFinding, business, sla_breach, approaching_deadline, stuck_in_state,
  illegal_transition as illegal_finding,
}
use human_review_console.Cases.Models.{
  ClockSpec, WorkflowDefinition, Case, DeadlineStatus, CaseAssessment, new_case, is_legal,
  first_entered, entered_current_at,
}
use human_review_console.Cases.Clock.{
  Holidays, is_business_day, advance, add_business_days, business_days_between,
  calendar_days_between, count_days, due_and_remaining, warn_threshold, deadline_for,
}
use human_review_console.Cases.Clock.Spans.{add_business_days_counts, add_business_days_total}
use human_review_console.Cases.Clock.Deadlines.{IsStatus, deadline_status, breach_is_permanent}
use human_review_console.Cases.StateMachine.{legal_next_states, transition, entry_for}
use human_review_console.Cases.StateMachine.History.{
  IsTraced, new_case-IsTraced, transition_lem, legal_next_states_iff,
}
use human_review_console.Cases.Assessment.{has_finding, is_stuck, assess_clocks, assess}
use human_review_console.Cases.Assessment.Reported.{is_breached, is_approaching}
use human_review_console.Cases.Assessment.Findings.{AreRead, IsStalled, assess_lem}
use human_review_console.Tests.Samples.{noon, later, tenths}

-- Ordinal 739000 is a Wednesday; the Friday is a holiday.
abbrev pub holidays : Holidays
holidays = 739002 ∷ []

abbrev pub on : ℕ → Datetime
on day = record { day = day; time = 43200000000 }

three_later : add_business_days noon (pos 3) holidays ≡ ok (on 739006)
unfolding add_business_days advance is_business_day
three_later = refl

add_business_days_counts_example :
    (business_days_between noon (on 739006) holidays ≡ pos 3)
    × ((on 739006).time ≡ noon.time)
    × (noon.day ≤ (on 739006).day)
    × (0 < 3 → is_business_day 739006 holidays ≡ true)
add_business_days_counts_example = add_business_days_counts noon (on 739006) 3 holidays three_later

add_business_days_total_example :
    (due : Datetime) × (add_business_days noon (pos 3) holidays ≡ ok due)
add_business_days_total_example = add_business_days_total noon 3 holidays (omega arith)

abbrev first_review : ClockSpec ℕ
first_review = record {
  name = "first_review";
  kind = business;
  duration_days = pos 3;
  start_state = "open";
  warn_ratio = 8;
}

abbrev overdue : DeadlineStatus
overdue = record {
  clock = "first_review";
  kind = "business";
  due_at = some (on 739006);
  remaining_days = negsuc 0;
  breached = true;
  approaching = false;
}

abbrev overdue_more : DeadlineStatus
overdue_more = record overdue { remaining_days = negsuc 1 }

read_overdue : deadline_for tenths first_review (some noon) (on 739007) holidays ≡ ok overdue
unfolding deadline_for due_and_remaining add_business_days advance is_business_day
    business_days_between count_days warn_threshold
read_overdue = refl

read_later : deadline_for tenths first_review (some noon) (on 739008) holidays ≡ ok overdue_more
unfolding deadline_for due_and_remaining add_business_days advance is_business_day
    business_days_between count_days warn_threshold
read_later = refl

deadline_status_example : IsStatus tenths first_review (some noon) (on 739007) holidays overdue
deadline_status_example =
    deadline_status tenths first_review (some noon) (on 739007) holidays overdue read_overdue

breach_is_permanent_example :
    (overdue_more.breached ≡ true) × (overdue_more.due_at ≡ overdue.due_at)
breach_is_permanent_example =
    breach_is_permanent tenths first_review noon (on 739007) (on 739008) holidays overdue
      overdue_more refl read_overdue read_later refl

abbrev escalates : CaseFinding → Bool
escalates sla_breach = true
escalates _ = false

abbrev stuck_days : String → Option ℤ
stuck_days _ = some (pos 5)

abbrev pub workflow : WorkflowDefinition ℕ
workflow = record {
  case_type = "dispute";
  states = "open" ∷ "closed" ∷ [];
  initial = "open";
  terminal = "closed" ∷ [];
  transitions = ("open", "closed") ∷ [];
  clocks = first_review ∷ [];
  escalate_on = escalates;
  stuck_after_days = stuck_days;
}

abbrev pub dispute : Case
dispute = new_case "c1" "demo-bank" workflow medium noon [] []

traced : IsTraced workflow dispute
traced = new_case-IsTraced workflow "c1" "demo-bank" medium noon [] []

transition_lem_example :
    (is_legal workflow dispute.state "closed" ≡ false
      → transition workflow dispute "closed" "agent" "done" later
        ≡ err (illegal_transition dispute.state "closed"))
    × (is_legal workflow dispute.state "closed" ≡ true
        → (moved : Case) × (transition workflow dispute "closed" "agent" "done" later ≡ ok moved)
          × (moved.state ≡ "closed")
          × (moved.history
              ≡ dispute.history ++ entry_for workflow dispute "closed" "agent" "done" later ∷ [])
          × (moved.opened_at ≡ dispute.opened_at)
          × IsTraced workflow moved)
transition_lem_example = transition_lem workflow dispute "closed" "agent" "done" later traced

legal_next_states_iff_example : (elem "closed" (legal_next_states workflow dispute) ≡ true) ↔ (
    (elem "closed" workflow.states ≡ true)
    × ((moved : Case) × (transition workflow dispute "closed" "agent" "done" later ≡ ok moved)))
legal_next_states_iff_example = legal_next_states_iff workflow dispute "closed" "agent" "done" later

abbrev pub assessment : CaseAssessment
assessment = record {
  case_id = "c1";
  state = "open";
  severity = medium;
  deadlines = overdue ∷ [];
  findings = sla_breach ∷ stuck_in_state ∷ [];
  requires_human_review = true;
}

pub assessed : assess tenths workflow dispute (on 739007) holidays ≡ ok assessment
unfolding assess assess_clocks is_stuck new_case first_entered entered_current_at deadline_for
    due_and_remaining add_business_days advance is_business_day business_days_between count_days
    calendar_days_between warn_threshold
assessed = refl

assess_lem_example :
    AreRead tenths workflow dispute (on 739007) holidays workflow.clocks assessment.deadlines
    × (has_finding sla_breach assessment.findings ≡ any is_breached assessment.deadlines)
    × (has_finding approaching_deadline assessment.findings
        ≡ any is_approaching assessment.deadlines)
    × ((has_finding stuck_in_state assessment.findings ≡ true)
        ↔ IsStalled tenths workflow dispute (on 739007))
    × (has_finding illegal_finding assessment.findings ≡ false)
    × ((assessment.requires_human_review ≡ true) ↔ (
        (f : CaseFinding) × (has_finding f assessment.findings ≡ true)
        × (workflow.escalate_on f ≡ true)))
assess_lem_example = assess_lem tenths workflow dispute (on 739007) holidays assessment assessed
