-- ===== src/Cases/Assessment.antt =====
-- domain/cases/assessment.py: the status of every clock, the findings, and the escalation decision.
pub mod Reported
pub mod Findings
use human_review_console.Prelude.{
  String, Bool, true, false, not, ◌||◌, Option, none, some, List, [], ◌∷◌, ◌++◌, any, keep,
  if◌then◌else◌,
}
use human_review_console.Prelude.Int.{ℤ, leb_ℤ}
use human_review_console.Time.{Datetime}
use human_review_console.Errors.{Result, ok, err, ◌>>=◌}
use human_review_console.Cases.Kernel.{
  CaseFinding, sla_breach, approaching_deadline, stuck_in_state, illegal_transition,
}
use human_review_console.Cases.Models.{
  ClockSpec, WorkflowDefinition, is_terminal, Case, entered_current_at, first_entered,
  DeadlineStatus, CaseAssessment,
}
use human_review_console.Cases.Clock.{Holidays, Floats, deadline_for, calendar_days_between}

abbrev pub finding_order : List CaseFinding
finding_order = sla_breach ∷ approaching_deadline ∷ stuck_in_state ∷ []

abbrev pub is_finding : CaseFinding → CaseFinding → Bool
is_finding sla_breach sla_breach = true
is_finding approaching_deadline approaching_deadline = true
is_finding stuck_in_state stuck_in_state = true
is_finding illegal_transition illegal_transition = true
is_finding _ _ = false

-- `f in found`
abbrev pub has_finding : CaseFinding → List CaseFinding → Bool
has_finding f found = any (is_finding f) found

-- What one status adds to the findings.
abbrev pub status_findings : DeadlineStatus → List CaseFinding
status_findings status =
    if status.breached
    then sla_breach ∷ []
    else if status.approaching
    then approaching_deadline ∷ []
    else []

abbrev pub stuck_findings : Bool → List CaseFinding
stuck_findings stuck = if stuck then stuck_in_state ∷ [] else []

module _ (floats : Floats) (definition : WorkflowDefinition (floats.Float)) where
  -- The loop over the clocks.
  unfoldable pub assess_clocks :
      Case
      → Datetime
      → Holidays
      → List (ClockSpec (floats.Float))
      → Result (List DeadlineStatus × List CaseFinding)
  assess_clocks c as_of holidays [] = ok ([], [])
  assess_clocks c as_of holidays (spec ∷ specs) = do
    status ←
        deadline_for floats spec (first_entered c spec.start_state definition.initial) as_of
          holidays
    (deadlines, found) ← assess_clocks c as_of holidays specs
    ok (status ∷ deadlines, status_findings status ++ found)

  -- A case that is not in a terminal state, for at least the allowed days in its state.
  unfoldable pub is_stuck : Case → Datetime → Bool
  is_stuck c as_of =
      if is_terminal definition c.state then false else elim (definition.stuck_after_days c.state) [
        | none ↦ false
        | some limit ↦ leb_ℤ limit (calendar_days_between (entered_current_at c) as_of)
      ]

  unfoldable pub assess : Case → Datetime → Holidays → Result CaseAssessment
  unfolding assess_clocks is_stuck
  assess c as_of holidays = do
    (deadlines, clock_findings) ← assess_clocks c as_of holidays definition.clocks
    let found = clock_findings ++ stuck_findings (is_stuck c as_of)
    let findings = keep (λ f. has_finding f found) finding_order
    ok (record {
      case_id = c.case_id;
      state = c.state;
      severity = c.severity;
      deadlines = deadlines;
      findings = findings;
      requires_human_review = any definition.escalate_on findings;
    })
