-- ===== src/Tests/Workflows.antt =====
-- The case workflow over the local profile: a dispute that is opened, evaluated when it is overdue,
-- and closed.
use mathlib.Core.List.{Memᴰ}
use human_review_console.Prelude.{
  ℕ, String, true, false, ◌≡◌, refl, sym, ◌∙◌, ap, inl, inr, Bool-cases, eq_iff, Option, none, some,
  [], ◌∷◌, ◌++◌, any, if◌then◌else◌, ◌==◌,
}
use human_review_console.Kernel.{medium}
use human_review_console.Errors.{ok, err, illegal_transition}
use human_review_console.MakerChecker.{default_routing}
use human_review_console.Stores.ReviewPort.{ReviewStorePort}
use human_review_console.Stores.Reviews.Lawful.{local_reviews}
use human_review_console.Cases.Kernel.{allowed, rejected}
use human_review_console.Cases.Models.{
  ClockSpec, WorkflowDefinition, is_legal, is_terminal, new_case, first_entered,
}
use human_review_console.Cases.Clock.{
  deadline_for, due_and_remaining, add_business_days, is_business_day,
}
use human_review_console.Cases.LocalPorts.{put_case, get_case, is_timer}
use human_review_console.Cases.Workflow.{
  Wiring, CaseWorld, open_case, transition_case, schedule_clocks, emit,
}
use human_review_console.Cases.Trail.{case_event}
use human_review_console.Cases.Workflow.Moves.{moved_to, transition_case_lem}
use human_review_console.Cases.Workflow.Reach.{opens, here, next, IsRegistry, stored_case-IsPath}
use human_review_console.Cases.StateMachine.History.{IsPath}
use human_review_console.Tests.Samples.{noon, later, identity_codec, mask, tenths}
use human_review_console.Tests.Clocks.{workflow, holidays, dispute}

abbrev store : ReviewStorePort
store = local_reviews identity_codec

abbrev pub registry : String → Option (WorkflowDefinition ℕ)
registry case_type = if case_type == "dispute" then some workflow else none

abbrev pub all_bound : Wiring
all_bound = record { events = true; timers = true; review_router = true }

abbrev pub empty_world : CaseWorld store
empty_world = record {
  cases = [];
  timers = [];
  events = [];
  trail = [];
  console = record { store = []; audit = [] };
}

abbrev pub opened : CaseWorld store
opened =
    (open_case store mask default_routing tenths registry all_bound holidays "c1" "demo-bank"
      "dispute" "agent" medium [] "" (some noon) [] noon noon empty_world).1

pub found_dispute : get_case "demo-bank" "c1" opened.cases ≡ some dispute
unfolding open_case get_case schedule_clocks deadline_for first_entered due_and_remaining
    add_business_days new_case is_business_day emit put_case
found_dispute = refl

pub registered_dispute : registry dispute.case_type ≡ some workflow
unfolding new_case
registered_dispute = refl

transition_case_lem_example :
    let out =
      transition_case store mask default_routing tenths registry all_bound holidays "c1" "demo-bank"
        "closed" "agent" "done" none later later opened in
    let moved =
      moved_to store mask default_routing tenths registry all_bound holidays dispute "closed"
        "agent" "done" later workflow in
    (is_legal workflow dispute.state "closed" ≡ false
      → out ≡ (
        err (illegal_transition dispute.state "closed"),
        record opened {
          trail =
              opened.trail
              ++ case_event mask dispute "transition" "agent" dispute.state "closed" rejected "done"
                  [] later
                ∷ [];
        },
      ))
    × (is_legal workflow dispute.state "closed" ≡ true
        → (out.0 ≡ ok moved)
          × (out.1.cases ≡ put_case moved opened.cases)
          × (out.1.trail
              ≡ opened.trail
                ++ case_event mask moved "transition" "agent" dispute.state "closed" allowed "done"
                    [] later
                  ∷ [])
          × (out.1.console ≡ opened.console)
          × (is_terminal workflow "closed" ≡ true
              → all_bound.timers ≡ true
              → (spec : ClockSpec ℕ) → Memᴰ spec workflow.clocks
              → any (λ t. is_timer t dispute.tenant dispute.case_id spec.name) out.1.timers
                ≡ false))
transition_case_lem_example =
    transition_case_lem store mask default_routing tenths registry all_bound holidays "c1"
      "demo-bank" "closed" "agent" "done" none later later opened dispute workflow found_dispute
      registered_dispute

pub registry-IsRegistry : IsRegistry store mask default_routing tenths registry all_bound holidays
registry-IsRegistry case_type definition h = elim (Bool-cases (case_type == "dispute")) [
  | inl named ↦
      let same : workflow ≡ definition = cc (rw named at h) in
      ap (λ (d : WorkflowDefinition ℕ). d.case_type) (sym same)
      ∙ sym ((eq_iff case_type "dispute").0 named)
  | inr other ↦ cc (rw other at h)
]

stored_case-IsPath_example :
    (definition : WorkflowDefinition ℕ) × (registry dispute.case_type ≡ some definition)
    × IsPath definition definition.initial 0 dispute.history dispute.state
stored_case-IsPath_example =
    stored_case-IsPath store mask default_routing tenths registry all_bound holidays
      {w = empty_world} {v = opened} "demo-bank" "c1" dispute registry-IsRegistry refl
      (next here (
        opens "c1" "demo-bank" "dispute" "agent" medium [] "" (some noon) [] noon noon empty_world))
      found_dispute
