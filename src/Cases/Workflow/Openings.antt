-- ===== src/Cases/Workflow/Openings.antt =====
-- What opening a case returns.
use human_review_console.Prelude.{String, ◌≡◌, refl, Option, some, List, inl, inr, Bool-cases}
use human_review_console.Time.{Datetime}
use human_review_console.Kernel.{Severity, Citation}
use human_review_console.Errors.{ok}
use human_review_console.MakerChecker.{RoutingPolicy}
use human_review_console.Stores.ReviewPort.{ReviewStorePort}
use human_review_console.Console.Outcomes.{Result-cases}
use human_review_console.Cases.Models.{WorkflowDefinition, Case, new_case}
use human_review_console.Cases.Clock.{Holidays, Floats}
use human_review_console.Cases.LocalPorts.{put_case}
use human_review_console.Cases.Workflow.{
  Wiring, CaseWorld, or_now, schedule_all, schedule_clocks, emit, open_case,
}
use human_review_console.Cases.Workflow.Frames.{schedule_all-cases}

module _ (port : ReviewStorePort) (redact : String → String) (policy : RoutingPolicy)
    (floats : Floats) (definitions : String → Option (WorkflowDefinition (floats.Float)))
    (wiring : Wiring) (holidays : Holidays) where
  -- Opening a case that returns has returned the new case of its workflow, and stored it.
  pub open_case-new_case :
      (case_id tenant case_type actor : String) (severity : Severity)
      (attributes : List (String × String)) (summary : String) (as_of : Option Datetime)
      (citations : List Citation) (now recorded_at : Datetime) (w : CaseWorld port)
      (definition : WorkflowDefinition (floats.Float)) (c : Case)
      → definitions case_type ≡ some definition
      → let out =
          open_case port redact policy floats definitions wiring holidays case_id tenant case_type
            actor severity attributes summary as_of citations now recorded_at w in
        let opened =
          new_case case_id tenant definition severity (or_now as_of now) attributes citations in
        out.0 ≡ ok c → (c ≡ opened) × (out.1.cases ≡ put_case opened w.cases)
  unfolding open_case schedule_clocks emit
  open_case-new_case case_id tenant case_type actor severity attributes summary as_of citations now
        recorded_at w definition c known h =
      let opened =
        new_case case_id tenant definition severity (or_now as_of now) attributes citations in
      let u : CaseWorld port = record w { cases = put_case opened w.cases } in
      let scheduled =
        schedule_all port redact policy floats definitions wiring holidays opened definition
          opened.opened_at definition.clocks u in
      let same =
        schedule_all-cases port redact policy floats definitions wiring holidays opened definition
          opened.opened_at definition.clocks u in
      elim (Bool-cases (wiring.timers)) [
        | inr untimed ↦ elim (Bool-cases (wiring.events)) [
          | inl published ↦
              (cc (simp (known, untimed, published) at h), simp (known, untimed, published) refl)
          | inr silent ↦
              (cc (simp (known, untimed, silent) at h), simp (known, untimed, silent) refl)
        ]
        | inl timed ↦ elim (Result-cases (scheduled.0)) [
          | inr (e, failed) ↦ cc (simp (known, timed, failed) at h)
          | inl (done, ended) ↦ elim (Bool-cases (wiring.events)) [
            | inl published ↦ (
              cc (simp (known, timed, ended, published) at h),
              simp (known, timed, ended, published) same,
            )
            | inr silent ↦ (
              cc (simp (known, timed, ended, silent) at h),
              simp (known, timed, ended, silent) same,
            )
          ]
        ]
      ]
