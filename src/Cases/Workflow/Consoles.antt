-- ===== src/Cases/Workflow/Consoles.antt =====
-- What one call of the case service does to the console, however it ends.
use human_review_console.Prelude.{
  String, ◌≡◌, refl, sym, ap, subst, Option, List, [], ◌∷◌, inl, inr, Bool-cases, Option-cases,
}
use human_review_console.Time.{Datetime}
use human_review_console.Kernel.{Severity, Citation}
use human_review_console.Errors.{Result}
use human_review_console.MakerChecker.{RoutingPolicy}
use human_review_console.Stores.ReviewPort.{ReviewStorePort, IsLawful}
use human_review_console.Console.Outcomes.{Result-cases}
use human_review_console.Console.Reach.{Reach, here, next, submits}
use human_review_console.Cases.Models.{
  ClockSpec, WorkflowDefinition, is_legal, Case, first_entered, new_case,
}
use human_review_console.Cases.Clock.{Holidays, Floats, deadline_for}
use human_review_console.Cases.Assessment.{assess}
use human_review_console.Cases.Escalation.{last_actor, escalation}
use human_review_console.Cases.LocalPorts.{put_case, get_case}
use human_review_console.Cases.Workflow.{
  Wiring, CaseWorld, or_now, schedule_all, schedule_clocks, emit, open_case, transition_case,
  evaluate_case,
}
use human_review_console.Cases.Workflow.Moves.{transition_case_lem}
use human_review_console.Cases.Workflow.Evaluation.{evaluate_case_lem}

module _ (port : ReviewStorePort) (redact : String → String) (policy : RoutingPolicy)
    (floats : Floats) (definitions : String → Option (WorkflowDefinition (floats.Float)))
    (wiring : Wiring) (holidays : Holidays) where
  schedule_all-console :
      (c : Case) (definition : WorkflowDefinition (floats.Float)) (as_of : Datetime)
      (specs : List (ClockSpec (floats.Float))) (w : CaseWorld port)
      → (schedule_all port redact policy floats definitions wiring holidays c definition as_of specs
          w).1.console
        ≡ w.console
  unfolding schedule_all
  schedule_all-console c definition as_of [] w = refl
  schedule_all-console c definition as_of (spec ∷ specs) w =
      elim (Result-cases (
        deadline_for floats spec (first_entered c spec.start_state definition.initial) as_of
          holidays)) [
            | inr (e, failed) ↦ rw failed refl
            | inl (status, read) ↦ rw read (elim (Option-cases (status.due_at)) [
              | inl undated ↦ rw undated (schedule_all-console c definition as_of specs w)
              | inr (due, dated) ↦ rw dated (schedule_all-console c definition as_of specs _)
            ])
          ]

  -- Opening a case leaves the console alone.
  pub open_case-console :
      (case_id tenant case_type actor : String) (severity : Severity)
      (attributes : List (String × String)) (summary : String) (as_of : Option Datetime)
      (citations : List Citation) (now recorded_at : Datetime) (w : CaseWorld port)
      → (open_case port redact policy floats definitions wiring holidays case_id tenant case_type
          actor severity attributes summary as_of citations now recorded_at w).1.console
        ≡ w.console
  unfolding open_case schedule_clocks emit
  open_case-console case_id tenant case_type actor severity attributes summary as_of citations now
        recorded_at w =
      elim (Option-cases (definitions case_type)) [
        | inl unknown ↦ rw unknown refl
        | inr (definition, known) ↦
            let c =
              new_case case_id tenant definition severity (or_now as_of now) attributes citations in
            let u : CaseWorld port = record w { cases = put_case c w.cases } in
            let scheduled =
              schedule_all port redact policy floats definitions wiring holidays c definition
                c.opened_at definition.clocks u in
            let same = schedule_all-console c definition c.opened_at definition.clocks u in
            simp known (elim (Bool-cases (wiring.timers)) [
              | inr untimed ↦ elim (Bool-cases (wiring.events)) [
                | inl published ↦ simp (untimed, published) refl
                | inr silent ↦ simp (untimed, silent) refl
              ]
              | inl timed ↦ elim (Result-cases (scheduled.0)) [
                | inr (e, failed) ↦ simp (timed, failed) same
                | inl (done, ended) ↦ elim (Bool-cases (wiring.events)) [
                  | inl published ↦ simp (timed, ended, published) same
                  | inr silent ↦ simp (timed, ended, silent) same
                ]
              ]
            ])
      ]

  -- A transition leaves the console alone.
  pub transition_case-console :
      (case_id tenant to_state actor reason : String) (as_of : Option Datetime)
      (now recorded_at : Datetime) (w : CaseWorld port)
      → (transition_case port redact policy floats definitions wiring holidays case_id tenant
          to_state actor reason as_of now recorded_at w).1.console
        ≡ w.console
  unfolding transition_case
  transition_case-console case_id tenant to_state actor reason as_of now recorded_at w =
      elim (Option-cases (get_case tenant case_id w.cases)) [
        | inl missing ↦ rw missing refl
        | inr (c, found) ↦ elim (Option-cases (definitions c.case_type)) [
          | inl unknown ↦ simp (found, unknown) refl
          | inr (definition, known) ↦
              let (refused, moves) =
                transition_case_lem port redact policy floats definitions wiring holidays case_id
                  tenant to_state actor reason as_of now recorded_at w c definition found known in
              elim (Bool-cases (is_legal definition c.state to_state)) [
                | inr illegal ↦
                    ap (λ (out : Result Case × CaseWorld port). out.1.console) (refused illegal)
                | inl legal ↦ (moves legal).3
              ]
        ]
      ]

  -- An evaluation leaves the console alone, or submits to it.
  pub evaluate_case-Reach :
      (lawful : IsLawful port) (case_id tenant actor : String) (as_of : Option Datetime)
      (review_id : String) (now evaluated_at submitted_at recorded_at : Datetime)
      (w : CaseWorld port)
      → Reach port lawful redact policy w.console
          (evaluate_case port redact policy floats definitions wiring holidays case_id tenant actor
            as_of review_id now evaluated_at submitted_at recorded_at w).1.console
  unfolding evaluate_case
  evaluate_case-Reach lawful case_id tenant actor as_of review_id now evaluated_at submitted_at
        recorded_at w =
      elim (Option-cases (get_case tenant case_id w.cases)) [
        | inl missing ↦ rw missing here
        | inr (c, found) ↦ elim (Option-cases (definitions c.case_type)) [
          | inl unknown ↦ simp (found, unknown) here
          | inr (definition, known) ↦
              elim (Result-cases (assess floats definition c (or_now as_of now) holidays)) [
                | inr (e, failed) ↦ simp (found, known, failed) here
                | inl (a, assessed) ↦
                    let (cases, timers, trail, console) =
                      evaluate_case_lem port redact policy floats definitions wiring holidays
                        case_id tenant actor as_of review_id now evaluated_at submitted_at
                        recorded_at w c definition a found known assessed in
                    let submitted = next here (
                      submits (escalation redact c a (last_actor c) review_id) submitted_at
                        recorded_at w.console) in
                    subst (Reach port lawful redact policy w.console) (sym console)
                      (elim (Bool-cases (a.requires_human_review)) [
                        | inr calm ↦ rw calm here
                        | inl raised ↦ simp raised (elim (Bool-cases (wiring.review_router)) [
                          | inr unrouted ↦ simp unrouted here
                          | inl routed ↦ simp routed submitted
                        ])
                      ])
              ]
        ]
      ]
