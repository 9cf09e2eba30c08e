-- ===== src/Cases/Workflow/Frames.antt =====
-- What one call of the case service does to the stored cases, however it ends.
use mathlib.Core.List.{Memᴰ}
use mathlib.Core.List.Memᴰ
use human_review_console.Prelude.{
  String, true, ◌≡◌, refl, sym, ap, Option, some, List, [], ◌∷◌, ◌⊎◌, inl, inr, Bool-cases,
  Option-cases,
}
use human_review_console.Time.{Datetime}
use human_review_console.Kernel.{Severity, Citation}
use human_review_console.Errors.{Result}
use human_review_console.MakerChecker.{RoutingPolicy}
use human_review_console.Stores.ReviewPort.{ReviewStorePort}
use human_review_console.Console.Outcomes.{Result-cases}
use human_review_console.Cases.Models.{
  ClockSpec, WorkflowDefinition, is_legal, Case, first_entered, new_case,
}
use human_review_console.Cases.Clock.{Holidays, Floats, deadline_for}
use human_review_console.Cases.Assessment.{assess}
use human_review_console.Cases.LocalPorts.{is_case, put_case, get_case}
use human_review_console.Cases.Workflow.{
  Wiring, CaseWorld, or_now, schedule_all, schedule_clocks, emit, open_case, transition_case,
  evaluate_case,
}
use human_review_console.Cases.Workflow.Moves.{moved_to, transition_case_lem}
use human_review_console.Cases.Workflow.Evaluation.{evaluate_case_lem}

-- A stored case is the one written or one that was there.
pub mem-put_case :
    (x c : Case) (cases : List Case) → Memᴰ x (put_case c cases) → (x ≡ c) ⊎ Memᴰ x cases
unfolding put_case
mem-put_case x c [] m = elim (Memᴰ.cases_cons m) [ inl e ↦ inl e | inr n ↦ elim n [ ] ]
mem-put_case x c (d ∷ rest) m = elim (Bool-cases (is_case d c.tenant c.case_id)) [
  | inl own ↦ elim (Memᴰ.cases_cons (rw own at m)) [ inl e ↦ inl e | inr n ↦ inr (Memᴰ.tail n) ]
  | inr other ↦ elim (Memᴰ.cases_cons (rw other at m)) [
    | inl e ↦ inr (Memᴰ.head e)
    | inr n ↦ elim (mem-put_case x c rest n) [ inl e ↦ inl e | inr k ↦ inr (Memᴰ.tail k) ]
  ]
]

pub get_case-mem :
    (tenant case_id : String) (c : Case) (cases : List Case)
    → get_case tenant case_id cases ≡ some c
    → Memᴰ c cases
unfolding get_case
get_case-mem tenant case_id c [] h = cc h
get_case-mem tenant case_id c (d ∷ rest) h = elim (Bool-cases (is_case d tenant case_id)) [
  | inl own ↦ let same : d ≡ c = cc (rw own at h) in Memᴰ.head (sym same)
  | inr other ↦ Memᴰ.tail (get_case-mem tenant case_id c rest (rw other at h))
]

module _ (port : ReviewStorePort) (redact : String → String) (policy : RoutingPolicy)
    (floats : Floats) (definitions : String → Option (WorkflowDefinition (floats.Float)))
    (wiring : Wiring) (holidays : Holidays) where
  pub schedule_all-cases :
      (c : Case) (definition : WorkflowDefinition (floats.Float)) (as_of : Datetime)
      (specs : List (ClockSpec (floats.Float))) (w : CaseWorld port)
      → (schedule_all port redact policy floats definitions wiring holidays c definition as_of specs
          w).1.cases
        ≡ w.cases
  unfolding schedule_all
  schedule_all-cases c definition as_of [] w = refl
  schedule_all-cases c definition as_of (spec ∷ specs) w =
      elim (Result-cases (
        deadline_for floats spec (first_entered c spec.start_state definition.initial) as_of
          holidays)) [
            | inr (e, failed) ↦ rw failed refl
            | inl (status, read) ↦ rw read (elim (Option-cases (status.due_at)) [
              | inl undated ↦ rw undated (schedule_all-cases c definition as_of specs w)
              | inr (due, dated) ↦ rw dated (schedule_all-cases c definition as_of specs _)
            ])
          ]

  -- Opening a case stores the new case of its workflow and no other, or changes no case.
  pub open_case-cases :
      (case_id tenant case_type actor : String) (severity : Severity)
      (attributes : List (String × String)) (summary : String) (as_of : Option Datetime)
      (citations : List Citation) (now recorded_at : Datetime) (w : CaseWorld port)
      → let v =
          (open_case port redact policy floats definitions wiring holidays case_id tenant case_type
            actor severity attributes summary as_of citations now recorded_at w).1 in
        (v.cases ≡ w.cases)
        ⊎ ((definition : WorkflowDefinition (floats.Float)) × (definitions case_type
              ≡ some definition)
            × (v.cases
                ≡ put_case
                    (new_case case_id tenant definition severity
                      (or_now as_of now)
                      attributes
                      citations)
                    w.cases))
  unfolding open_case schedule_clocks emit
  open_case-cases case_id tenant case_type actor severity attributes summary as_of citations now
        recorded_at w =
      elim (Option-cases (definitions case_type)) [
        | inl unknown ↦ rw unknown (inl refl)
        | inr (definition, known) ↦
            let c =
              new_case case_id tenant definition severity (or_now as_of now) attributes citations in
            let u : CaseWorld port = record w { cases = put_case c w.cases } in
            let scheduled =
              schedule_all port redact policy floats definitions wiring holidays c definition
                c.opened_at definition.clocks u in
            let same = schedule_all-cases c definition c.opened_at definition.clocks u in
            inr (
              definition,
              known,
              simp known (elim (Bool-cases (wiring.timers)) [
                | inr untimed ↦ elim (Bool-cases (wiring.events)) [
                  | inl published ↦ simp (untimed, published) refl
                  | inr silent ↦ simp (untimed, silent) refl
                ]
                | inl timed ↦ elim (Result-cases (scheduled.0)) [
                  | inr (e, failed) ↦ simp (timed, failed) same
                  | inl (done, ended) ↦ elim (Bool-cases (wiring.events)) [
                    | inl published ↦ simp (timed, ended, published) same
                    | inr silent ↦ simp (timed, ended, silent) same
                  ]
                ]
              ]),
            )
      ]

  -- An evaluation changes no case, however it ends.
  pub evaluate_case-cases :
      (case_id tenant actor : String) (as_of : Option Datetime) (review_id : String)
      (now evaluated_at submitted_at recorded_at : Datetime) (w : CaseWorld port)
      → (evaluate_case port redact policy floats definitions wiring holidays case_id tenant actor
          as_of review_id now evaluated_at submitted_at recorded_at w).1.cases
        ≡ w.cases
  unfolding evaluate_case
  evaluate_case-cases case_id tenant actor as_of review_id now evaluated_at submitted_at recorded_at
        w =
      elim (Option-cases (get_case tenant case_id w.cases)) [
        | inl missing ↦ rw missing refl
        | inr (c, found) ↦ elim (Option-cases (definitions c.case_type)) [
          | inl unknown ↦ simp (found, unknown) refl
          | inr (definition, known) ↦
              elim (Result-cases (assess floats definition c (or_now as_of now) holidays)) [
                | inr (e, failed) ↦ simp (found, known, failed) refl
                | inl (a, assessed) ↦
                    (evaluate_case_lem port redact policy floats definitions wiring holidays case_id
                      tenant actor as_of review_id now evaluated_at submitted_at recorded_at w c
                      definition a found known assessed).0
              ]
        ]
      ]

  -- A transition stores the moved case of a stored one, by a legal edge of its workflow, or changes
  -- no case.
  pub transition_case-cases :
      (case_id tenant to_state actor reason : String) (as_of : Option Datetime)
      (now recorded_at : Datetime) (w : CaseWorld port)
      → let v =
          (transition_case port redact policy floats definitions wiring holidays case_id tenant
            to_state actor reason as_of now recorded_at w).1 in
        (v.cases ≡ w.cases)
        ⊎ ((c : Case) × (definition : WorkflowDefinition (floats.Float)) × (get_case tenant case_id
                w.cases
              ≡ some c)
            × (definitions c.case_type ≡ some definition)
            × (is_legal definition c.state to_state ≡ true)
            × (v.cases
                ≡ put_case
                    (moved_to port redact policy floats definitions wiring holidays c to_state actor
                      reason
                      (or_now as_of now)
                      definition)
                    w.cases))
  unfolding transition_case
  transition_case-cases case_id tenant to_state actor reason as_of now recorded_at w =
      elim (Option-cases (get_case tenant case_id w.cases)) [
        | inl missing ↦ inl (rw missing refl)
        | inr (c, found) ↦ elim (Option-cases (definitions c.case_type)) [
          | inl unknown ↦ inl (simp (found, unknown) refl)
          | inr (definition, known) ↦
              let (refused, moves) =
                transition_case_lem port redact policy floats definitions wiring holidays case_id
                  tenant to_state actor reason as_of now recorded_at w c definition found known in
              elim (Bool-cases (is_legal definition c.state to_state)) [
                | inr illegal ↦
                    inl (ap (λ (out : Result Case × CaseWorld port). out.1.cases) (refused illegal))
                | inl legal ↦ inr (c, definition, found, known, legal, (moves legal).1)
              ]
        ]
      ]
