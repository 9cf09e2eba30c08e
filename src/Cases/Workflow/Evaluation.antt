-- ===== src/Cases/Workflow/Evaluation.antt =====
-- An evaluation only reads the case; an escalation puts a review before a human.
use human_review_console.Prelude.{
  String, ◌≡◌, refl, ◌∙◌, ap, Option, some, [], ◌∷◌, ◌++◌, if◌then◌else◌, Bool-cases, inl, inr,
}
use human_review_console.Time.{Datetime}
use human_review_console.Models.{ReviewItem}
use human_review_console.Errors.{Result, ok, err}
use human_review_console.Action.{continue, pure, continue-pure}
use human_review_console.MakerChecker.{RoutingPolicy}
use human_review_console.Stores.ReviewPort.{ReviewStorePort}
use human_review_console.Console.{World, submit}
use human_review_console.Cases.Kernel.{allowed, escalated}
use human_review_console.Cases.Models.{WorkflowDefinition, Case, CaseAssessment}
use human_review_console.Cases.Clock.{Holidays, Floats}
use human_review_console.Cases.Assessment.{assess}
use human_review_console.Cases.LocalPorts.{get_case}
use human_review_console.Cases.Workflow.{
  Wiring, CaseWorld, or_now, emit, route, escalate, evaluate_case,
}
use human_review_console.Cases.Trail.{case_event}
use human_review_console.Cases.Escalation.{last_actor, escalation}

module _ (port : ReviewStorePort) (redact : String → String) (policy : RoutingPolicy)
    (floats : Floats) (definitions : String → Option (WorkflowDefinition (floats.Float)))
    (wiring : Wiring) (holidays : Holidays) where
  -- The console after the submission of an escalation.
  abbrev pub submitted_to :
      World port
      → Case
      → CaseAssessment
      → String
      → (submitted_at recorded_at : Datetime) → World port
  submitted_to console c a review_id submitted_at recorded_at =
      (submit port redact policy (escalation redact c a (last_actor c) review_id) submitted_at
        recorded_at console).1

  -- What an evaluation leaves alone, and what the console is after it.
  abbrev Kept : CaseWorld port → CaseWorld port → World port → Type 0
  Kept w v console =
      (v.cases ≡ w.cases) × (v.timers ≡ w.timers) × (v.trail ≡ w.trail) × (v.console ≡ console)

  route_lem :
      (c : Case) (a : CaseAssessment) (review_id : String) (submitted_at recorded_at : Datetime)
      (w : CaseWorld port)
      → Kept w
          (route port redact policy floats definitions wiring holidays c a review_id submitted_at
            recorded_at w).1
          (submitted_to w.console c a review_id submitted_at recorded_at)
  unfolding route
  route_lem c a review_id submitted_at recorded_at w = go (
      submit port redact policy (escalation redact c a (last_actor c) review_id) submitted_at
        recorded_at w.console)
    where
      go :
          (p : Result ReviewItem × World port)
          → Kept w
              (let (result, console) = p in
                elim result as (λ r. Result (Unit {0}) × CaseWorld port) [
                  | ok item ↦ (ok tt, record w { console = console })
                  | err e ↦ (err e, record w { console = console })
                ]).1
              p.1
      go (ok item, console) = (refl, refl, refl, refl)
      go (err e, console) = (refl, refl, refl, refl)

  escalate_lem :
      (c : Case) (a : CaseAssessment) (review_id : String) (submitted_at recorded_at : Datetime)
      (w : CaseWorld port)
      → Kept w
          (escalate port redact policy floats definitions wiring holidays c a review_id submitted_at
            recorded_at w).1
          (if wiring.review_router
            then submitted_to w.console c a review_id submitted_at recorded_at
            else w.console)
  unfolding escalate emit
  escalate_lem c a review_id submitted_at recorded_at w = elim (Bool-cases (wiring.review_router)) [
    | inr unrouted ↦ elim (Bool-cases (wiring.events)) [
      | inl published ↦ simp (unrouted, published) (refl, refl, refl, refl)
      | inr silent ↦ simp (unrouted, silent) (refl, refl, refl, refl)
    ]
    | inl routed ↦ elim (Bool-cases (wiring.events)) [
      | inl published ↦
          simp (routed, published) (route_lem c a review_id submitted_at recorded_at _)
      | inr silent ↦ simp (routed, silent) (route_lem c a review_id submitted_at recorded_at w)
    ]
  ]

  pub evaluate_case_lem :
      (case_id tenant actor : String) (as_of : Option Datetime) (review_id : String)
      (now evaluated_at submitted_at recorded_at : Datetime) (w : CaseWorld port) (c : Case)
      (definition : WorkflowDefinition (floats.Float)) (a : CaseAssessment)
      → get_case tenant case_id w.cases ≡ some c
      → definitions c.case_type ≡ some definition
      → assess floats definition c (or_now as_of now) holidays ≡ ok a
      → let v =
          (evaluate_case port redact policy floats definitions wiring holidays case_id tenant actor
            as_of review_id now evaluated_at submitted_at recorded_at w).1 in
        (v.cases ≡ w.cases)
        × (v.timers ≡ w.timers)
        × (v.trail
            ≡ w.trail
              ++ case_event redact c "evaluate" actor c.state c.state
                  (if a.requires_human_review then escalated else allowed)
                  c.case_type
                  a.findings
                  evaluated_at
                ∷ [])
        × (v.console ≡ (
            if a.requires_human_review
            then (if wiring.review_router
                then submitted_to w.console c a review_id submitted_at recorded_at
                else w.console)
            else w.console))
  unfolding evaluate_case
  evaluate_case_lem case_id tenant actor as_of review_id now evaluated_at submitted_at recorded_at w
        c definition a found registered assessed =
      simp (found, registered, assessed)
        (elim (Bool-cases (a.requires_human_review)) [
          | inr calm ↦ simp calm (refl, refl, refl, refl)
          | inl raised ↦
              let u : CaseWorld port = record w {
                trail =
                    w.trail
                    ++ case_event redact c "evaluate" actor c.state c.state escalated c.case_type
                        a.findings evaluated_at
                      ∷ [];
              } in
              let out =
                escalate port redact policy floats definitions wiring holidays c a review_id
                  submitted_at recorded_at u in
              let (cases, timers, trail, console) =
                escalate_lem c a review_id submitted_at recorded_at u in
              let same : (continue (λ (x : Unit {0}). pure a) out.0 out.1).1 ≡ out.1 =
                continue-pure (λ _. a) out.0 out.1 in
              simp raised (
                ap (λ (x : CaseWorld port). x.cases) same ∙ cases,
                ap (λ (x : CaseWorld port). x.timers) same ∙ timers,
                ap (λ (x : CaseWorld port). x.trail) same ∙ trail,
                ap (λ (x : CaseWorld port). x.console) same ∙ console,
              )
        ])
