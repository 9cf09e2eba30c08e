-- ===== src/Cases/Workflow/Moves.antt =====
-- What a transition of a case does to the store, the timers and the trails.
use mathlib.Core.List.{Memᴰ}
use mathlib.Core.List.Memᴰ
use human_review_console.Prelude.{
  String, Bool, true, false, ◌&&◌, ◌≡◌, refl, ◌∙◌, ap, Option, some, List, [], ◌∷◌, ◌++◌, any,
  arith, if◌then◌else◌, Bool-cases, inl, inr,
}
use human_review_console.Time.{Datetime}
use human_review_console.Errors.{ok, err, illegal_transition}
use human_review_console.MakerChecker.{RoutingPolicy}
use human_review_console.Stores.ReviewPort.{ReviewStorePort}
use human_review_console.Cases.Kernel.{allowed, rejected}
use human_review_console.Cases.Models.{ClockSpec, WorkflowDefinition, is_legal, is_terminal, Case}
use human_review_console.Cases.Clock.{Holidays, Floats}
use human_review_console.Cases.StateMachine.{transition, entry_for}
use human_review_console.Cases.LocalPorts.{put_case, get_case, Timer, is_timer, cancel}
use human_review_console.Cases.Workflow.{
  Wiring, CaseWorld, or_now, emit, cancel_all, cancel_clocks, finish_move, settle_move,
  transition_case,
}
use human_review_console.Cases.Trail.{case_event}

-- Cancelling leaves no timer of the key.
cancel-cancelled :
    (tenant case_id clock : String) (timers : List Timer)
    → any (λ t. is_timer t tenant case_id clock) (cancel tenant case_id clock timers) ≡ false
unfolding cancel
cancel-cancelled tenant case_id clock [] = refl
cancel-cancelled tenant case_id clock (t ∷ timers) =
    ground (arith, cancel-cancelled tenant case_id clock timers)

-- Cancelling a key adds no timer of another.
cancel-kept :
    (p : Timer → Bool) (tenant case_id clock : String) (timers : List Timer)
    → any p timers ≡ false
    → any p (cancel tenant case_id clock timers) ≡ false
unfolding cancel
cancel-kept p tenant case_id clock [] h = refl
cancel-kept p tenant case_id clock (t ∷ timers) h =
    ground (arith, cancel-kept p tenant case_id clock timers)

module _ (port : ReviewStorePort) (redact : String → String) (policy : RoutingPolicy)
    (floats : Floats) (definitions : String → Option (WorkflowDefinition (floats.Float)))
    (wiring : Wiring) (holidays : Holidays) where
  cancel_all-kept :
      (p : Timer → Bool) (c : Case) (specs : List (ClockSpec (floats.Float))) (timers : List Timer)
      → any p timers ≡ false
      → any p (cancel_all port redact policy floats definitions wiring holidays c specs timers)
        ≡ false
  unfolding cancel_all
  cancel_all-kept p c [] timers h = h
  cancel_all-kept p c (spec ∷ specs) timers h =
      cancel_all-kept p c specs (cancel c.tenant c.case_id spec.name timers)
        (cancel-kept p c.tenant c.case_id spec.name timers h)

  cancel_all-cancelled :
      (c : Case) (spec : ClockSpec (floats.Float)) (specs : List (ClockSpec (floats.Float)))
      (timers : List Timer)
      → Memᴰ spec specs
      → any
          (λ t. is_timer t c.tenant c.case_id spec.name)
          (cancel_all port redact policy floats definitions wiring holidays c specs timers)
        ≡ false
  unfolding cancel_all
  cancel_all-cancelled c spec [] timers m = elim m [ ]
  cancel_all-cancelled c spec (first ∷ specs) timers m = elim (Memᴰ.cases_cons m) [
    | inl e ↦
        cancel_all-kept (λ t. is_timer t c.tenant c.case_id spec.name) c specs
          (cancel c.tenant c.case_id first.name timers)
          (rw e (cancel-cancelled c.tenant c.case_id first.name timers))
    | inr n ↦ cancel_all-cancelled c spec specs (cancel c.tenant c.case_id first.name timers) n
  ]

  abbrev cancelled_timers : WorkflowDefinition (floats.Float) → Case → List Timer → List Timer
  cancelled_timers definition moved timers =
      if is_terminal definition moved.state && wiring.timers
      then cancel_all port redact policy floats definitions wiring holidays moved definition.clocks
          timers
      else timers

  -- A legal move has stored the moved case, cancelled the clocks of a terminal one, and recorded
  -- one event.
  finish_move_lem :
      (definition : WorkflowDefinition (floats.Float)) (c moved : Case) (actor reason : String)
      (recorded_at : Datetime) (w : CaseWorld port)
      → let out =
          finish_move port redact policy floats definitions wiring holidays definition c moved actor
            reason recorded_at w in
        (out.0 ≡ ok moved)
        × (out.1.cases ≡ put_case moved w.cases)
        × (out.1.trail
            ≡ w.trail
              ++ case_event redact moved "transition" actor c.state moved.state allowed reason []
                  recorded_at
                ∷ [])
        × (out.1.console ≡ w.console)
        × (out.1.timers ≡ cancelled_timers definition moved w.timers)
  unfolding finish_move emit cancel_clocks
  finish_move_lem definition c moved actor reason recorded_at w =
      elim (Bool-cases (is_terminal definition moved.state)) [
        | inl ends ↦ rw ends (elim (Bool-cases (wiring.timers)) [
          | inl timed ↦ rw timed (elim (Bool-cases (wiring.events)) [
            | inl published ↦ rw published (refl, refl, refl, refl, refl)
            | inr silent ↦ rw silent (refl, refl, refl, refl, refl)
          ])
          | inr untimed ↦ rw untimed (elim (Bool-cases (wiring.events)) [
            | inl published ↦ rw published (refl, refl, refl, refl, refl)
            | inr silent ↦ rw silent (refl, refl, refl, refl, refl)
          ])
        ])
        | inr goes_on ↦ rw goes_on (elim (Bool-cases (wiring.events)) [
          | inl published ↦ rw published (refl, refl, refl, refl, refl)
          | inr silent ↦ rw silent (refl, refl, refl, refl, refl)
        ])
      ]

  -- The move that `transition_case` makes of a stored case, to a state at an instant.
  abbrev pub moved_to :
      Case → String → String → String → Datetime → WorkflowDefinition (floats.Float) → Case
  moved_to c to_state actor reason as_of definition = record c {
    state = to_state;
    history = c.history ++ entry_for definition c to_state actor reason as_of ∷ [];
  }

  -- A transition of a stored case of a registered type. By an illegal edge it raises
  -- IllegalTransition, having recorded one rejected event and changed nothing else. By a legal edge
  -- it returns the moved case, which is stored, with one more entry in its history; one allowed
  -- event is recorded, the console is untouched, and if the state entered is terminal and timers
  -- are bound, no timer of a clock of the workflow is left for the case.
  pub transition_case_lem :
      (case_id tenant to_state actor reason : String) (as_of : Option Datetime)
      (now recorded_at : Datetime) (w : CaseWorld port) (c : Case)
      (definition : WorkflowDefinition (floats.Float))
      → get_case tenant case_id w.cases ≡ some c
      → definitions c.case_type ≡ some definition
      → let out =
          transition_case port redact policy floats definitions wiring holidays case_id tenant
            to_state actor reason as_of now recorded_at w in
        let moved = moved_to c to_state actor reason (or_now as_of now) definition in
        (is_legal definition c.state to_state ≡ false
          → out ≡ (
            err (illegal_transition c.state to_state),
            record w {
              trail =
                  w.trail
                  ++ case_event redact c "transition" actor c.state to_state rejected reason []
                      recorded_at
                    ∷ [];
            },
          ))
        × (is_legal definition c.state to_state ≡ true
            → (out.0 ≡ ok moved)
              × (out.1.cases ≡ put_case moved w.cases)
              × (out.1.trail
                  ≡ w.trail
                    ++ case_event redact moved "transition" actor c.state to_state allowed reason []
                        recorded_at
                      ∷ [])
              × (out.1.console ≡ w.console)
              × (is_terminal definition to_state ≡ true
                  → wiring.timers ≡ true
                  → (spec : ClockSpec (floats.Float)) → Memᴰ spec definition.clocks
                  → any (λ t. is_timer t c.tenant c.case_id spec.name) out.1.timers ≡ false))
  unfolding transition_case transition settle_move
  transition_case_lem case_id tenant to_state actor reason as_of now recorded_at w c definition
        found registered =
      rw found (
        rw registered (
          (λ illegal. rw illegal refl),
          (λ legal.
              let moved = moved_to c to_state actor reason (or_now as_of now) definition in
              let (result, cases, trail, console, timers) =
                finish_move_lem definition c moved actor reason recorded_at w in
              rw legal (
                result,
                cases,
                trail,
                console,
                (λ ends timed spec m.
                    ap (any (λ t. is_timer t c.tenant c.case_id spec.name))
                      (timers ∙ rw (ends, timed) refl)
                    ∙ cancel_all-cancelled moved spec definition.clocks w.timers m),
              )),
        ))
