-- ===== src/Cases/StateMachine.antt =====
-- domain/cases/state_machine.py: legal transitions with an append-only history.
pub mod History
use human_review_console.Prelude.{String, Bool, List, [], ◌∷◌, ◌++◌, keep, if◌then◌else◌}
use human_review_console.Time.{Datetime}
use human_review_console.Errors.{Result, ok, err, illegal_transition}
use human_review_console.Cases.Models.{WorkflowDefinition, Transition, Case, is_legal, next_seq}

module _ {Float : Type 0} (definition : WorkflowDefinition Float) where
  -- `legal_next_states`
  unfoldable pub legal_next_states : Case → List String
  legal_next_states c = keep (λ s. is_legal definition c.state s) definition.states

  abbrev pub entry_for : Case → String → String → String → Datetime → Transition
  entry_for c to_state actor reason as_of = record {
    seq = next_seq c;
    from_state = c.state;
    to_state = to_state;
    actor = actor;
    reason = reason;
    at = as_of;
  }

  -- `transition`
  unfoldable pub transition : Case → String → String → String → Datetime → Result Case
  transition c to_state actor reason as_of =
      if is_legal definition c.state to_state
      then ok (record c {
        state = to_state;
        history = c.history ++ entry_for c to_state actor reason as_of ∷ [];
      })
      else err (illegal_transition c.state to_state)
