-- ===== src/Cases/StateMachine/History.antt =====
-- The history of a case is a legal path from the initial state to the current one.
use human_review_console.Prelude.{
  ℕ, suc, ◌+◌, String, Bool, true, false, ◌≡◌, ◌↔◌, refl, sym, ◌∙◌, List, [], ◌∷◌, ◌++◌, inl, inr,
  length, keep, elem, eq_iff, arith, Bool-cases,
}
use human_review_console.Time.{Datetime}
use human_review_console.Kernel.{Severity, Citation}
use human_review_console.Errors.{ok, err, illegal_transition}
use human_review_console.Cases.Models.{WorkflowDefinition, Transition, Case, is_legal, new_case}
use human_review_console.Cases.StateMachine.{legal_next_states, entry_for, transition}

module _ {Float : Type 0} (definition : WorkflowDefinition Float) where
  -- The entries are numbered from n + 1, each leaves the state that the one before it entered by a
  -- legal edge, and the last enters `state`.
  abbrev pub IsPath : String → ℕ → List Transition → String → Type 0
  IsPath from n [] state = from ≡ state
  IsPath from n (t ∷ rest) state =
      (t.seq ≡ suc n)
      × (t.from_state ≡ from)
      × (is_legal definition from t.to_state ≡ true)
      × IsPath t.to_state (suc n) rest state

  IsPath-snoc :
      (from : String) (n : ℕ) (history : List Transition) (state : String) (t : Transition)
      → IsPath from n history state
      → t.seq ≡ suc (n + length history)
      → t.from_state ≡ state
      → is_legal definition state t.to_state ≡ true
      → IsPath from n (history ++ t ∷ []) t.to_state
  IsPath-snoc from n [] state t p s f l = (omega arith, f ∙ sym p, rw p l, refl)
  IsPath-snoc from n (u ∷ rest) state t (a, b, c, p) s f l =
      (a, b, c, IsPath-snoc u.to_state (suc n) rest state t p (omega arith) f l)

  -- A case of the workflow whose history leads from the initial state to its state.
  pub record IsTraced (c : Case) : Type 0 where
    pub typed : c.case_type ≡ definition.case_type
    pub path : IsPath definition.initial 0 c.history c.state

  pub new_case-IsTraced :
      (case_id tenant : String) (severity : Severity) (opened_at : Datetime)
      (attributes : List (String × String)) (citations : List Citation)
      → IsTraced (new_case case_id tenant definition severity opened_at attributes citations)
  unfolding new_case
  new_case-IsTraced case_id tenant severity opened_at attributes citations = record {
    typed = refl;
    path = refl;
  }

  -- A transition returns exactly if the edge is legal, and otherwise raises IllegalTransition with
  -- the edge. It appends its one entry to the history, enters the state, keeps the opening, and
  -- leaves a case whose history is a numbered legal path from the initial state to its state.
  pub transition_lem :
      (c : Case) (to_state actor reason : String) (as_of : Datetime)
      → IsTraced c
      → (is_legal definition c.state to_state ≡ false
          → transition definition c to_state actor reason as_of
            ≡ err (illegal_transition c.state to_state))
        × (is_legal definition c.state to_state ≡ true
            → (moved : Case) × (transition definition c to_state actor reason as_of ≡ ok moved)
              × (moved.state ≡ to_state)
              × (moved.history
                  ≡ c.history ++ entry_for definition c to_state actor reason as_of ∷ [])
              × (moved.opened_at ≡ c.opened_at)
              × IsTraced moved)
  unfolding transition
  transition_lem c to_state actor reason as_of traced = (
    (λ illegal. rw illegal refl),
    (λ legal. (
      record c {
        state = to_state;
        history = c.history ++ entry_for definition c to_state actor reason as_of ∷ [];
      },
      rw legal refl,
      refl,
      refl,
      refl,
      record {
        typed = traced.typed;
        path =
            IsPath-snoc definition.initial 0 c.history c.state
              (entry_for definition c to_state actor reason as_of) traced.path (omega arith) refl
              legal;
      },
    )),
  )

  elem-keep :
      (p : String → Bool) (k : String) (l : List String)
      → (elem k (keep p l) ≡ true) ↔ ((elem k l ≡ true) × (p k ≡ true))
  elem-keep p k [] = ground arith
  elem-keep p k (x ∷ l) = ground (arith, elem-keep p k l, eq_iff k x)

  -- The states offered as next are the workflow's states to which a transition returns.
  pub legal_next_states_iff :
      (c : Case) (to_state actor reason : String) (as_of : Datetime)
      → (elem to_state (legal_next_states definition c) ≡ true) ↔ (
          (elem to_state definition.states ≡ true)
          × ((moved : Case) × (transition definition c to_state actor reason as_of ≡ ok moved)))
  unfolding legal_next_states transition
  legal_next_states_iff c to_state actor reason as_of =
      let both = elem-keep (λ s. is_legal definition c.state s) to_state definition.states in
      (
        (λ h.
            let (known, legal) = both.0 h in
            (
              known,
              (
                record c {
                  state = to_state;
                  history = c.history ++ entry_for definition c to_state actor reason as_of ∷ [];
                },
                rw legal refl,
              ),
            )),
        (λ (known, (moved, h)). elim (Bool-cases (is_legal definition c.state to_state)) [
          | inl legal ↦ both.1 (known, legal)
          | inr illegal ↦ cc (rw illegal at h)
        ]),
      )
