-- ===== src/Cases/Workflow/Reach.antt =====
-- The cases in the store under any sequence of calls of the case service.
use mathlib.Core.List.{Memᴰ}
use human_review_console.Prelude.{
  String, true, ◌≡◌, sym, ◌∙◌, ap, subst, Option, some, List, [], inl, inr,
}
use human_review_console.Time.{Datetime}
use human_review_console.Kernel.{Severity, Citation}
use human_review_console.MakerChecker.{RoutingPolicy}
use human_review_console.Stores.ReviewPort.{ReviewStorePort}
use human_review_console.Cases.Models.{WorkflowDefinition, is_legal, Case, new_case}
use human_review_console.Cases.Clock.{Holidays, Floats}
use human_review_console.Cases.StateMachine.{transition}
use human_review_console.Cases.StateMachine.History.{
  IsPath, IsTraced, new_case-IsTraced, transition_lem,
}
use human_review_console.Cases.LocalPorts.{put_case, get_case}
use human_review_console.Cases.Workflow.{
  Wiring, CaseWorld, or_now, open_case, transition_case, evaluate_case,
}
use human_review_console.Cases.Workflow.Moves.{moved_to}
use human_review_console.Cases.Workflow.Frames.{
  mem-put_case, get_case-mem, open_case-cases, transition_case-cases, evaluate_case-cases,
}

module _ (port : ReviewStorePort) (redact : String → String) (policy : RoutingPolicy)
    (floats : Floats) (definitions : String → Option (WorkflowDefinition (floats.Float)))
    (wiring : Wiring) (holidays : Holidays) where
  -- One call of the service that can change its state.
  pub data Step : CaseWorld port → CaseWorld port → Type 0 where
    opens :
        (case_id tenant case_type actor : String) (severity : Severity)
        (attributes : List (String × String)) (summary : String) (as_of : Option Datetime)
        (citations : List Citation) (now recorded_at : Datetime) (w : CaseWorld port)
        → Step w
            (open_case port redact policy floats definitions wiring holidays case_id tenant
              case_type actor severity attributes summary as_of citations now recorded_at w).1
    moves :
        (case_id tenant to_state actor reason : String) (as_of : Option Datetime)
        (now recorded_at : Datetime) (w : CaseWorld port)
        → Step w
            (transition_case port redact policy floats definitions wiring holidays case_id tenant
              to_state actor reason as_of now recorded_at w).1
    evaluates :
        (case_id tenant actor : String) (as_of : Option Datetime) (review_id : String)
        (now evaluated_at submitted_at recorded_at : Datetime) (w : CaseWorld port)
        → Step w
            (evaluate_case port redact policy floats definitions wiring holidays case_id tenant
              actor as_of review_id now evaluated_at submitted_at recorded_at w).1

  pub data Reach (w : CaseWorld port) : CaseWorld port → Type 0 where
    here : Reach w w
    next : {u v : CaseWorld port} → Reach w u → Step u v → Reach w v

  -- A case whose history is a legal path of the workflow that is registered for its type.
  abbrev pub HasPath : Case → Type 0
  HasPath c =
      (definition : WorkflowDefinition (floats.Float)) × (definitions c.case_type ≡ some definition)
      × IsTraced definition c

  abbrev pub AllHavePath : List Case → Type 0
  AllHavePath cases = (c : Case) → Memᴰ c cases → HasPath c

  -- Each workflow is registered under its own type, as in the registry that ships.
  abbrev pub IsRegistry : Type 0
  IsRegistry =
      (case_type : String) (definition : WorkflowDefinition (floats.Float))
      → definitions case_type ≡ some definition
      → definition.case_type ≡ case_type

  put_case-HasPath :
      (c : Case) (cases : List Case)
      → HasPath c
      → AllHavePath cases
      → AllHavePath (put_case c cases)
  put_case-HasPath c cases h all x m = elim (mem-put_case x c cases m) [
    | inl e ↦ subst HasPath (sym e) h
    | inr n ↦ all x n
  ]

  moved_to-HasPath :
      (c : Case) (to_state actor reason : String) (as_of : Datetime)
      (definition : WorkflowDefinition (floats.Float))
      → definitions c.case_type ≡ some definition
      → is_legal definition c.state to_state ≡ true
      → HasPath c
      → HasPath (
          moved_to port redact policy floats definitions wiring holidays c to_state actor reason
            as_of definition)
  unfolding transition
  moved_to-HasPath c to_state actor reason as_of definition known legal (own, found, traced) =
      let same : own ≡ definition = cc (sym found ∙ known) in
      let (moved, returned, a, b, d, path) =
        (transition_lem definition c to_state actor reason as_of
            (subst (λ (x : WorkflowDefinition (floats.Float)). IsTraced x c) same traced)).1
          legal in
      let is_moved : moved_to port redact policy floats definitions wiring holidays c to_state actor
            reason as_of definition
          ≡ moved =
        cc (rw legal at returned) in
      (definition, known, subst (IsTraced definition) (sym is_moved) path)

  pub Step-HasPath :
      IsRegistry → {w v : CaseWorld port} → Step w v → AllHavePath w.cases → AllHavePath v.cases
  Step-HasPath registry
        (opens case_id tenant case_type actor severity attributes summary as_of citations now
          recorded_at w)
        all =
      elim (open_case-cases port redact policy floats definitions wiring holidays case_id tenant
        case_type actor severity attributes summary as_of citations now recorded_at w) [
          | inl same ↦ subst AllHavePath (sym same) all
          | inr (definition, known, stored) ↦
              let c =
                new_case case_id tenant definition severity (or_now as_of now) attributes
                  citations in
              let traced =
                new_case-IsTraced definition case_id tenant severity (or_now as_of now) attributes
                  citations in
              let own_type : definitions c.case_type ≡ some definition =
                ap definitions (traced.typed ∙ registry case_type definition known) ∙ known in
              subst AllHavePath (sym stored)
                (put_case-HasPath c w.cases (definition, own_type, traced) all)
        ]
  Step-HasPath registry (moves case_id tenant to_state actor reason as_of now recorded_at w) all =
      elim (transition_case-cases port redact policy floats definitions wiring holidays case_id
        tenant to_state actor reason as_of now recorded_at w) [
          | inl same ↦ subst AllHavePath (sym same) all
          | inr (c, definition, found, known, legal, stored) ↦ subst AllHavePath (sym stored) (
              put_case-HasPath
                (moved_to port redact policy floats definitions wiring holidays c to_state actor
                  reason (or_now as_of now) definition)
                w.cases
                (moved_to-HasPath c to_state actor reason (or_now as_of now) definition known legal
                  (all c (get_case-mem tenant case_id c w.cases found)))
                all)
        ]
  Step-HasPath registry
        (evaluates case_id tenant actor as_of review_id now evaluated_at submitted_at recorded_at w)
        all =
      subst AllHavePath
        (sym (
          evaluate_case-cases port redact policy floats definitions wiring holidays case_id tenant
            actor as_of review_id now evaluated_at submitted_at recorded_at w))
        all

  Reach-HasPath :
      IsRegistry → {w v : CaseWorld port} → w.cases ≡ [] → Reach w v → AllHavePath v.cases
  Reach-HasPath registry fresh here = subst AllHavePath (sym fresh) (λ c m. elim m [ ])
  Reach-HasPath registry fresh (next r step) =
      Step-HasPath registry step (Reach-HasPath registry fresh r)

  -- With each workflow registered under its own type, every case that the store finds, after any
  -- calls of a service that began with no case, has a history that is a path of legal edges,
  -- numbered from 1, from the initial state of its workflow to its state.
  pub stored_case-IsPath :
      {w v : CaseWorld port} (tenant case_id : String) (c : Case)
      → IsRegistry
      → w.cases ≡ []
      → Reach w v
      → get_case tenant case_id v.cases ≡ some c
      → (definition : WorkflowDefinition (floats.Float)) × (definitions c.case_type
          ≡ some definition)
        × IsPath definition definition.initial 0 c.history c.state
  stored_case-IsPath {w} {v} tenant case_id c registry fresh r found =
      let (definition, known, traced) =
        Reach-HasPath registry fresh r c (get_case-mem tenant case_id c v.cases found) in
      (definition, known, traced.path)
