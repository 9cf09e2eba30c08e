-- ===== src/Api/Reach.antt =====
-- The states of the whole service under any requests to the review and case routes of api/app.py,
-- which share one console.
use human_review_console.Prelude.{
  String, false, ◌≡◌, sym, subst, Option, none, some, [], All, elem, Distinct, Option-cases, inl,
  inr,
}
use human_review_console.Prelude.Int.{pos, ◌≤ℤ◌}
use human_review_console.Time.{Datetime}
use human_review_console.Kernel.{approved}
use human_review_console.Models.{ReviewItem, approvers, approvals_count}
use human_review_console.Errors.{Result}
use human_review_console.Action.{Action, continue-lift, continue-pure, rescued}
use human_review_console.MakerChecker.{RoutingPolicy, required_approvals}
use human_review_console.Stores.ReviewPort.{ReviewStorePort, IsLawful}
use human_review_console.Console.{World}
use human_review_console.Console.Trust.{IsSignedOff}
use human_review_console.Console.Reach as Consoles
use human_review_console.Console.Reach.{start, approved_item-IsSignedOff}
use human_review_console.Cases.Models.{WorkflowDefinition, Case}
use human_review_console.Cases.Clock.{Holidays, Floats}
use human_review_console.Cases.StateMachine.History.{IsPath}
use human_review_console.Cases.LocalPorts as LocalPorts
use human_review_console.Cases.Workflow as Service
use human_review_console.Cases.Workflow.{Wiring, CaseWorld}
use human_review_console.Cases.Workflow.Frames.{get_case-mem}
use human_review_console.Cases.Workflow.Consoles.{
  open_case-console, transition_case-console, evaluate_case-Reach,
}
use human_review_console.Cases.Workflow.Reach.{
  opens, moves, evaluates, AllHavePath, IsRegistry, Step-HasPath,
}
use human_review_console.Identity.{Principal}
use human_review_console.Api.Schemas.{
  SubmitRequest, ServiceSubmitRequest, DecisionRequest, OpenCaseRequest, TransitionRequest,
  assessment_model,
}
use human_review_console.Api.Reviews.{submit_review, submit_review_service, decide_review}
use human_review_console.Api.Reviews.Worlds.{
  submit_review-Reach, submit_review_service-Reach, decide_review-Reach,
}
use human_review_console.Api.Cases.{
  shown_case, open_case, transition_case, evaluate_case, transition_error, missing_error,
}

module _ (port : ReviewStorePort) (lawful : IsLawful port) (redact : String → String)
    (policy : RoutingPolicy) (floats : Floats)
    (definitions : String → Option (WorkflowDefinition (floats.Float))) (wiring : Wiring)
    (holidays : Holidays) (actor : Principal → String) (isoformat : Datetime → String) where
  -- A review route acts on the console that the case service's router submits to.
  abbrev pub on_console : {A : Type 0} → Action (World port) A → CaseWorld port → CaseWorld port
  on_console m w = record w { console = (m w.console).1 }

  -- One request to a route that can change the state, however it is answered.
  pub data Step : CaseWorld port → CaseWorld port → Type 0 where
    submits :
        (p : Principal) (review_id : String) (body : SubmitRequest) (a b : Datetime)
        (w : CaseWorld port)
        → Step w (on_console (submit_review port redact policy actor p review_id body a b) w)
    submits_once :
        (admitted : Result (Unit {0})) (review_id : String) (body : ServiceSubmitRequest)
        (a b : Datetime) (w : CaseWorld port)
        → Step w (
            on_console
              (submit_review_service port redact policy actor admitted review_id body a b)
              w)
    decides :
        (p : Principal) (review_id : String) (body : DecisionRequest) (a b : Datetime)
        (w : CaseWorld port)
        → Step w (on_console (decide_review port redact policy actor p review_id body a b) w)
    opens_case :
        (p : Principal) (case_id : String) (body : OpenCaseRequest) (now b : Datetime)
        (w : CaseWorld port)
        → Step w
            (open_case port redact policy floats definitions wiring holidays actor isoformat p
              case_id body now b w).1
    moves_case :
        (p : Principal) (case_id : String) (body : TransitionRequest) (now b : Datetime)
        (w : CaseWorld port)
        → Step w
            (transition_case port redact policy floats definitions wiring holidays actor isoformat p
              case_id body now b w).1
    evaluates_case :
        (p : Principal) (case_id review_id : String) (now a s b : Datetime) (w : CaseWorld port)
        → Step w
            (evaluate_case port redact policy floats definitions wiring holidays actor isoformat p
              case_id review_id now a s b w).1

  pub data Reach (w : CaseWorld port) : CaseWorld port → Type 0 where
    here : Reach w w
    next : {u v : CaseWorld port} → Reach w u → Step u v → Reach w v

  -- A service that has just started on an empty store.
  abbrev pub fresh : CaseWorld port
  fresh = record {
    cases = [];
    timers = [];
    events = [];
    trail = [];
    console = start port lawful redact policy;
  }

  -- What a request does to the cases and to the console: calls of the two services alone.
  abbrev Served : CaseWorld port → CaseWorld port → Type 0
  Served w v =
      (AllHavePath port redact policy floats definitions wiring holidays w.cases
        → AllHavePath port redact policy floats definitions wiring holidays v.cases)
      × Consoles.Reach port lawful redact policy w.console v.console

  opens-Served :
      IsRegistry port redact policy floats definitions wiring holidays
      → (p : Principal) (case_id : String) (body : OpenCaseRequest) (now b : Datetime)
        (w : CaseWorld port)
      → Served w
          (open_case port redact policy floats definitions wiring holidays actor isoformat p case_id
            body now b w).1
  unfolding open_case
  opens-Served registry p case_id body now b w = elim (Option-cases (definitions body.case_type)) [
    | inl unknown ↦ rw unknown ((λ all. all), Consoles.Reach.here)
    | inr (definition, known) ↦
        let call =
          Service.open_case port redact policy floats definitions wiring holidays case_id p.tenant
            body.case_type (actor p) body.severity body.attributes body.summary none [] now b w in
        simp known (
          subst (Served w)
            (sym (
              continue-lift
                (shown_case port redact policy floats definitions wiring holidays actor isoformat)
                call.0 call.1))
            (
              Step-HasPath port redact policy floats definitions wiring holidays registry (
                  opens case_id p.tenant body.case_type (actor p) body.severity body.attributes
                    body.summary none [] now b w),
              subst (Consoles.Reach port lawful redact policy w.console)
                  (sym (
                    open_case-console port redact policy floats definitions wiring holidays case_id
                      p.tenant body.case_type (actor p) body.severity body.attributes body.summary
                      none [] now b w))
                  Consoles.Reach.here,
            ))
  ]

  moves-Served :
      IsRegistry port redact policy floats definitions wiring holidays
      → (p : Principal) (case_id : String) (body : TransitionRequest) (now b : Datetime)
        (w : CaseWorld port)
      → Served w
          (transition_case port redact policy floats definitions wiring holidays actor isoformat p
            case_id body now b w).1
  unfolding transition_case
  moves-Served registry p case_id body now b w =
      let call =
        Service.transition_case port redact policy floats definitions wiring holidays case_id
          p.tenant body.to_state (actor p) body.reason none now b w in
      subst (Served w)
        (sym (
          continue-lift
            (shown_case port redact policy floats definitions wiring holidays actor isoformat)
            (rescued transition_error call.0) call.1))
        (
          Step-HasPath port redact policy floats definitions wiring holidays registry
              (moves case_id p.tenant body.to_state (actor p) body.reason none now b w),
          subst (Consoles.Reach port lawful redact policy w.console)
              (sym (
                transition_case-console port redact policy floats definitions wiring holidays
                  case_id p.tenant body.to_state (actor p) body.reason none now b w))
              Consoles.Reach.here,
        )

  evaluates-Served :
      IsRegistry port redact policy floats definitions wiring holidays
      → (p : Principal) (case_id review_id : String) (now a s b : Datetime) (w : CaseWorld port)
      → Served w
          (evaluate_case port redact policy floats definitions wiring holidays actor isoformat p
            case_id review_id now a s b w).1
  unfolding evaluate_case
  evaluates-Served registry p case_id review_id now a s b w =
      let call =
        Service.evaluate_case port redact policy floats definitions wiring holidays case_id p.tenant
          (actor p) none review_id now a s b w in
      subst (Served w)
        (sym (continue-pure (assessment_model isoformat) (rescued missing_error call.0) call.1))
        (
          Step-HasPath port redact policy floats definitions wiring holidays registry
              (evaluates case_id p.tenant (actor p) none review_id now a s b w),
          evaluate_case-Reach port redact policy floats definitions wiring holidays lawful case_id
              p.tenant (actor p) none review_id now a s b w,
        )

  Step-Served :
      IsRegistry port redact policy floats definitions wiring holidays
      → {w v : CaseWorld port} → Step w v
      → Served w v
  Step-Served registry (submits p review_id body a b w) = (
    (λ all. all),
    submit_review-Reach port lawful redact policy actor p review_id body a b w.console,
  )
  Step-Served registry (submits_once admitted review_id body a b w) = (
    (λ all. all),
    submit_review_service-Reach port lawful redact policy actor admitted review_id body a b
        w.console,
  )
  Step-Served registry (decides p review_id body a b w) = (
    (λ all. all),
    decide_review-Reach port lawful redact policy actor p review_id body a b w.console,
  )
  Step-Served registry (opens_case p case_id body now b w) =
      opens-Served registry p case_id body now b w
  Step-Served registry (moves_case p case_id body now b w) =
      moves-Served registry p case_id body now b w
  Step-Served registry (evaluates_case p case_id review_id now a s b w) =
      evaluates-Served registry p case_id review_id now a s b w

  and_then :
      {u v x : World port}
      → Consoles.Reach port lawful redact policy u v
      → Consoles.Reach port lawful redact policy v x
      → Consoles.Reach port lawful redact policy u x
  and_then r Consoles.Reach.here = r
  and_then r (Consoles.Reach.next q step) = Consoles.Reach.next (and_then r q) step

  Reach-Served :
      IsRegistry port redact policy floats definitions wiring holidays
      → {w v : CaseWorld port} → Reach w v
      → Served w v
  Reach-Served registry here = ((λ all. all), Consoles.Reach.here)
  Reach-Served registry (next r step) =
      let (before, so_far) = Reach-Served registry r in
      let (after, last) = Step-Served registry step in
      ((λ all. after (before all)), and_then so_far last)

  -- With each workflow registered under its own type, in every state that a fresh service reaches
  -- by any requests, whether they were answered or refused: an approved review in the store, also
  -- one that an escalated case opened, has the approvals that the policy requires, from distinct
  -- checkers, none of them the maker, each with its allowed approval in the trail; and every stored
  -- case has a history that is a legal path of its workflow from the initial state to its state.
  pub service_state_lem :
      {v : CaseWorld port}
      → IsRegistry port redact policy floats definitions wiring holidays
      → Reach fresh v
      → ((tenant review_id : String) (item : ReviewItem)
          → port.get tenant review_id v.console.store ≡ some item
          → item.state ≡ approved
          → (required_approvals policy item ≤ℤ pos (approvals_count item))
            × Distinct (approvers item)
            × (elem item.request.maker (approvers item) ≡ false)
            × All (IsSignedOff redact v.console.audit item) item.approvals)
        × ((tenant case_id : String) (c : Case)
            → LocalPorts.get_case tenant case_id v.cases ≡ some c
            → (definition : WorkflowDefinition (floats.Float)) × (definitions c.case_type
                ≡ some definition)
              × IsPath definition definition.initial 0 c.history c.state)
  service_state_lem {v} registry r =
      let (cases, consoles) = Reach-Served registry r in
      (
        (λ tenant review_id item found is_approved.
            approved_item-IsSignedOff port lawful redact policy tenant review_id item consoles found
              is_approved),
        (λ tenant case_id c found.
            let (definition, known, traced) =
              cases (λ x m. elim m [ ]) c (get_case-mem tenant case_id c v.cases found) in
            (definition, known, traced.path)),
      )
