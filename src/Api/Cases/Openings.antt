-- ===== src/Api/Cases/Openings.antt =====
-- What the route that opens a case answers.
use human_review_console.Prelude.{
  String, true, ◌≡◌, refl, sym, ◌∙◌, ap, Option, none, some, [], arith, eq_iff, inl, inr,
}
use human_review_console.Time.{Datetime}
use human_review_console.Errors.{Result, ok, err, http_error}
use human_review_console.MakerChecker.{RoutingPolicy}
use human_review_console.Stores.ReviewPort.{ReviewStorePort}
use human_review_console.Console.Outcomes.{Result-cases}
use human_review_console.Cases.Models.{WorkflowDefinition, Case, new_case}
use human_review_console.Cases.Clock.{Holidays, Floats}
use human_review_console.Cases.LocalPorts as LocalPorts
use human_review_console.Cases.LocalPorts.{is_case}
use human_review_console.Cases.Workflow as Service
use human_review_console.Cases.Workflow.{Wiring, CaseWorld}
use human_review_console.Cases.Workflow.Openings.{open_case-new_case}
use human_review_console.Identity.{Principal}
use human_review_console.Api.Schemas.{OpenCaseRequest, CaseModel, case_model}
use human_review_console.Api.Cases.{shown_case, get_case, open_case}
use human_review_console.Api.Cases.Answers.{get_case-put_case, get_case_found}

module _ (port : ReviewStorePort) (redact : String → String) (policy : RoutingPolicy)
    (floats : Floats) (definitions : String → Option (WorkflowDefinition (floats.Float)))
    (wiring : Wiring) (holidays : Holidays) (actor : Principal → String)
    (isoformat : Datetime → String) where
  -- The case that `open_case` makes.
  abbrev case_of :
      Principal → String → OpenCaseRequest → Datetime → WorkflowDefinition (floats.Float) → Case
  case_of p case_id body now definition =
      new_case case_id p.tenant definition body.severity now body.attributes []

  case_of-is_case :
      (p q : Principal) (case_id : String) (body : OpenCaseRequest) (now : Datetime)
      (definition : WorkflowDefinition (floats.Float))
      → q.tenant ≡ p.tenant
      → is_case (case_of p case_id body now definition) q.tenant case_id ≡ true
  unfolding new_case
  case_of-is_case p q case_id body now definition same_tenant =
      ground (arith, eq_iff p.tenant q.tenant, eq_iff case_id case_id, sym same_tenant)

  case_of-case_type :
      (p : Principal) (case_id : String) (body : OpenCaseRequest) (now : Datetime)
      (definition : WorkflowDefinition (floats.Float))
      → (case_of p case_id body now definition).case_type ≡ definition.case_type
  unfolding new_case
  case_of-case_type p case_id body now definition = refl

  case_of-case_model :
      (p : Principal) (case_id : String) (body : OpenCaseRequest) (now : Datetime)
      (definition : WorkflowDefinition (floats.Float))
      → let m = case_model isoformat (case_of p case_id body now definition) definition in
        (m.tenant ≡ p.tenant)
        × (m.case_type ≡ definition.case_type)
        × (m.state ≡ definition.initial)
        × (m.history ≡ [])
  unfolding new_case case_model
  case_of-case_model p case_id body now definition = (refl, refl, refl, refl)

  -- The answer of 201 is the model of the new case, which is stored.
  opened_case :
      (p : Principal) (case_id : String) (body : OpenCaseRequest) (now recorded_at : Datetime)
      (w v : CaseWorld port) (definition : WorkflowDefinition (floats.Float)) (m : CaseModel)
      → definitions body.case_type ≡ some definition
      → definition.case_type ≡ body.case_type
      → open_case port redact policy floats definitions wiring holidays actor isoformat p case_id
          body now recorded_at w
        ≡ (ok m, v)
      → let c = case_of p case_id body now definition in
        (m ≡ case_model isoformat c definition) × (v.cases ≡ LocalPorts.put_case c w.cases)
  unfolding open_case
  opened_case p case_id body now recorded_at w v definition m known typed h =
      let call =
        Service.open_case port redact policy floats definitions wiring holidays case_id p.tenant
          body.case_type (actor p) body.severity body.attributes body.summary none [] now
          recorded_at w in
      elim (Result-cases (call.0)) [
        | inr (e, failed) ↦ cc (simp (known, failed) at h)
        | inl (c, returned) ↦
            let (new, cases) =
              open_case-new_case port redact policy floats definitions wiring holidays case_id
                p.tenant body.case_type (actor p) body.severity body.attributes body.summary none []
                now recorded_at w definition c known returned in
            let own : definitions c.case_type ≡ some definition =
              ap (λ (x : Case). definitions x.case_type) new
              ∙ ap definitions (case_of-case_type p case_id body now definition ∙ typed)
              ∙ known in
            let answered : (
              shown_case port redact policy floats definitions wiring holidays actor isoformat c,
              call.1,
            )
                ≡ (ok m, v) =
              simp (known, returned) at h in
            let shown : shown_case port redact policy floats definitions wiring holidays actor
                  isoformat c
                ≡ ok (case_model isoformat c definition) =
              rw (own, shown_case) refl in
            let model : ◌≡◌ {A = Result CaseModel} (ok (case_model isoformat c definition)) (ok m) =
              sym shown ∙ ap (λ (x : Result CaseModel × CaseWorld port). x.0) answered in
            let world : call.1 ≡ v = ap (λ (x : Result CaseModel × CaseWorld port). x.1) answered in
            (
              sym (cc model) ∙ ap (λ (x : Case). case_model isoformat x definition) new,
              ap (λ (x : CaseWorld port). x.cases) (sym world) ∙ cases,
            )
      ]

  -- A request for a type of case that is not registered is answered with 422 and changes nothing.
  -- A case that is opened, of a workflow registered under its own type, is in the tenant of the
  -- principal, in the workflow's initial state, without history, and every principal of that tenant
  -- reads it as it was answered.
  pub open_route_lem :
      (p q : Principal) (case_id : String) (body : OpenCaseRequest) (now recorded_at : Datetime)
      (w : CaseWorld port)
      → q.tenant ≡ p.tenant
      → let out =
          open_case port redact policy floats definitions wiring holidays actor isoformat p case_id
            body now recorded_at w in
        (definitions body.case_type ≡ none → out ≡ (err (http_error 422), w))
        × ((definition : WorkflowDefinition (floats.Float)) (m : CaseModel) (v : CaseWorld port)
            → definitions body.case_type ≡ some definition
            → definition.case_type ≡ body.case_type
            → out ≡ (ok m, v)
            → (m.tenant ≡ p.tenant)
              × (m.case_type ≡ body.case_type)
              × (m.state ≡ definition.initial)
              × (m.history ≡ [])
              × (get_case port redact policy floats definitions wiring holidays actor isoformat q
                    case_id v
                  ≡ (ok m, v)))
  unfolding open_case
  open_route_lem p q case_id body now recorded_at w same_tenant = (
    (λ unknown. rw unknown refl),
    (λ definition m v known typed h.
        let c = case_of p case_id body now definition in
        let (shown, cases) =
          opened_case p case_id body now recorded_at w v definition m known typed h in
        let (tenant, case_type, state, history) =
          case_of-case_model p case_id body now definition in
        let found : LocalPorts.get_case q.tenant case_id v.cases ≡ some c =
          ap (LocalPorts.get_case q.tenant case_id) cases
          ∙ get_case-put_case q.tenant case_id c w.cases
              (case_of-is_case p q case_id body now definition same_tenant) in
        let own : definitions c.case_type ≡ some definition =
          ap definitions (case_of-case_type p case_id body now definition ∙ typed) ∙ known in
        (
          ap (λ (x : CaseModel). x.tenant) shown ∙ tenant,
          ap (λ (x : CaseModel). x.case_type) shown ∙ case_type ∙ typed,
          ap (λ (x : CaseModel). x.state) shown ∙ state,
          ap (λ (x : CaseModel). x.history) shown ∙ history,
          get_case_found port redact policy floats definitions wiring holidays actor isoformat q
                case_id v c definition found own
              ∙ ap (λ (x : CaseModel). (ok x, v)) (sym shown),
        )),
  )
