-- ===== src/Api/Cases.antt =====
-- The case routes of api/app.py over the case service. `_DEFINITIONS` is the registry that the
-- service has too; the reading of a missing key is answered, as any error that no clause catches,
-- with 500. The uuids are arguments.
pub mod Answers
pub mod Openings
use human_review_console.Prelude.{String, Option, none, some, List, [], map}
use human_review_console.Time.{Datetime}
use human_review_console.Errors.{
  Error, Result, ok, err, case_not_found, illegal_transition, unknown_workflow, key_error,
  http_error, or_raise,
}
use human_review_console.Action.{Action, pure, raise, lift, rescue, ◌>>=◌, ◌>>◌}
use human_review_console.MakerChecker.{RoutingPolicy}
use human_review_console.Stores.ReviewPort.{ReviewStorePort}
use human_review_console.Cases.Models.{WorkflowDefinition, Case}
use human_review_console.Cases.Clock.{Holidays, Floats}
use human_review_console.Cases.Workflow as Service
use human_review_console.Cases.Workflow.{Wiring, CaseWorld}
use human_review_console.Config.{Settings, runtime}
use human_review_console.Config.Container.{generator_model}
use human_review_console.Identity.{Principal}
use human_review_console.Api.Schemas.{
  OpenCaseRequest, TransitionRequest, CaseModel, CaseSummaryModel, AssessmentModel, WorkflowModel,
  HealthResponse, case_model, case_summary, assessment_model, workflow_model,
}

-- The `except` clauses of `get_case` and `evaluate_case`, and those of `transition_case`.
abbrev pub missing_error : Error → Error
missing_error (case_not_found case_id) = http_error 404
missing_error e = e

abbrev pub transition_error : Error → Error
transition_error (case_not_found case_id) = http_error 404
transition_error (illegal_transition from_state to_state) = http_error 409
transition_error (unknown_workflow case_type) = http_error 422
transition_error e = e

-- `workflows`
unfoldable pub workflows : {Float : Type 0} → List (WorkflowDefinition Float) → List WorkflowModel
workflows definitions = map workflow_model definitions

-- `healthz`
unfoldable pub healthz : Settings → HealthResponse
healthz s = record {
  status = "ok";
  profile = s.profile;
  runtime = runtime s;
  generator_model = generator_model;
  region = s.region;
}

module _ (port : ReviewStorePort) (redact : String → String) (policy : RoutingPolicy)
    (floats : Floats) (definitions : String → Option (WorkflowDefinition (floats.Float)))
    (wiring : Wiring) (holidays : Holidays) (actor : Principal → String)
    (isoformat : Datetime → String) where
  -- `CaseModel.from_domain(case, _DEFINITIONS[case.case_type])`
  abbrev pub shown_case : Case → Result CaseModel
  shown_case c = elim (definitions c.case_type) [
    | none ↦ err key_error
    | some definition ↦ ok (case_model isoformat c definition)
  ]

  -- `open_case`: an unknown type is refused before the service is called.
  unfoldable pub open_case :
      Principal → String → OpenCaseRequest → Datetime → Datetime → Action (CaseWorld port) CaseModel
  open_case principal case_id request now recorded_at = do
    definition ← lift (or_raise (definitions request.case_type) (http_error 422))
    c ←
        Service.open_case port redact policy floats definitions wiring holidays case_id
          principal.tenant request.case_type (actor principal) request.severity request.attributes
          request.summary none [] now recorded_at
    lift (shown_case c)

  unfoldable pub list_cases : Principal → CaseWorld port → List CaseSummaryModel
  list_cases principal w =
      map case_summary (
        Service.list_cases port redact policy floats definitions wiring holidays principal.tenant w)

  unfoldable pub get_case : Principal → String → Action (CaseWorld port) CaseModel
  get_case principal case_id = do
    c ← rescue missing_error (
        Service.load port redact policy floats definitions wiring holidays principal.tenant case_id)
    lift (shown_case c)

  unfoldable pub transition_case :
      Principal
      → String
      → TransitionRequest
      → Datetime
      → Datetime
      → Action (CaseWorld port) CaseModel
  transition_case principal case_id request now recorded_at = do
    c ← rescue transition_error (
        Service.transition_case port redact policy floats definitions wiring holidays case_id
          principal.tenant request.to_state (actor principal) request.reason none now recorded_at)
    lift (shown_case c)

  unfoldable pub evaluate_case :
      Principal
      → String
      → (review_id : String) → (now evaluated_at submitted_at recorded_at : Datetime)
      → Action (CaseWorld port) AssessmentModel
  evaluate_case principal case_id review_id now evaluated_at submitted_at recorded_at = do
    assessment ← rescue missing_error (
        Service.evaluate_case port redact policy floats definitions wiring holidays case_id
          principal.tenant (actor principal) none review_id now evaluated_at submitted_at
          recorded_at)
    pure (assessment_model isoformat assessment)
