-- ===== src/Api/Reviews.antt =====
-- The review routes of api/app.py over a console. The principal is the one that `get_principal`
-- gave; `actor` is the service kit's reading of it; `review_id` is the fresh uuid. An error that no
-- clause catches is answered with 500.
pub mod Routes
pub mod Decisions
pub mod Worlds
pub mod Scoped
use human_review_console.Prelude.{ℕ, String, Bool, List, map, none, if◌then◌else◌}
use human_review_console.Time.{Datetime}
use human_review_console.Errors.{Error, Result, review_not_found, already_resolved, http_error}
use human_review_console.Action.{Action, pure, lift, rescue, ◌>>=◌, ◌>>◌}
use human_review_console.MakerChecker.{RoutingPolicy, is_allowed}
use human_review_console.Stores.ReviewPort.{ReviewStorePort}
use human_review_console.Console.{
  Submission, DisposeRequest, World, submit, submit_idempotent, list_queue, get, dispose_review,
}
use human_review_console.Identity.{Principal}
use human_review_console.Api.Schemas.{
  SubmitRequest, ServiceSubmitRequest, DecisionRequest, checked_submit, checked_service_submit,
  ReviewItemModel, item_model, DecisionResponse, decision_response,
}

-- The arguments that `submit_review` and `submit_review_service` hand to the console.
unfoldable pub submission_of :
    SubmitRequest → (maker tenant review_id source_key : String) → Submission
submission_of body maker tenant review_id source_key = record {
  review_id = review_id;
  maker = maker;
  tenant = tenant;
  action = body.action;
  subject = body.subject;
  summary = body.summary;
  severity = body.severity;
  required_approvals = body.required_approvals;
  sod_group = body.sod_group;
  case_ref = body.case_ref;
  citations = body.citations;
  source_key = source_key;
}

-- The arguments that `decide_review` hands to `dispose`.
unfoldable pub disposal_of :
    (Principal → String) → Principal → String → DecisionRequest → DisposeRequest
disposal_of actor principal review_id body = record {
  review_id = review_id;
  checker = actor principal;
  checker_tenant = principal.tenant;
  checker_groups = principal.principals;
  disposition = body.disposition;
  reason = body.reason;
  amendments = body.amendments;
  as_of = none;
}

-- The `except` clauses of `get_review` and of `decide_review`.
abbrev pub get_error : Error → Error
get_error (review_not_found review_id) = http_error 404
get_error e = e

abbrev pub decide_error : Error → Error
decide_error (review_not_found review_id) = http_error 404
decide_error (already_resolved review_id state) = http_error 409
decide_error e = e

module _ (port : ReviewStorePort) (redact : String → String) (policy : RoutingPolicy)
    (actor : Principal → String) where
  unfoldable pub submit_review :
      Principal → String → SubmitRequest → Datetime → Datetime → Action (World port) ReviewItemModel
  unfolding checked_submit submission_of
  submit_review principal review_id body submitted_at recorded_at = do
    request ← lift (checked_submit body)
    item ←
        submit port redact policy
          (submission_of request (actor principal) principal.tenant review_id "") submitted_at
          recorded_at
    pure (item_model item)

  -- `submit_review_service`, after its dependency `require_service_caller`.
  unfoldable pub submit_review_service :
      (admitted : Result (Unit {0}))
      → String
      → ServiceSubmitRequest
      → Datetime
      → Datetime
      → Action (World port) ReviewItemModel
  unfolding checked_service_submit submission_of
  submit_review_service admitted review_id body submitted_at recorded_at = do
    _ ← lift admitted
    request ← lift (checked_service_submit body)
    item ←
        submit_idempotent port redact policy
          (submission_of request.submit request.maker request.tenant review_id request.source_key)
          submitted_at recorded_at
    pure (item_model item)

  unfoldable pub list_reviews : Principal → World port → List ReviewItemModel
  list_reviews principal w = map item_model (list_queue port redact policy principal.tenant w)

  unfoldable pub get_review : Principal → String → Action (World port) ReviewItemModel
  get_review principal review_id = do
    item ← rescue get_error (get port redact policy principal.tenant review_id)
    pure (item_model item)

  -- `decide_review`: the status and the response.
  unfoldable pub decide_review :
      Principal
      → String
      → DecisionRequest
      → Datetime
      → Datetime
      → Action (World port) (ℕ × DecisionResponse)
  unfolding disposal_of
  decide_review principal review_id body now recorded_at = do
    outcome ← rescue decide_error (
        dispose_review port redact policy (disposal_of actor principal review_id body) now
          recorded_at)
    pure (if is_allowed outcome then 200 else 403, decision_response outcome)
