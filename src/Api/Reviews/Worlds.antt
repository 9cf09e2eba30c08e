-- ===== src/Api/Reviews/Worlds.antt =====
-- The review routes change the console by calls of the console service alone.
use human_review_console.Prelude.{String, sym, subst, Bool-cases, ◌&&◌, inl, inr, leb}
use human_review_console.Prelude.Int.{pos, leb_ℤ}
use Prim.Native.String.{count}
use human_review_console.Time.{Datetime}
use human_review_console.Errors.{Result, ok, err}
use human_review_console.Action.{continue-pure, rescued}
use human_review_console.MakerChecker.{RoutingPolicy}
use human_review_console.Stores.ReviewPort.{ReviewStorePort, IsLawful}
use human_review_console.Console.{World, submit, submit_idempotent, dispose_review}
use human_review_console.Console.Reach.{Reach, here, next, submits, submits_once, disposes}
use human_review_console.Identity.{Principal}
use human_review_console.Api.Schemas.{
  SubmitRequest, ServiceSubmitRequest, DecisionRequest, checked_submit, checked_service_submit,
  item_model,
}
use human_review_console.Api.Reviews.{
  submission_of, disposal_of, decide_error, submit_review, submit_review_service, decide_review,
}
use human_review_console.Api.Reviews.Decisions.{status_and_response}

module _ (port : ReviewStorePort) (lawful : IsLawful port) (redact : String → String)
    (policy : RoutingPolicy) (actor : Principal → String) where
  pub submit_review-Reach :
      (p : Principal) (review_id : String) (body : SubmitRequest) (a b : Datetime) (w : World port)
      → Reach port lawful redact policy w
          (submit_review port redact policy actor p review_id body a b w).1
  unfolding submit_review checked_submit
  submit_review-Reach p review_id body a b w =
      let s = submission_of body (actor p) p.tenant review_id "" in
      elim (Bool-cases
        (leb_ℤ (pos 1) body.required_approvals && leb_ℤ body.required_approvals (pos 8))) [
          | inr refused ↦ rw refused here
          | inl within ↦ rw within (
              subst (Reach port lawful redact policy w)
                (sym (
                  continue-pure item_model (submit port redact policy s a b w).0
                    (submit port redact policy s a b w).1))
                (next here (submits s a b w)))
        ]

  pub submit_review_service-Reach :
      (admitted : Result (Unit {0})) (review_id : String) (body : ServiceSubmitRequest)
      (a b : Datetime) (w : World port)
      → Reach port lawful redact policy w
          (submit_review_service port redact policy actor admitted review_id body a b w).1
  unfolding submit_review_service checked_service_submit
  submit_review_service-Reach (err e) review_id body a b w = here
  submit_review_service-Reach (ok u) review_id body a b w =
      let s = submission_of body.submit body.maker body.tenant review_id body.source_key in
      let call = submit_idempotent port redact policy s a b w in
      elim (Bool-cases (
        (leb_ℤ (pos 1) body.submit.required_approvals
          && leb_ℤ body.submit.required_approvals (pos 8))
        && leb (count body.source_key) 255)) [
          | inr refused ↦ rw refused here
          | inl within ↦ rw within (
              subst (Reach port lawful redact policy w)
                (sym (continue-pure item_model call.0 call.1)) (next here (submits_once s a b w)))
        ]

  pub decide_review-Reach :
      (p : Principal) (review_id : String) (body : DecisionRequest) (a b : Datetime)
      (w : World port)
      → Reach port lawful redact policy w
          (decide_review port redact policy actor p review_id body a b w).1
  unfolding decide_review
  decide_review-Reach p review_id body a b w =
      let q = disposal_of actor p review_id body in
      let call = dispose_review port redact policy q a b w in
      subst (Reach port lawful redact policy w)
        (sym (continue-pure status_and_response (rescued decide_error call.0) call.1))
        (next here (disposes q a b w))
