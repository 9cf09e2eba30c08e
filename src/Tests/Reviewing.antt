-- ===== src/Tests/Reviewing.antt =====
-- The review routes over a console on the SQLite store.
use human_review_console.Prelude.{ℕ, String, true, ◌≡◌, refl, none, some, List, [], ◌∷◌}
use human_review_console.Prelude.Int.{pos, ◌≤ℤ◌}
use human_review_console.Kernel.{approve, critical}
use human_review_console.Models.{ReviewItem, is_terminal}
use human_review_console.Errors.{ok, err, http_error}
use human_review_console.MakerChecker.{default_routing, required_approvals}
use human_review_console.Stores.Reviews.{put, upsert, get}
use human_review_console.Console.{World, submit, new_item, with_effective_routing, store_put}
use mathlib.Core.List.{Memᴰ}
use human_review_console.Console.Reach.{here, next, submits, Reach-IsConsistent}
use human_review_console.Api.Reviews.Scoped.{shown_in_tenant}
use human_review_console.Identity.{Principal}
use human_review_console.Api.Schemas.{
  SubmitRequest, DecisionRequest, DecisionResponse, ReviewItemModel, item_model, checked_submit,
}
use human_review_console.Api.Reviews.{
  submission_of, submit_review, list_reviews, get_review, decide_review,
}
use human_review_console.Api.Reviews.Decisions.{IsAnswer, decide_review_lem}
use human_review_console.Api.Reviews.Routes.{submit_review-get_review}
use human_review_console.Tests.Samples.{noon, later, mask, submission}
use human_review_console.Tests.Consoles.{store, lawful, empty_console, submitted}

abbrev pub person : String → List String → Principal
person name groups = record {
  subject = name;
  principals = groups;
  tenant = "demo-bank";
  assurance = "iap";
  source = "gcp-iap";
}

abbrev pub actor : Principal → String
actor p = p.subject

abbrev pub checker : Principal
checker = person "first" ("group:approver" ∷ [])

abbrev pub agreed : DecisionRequest
agreed = record { disposition = approve; reason = "seen"; amendments = [] }

decide_review_lem_example :
    let out =
      decide_review store mask default_routing actor checker "r1" agreed later later submitted in
    (store.get "demo-bank" "r1" submitted.store ≡ none → out ≡ (err (http_error 404), submitted))
    × ((item : ReviewItem)
        → lawful.IsValid submitted.store
        → store.get "demo-bank" "r1" submitted.store ≡ some item
        → is_terminal item ≡ true
        → out ≡ (err (http_error 409), submitted))
    × ((status : ℕ) (response : DecisionResponse) (v : World store)
        → out ≡ (ok (status, response), v)
        → IsAnswer store lawful mask default_routing actor checker "r1" agreed later submitted
            status response v)
decide_review_lem_example =
    decide_review_lem store lawful mask default_routing actor checker "r1" agreed later later
      submitted

abbrev pub body : SubmitRequest
body = record {
  action = "disburse_loan";
  subject = "loan 7";
  summary = "large";
  severity = critical;
  required_approvals = pos 1;
  sod_group = "";
  case_ref = "";
  citations = [];
}

abbrev pub maker : Principal
maker = person "analyst" []

abbrev shown : ReviewItemModel
shown =
    item_model (new_item default_routing (submission_of body "analyst" "demo-bank" "r1" "") noon)

abbrev after : World store
after = (submit_review store mask default_routing actor maker "r1" body noon later empty_console).1

answered :
    submit_review store mask default_routing actor maker "r1" body noon later empty_console
    ≡ (ok shown, after)
unfolding submit_review checked_submit submission_of submit new_item with_effective_routing
    required_approvals put upsert get store_put item_model
answered = refl

submit_review-get_review_example :
    (pos 1 ≤ℤ body.required_approvals)
    × (body.required_approvals ≤ℤ pos 8)
    × (shown.state ≡ "pending")
    × (shown.maker ≡ "analyst")
    × (shown.tenant ≡ "demo-bank")
    × (get_review store mask default_routing actor checker "r1" after ≡ (ok shown, after))
submit_review-get_review_example =
    submit_review-get_review store lawful mask default_routing actor maker checker "r1" body noon
      later empty_console after shown refl answered

submitted-IsValid : lawful.IsValid submitted.store
submitted-IsValid =
    (Reach-IsConsistent store lawful mask default_routing
      (next here (submits (submission "r1" "") noon later empty_console))).valid

shown_in_tenant_example :
    ((m : ReviewItemModel) (v : World store)
      → get_review store mask default_routing actor checker "r1" submitted ≡ (ok m, v)
      → (m.tenant ≡ "demo-bank") × (v ≡ submitted))
    × ((m : ReviewItemModel)
        → Memᴰ m (list_reviews store mask default_routing actor checker submitted)
        → (m.tenant ≡ "demo-bank") × (m.state ≡ "pending"))
    × ((status : ℕ) (response : DecisionResponse) (v : World store)
        → decide_review store mask default_routing actor checker "r1" agreed later later submitted
          ≡ (ok (status, response), v)
        → response.item.tenant ≡ "demo-bank")
shown_in_tenant_example =
    shown_in_tenant store lawful mask default_routing actor checker "r1" agreed later later
      submitted submitted-IsValid
