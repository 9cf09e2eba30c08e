-- ===== src/Tests/Serving.antt =====
-- The case routes, and the whole service after a submission and a new case.
use human_review_console.Prelude.{
  ℕ, String, true, false, ◌≡◌, refl, none, some, [], ◌∷◌, ◌++◌, All, elem, Distinct,
}
use human_review_console.Prelude.Int.{pos, ◌≤ℤ◌}
use human_review_console.Time.{Datetime}
use human_review_console.Kernel.{medium, approved}
use human_review_console.Models.{ReviewItem, approvers, approvals_count}
use human_review_console.Errors.{ok, err, http_error}
use human_review_console.MakerChecker.{default_routing, required_approvals}
use human_review_console.Console.Trust.{IsSignedOff}
use human_review_console.Cases.Kernel.{rejected}
use human_review_console.Cases.Models.{WorkflowDefinition, is_legal, Case}
use human_review_console.Cases.LocalPorts as LocalPorts
use human_review_console.Cases.StateMachine.History.{IsPath}
use human_review_console.Cases.Trail.{case_event}
use human_review_console.Cases.Workflow.{CaseWorld}
use human_review_console.Cases.Workflow.Moves.{moved_to}
use human_review_console.Api.Schemas.{OpenCaseRequest, TransitionRequest, CaseModel, case_model}
use human_review_console.Api.Reviews.{submit_review}
use human_review_console.Api.Cases.{get_case, open_case, transition_case}
use human_review_console.Api.Cases.Answers.{transition_route_lem}
use human_review_console.Api.Cases.Openings.{open_route_lem}
use human_review_console.Api.Reach.{
  fresh, on_console, submits, opens_case, here, next, service_state_lem,
}
use human_review_console.Tests.Samples.{noon, later, mask, tenths}
use human_review_console.Tests.Clocks.{holidays}
use human_review_console.Tests.Consoles.{store, lawful}
use human_review_console.Tests.Workflows.{
  registry, all_bound, empty_world, opened, registry-IsRegistry,
}
use human_review_console.Tests.Reviewing.{actor, maker, checker, body}

abbrev iso : Datetime → String
iso t = "2024-04-28T12:00:00+00:00"

abbrev closing : TransitionRequest
closing = record { to_state = "closed"; reason = "done" }

transition_route_lem_example :
    let out =
      transition_case store mask default_routing tenths registry all_bound holidays actor iso maker
        "c1" closing later later opened in
    (LocalPorts.get_case "demo-bank" "c1" opened.cases ≡ none
      → out ≡ (err (http_error 404), opened))
    × ((c : Case) (definition : WorkflowDefinition ℕ)
        → LocalPorts.get_case "demo-bank" "c1" opened.cases ≡ some c
        → registry c.case_type ≡ some definition
        → let moved =
            moved_to store mask default_routing tenths registry all_bound holidays c "closed"
              "analyst" "done" later definition in
          (is_legal definition c.state "closed" ≡ false
            → out ≡ (
              err (http_error 409),
              record opened {
                trail =
                    opened.trail
                    ++ case_event mask c "transition" "analyst" c.state "closed" rejected "done" []
                        later
                      ∷ [];
              },
            ))
          × (is_legal definition c.state "closed" ≡ true
              → (out.0 ≡ ok (case_model iso moved definition))
                × (get_case store mask default_routing tenths registry all_bound holidays actor iso
                      checker "c1" out.1
                    ≡ (ok (case_model iso moved definition), out.1))))
transition_route_lem_example =
    transition_route_lem store mask default_routing tenths registry all_bound holidays actor iso
      maker checker "c1" closing later later opened refl

abbrev opening : OpenCaseRequest
opening = record { case_type = "dispute"; severity = medium; summary = ""; attributes = [] }

open_route_lem_example :
    let out =
      open_case store mask default_routing tenths registry all_bound holidays actor iso maker "c1"
        opening noon noon empty_world in
    (registry "dispute" ≡ none → out ≡ (err (http_error 422), empty_world))
    × ((definition : WorkflowDefinition ℕ) (m : CaseModel) (v : CaseWorld store)
        → registry "dispute" ≡ some definition
        → definition.case_type ≡ "dispute"
        → out ≡ (ok m, v)
        → (m.tenant ≡ "demo-bank")
          × (m.case_type ≡ "dispute")
          × (m.state ≡ definition.initial)
          × (m.history ≡ [])
          × (get_case store mask default_routing tenths registry all_bound holidays actor iso
                checker "c1" v
              ≡ (ok m, v)))
open_route_lem_example =
    open_route_lem store mask default_routing tenths registry all_bound holidays actor iso maker
      checker "c1" opening noon noon empty_world refl

abbrev at_start : CaseWorld store
at_start = fresh store lawful mask default_routing tenths registry all_bound holidays actor iso

abbrev with_review : CaseWorld store
with_review =
    on_console store lawful mask default_routing tenths registry all_bound holidays actor iso
      (submit_review store mask default_routing actor maker "r1" body noon later) at_start

abbrev with_case : CaseWorld store
with_case =
    (open_case store mask default_routing tenths registry all_bound holidays actor iso maker "c1"
      opening noon noon with_review).1

service_state_lem_example :
    ((tenant review_id : String) (item : ReviewItem)
      → store.get tenant review_id with_case.console.store ≡ some item
      → item.state ≡ approved
      → (required_approvals default_routing item ≤ℤ pos (approvals_count item))
        × Distinct (approvers item)
        × (elem item.request.maker (approvers item) ≡ false)
        × All (IsSignedOff mask with_case.console.audit item) item.approvals)
    × ((tenant case_id : String) (c : Case)
        → LocalPorts.get_case tenant case_id with_case.cases ≡ some c
        → (definition : WorkflowDefinition ℕ) × (registry c.case_type ≡ some definition)
          × IsPath definition definition.initial 0 c.history c.state)
service_state_lem_example =
    service_state_lem store lawful mask default_routing tenths registry all_bound holidays actor iso
      {v = with_case} registry-IsRegistry
      (next (next here (submits maker "r1" body noon later at_start))
        (opens_case maker "c1" opening noon noon with_review))
