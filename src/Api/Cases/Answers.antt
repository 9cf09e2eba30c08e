-- ===== src/Api/Cases/Answers.antt =====
-- What the case routes answer.
use human_review_console.Prelude.{
  String, true, false, ◌≡◌, refl, sym, ◌∙◌, ap, Option, none, some, List, [], ◌∷◌, ◌++◌, arith,
  eq_iff, Bool-cases, inl, inr,
}
use human_review_console.Time.{Datetime}
use human_review_console.Errors.{ok, err, http_error}
use human_review_console.MakerChecker.{RoutingPolicy}
use human_review_console.Stores.ReviewPort.{ReviewStorePort}
use human_review_console.Cases.Kernel.{rejected}
use human_review_console.Cases.Models.{WorkflowDefinition, is_legal, Case}
use human_review_console.Cases.Clock.{Holidays, Floats}
use human_review_console.Cases.LocalPorts as LocalPorts
use human_review_console.Cases.LocalPorts.{is_case, put_case}
use human_review_console.Cases.Trail.{case_event}
use human_review_console.Cases.Workflow as Service
use human_review_console.Cases.Workflow.{Wiring, CaseWorld}
use human_review_console.Cases.Workflow.Moves.{moved_to, transition_case_lem}
use human_review_console.Identity.{Principal}
use human_review_console.Api.Schemas.{TransitionRequest, case_model}
use human_review_console.Api.Cases.{shown_case, get_case, transition_case}

-- A stored case has the key it is found by.
get_case-is_case :
    (tenant case_id : String) (c : Case) (cases : List Case)
    → LocalPorts.get_case tenant case_id cases ≡ some c
    → is_case c tenant case_id ≡ true
unfolding LocalPorts.get_case
get_case-is_case tenant case_id c [] h = cc h
get_case-is_case tenant case_id c (d ∷ rest) h = elim (Bool-cases (is_case d tenant case_id)) [
  | inl own ↦
      let same : d ≡ c = cc (rw own at h) in
      ap (λ (x : Case). is_case x tenant case_id) (sym same) ∙ own
  | inr other ↦ get_case-is_case tenant case_id c rest (rw other at h)
]

-- A written case is found by its key.
pub get_case-put_case :
    (tenant case_id : String) (c : Case) (cases : List Case)
    → is_case c tenant case_id ≡ true
    → LocalPorts.get_case tenant case_id (put_case c cases) ≡ some c
unfolding LocalPorts.get_case put_case
get_case-put_case tenant case_id c [] own = rw own refl
get_case-put_case tenant case_id c (d ∷ rest) own =
    elim (Bool-cases (is_case d c.tenant c.case_id)) [
      | inl same ↦ rw same (rw own refl)
      | inr other ↦
          let missed : is_case d tenant case_id ≡ false =
            ground (arith, eq_iff c.tenant tenant, eq_iff c.case_id case_id) in
          rw other (rw missed (get_case-put_case tenant case_id c rest own))
    ]

module _ (port : ReviewStorePort) (redact : String → String) (policy : RoutingPolicy)
    (floats : Floats) (definitions : String → Option (WorkflowDefinition (floats.Float)))
    (wiring : Wiring) (holidays : Holidays) (actor : Principal → String)
    (isoformat : Datetime → String) where
  -- What `get_case` answers of a stored case of a registered type.
  pub get_case_found :
      (q : Principal) (case_id : String) (w : CaseWorld port) (c : Case)
      (definition : WorkflowDefinition (floats.Float))
      → LocalPorts.get_case q.tenant case_id w.cases ≡ some c
      → definitions c.case_type ≡ some definition
      → get_case port redact policy floats definitions wiring holidays actor isoformat q case_id w
        ≡ (ok (case_model isoformat c definition), w)
  unfolding get_case Service.load
  get_case_found q case_id w c definition found known = rw found (rw (known, shown_case) refl)

  transition_missing :
      (p : Principal) (case_id : String) (body : TransitionRequest) (now recorded_at : Datetime)
      (w : CaseWorld port)
      → LocalPorts.get_case p.tenant case_id w.cases ≡ none
      → transition_case port redact policy floats definitions wiring holidays actor isoformat p
          case_id body now recorded_at w
        ≡ (err (http_error 404), w)
  unfolding transition_case Service.transition_case
  transition_missing p case_id body now recorded_at w missing = rw missing refl

  -- The transition route answers 404, with nothing changed, for a case that the principal's tenant
  -- does not have, whoever else has it. For a stored case of a registered type it answers 409 by an
  -- illegal edge, with one rejected event and no other change; by a legal edge it answers the moved
  -- case, which every principal of that tenant then reads as it was answered.
  pub transition_route_lem :
      (p q : Principal) (case_id : String) (body : TransitionRequest) (now recorded_at : Datetime)
      (w : CaseWorld port)
      → q.tenant ≡ p.tenant
      → let out =
          transition_case port redact policy floats definitions wiring holidays actor isoformat p
            case_id body now recorded_at w in
        (LocalPorts.get_case p.tenant case_id w.cases ≡ none → out ≡ (err (http_error 404), w))
        × ((c : Case) (definition : WorkflowDefinition (floats.Float))
            → LocalPorts.get_case p.tenant case_id w.cases ≡ some c
            → definitions c.case_type ≡ some definition
            → let moved =
                moved_to port redact policy floats definitions wiring holidays c body.to_state
                  (actor p)
                  body.reason
                  now
                  definition in
              (is_legal definition c.state body.to_state ≡ false
                → out ≡ (
                  err (http_error 409),
                  record w {
                    trail =
                        w.trail
                        ++ case_event redact c "transition"
                            (actor p)
                            c.state
                            body.to_state
                            rejected
                            body.reason
                            []
                            recorded_at
                          ∷ [];
                  },
                ))
              × (is_legal definition c.state body.to_state ≡ true
                  → (out.0 ≡ ok (case_model isoformat moved definition))
                    × (get_case port redact policy floats definitions wiring holidays actor
                          isoformat q case_id out.1
                        ≡ (ok (case_model isoformat moved definition), out.1))))
  unfolding transition_case
  transition_route_lem p q case_id body now recorded_at w same_tenant = (
    transition_missing p case_id body now recorded_at w,
    (λ c definition found known.
        let moved =
          moved_to port redact policy floats definitions wiring holidays c body.to_state (actor p)
            body.reason now definition in
        let call =
          Service.transition_case port redact policy floats definitions wiring holidays case_id
            p.tenant body.to_state (actor p) body.reason none now recorded_at w in
        let (refused, moves) =
          transition_case_lem port redact policy floats definitions wiring holidays case_id p.tenant
            body.to_state (actor p) body.reason none now recorded_at w c definition found known in
        (
          (λ illegal. rw (refused illegal) refl),
          (λ legal.
              let (returned, cases, trail, console, timers) = moves legal in
              let own : is_case moved q.tenant case_id ≡ true =
                ap (λ (t : String). is_case moved t case_id) same_tenant
                ∙ get_case-is_case p.tenant case_id c w.cases found in
              let read : LocalPorts.get_case q.tenant case_id call.1.cases ≡ some moved =
                ap (LocalPorts.get_case q.tenant case_id) cases
                ∙ get_case-put_case q.tenant case_id moved w.cases own in
              rw returned (
                rw (known, shown_case)
                  (refl, get_case_found q case_id call.1 moved definition read known))),
        )),
  )
