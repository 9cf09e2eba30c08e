-- ===== src/Cli/Decisions.antt =====
-- The decide command.
use human_review_console.Prelude.{
  ℕ, String, Bool, true, false, ◌≡◌, ◌≢◌, ◌⊎◌, refl, sym, ◌∙◌, ap, Option, none, some, List, [],
  ◌∷◌, map, inl, inr, if◌then◌else◌,
}
use human_review_console.Strings.{join}
use human_review_console.Kernel.{finding_value}
use human_review_console.Models.{ReviewItem, is_terminal}
use human_review_console.Errors.{Result, ok, err, review_not_found, already_resolved}
use human_review_console.MakerChecker.{
  RoutingPolicy, DispositionOutcome, is_allowed, apply_disposition, stamp_of,
}
use human_review_console.MakerChecker.Eligibility.{findings, IsEligible}
use human_review_console.MakerChecker.Soundness.{outcome_cases}
use human_review_console.Stores.ReviewPort.{ReviewStorePort, IsLawful}
use human_review_console.Console.{World, with_effective_routing, decision_of, dispose_review}
use human_review_console.Console.Outcomes.{Disposed, dispose_review-Disposed}
use human_review_console.Console.Frame.{dispose_refuses}
use human_review_console.Cases.Models.{WorkflowDefinition}
use human_review_console.Cases.Clock.{Holidays, Floats}
use human_review_console.Cases.Workflow.{Wiring, CaseWorld}
use human_review_console.Action.{continue, pure}
use human_review_console.Cli.{
  Exit, DecideArgs, decide, Readings, groups_of_text, disposal_of, decided_exit, text, main,
}

module _ (repr : String → String) (int_text : human_review_console.Prelude.Int.ℤ → String)
    (port : ReviewStorePort) (lawful : IsLawful port) (redact : String → String)
    (policy : RoutingPolicy) (floats : Floats)
    (definitions : String → Option (WorkflowDefinition (floats.Float))) (wiring : Wiring)
    (holidays : Holidays) where
  -- Status 0: the checker was eligible with the groups of the option, and what the disposition
  -- makes of the stored item was stored.
  abbrev pub IsDone : Readings → DecideArgs → World port → ReviewItem → Exit → World port → Type 0
  IsDone r args w stored e v =
      let routed = with_effective_routing policy stored in
      let d = decision_of (disposal_of args) r.now in
      (e.status ≡ 0)
      × IsEligible policy routed args.checker args.tenant (groups_of_text args.groups)
      × (port.put (apply_disposition policy routed d (stamp_of d none) args.disposition) w.store
          ≡ ok v.store)

  -- Status 1: every reason against the checker is printed, and the store is as it was.
  abbrev pub IsDeniedExit : DecideArgs → World port → ReviewItem → Exit → World port → Type 0
  IsDeniedExit args w stored e v =
      let reasons =
        findings policy (with_effective_routing policy stored) args.checker args.tenant
          (groups_of_text args.groups) in
      (e.status ≡ 1)
      × (reasons ≢ [])
      × (e.stderr ≡ text ("DENIED: " ∷ join ", " (map finding_value reasons) ∷ []) ∷ [])
      × (v.store ≡ w.store)

  abbrev pub IsDecided : Readings → DecideArgs → World port → Exit → World port → Type 0
  IsDecided r args w e v =
      (stored : ReviewItem) × (port.get args.tenant args.review_id w.store ≡ some stored)
      × (IsDone r args w stored e v ⊎ IsDeniedExit args w stored e v)

  Disposed-IsDecided :
      (r : Readings) (args : DecideArgs) (w : World port) (out : Result DispositionOutcome)
      (u : World port) (e : Exit) (v : World port)
      → Disposed port redact policy (disposal_of args) r.now r.recorded_at w (out, u)
      → continue (λ o. pure (decided_exit args.disposition o)) out u ≡ (ok e, v)
      → IsDecided r args w e v
  Disposed-IsDecided r args w (err x) u e v h same = cc same
  Disposed-IsDecided r args w (ok o) u e v (stored, found, settled, grown, on_allowed, on_denied)
        same =
      let d = decision_of (disposal_of args) r.now in
      let routed = with_effective_routing policy stored in
      let exit : decided_exit args.disposition o ≡ e = cc same in
      let world : u ≡ v = cc same in
      let (open_state, cases) = outcome_cases policy routed d none o settled in
      (
        stored,
        found,
        elim cases [
          | inl (refused, unchanged, listed, some_found) ↦
              let no : is_allowed o ≡ false = rw refused refl in
              inr (
                ap (λ (x : Exit). x.status) (sym exit) ∙ rw no refl,
                (λ none_there. some_found (listed ∙ none_there)),
                ap (λ (x : Exit). x.stderr) (sym exit)
                    ∙ rw no (
                        ap
                          (λ (l : List human_review_console.Kernel.EligibilityFinding).
                            text ("DENIED: " ∷ join ", " (map finding_value l) ∷ []) ∷ [])
                          listed),
                ap (λ (x : World port). x.store) (sym world) ∙ on_denied no,
              )
          | inr (granted, clear, eligible, applied) ↦
              let yes : is_allowed o ≡ true = rw granted refl in
              inl (
                ap (λ (x : Exit). x.status) (sym exit) ∙ rw yes refl,
                eligible,
                ap (λ (i : ReviewItem). port.put i w.store) (sym applied)
                    ∙ on_allowed yes
                    ∙ ap (λ (x : World port). ok x.store) world,
              )
        ],
      )

  -- A call at the console leaves the cases alone.
  at_console_lem :
      (disposition : human_review_console.Kernel.Disposition) (w : CaseWorld port)
      (out : Result DispositionOutcome) (u : World port) (e : Exit) (v : CaseWorld port)
      → continue (λ o. pure (decided_exit disposition o)) out (record w { console = u }) ≡ (ok e, v)
      → (continue {W = World port} (λ o. pure (decided_exit disposition o)) out u
          ≡ (ok e, v.console))
        × (v.cases ≡ w.cases)
  at_console_lem disposition w (err x) u e v h = cc h
  at_console_lem disposition w (ok o) u e v h =
      let exit : decided_exit disposition o ≡ e = cc h in
      let world : record w { console = u } ≡ v = cc h in
      let after : u ≡ v.console = ap (λ (x : CaseWorld port). x.console) world in
      (rw exit (rw after refl), ap (λ (x : CaseWorld port). x.cases) (sym world))

  -- The decide command raises for a review that the tenant does not have and, over a store in its
  -- invariant, for a resolved one, with nothing written. When it exits, it exits with 0 for a
  -- checker who is eligible with the groups of the option, and the disposition is stored; or with
  -- 1, every finding printed and the store as it was. The cases are left alone.
  pub decide_command_lem :
      (r : Readings) (args : DecideArgs) (w : CaseWorld port)
      → let out =
          main repr int_text port redact policy floats definitions wiring holidays r
            (decide args)
            w in
        (port.get args.tenant args.review_id w.console.store ≡ none
          → out ≡ (err (review_not_found args.review_id), w))
        × ((item : ReviewItem)
            → lawful.IsValid w.console.store
            → port.get args.tenant args.review_id w.console.store ≡ some item
            → is_terminal item ≡ true
            → out ≡ (err (already_resolved args.review_id item.state), w))
        × ((e : Exit) (v : CaseWorld port)
            → out ≡ (ok e, v)
            → IsDecided r args w.console e v.console × (v.cases ≡ w.cases))
  unfolding main
  decide_command_lem r args w =
      let q = disposal_of args in
      let call = dispose_review port redact policy q r.now r.recorded_at w.console in
      let (missing, resolved) =
        dispose_refuses port lawful redact policy q r.now r.recorded_at w.console in
      (
        (λ none_there. rw (missing none_there) refl),
        (λ item valid found t. rw (resolved item valid found t) refl),
        (λ e v h.
            let (settled, cases) = at_console_lem args.disposition w call.0 call.1 e v h in
            (
              Disposed-IsDecided r args w.console call.0 call.1 e v.console
                  (dispose_review-Disposed port redact policy q r.now r.recorded_at w.console)
                  settled,
              cases,
            )),
      )
