-- ===== src/Cases/Assessment/Findings.antt =====
-- The findings of an assessment against its deadlines.
use human_review_console.Prelude.{
  true, false, ◌||◌, ◌≡◌, ◌↔◌, sym, ◌∙◌, ap, subst, some, List, [], ◌∷◌, ◌++◌, any, keep, elem,
  arith, Bool-cases, Option-cases, inl, inr,
}
use human_review_console.Prelude.Int.{ℤ, ◌≤ℤ◌, sub_ℕ, leb_ℤ→le}
use human_review_console.Time.{Datetime}
use human_review_console.Errors.{ok, bind_ok}
use human_review_console.Cases.Kernel.{
  CaseFinding, sla_breach, approaching_deadline, stuck_in_state, illegal_transition,
}
use human_review_console.Cases.Models.{
  ClockSpec, WorkflowDefinition, Case, entered_current_at, first_entered, DeadlineStatus,
  CaseAssessment,
}
use human_review_console.Cases.Clock.{Holidays, Floats, deadline_for, calendar_days_between}
use human_review_console.Cases.Assessment.{
  finding_order, has_finding, status_findings, stuck_findings, assess_clocks, is_stuck, assess,
}
use human_review_console.Cases.Assessment.Reported.{
  is_breached, is_approaching, has-append, all_findings, breach_found, approach_found, none_stuck,
  reported-has, none_illegal, le→leb_ℤ, any_has, IsEntered, entered_current_at-IsEntered,
  IsEntered-unique,
}

module _ (floats : Floats) (definition : WorkflowDefinition (floats.Float)) where
  -- The deadlines are the statuses of the clocks, in order.
  abbrev pub AreRead :
      Case → Datetime → Holidays → List (ClockSpec (floats.Float)) → List DeadlineStatus → Type 0
  AreRead c as_of hs [] [] = Unit
  AreRead c as_of hs (spec ∷ specs) (d ∷ ds) =
      (deadline_for floats spec (first_entered c spec.start_state definition.initial) as_of hs
        ≡ ok d)
      × AreRead c as_of hs specs ds
  AreRead c as_of hs _ _ = ⊥

  assess_clocks_lem :
      (c : Case) (as_of : Datetime) (hs : Holidays) (specs : List (ClockSpec (floats.Float)))
      (ds : List DeadlineStatus) (fs : List CaseFinding)
      → assess_clocks floats definition c as_of hs specs ≡ ok (ds, fs)
      → (fs ≡ all_findings ds) × AreRead c as_of hs specs ds
  unfolding assess_clocks all_findings
  assess_clocks_lem c as_of hs [] ds fs h =
      let deadlines : [] ≡ ds = cc h in
      let found : [] ≡ fs = cc h in
      (sym found ∙ ap all_findings deadlines, subst (AreRead c as_of hs []) deadlines tt)
  assess_clocks_lem c as_of hs (spec ∷ specs) ds fs h =
      let (s, read, rest) =
        bind_ok
          (deadline_for floats spec (first_entered c spec.start_state definition.initial) as_of hs)
          _ h in
      let ((ds', fs'), more, made) =
        bind_ok (assess_clocks floats definition c as_of hs specs) _ rest in
      let (found, reads) = assess_clocks_lem c as_of hs specs ds' fs' more in
      let deadlines : s ∷ ds' ≡ ds = cc made in
      let findings : status_findings s ++ fs' ≡ fs = cc made in
      (
        sym findings
            ∙ ap (λ (l : List CaseFinding). status_findings s ++ l) found
            ∙ ap all_findings deadlines,
        subst (AreRead c as_of hs (spec ∷ specs)) deadlines (read, reads),
      )

  -- The state is not terminal, the workflow limits the days in it, and the dates since its last
  -- transition, or since its opening if it had none, are at least that many.
  abbrev pub IsStalled : Case → Datetime → Type 0
  IsStalled c as_of =
      (elem c.state definition.terminal ≡ false)
      × ((limit : ℤ) × (entered : Datetime) × IsEntered c entered
          × (definition.stuck_after_days c.state ≡ some limit)
          × (limit ≤ℤ sub_ℕ as_of.day entered.day))

  is_stuck_iff :
      (c : Case) (as_of : Datetime)
      → (is_stuck floats definition c as_of ≡ true) ↔ IsStalled c as_of
  unfolding is_stuck calendar_days_between
  is_stuck_iff c as_of = elim (Bool-cases (elem c.state definition.terminal)) [
    | inl ended ↦ ((λ h. cc (rw ended at h)), (λ (lasting, _). cc (sym ended ∙ lasting)))
    | inr lasts ↦ elim (Option-cases (definition.stuck_after_days c.state)) [
      | inl free ↦ (
        (λ h. cc (rw (lasts, free) at h)),
        (λ (_, (limit, t, at, limited, _)). cc (sym free ∙ limited)),
      )
      | inr (limit, limited) ↦ (
        (λ h. (
          lasts,
          (
            limit,
            entered_current_at c,
            entered_current_at-IsEntered c,
            limited,
            leb_ℤ→le limit (sub_ℕ as_of.day (entered_current_at c).day) (rw (lasts, limited) at h),
          ),
        )),
        (λ (_, (own, t, at, other, long)).
            let same : own ≡ limit = cc (sym other ∙ limited) in
            let since : own ≤ℤ sub_ℕ as_of.day (entered_current_at c).day =
              subst (λ (x : Datetime). own ≤ℤ sub_ℕ as_of.day x.day) (IsEntered-unique c t at)
                long in
            rw (lasts, limited)
              (le→leb_ℤ limit (sub_ℕ as_of.day (entered_current_at c).day)
                (subst (λ (l : ℤ). l ≤ℤ sub_ℕ as_of.day (entered_current_at c).day) same since))),
      )
    ]
  ]

  -- An assessment that returns has the status of every clock in order. It reports a breach exactly
  -- if a deadline is breached, an approaching deadline exactly if one is approaching and not
  -- breached, and a stall exactly if the case is not in a terminal state and has been in its state
  -- for at least the days that the workflow allows in it; it never reports an illegal transition,
  -- and it asks for a human exactly if it reports a finding that the workflow escalates.
  pub assess_lem :
      (c : Case) (as_of : Datetime) (hs : Holidays) (a : CaseAssessment)
      → assess floats definition c as_of hs ≡ ok a
      → AreRead c as_of hs definition.clocks a.deadlines
        × (has_finding sla_breach a.findings ≡ any is_breached a.deadlines)
        × (has_finding approaching_deadline a.findings ≡ any is_approaching a.deadlines)
        × ((has_finding stuck_in_state a.findings ≡ true) ↔ IsStalled c as_of)
        × (has_finding illegal_transition a.findings ≡ false)
        × ((a.requires_human_review ≡ true) ↔ (
            (f : CaseFinding) × (has_finding f a.findings ≡ true)
            × (definition.escalate_on f ≡ true)))
  unfolding assess
  assess_lem c as_of hs a h =
      let ((ds, fs), read, made) =
        bind_ok (assess_clocks floats definition c as_of hs definition.clocks) _ h in
      let (found, reads) = assess_clocks_lem c as_of hs definition.clocks ds fs read in
      let stuck = is_stuck floats definition c as_of in
      let all = fs ++ stuck_findings stuck in
      let deadlines : ds ≡ a.deadlines = cc made in
      let findings : keep (λ g. has_finding g all) finding_order ≡ a.findings = cc made in
      let reviewed : any definition.escalate_on (keep (λ g. has_finding g all) finding_order)
          ≡ a.requires_human_review =
        cc made in
      let stalled : has_finding stuck_in_state a.findings ≡ stuck
          → (has_finding stuck_in_state a.findings ≡ true) ↔ IsStalled c as_of =
        λ e.
          let (there, back) = is_stuck_iff c as_of in
          ((λ on. there (sym e ∙ on)), (λ on. e ∙ back on)) in
      let escalated : a.requires_human_review ≡ any definition.escalate_on a.findings
          → (a.requires_human_review ≡ true) ↔ (
              (f : CaseFinding) × (has_finding f a.findings ≡ true)
              × (definition.escalate_on f ≡ true)) =
        λ e.
          let (there, back) = any_has definition.escalate_on a.findings in
          ((λ on. there (sym e ∙ on)), (λ on. e ∙ back on)) in
      let lawful : has_finding illegal_transition all ≡ false =
        has-append illegal_transition fs (stuck_findings stuck)
        ∙ ground (arith, found, none_illegal ds) in
      let known : (f : CaseFinding)
          → has_finding f a.findings
            ≡ (has_finding f (all_findings ds) || has_finding f (stuck_findings stuck)) =
        λ f.
          ap (has_finding f) (sym findings)
          ∙ reported-has all f lawful
          ∙ has-append f fs (stuck_findings stuck)
          ∙ ap (λ (l : List CaseFinding). has_finding f l || has_finding f (stuck_findings stuck))
              found in
      (
        subst (AreRead c as_of hs definition.clocks) deadlines reads,
        known sla_breach ∙ ground (arith, breach_found ds) ∙ ap (any is_breached) deadlines,
        known approaching_deadline
            ∙ ground (arith, approach_found ds)
            ∙ ap (any is_approaching) deadlines,
        stalled (known stuck_in_state ∙ ground (arith, none_stuck ds)),
        known illegal_transition ∙ ground (arith, none_illegal ds),
        escalated (sym reviewed ∙ ap (any definition.escalate_on) findings),
      )
