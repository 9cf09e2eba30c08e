-- ===== src/Cases/Assessment/Reported.antt =====
-- The findings of a list of statuses, and those that are reported.
use human_review_console.Time.{Datetime}
use human_review_console.Prelude.{
  ◌⊎◌, refl, some, Bool, true, false, not, ◌&&◌, ◌||◌, ◌≡◌, ◌↔◌, refl, sym, ◌∙◌, ap, List, [], ◌∷◌,
  ◌++◌, any, keep, arith, Bool-cases, inl, inr,
}
use human_review_console.Prelude.Int.{ℤ, leb_ℤ, ◌≤ℤ◌}
use human_review_console.Cases.Kernel.{
  CaseFinding, sla_breach, approaching_deadline, stuck_in_state, illegal_transition,
}
use human_review_console.Cases.Models.{
  Transition, Case, last_transition, entered_current_at, DeadlineStatus,
}
use human_review_console.Cases.Assessment.{is_finding, finding_order, has_finding, status_findings}

abbrev pub is_breached : DeadlineStatus → Bool
is_breached s = s.breached

abbrev pub is_approaching : DeadlineStatus → Bool
is_approaching s = not s.breached && s.approaching

pub has-append :
    (f : CaseFinding) (xs ys : List CaseFinding)
    → has_finding f (xs ++ ys) ≡ (has_finding f xs || has_finding f ys)
has-append f [] ys = refl
has-append f (x ∷ xs) ys = ground (arith, has-append f xs ys)

unfoldable pub all_findings : List DeadlineStatus → List CaseFinding
all_findings [] = []
all_findings (s ∷ rest) = status_findings s ++ all_findings rest

pub breach_found :
    (l : List DeadlineStatus) → has_finding sla_breach (all_findings l) ≡ any is_breached l
unfolding all_findings
breach_found [] = refl
breach_found (s ∷ l) =
    ground (arith, has-append sla_breach (status_findings s) (all_findings l), breach_found l)

pub approach_found :
    (l : List DeadlineStatus)
    → has_finding approaching_deadline (all_findings l) ≡ any is_approaching l
unfolding all_findings
approach_found [] = refl
approach_found (s ∷ l) =
    ground (
      arith,
      has-append approaching_deadline (status_findings s) (all_findings l),
      approach_found l,
    )

pub none_stuck : (l : List DeadlineStatus) → has_finding stuck_in_state (all_findings l) ≡ false
unfolding all_findings
none_stuck [] = refl
none_stuck (s ∷ l) =
    ground (arith, has-append stuck_in_state (status_findings s) (all_findings l), none_stuck l)

-- The findings that are reported, from what was found.
pub reported-has :
    (found : List CaseFinding) (f : CaseFinding)
    → has_finding illegal_transition found ≡ false
    → has_finding f (keep (λ g. has_finding g found) finding_order) ≡ has_finding f found
reported-has found sla_breach h = ground arith
reported-has found approaching_deadline h = ground arith
reported-has found stuck_in_state h = ground arith
reported-has found illegal_transition h = ground arith

pub none_illegal :
    (l : List DeadlineStatus) → has_finding illegal_transition (all_findings l) ≡ false
unfolding all_findings
none_illegal [] = refl
none_illegal (s ∷ l) =
    ground
      (arith, has-append illegal_transition (status_findings s) (all_findings l), none_illegal l)

pub le→leb_ℤ : (a b : ℤ) → a ≤ℤ b → leb_ℤ a b ≡ true
le→leb_ℤ a b h = ground arith

is_finding→eq : (f g : CaseFinding) → is_finding f g ≡ true → f ≡ g
is_finding→eq sla_breach sla_breach h = refl
is_finding→eq approaching_deadline approaching_deadline h = refl
is_finding→eq stuck_in_state stuck_in_state h = refl
is_finding→eq illegal_transition illegal_transition h = refl
is_finding→eq _ _ h = cc h

is_finding-same : (f : CaseFinding) → is_finding f f ≡ true
is_finding-same sla_breach = refl
is_finding-same approaching_deadline = refl
is_finding-same stuck_in_state = refl
is_finding-same illegal_transition = refl

-- A test holds of a list of findings exactly if it holds of one that the list has.
pub any_has :
    (p : CaseFinding → Bool) (l : List CaseFinding)
    → (any p l ≡ true) ↔ ((f : CaseFinding) × (has_finding f l ≡ true) × (p f ≡ true))
any_has p [] = ((λ h. cc h), (λ (f, has, _). cc has))
any_has p (g ∷ l) =
    let (there, back) = any_has p l in
    (
      (λ h. elim (Bool-cases (p g)) [
        | inl here ↦ (g, rw (is_finding-same g) refl, here)
        | inr other ↦ let (f, has, holds) = there (rw other at h) in (f, ground arith, holds)
      ]),
      (λ (f, has, holds). elim (Bool-cases (is_finding f g)) [
        | inl own ↦
            let here : p g ≡ true = ap p (sym (is_finding→eq f g own)) ∙ holds in rw here refl
        | inr other ↦ let rest : any p l ≡ true = back (f, rw other at has, holds) in ground arith
      ]),
    )

-- The instant at which a case entered its state: that of its last transition, or of its opening if
-- it had none.
abbrev pub IsEntered : Case → Datetime → Type 0
IsEntered c t =
    ((c.history ≡ []) × (t ≡ c.opened_at))
    ⊎ ((earlier : List Transition) × (last : Transition) × (c.history ≡ earlier ++ last ∷ [])
        × (t ≡ last.at))

snoc-last_transition :
    (earlier : List Transition) (last : Transition)
    → last_transition (earlier ++ last ∷ []) ≡ some last
snoc-last_transition [] last = refl
snoc-last_transition (t ∷ []) last = refl
snoc-last_transition (t ∷ u ∷ rest) last = snoc-last_transition (u ∷ rest) last

history_cases :
    (l : List Transition)
    → (l ≡ []) ⊎ ((earlier : List Transition) × (last : Transition) × (l ≡ earlier ++ last ∷ []))
history_cases [] = inl refl
history_cases (t ∷ rest) = elim (history_cases rest) [
  | inl e ↦ inr ([], t, ap (λ (l : List Transition). t ∷ l) e)
  | inr (earlier, last, e) ↦ inr (t ∷ earlier, last, ap (λ (l : List Transition). t ∷ l) e)
]

pub entered_current_at-IsEntered : (c : Case) → IsEntered c (entered_current_at c)
unfolding entered_current_at
entered_current_at-IsEntered c = elim (history_cases c.history) [
  | inl e ↦ inl (e, rw e refl)
  | inr (earlier, last, e) ↦
      inr (earlier, last, e, rw e (rw (snoc-last_transition earlier last, entered_current_at) refl))
]

pub IsEntered-unique : (c : Case) (t : Datetime) → IsEntered c t → t ≡ entered_current_at c
unfolding entered_current_at
IsEntered-unique c t (inl (e, at)) = at ∙ rw e refl
IsEntered-unique c t (inr (earlier, last, e, at)) =
    at ∙ rw e (rw (snoc-last_transition earlier last, entered_current_at) refl)
