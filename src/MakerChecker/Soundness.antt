-- ===== src/MakerChecker/Soundness.antt =====
-- The four-eyes and N-eyes invariant of an item under any sequence of attempts.
use human_review_console.Prelude.{
  String, false, ◌≡◌, ◌≢◌, refl, ◌⊎◌, inl, inr, Option, List, [], ◌∷◌, ◌++◌, elem, Distinct,
  Distinct-snoc, eq_iff, arith, length-snoc, Bool-cases,
}
use human_review_console.Prelude.Int.{pos, ◌≤ℤ◌, ◌<ℤ◌}
use human_review_console.Time.{Datetime}
use human_review_console.Kernel.{
  Disposition, approve, reject, amend, pending, approved, EligibilityFinding, allowed, denied,
}
use human_review_console.Models.{
  ReviewRequest, ReviewDecision, Approval, ReviewItem, approvals_count, checkers, approvers,
  is_terminal,
}
use human_review_console.Errors.{ok, err}
use human_review_console.MakerChecker.{
  RoutingPolicy, DispositionOutcome, required_approvals, apply_disposition, decide, stamp_of,
  dispose,
}
use human_review_console.MakerChecker.Eligibility.{findings, IsEligible, no_findings_iff}

-- What an item must satisfy under a policy.
pub record IsSound (policy : RoutingPolicy) (item : ReviewItem) : Type 0 where
  pub distinct_approvers : Distinct (approvers item)
  pub no_self_approval : elem item.request.maker (approvers item) ≡ false
  pub approved_enough :
      item.state ≡ approved → required_approvals policy item ≤ℤ pos (approvals_count item)
  pub pending_short :
      item.state ≡ pending → pos (approvals_count item) <ℤ required_approvals policy item

-- A new item: pending, with no approval.
abbrev pub fresh : ReviewRequest → ReviewItem
fresh request = record { request = request; state = pending; approvals = []; terminal_reason = "" }

pub required_pos :
    (policy : RoutingPolicy) (item : ReviewItem) → pos 1 ≤ℤ required_approvals policy item
unfolding required_approvals
required_pos policy item = ground arith

pub fresh-IsSound :
    (policy : RoutingPolicy) (request : ReviewRequest) → IsSound policy (fresh request)
fresh-IsSound policy request = record {
  distinct_approvers = tt;
  no_self_approval = refl;
  approved_enough = λ h. cc;
  pending_short = λ h. omega (arith, required_pos policy (fresh request));
}

pub checkers-append : (xs ys : List Approval) → checkers (xs ++ ys) ≡ checkers xs ++ checkers ys
checkers-append [] ys = refl
checkers-append (x ∷ xs) ys = cc (checkers-append xs ys)

elem-checkers-append :
    (k : String) (xs ys : List Approval)
    → elem k (checkers xs) ≡ false
    → elem k (checkers ys) ≡ false
    → elem k (checkers (xs ++ ys)) ≡ false
elem-checkers-append k [] ys h g = g
elem-checkers-append k (x ∷ xs) ys h g = ground (arith, elem-checkers-append k xs ys)

pub apply-IsSound :
    (policy : RoutingPolicy) (item : ReviewItem) (d : ReviewDecision) (stamp : Datetime)
    (disposition : Disposition)
    → IsEligible policy item d.checker d.checker_tenant d.checker_groups
    → IsSound policy item
    → IsSound policy (apply_disposition policy item d stamp disposition)
unfolding apply_disposition required_approvals
apply-IsSound policy item d stamp approve e s = record {
  distinct_approvers =
      rw checkers-append (Distinct-snoc (approvers item) d.checker s.distinct_approvers e.is_new);
  no_self_approval =
      elem-checkers-append item.request.maker item.approvals _ s.no_self_approval
        (ground (arith, eq_iff item.request.maker d.checker));
  approved_enough = λ h. ground (
    arith,
    length-snoc item.approvals (record { checker = d.checker; reason = d.reason; at = stamp }),
  );
  pending_short = λ h. ground (
    arith,
    length-snoc item.approvals (record { checker = d.checker; reason = d.reason; at = stamp }),
  );
}
apply-IsSound policy item d stamp reject e s = record {
  distinct_approvers = s.distinct_approvers;
  no_self_approval = s.no_self_approval;
  approved_enough = λ h. cc;
  pending_short = λ h. cc;
}
apply-IsSound policy item d stamp amend e s = record {
  distinct_approvers = s.distinct_approvers;
  no_self_approval = s.no_self_approval;
  approved_enough = λ h. cc;
  pending_short = λ h. cc;
}

-- One attempt: the decision and the time to record, if it is given.
abbrev pub Attempt : Type 0
Attempt = ReviewDecision × Option Datetime

-- The item that stands after an attempt: a raise leaves the item as it was.
unfoldable pub after : RoutingPolicy → ReviewItem → Attempt → ReviewItem
after policy item (d, as_of) = elim (dispose policy item d as_of) [
  | ok outcome ↦ outcome.item
  | err e ↦ item
]

unfoldable pub after_all : RoutingPolicy → ReviewItem → List Attempt → ReviewItem
after_all policy item [] = item
after_all policy item (x ∷ xs) = after_all policy (after policy item x) xs

findings-cases : (l : List EligibilityFinding) → (l ≡ []) ⊎ (l ≢ [])
findings-cases [] = inl refl
findings-cases (x ∷ l) = inr (λ h. cc)

pub after_cases :
    (policy : RoutingPolicy) (item : ReviewItem) (d : ReviewDecision) (as_of : Option Datetime)
    → (after policy item (d, as_of) ≡ item)
      ⊎ ((item.state ≡ pending)
          × IsEligible policy item d.checker d.checker_tenant d.checker_groups
          × (after policy item (d, as_of)
              ≡ apply_disposition policy item d (stamp_of d as_of) d.disposition))
unfolding after dispose decide
after_cases policy item d as_of = elim (Bool-cases (is_terminal item)) [
  | inl t ↦ inl (ground arith)
  | inr p ↦
      elim (findings-cases (findings policy item d.checker d.checker_tenant d.checker_groups)) [
        | inl none_found ↦ inr (
          ground arith,
          (no_findings_iff policy item d.checker d.checker_tenant d.checker_groups).0 none_found,
          ground arith,
        )
        | inr found ↦ inl (ground arith)
      ]
]

-- An attempt that returns either had findings, which it reports with the item unchanged, or was
-- eligible and applied.
pub outcome_cases :
    (policy : RoutingPolicy) (item : ReviewItem) (d : ReviewDecision) (as_of : Option Datetime)
    (o : DispositionOutcome)
    → dispose policy item d as_of ≡ ok o
    → (item.state ≡ pending)
      × (((o.decision ≡ denied)
            × (o.item ≡ item)
            × (o.findings ≡ findings policy item d.checker d.checker_tenant d.checker_groups)
            × (o.findings ≢ []))
          ⊎ ((o.decision ≡ allowed)
              × (o.findings ≡ [])
              × IsEligible policy item d.checker d.checker_tenant d.checker_groups
              × (o.item ≡ apply_disposition policy item d (stamp_of d as_of) d.disposition)))
unfolding dispose decide
outcome_cases policy item d as_of o h = elim (Bool-cases (is_terminal item)) [
  | inl t ↦ cc (rw t at h)
  | inr p ↦ (
    ground arith,
    elim (findings-cases (findings policy item d.checker d.checker_tenant d.checker_groups)) [
      | inl none_found ↦ inr (
        ground arith,
        ground arith,
        (no_findings_iff policy item d.checker d.checker_tenant d.checker_groups).0 none_found,
        ground arith,
      )
      | inr found ↦ inl (ground arith, ground arith, ground arith, ground arith)
    ],
  )
]
