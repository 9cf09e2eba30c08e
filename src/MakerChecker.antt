-- ===== src/MakerChecker.antt =====
-- domain/maker_checker_service.py: routing policy, eligibility and disposition.
pub mod Eligibility
pub mod Soundness
pub mod Quorum
pub mod Progress
pub mod Policy
use human_review_console.Prelude.{
  String, Bool, true, false, not, ◌&&◌, Option, none, some, List, [], ◌∷◌, ◌++◌, ◌==◌, suc, elem,
  if◌then◌else◌,
}
use human_review_console.Prelude.Int.{ℤ, pos, leb_ℤ, max_ℤ}
use human_review_console.Time.{Datetime}
use human_review_console.Kernel.{
  Severity, low, medium, high, critical, Disposition, approve, reject, amend, pending, approved,
  rejected, amended, EligibilityFinding, wrong_tenant, self_approval, segregation_of_duties,
  insufficient_role, duplicate_approver, Decision, allowed, denied,
}
use human_review_console.Models.{
  ReviewDecision, ReviewItem, approvals_count, approvers, is_terminal, with_approval, resolved,
}
use human_review_console.Errors.{Result, ok, err, already_resolved}

abbrev pub approver_group_name : String
approver_group_name = "group:approver"

-- The floors are a `dict[Severity, int]`: a severity that is no key has no floor.
pub record RoutingPolicy : Type 0 where
  pub min_approvals_by_severity : Severity → Option ℤ
  pub enforce_sod : Bool
  pub approver_group : String

-- `self.min_approvals_by_severity.get(severity, 1)`
abbrev pub floor_for : RoutingPolicy → Severity → ℤ
floor_for policy severity = elim (policy.min_approvals_by_severity severity) [
  | none ↦ pos 1
  | some floor ↦ floor
]

-- `RoutingPolicy.required_approvals`: `max(1, requested, floor)`
unfoldable pub routed_approvals : RoutingPolicy → Severity → ℤ → ℤ
routed_approvals policy severity requested =
    max_ℤ (max_ℤ (pos 1) requested) (floor_for policy severity)

abbrev default_floor : Severity → Option ℤ
default_floor critical = some (pos 2)
default_floor high = some (pos 2)
default_floor medium = some (pos 1)
default_floor low = some (pos 1)

abbrev pub default_routing : RoutingPolicy
default_routing = record {
  min_approvals_by_severity = default_floor;
  enforce_sod = true;
  approver_group = approver_group_name;
}

pub record DispositionOutcome : Type 0 where
  pub item : ReviewItem
  pub decision : Decision
  pub findings : List EligibilityFinding

-- `DispositionOutcome.allowed`
abbrev pub is_allowed : DispositionOutcome → Bool
is_allowed outcome = elim outcome.decision [ allowed ↦ true | denied ↦ false ]

-- `if condition: findings.append(finding)`
abbrev pub finding_if : Bool → EligibilityFinding → List EligibilityFinding
finding_if condition finding = if condition then finding ∷ [] else []

-- `if self._policy.enforce_sod and req.sod_group and req.sod_group in checker_groups`
abbrev pub sod_conflict : RoutingPolicy → String → List String → Bool
sod_conflict policy sod_group checker_groups =
    policy.enforce_sod && (not (sod_group == "") && elem sod_group checker_groups)

unfoldable pub check_eligibility :
    RoutingPolicy → ReviewItem → String → String → List String → List EligibilityFinding
check_eligibility policy item checker checker_tenant checker_groups =
    finding_if (not (checker_tenant == item.tenant)) wrong_tenant
    ++ (finding_if (checker == item.request.maker) self_approval
        ++ (finding_if (sod_conflict policy item.request.sod_group checker_groups)
              segregation_of_duties
            ++ (finding_if (not (elem policy.approver_group checker_groups)) insufficient_role
                ++ finding_if (elem checker (approvers item)) duplicate_approver)))

-- `MakerCheckerService.required_approvals`
unfoldable pub required_approvals : RoutingPolicy → ReviewItem → ℤ
unfolding routed_approvals
required_approvals policy item =
    routed_approvals policy item.request.severity item.request.required_approvals

-- The three branches of an allowed disposition; `stamp` is the time of the approval.
unfoldable pub apply_disposition :
    RoutingPolicy → ReviewItem → ReviewDecision → Datetime → Disposition → ReviewItem
apply_disposition policy item decision stamp approve =
    let enough = leb_ℤ (required_approvals policy item) (pos (suc (approvals_count item))) in
    with_approval item (record { checker = decision.checker; reason = decision.reason; at = stamp })
      (if enough then approved else pending)
apply_disposition policy item decision stamp reject = resolved item rejected decision.reason
apply_disposition policy item decision stamp amend = resolved item amended decision.reason

-- The verdict on findings: any finding denies and returns the item unchanged.
unfoldable pub decide :
    RoutingPolicy
    → ReviewItem
    → ReviewDecision
    → Datetime
    → List EligibilityFinding
    → DispositionOutcome
unfolding apply_disposition
decide policy item decision stamp [] = record {
  item = apply_disposition policy item decision stamp decision.disposition;
  decision = allowed;
  findings = [];
}
decide policy item decision stamp (finding ∷ rest) = record {
  item = item;
  decision = denied;
  findings = finding ∷ rest;
}

-- `stamp = as_of if as_of is not None else decision.decided_at`
abbrev pub stamp_of : ReviewDecision → Option Datetime → Datetime
stamp_of decision as_of = elim as_of [ none ↦ decision.decided_at | some t ↦ t ]

-- `MakerCheckerService.dispose`
unfoldable pub dispose :
    RoutingPolicy → ReviewItem → ReviewDecision → Option Datetime → Result DispositionOutcome
unfolding decide
dispose policy item decision as_of =
    if is_terminal item
    then err (already_resolved item.review_id item.state)
    else ok (
        decide policy item decision (stamp_of decision as_of) (
          check_eligibility policy item decision.checker decision.checker_tenant
            decision.checker_groups))
