-- ===== src/MakerChecker/Progress.antt =====
-- Qualified approvals by distinct checkers bring an item to its quorum, and not before.
use human_review_console.Prelude.{
  suc, ◌+◌, String, false, ◌≡◌, refl, ◌∙◌, ap, List, [], ◌∷◌, elem, Distinct, elem-append, eq_iff,
  arith, length, length-snoc, All, if◌then◌else◌,
}
use human_review_console.Prelude.Int.{pos, ◌≤ℤ◌, ◌<ℤ◌, leb_ℤ}
use human_review_console.Kernel.{pending, approved}
use human_review_console.Models.{
  ReviewRequest, ReviewItem, approvals_count, approvers, with_approval,
}
use human_review_console.MakerChecker.{
  RoutingPolicy, required_approvals, apply_disposition, stamp_of, dispose, decide,
}
use human_review_console.MakerChecker.Eligibility.{IsEligible, no_findings_iff}
use human_review_console.MakerChecker.Soundness.{
  fresh, Attempt, after, after_all, required_pos, checkers-append,
}
use human_review_console.MakerChecker.Quorum.{IsQualified, required-request}

abbrev pub attempt_checkers : List Attempt → List String
attempt_checkers [] = []
attempt_checkers (x ∷ xs) = x.0.checker ∷ attempt_checkers xs

-- The item after an eligible approval.
abbrev approved_by : RoutingPolicy → ReviewItem → Attempt → ReviewItem
approved_by policy item (d, as_of) =
    with_approval item (record { checker = d.checker; reason = d.reason; at = stamp_of d as_of })
      (if leb_ℤ (required_approvals policy item) (pos (suc (approvals_count item)))
        then approved
        else pending)

after_qualified :
    (policy : RoutingPolicy) (item : ReviewItem) (x : Attempt)
    → item.state ≡ pending
    → IsQualified policy item.request x.0
    → elem x.0.checker (approvers item) ≡ false
    → after policy item x ≡ approved_by policy item x
unfolding after dispose decide apply_disposition
after_qualified policy item (d, as_of) p q n =
    let eligible : IsEligible policy item d.checker d.checker_tenant d.checker_groups = record {
      same_tenant = q.same_tenant;
      not_maker = q.not_maker;
      no_conflict = q.no_conflict;
      has_role = q.has_role;
      is_new = n;
    } in
    let clear =
      (no_findings_iff policy item d.checker d.checker_tenant d.checker_groups).1 eligible in
    ground (arith, q.approves, clear)

-- Every attempt of the list is by a checker that has not approved the item.
abbrev AreNew : ReviewItem → List Attempt → Type 0
AreNew item xs = All (λ x. elem x.0.checker (approvers item) ≡ false) xs

AreNew-step :
    (policy : RoutingPolicy) (item : ReviewItem) (x : Attempt) (xs : List Attempt)
    → AreNew item xs
    → elem x.0.checker (attempt_checkers xs) ≡ false
    → AreNew (approved_by policy item x) xs
AreNew-step policy item x [] new apart = tt
AreNew-step policy item x (y ∷ ys) new apart = (
  rw checkers-append (
      ground (
        arith,
        elem-append y.0.checker (approvers item) (x.0.checker ∷ []),
        eq_iff x.0.checker y.0.checker,
        eq_iff y.0.checker x.0.checker,
      )),
  AreNew-step policy item x ys new.1 (ground arith),
)

quorum_from :
    (policy : RoutingPolicy) (item : ReviewItem) (xs : List Attempt)
    → item.state ≡ pending
    → pos (approvals_count item) <ℤ required_approvals policy item
    → pos (approvals_count item + length xs) ≤ℤ required_approvals policy item
    → All (λ x. IsQualified policy item.request x.0) xs
    → AreNew item xs
    → Distinct (attempt_checkers xs)
    → (after_all policy item xs).state ≡ (
        if leb_ℤ (required_approvals policy item) (pos (approvals_count item + length xs))
        then approved
        else pending)
unfolding after_all
quorum_from policy item [] p short room q new apart = ground arith
quorum_from policy item (x ∷ []) p short room q new apart =
    rw (after_qualified policy item x p q.0 new.0) (ground arith)
quorum_from policy item (x ∷ y ∷ ys) p short room q new apart =
    let next = approved_by policy item x in
    let same = required-request policy next item refl in
    let count =
      length-snoc item.approvals
        (record { checker = x.0.checker; reason = x.0.reason; at = stamp_of x.0 x.1 }) in
    ap (λ (i : ReviewItem). (after_all policy i (y ∷ ys)).state)
      (after_qualified policy item x p q.0 new.0)
    ∙ quorum_from policy next (y ∷ ys) (ground arith) (ground (arith, same, count))
        (ground (arith, same, count)) q.1 (AreNew-step policy item x (y ∷ ys) new.1 apart.0) apart.1
    ∙ ground (arith, same, count)

all_new : (request : ReviewRequest) (xs : List Attempt) → AreNew (fresh request) xs
all_new request [] = tt
all_new request (x ∷ xs) = (refl, all_new request xs)

-- Qualified approvals of a new item by distinct checkers, no more than are required, approve it
-- if they are as many as required, and leave it pending while they are fewer.
pub quorum_exact :
    (policy : RoutingPolicy) (request : ReviewRequest) (xs : List Attempt)
    → All (λ x. IsQualified policy request x.0) xs
    → Distinct (attempt_checkers xs)
    → pos (length xs) ≤ℤ required_approvals policy (fresh request)
    → (after_all policy (fresh request) xs).state ≡ (
        if leb_ℤ (required_approvals policy (fresh request)) (pos (length xs))
        then approved
        else pending)
quorum_exact policy request xs q apart room =
    let least = required_pos policy (fresh request) in
    quorum_from policy (fresh request) xs refl (omega (arith, least)) (omega arith) q
      (all_new request xs) apart
    ∙ ground arith
