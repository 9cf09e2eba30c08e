-- ===== src/Tests/Reviews.antt =====
-- The engine and its routing policy.
use human_review_console.Prelude.{
  Option, String, Bool, true, false, ◌≡◌, ◌↔◌, refl, none, some, List, [], ◌∷◌, eq_iff, elem,
  Distinct, All, arith, if◌then◌else◌,
}
use human_review_console.Prelude.Int.{ℤ, pos, ◌≤ℤ◌, leb_ℤ}
use human_review_console.Kernel.{
  Severity, critical, approve, reject, pending, approved, rejected, self_approval,
}
use human_review_console.Models.{ReviewItem, approvers, approvals_count}
use human_review_console.Errors.{Result, ok, err, already_resolved, value_error}
use human_review_console.Json.{Json, int, str, obj, Fields, end, field}
use human_review_console.MakerChecker.{
  RoutingPolicy, default_routing, check_eligibility, dispose, required_approvals, routed_approvals,
  floor_for,
}
use human_review_console.MakerChecker.Eligibility.{findings, Reason, reported, reported_iff}
use human_review_console.MakerChecker.Soundness.{Attempt, after, after_all, fresh}
use human_review_console.MakerChecker.Quorum.{
  IsVouched, IsQualified, approved_by_quorum, resolved_is_final,
}
use human_review_console.MakerChecker.Progress.{quorum_exact}
use human_review_console.MakerChecker.Policy.{from_mapping, routed_approvals_least}
use human_review_console.Config.Container.{routing_policy, routing_section, routing_policy_floors}
use human_review_console.Tests.Samples.{request, decision_by, noon}

abbrev attempts : List Attempt
attempts =
    (decision_by "analyst" approve, none)
    ∷ (decision_by "first" approve, none)
    ∷ (decision_by "first" approve, none)
    ∷ (decision_by "second" approve, some noon)
    ∷ (decision_by "third" reject, none)
    ∷ []

reached_approved : (after_all default_routing (fresh request) attempts).state ≡ approved
unfolding after_all after dispose check_eligibility required_approvals
reached_approved = refl

approved_by_quorum_example :
    let item = after_all default_routing (fresh request) attempts in
    (required_approvals default_routing (fresh request) ≤ℤ pos (approvals_count item))
    × Distinct (approvers item)
    × (elem "analyst" (approvers item) ≡ false)
    × All (IsVouched default_routing request attempts) item.approvals
approved_by_quorum_example = approved_by_quorum default_routing request attempts reached_approved

abbrev pair : List Attempt
pair = (decision_by "first" approve, none) ∷ (decision_by "second" approve, none) ∷ []

qualified : All (λ x. IsQualified default_routing request x.0) pair
qualified = (
  record {
    approves = refl;
    same_tenant = refl;
    not_maker = λ e. cc ((eq_iff "first" "analyst").1 e);
    no_conflict = refl;
    has_role = refl;
  },
  (
    record {
      approves = refl;
      same_tenant = refl;
      not_maker = λ e. cc ((eq_iff "second" "analyst").1 e);
      no_conflict = refl;
      has_role = refl;
    },
    tt,
  ),
)

quorum_exact_example : (after_all default_routing (fresh request) pair).state ≡ (
    if leb_ℤ (required_approvals default_routing (fresh request)) (pos 2)
    then approved
    else pending)
unfolding required_approvals
quorum_exact_example =
    quorum_exact default_routing request pair qualified (refl, (refl, tt)) (omega arith)

abbrev done : ReviewItem
done = record { request = request; state = rejected; approvals = []; terminal_reason = "no" }

resolved_is_final_example :
    ((d : _) (as_of : _)
      → dispose default_routing done d as_of ≡ err (already_resolved "r1" rejected))
    × ((xs : List Attempt) → after_all default_routing done xs ≡ done)
resolved_is_final_example = resolved_is_final default_routing done refl

reported_iff_example :
    (reported self_approval (findings default_routing (fresh request) "analyst" "demo-bank" [])
      ≡ true)
    ↔ Reason default_routing (fresh request) "analyst" "demo-bank" [] self_approval
reported_iff_example =
    reported_iff default_routing (fresh request) "analyst" "demo-bank" [] self_approval

routed_approvals_least_example :
    let n = routed_approvals default_routing critical (pos 1) in
    (pos 1 ≤ℤ n)
    × (pos 1 ≤ℤ n)
    × (floor_for default_routing critical ≤ℤ n)
    × ((m : ℤ) → pos 1 ≤ℤ m → pos 1 ≤ℤ m → floor_for default_routing critical ≤ℤ m → n ≤ℤ m)
routed_approvals_least_example = routed_approvals_least default_routing critical (pos 1)

-- A document with one floor, and conversions that serve it.
abbrev to_severity : String → Result Severity
to_severity s = ok critical

abbrev to_int : Json Unit → Result ℤ
to_int (int n) = ok n
to_int _ = err value_error

abbrev to_str : Json Unit → String
to_str (str s) = s
to_str _ = "None"

abbrev to_bool : Json Unit → Bool
to_bool (str s) = true
to_bool _ = false

abbrev document : Fields Unit
document = field "min_approvals_by_severity" (obj (field "critical" (int (pos 3)) end)) end

abbrev strict : RoutingPolicy
strict = record {
  min_approvals_by_severity = λ s.
      if human_review_console.MakerChecker.Policy.is_severity critical s
      then some (pos 3)
      else none;
  enforce_sod = true;
  approver_group = "group:approver";
}

abbrev policy_file : Json Unit
policy_file = obj (field "policy" (obj (field "routing" (obj document) end)) end)

abbrev loads : String → Result (Json Unit)
loads s = ok policy_file

abbrev file : Option (Result String)
file = some (ok "policy.json")

policy_read : routing_policy to_severity to_int to_str to_bool loads file ≡ ok strict
unfolding routing_policy from_mapping
policy_read = refl

routing_policy_floors_example :
    ((s : Severity) (n : ℤ) → strict.min_approvals_by_severity s ≡ some n → pos 1 ≤ℤ n)
    × (file ≡ none → strict ≡ default_routing)
    × ((contents : Result String)
        → file ≡ some contents
        → (t : String) × (d : Json Unit) × (section : Fields Unit) × (contents ≡ ok t)
          × (loads t ≡ ok d)
          × (routing_section to_severity to_int to_str to_bool loads d ≡ ok section)
          × (from_mapping to_severity to_int to_str to_bool section ≡ ok strict))
routing_policy_floors_example =
    routing_policy_floors to_severity to_int to_str to_bool loads file strict policy_read
