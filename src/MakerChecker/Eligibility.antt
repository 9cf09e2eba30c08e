-- ===== src/MakerChecker/Eligibility.antt =====
-- What `check_eligibility` and `dispose` promise for one attempt.
use human_review_console.Prelude.{
  String, Bool, true, false, ◌≡◌, ◌≢◌, ◌↔◌, List, [], ◌∷◌, eq_iff, elem, arith, ◌||◌,
}
use human_review_console.Kernel.{
  EligibilityFinding, wrong_tenant, self_approval, segregation_of_duties, insufficient_role,
  duplicate_approver,
}
use human_review_console.Models.{ReviewItem, approvers}
use human_review_console.MakerChecker.{RoutingPolicy, check_eligibility, sod_conflict}

-- The attempt of one checker on one item.
module _ (policy : RoutingPolicy) (item : ReviewItem) (checker checker_tenant : String)
    (checker_groups : List String) where
  abbrev pub findings : List EligibilityFinding
  findings = check_eligibility policy item checker checker_tenant checker_groups

  -- Why a checker may not act, finding by finding.
  abbrev pub Reason : EligibilityFinding → Type 0
  Reason wrong_tenant = checker_tenant ≢ item.tenant
  Reason self_approval = checker ≡ item.request.maker
  Reason segregation_of_duties =
      (policy.enforce_sod ≡ true)
      × (item.request.sod_group ≢ "")
      × (elem item.request.sod_group checker_groups ≡ true)
  Reason insufficient_role = elem policy.approver_group checker_groups ≡ false
  Reason duplicate_approver = elem checker (approvers item) ≡ true

  pub record IsEligible : Type 0 where
    pub same_tenant : checker_tenant ≡ item.tenant
    pub not_maker : checker ≢ item.request.maker
    pub no_conflict : sod_conflict policy item.request.sod_group checker_groups ≡ false
    pub has_role : elem policy.approver_group checker_groups ≡ true
    pub is_new : elem checker (approvers item) ≡ false

abbrev pub is_finding : EligibilityFinding → EligibilityFinding → Bool
is_finding wrong_tenant wrong_tenant = true
is_finding self_approval self_approval = true
is_finding segregation_of_duties segregation_of_duties = true
is_finding insufficient_role insufficient_role = true
is_finding duplicate_approver duplicate_approver = true
is_finding _ _ = false

abbrev pub reported : EligibilityFinding → List EligibilityFinding → Bool
reported f [] = false
reported f (g ∷ gs) = is_finding f g || reported f gs

module _ (policy : RoutingPolicy) (item : ReviewItem) (checker checker_tenant : String)
    (checker_groups : List String) where
  -- A checker has no finding exactly if the checker is eligible.
  pub no_findings_iff :
      (findings policy item checker checker_tenant checker_groups ≡ [])
      ↔ IsEligible policy item checker checker_tenant checker_groups
  unfolding check_eligibility
  no_findings_iff = (
    (λ h. ground (arith, eq_iff checker_tenant item.tenant, eq_iff checker item.request.maker)),
    (λ e. ground (arith, eq_iff checker_tenant item.tenant, eq_iff checker item.request.maker)),
  )

  -- A finding is reported exactly if its reason holds.
  pub reported_iff :
      (f : EligibilityFinding)
      → (reported f (findings policy item checker checker_tenant checker_groups) ≡ true)
        ↔ Reason policy item checker checker_tenant checker_groups f
  unfolding check_eligibility
  reported_iff wrong_tenant = ground (arith, eq_iff checker_tenant item.tenant)
  reported_iff self_approval = ground (arith, eq_iff checker item.request.maker)
  reported_iff segregation_of_duties = ground (arith, eq_iff item.request.sod_group "")
  reported_iff _ = ground arith
