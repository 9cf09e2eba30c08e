-- ===== src/Console/Routing.antt =====
-- The projection of the routing floor changes the number of required approvals alone.
use human_review_console.Prelude.{◌≡◌, refl, sym, ap, Bool-cases, inl, inr}
use human_review_console.Prelude.Int.{ℤ, eqb_ℤ, eqb_ℤ→eq}
use human_review_console.Models.{ReviewItem}
use human_review_console.MakerChecker.{RoutingPolicy, required_approvals}
use human_review_console.MakerChecker.Policy.{routed_approvals_idem}
use human_review_console.MakerChecker.Soundness.{IsSound}
use human_review_console.Console.{with_effective_routing}

-- The item with its number of required approvals replaced.
abbrev pub with_required : ReviewItem → ℤ → ReviewItem
with_required item n = record item { request = record (item.request) { required_approvals = n } }

module _ (policy : RoutingPolicy) (item : ReviewItem) where
  pub with_effective_routing_lem :
      with_effective_routing policy item ≡ with_required item (required_approvals policy item)
  unfolding with_effective_routing
  with_effective_routing_lem =
      elim (Bool-cases (eqb_ℤ (required_approvals policy item) item.request.required_approvals)) [
        | inl same ↦ rw same (ap (with_required item) (sym (eqb_ℤ→eq _ _ same)))
        | inr other ↦ rw other refl
      ]

  required-with_required :
      required_approvals policy (with_required item (required_approvals policy item))
      ≡ required_approvals policy item
  unfolding required_approvals
  required-with_required =
      routed_approvals_idem policy item.request.severity item.request.required_approvals

  pub required-routed :
      required_approvals policy (with_effective_routing policy item)
      ≡ required_approvals policy item
  required-routed = rw with_effective_routing_lem required-with_required

  pub routed-IsSound : IsSound policy item → IsSound policy (with_effective_routing policy item)
  routed-IsSound s = rw with_effective_routing_lem (record {
    distinct_approvers = s.distinct_approvers;
    no_self_approval = s.no_self_approval;
    approved_enough = λ h. rw required-with_required (s.approved_enough h);
    pending_short = λ h. rw required-with_required (s.pending_short h);
  })
