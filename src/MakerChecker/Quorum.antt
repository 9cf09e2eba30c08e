-- ===== src/MakerChecker/Quorum.antt =====
-- Sequences of attempts on one item: what an approval proves, and when a quorum is reached.
use mathlib.Core.List.{Memᴰ, append-nil, append_assoc}
use human_review_console.Prelude.{
  true, false, ◌≡◌, ◌≢◌, refl, sym, ◌∙◌, ap, ◌⊎◌, inl, inr, Option, List, [], ◌∷◌, ◌++◌, elem,
  Distinct, arith, All,
}
use human_review_console.Prelude.Int.{pos, ◌≤ℤ◌}
use human_review_console.Time.{Datetime}
use human_review_console.Kernel.{Disposition, approve, reject, amend, approved}
use human_review_console.Models.{
  ReviewRequest, ReviewDecision, Approval, ReviewItem, approvals_count, approvers, is_terminal,
}
use human_review_console.Errors.{err, already_resolved}
use human_review_console.MakerChecker.{
  RoutingPolicy, required_approvals, apply_disposition, routed_approvals, stamp_of, dispose,
  sod_conflict,
}
use human_review_console.MakerChecker.Eligibility.{IsEligible}
use human_review_console.MakerChecker.Soundness.{
  IsSound, fresh, fresh-IsSound, apply-IsSound, Attempt, after, after_all, after_cases,
}

pub apply-request :
    (policy : RoutingPolicy) (item : ReviewItem) (d : ReviewDecision) (stamp : Datetime)
    (disposition : Disposition)
    → (apply_disposition policy item d stamp disposition).request ≡ item.request
unfolding apply_disposition
apply-request policy item d stamp approve = refl
apply-request policy item d stamp _ = refl

pub after-request :
    (policy : RoutingPolicy) (item : ReviewItem) (x : Attempt)
    → (after policy item x).request ≡ item.request
after-request policy item (d, as_of) = elim (after_cases policy item d as_of) [
  | inl same ↦ ap (λ (i : ReviewItem). i.request) same
  | inr (p, e, moved) ↦ rw moved (apply-request policy item d (stamp_of d as_of) d.disposition)
]

pub after_all-request :
    (policy : RoutingPolicy) (item : ReviewItem) (xs : List Attempt)
    → (after_all policy item xs).request ≡ item.request
unfolding after_all
after_all-request policy item [] = refl
after_all-request policy item (x ∷ xs) =
    after_all-request policy (after policy item x) xs ∙ after-request policy item x

pub after-IsSound :
    (policy : RoutingPolicy) (item : ReviewItem) (x : Attempt)
    → IsSound policy item
    → IsSound policy (after policy item x)
after-IsSound policy item (d, as_of) s = elim (after_cases policy item d as_of) [
  | inl same ↦ rw same s
  | inr (p, e, moved) ↦ rw moved (apply-IsSound policy item d (stamp_of d as_of) d.disposition e s)
]

pub after_all-IsSound :
    (policy : RoutingPolicy) (item : ReviewItem) (xs : List Attempt)
    → IsSound policy item
    → IsSound policy (after_all policy item xs)
unfolding after_all
after_all-IsSound policy item [] s = s
after_all-IsSound policy item (x ∷ xs) s =
    after_all-IsSound policy (after policy item x) xs (after-IsSound policy item x s)

-- What holds of a decision whatever approvals are there already.
pub record IsQualified (policy : RoutingPolicy) (request : ReviewRequest) (d : ReviewDecision)
    : Type 0 where
  pub approves : d.disposition ≡ approve
  pub same_tenant : d.checker_tenant ≡ request.tenant
  pub not_maker : d.checker ≢ request.maker
  pub no_conflict : sod_conflict policy request.sod_group d.checker_groups ≡ false
  pub has_role : elem policy.approver_group d.checker_groups ≡ true

-- The approval comes from a qualified attempt of the list.
abbrev pub IsVouched : RoutingPolicy → ReviewRequest → List Attempt → Approval → Type 0
IsVouched policy request xs a =
    (x : Attempt) × Memᴰ x xs
    × (x.0.checker ≡ a.checker)
    × (x.0.reason ≡ a.reason)
    × IsQualified policy request x.0

abbrev Vouches : RoutingPolicy → ReviewRequest → List Attempt → List Approval → Type 0
Vouches policy request xs approvals = All (IsVouched policy request xs) approvals

Vouches-cons :
    (policy : RoutingPolicy) (request : ReviewRequest) (x : Attempt) (xs : List Attempt)
    (l : List Approval)
    → Vouches policy request xs l
    → Vouches policy request (x ∷ xs) l
Vouches-cons policy request x xs [] v = tt
Vouches-cons policy request x xs (a ∷ l) ((y, m, c, r, q), v) =
    ((y, Memᴰ.tail m, c, r, q), Vouches-cons policy request x xs l v)

pub apply-approvals :
    (policy : RoutingPolicy) (item : ReviewItem) (d : ReviewDecision) (stamp : Datetime)
    → IsEligible policy item d.checker d.checker_tenant d.checker_groups
    → ((apply_disposition policy item d stamp d.disposition).approvals ≡ item.approvals)
      ⊎ (((apply_disposition policy item d stamp d.disposition).approvals
            ≡ item.approvals ++ record { checker = d.checker; reason = d.reason; at = stamp } ∷ [])
          × IsQualified policy item.request d)
unfolding apply_disposition
apply-approvals policy item d stamp e = go d.disposition refl
  where
    go :
        (k : Disposition)
        → d.disposition ≡ k
        → ((apply_disposition policy item d stamp k).approvals ≡ item.approvals)
          ⊎ (((apply_disposition policy item d stamp k).approvals
                ≡ item.approvals
                  ++ record { checker = d.checker; reason = d.reason; at = stamp } ∷ [])
              × IsQualified policy item.request d)
    go approve h = inr (
      refl,
      record {
        approves = h;
        same_tenant = e.same_tenant;
        not_maker = e.not_maker;
        no_conflict = e.no_conflict;
        has_role = e.has_role;
      },
    )
    go reject h = inl refl
    go amend h = inl refl

after-approvals :
    (policy : RoutingPolicy) (item : ReviewItem) (x : Attempt)
    → ((after policy item x).approvals ≡ item.approvals)
      ⊎ ((a : Approval) × ((after policy item x).approvals ≡ item.approvals ++ a ∷ [])
          × (x.0.checker ≡ a.checker)
          × (x.0.reason ≡ a.reason)
          × IsQualified policy item.request x.0)
after-approvals policy item (d, as_of) = elim (after_cases policy item d as_of) [
  | inl same ↦ inl (ap (λ (i : ReviewItem). i.approvals) same)
  | inr (p, e, moved) ↦ elim (apply-approvals policy item d (stamp_of d as_of) e) [
    | inl same ↦ inl (rw moved same)
    | inr (grown, q) ↦ inr (
      record { checker = d.checker; reason = d.reason; at = stamp_of d as_of },
      rw moved grown,
      refl,
      refl,
      q,
    )
  ]
]

-- The approvals that a run adds are vouched for by its attempts.
after_all-approvals :
    (policy : RoutingPolicy) (request : ReviewRequest) (item : ReviewItem) (xs : List Attempt)
    → item.request ≡ request
    → (added : List Approval) × ((after_all policy item xs).approvals ≡ item.approvals ++ added)
      × Vouches policy request xs added
unfolding after_all
after_all-approvals policy request item [] e = ([], sym (append-nil item.approvals), tt)
after_all-approvals policy request item (x ∷ xs) e =
    let next = after policy item x in
    let (added, grown, vouched) =
      after_all-approvals policy request next xs (after-request policy item x ∙ e) in
    elim (after-approvals policy item x) [
      | inl same ↦ (
        added,
        grown ∙ ap (λ (l : List Approval). l ++ added) same,
        Vouches-cons policy request x xs added vouched,
      )
      | inr (a, one, c, r, q) ↦ (
        a ∷ added,
        (grown
            ∙ ap (λ (l : List Approval). l ++ added) one
            ∙ append_assoc item.approvals (a ∷ []) added),
        ((x, Memᴰ.head refl, c, r, rw (← e) q), Vouches-cons policy request x xs added vouched),
      )
    ]

pub required-request :
    (policy : RoutingPolicy) (a b : ReviewItem)
    → a.request ≡ b.request
    → required_approvals policy a ≡ required_approvals policy b
unfolding required_approvals
required-request policy a b h =
    ap (λ (r : ReviewRequest). routed_approvals policy r.severity r.required_approvals) h

-- An approved item, reached from a new one by any attempts, has at least the required number of
-- approvals, from distinct checkers, none of them the maker, and each approval comes from an
-- attempt of the list that approved, in the request's tenant, with the approver entitlement and
-- without a segregation-of-duties conflict.
pub approved_by_quorum :
    (policy : RoutingPolicy) (request : ReviewRequest) (xs : List Attempt)
    → (after_all policy (fresh request) xs).state ≡ approved
    → let item = after_all policy (fresh request) xs in
      (required_approvals policy (fresh request) ≤ℤ pos (approvals_count item))
      × Distinct (approvers item)
      × (elem request.maker (approvers item) ≡ false)
      × All (IsVouched policy request xs) item.approvals
approved_by_quorum policy request xs h =
    let s = after_all-IsSound policy (fresh request) xs (fresh-IsSound policy request) in
    let same = after_all-request policy (fresh request) xs in
    let (added, grown, vouched) = after_all-approvals policy request (fresh request) xs refl in
    (
      rw (required-request policy (fresh request) (after_all policy (fresh request) xs) (sym same))
          (s.approved_enough h),
      s.distinct_approvers,
      rw (ap (λ (r : ReviewRequest). r.maker) same) at s.no_self_approval,
      rw grown vouched,
    )

after-terminal :
    (policy : RoutingPolicy) (item : ReviewItem) (d : ReviewDecision) (as_of : Option Datetime)
    → is_terminal item ≡ true
    → (dispose policy item d as_of ≡ err (already_resolved item.review_id item.state))
      × (after policy item (d, as_of) ≡ item)
unfolding after dispose
after-terminal policy item d as_of t = (ground arith, ground arith)

-- A resolved item is final: every further attempt raises AlreadyResolved with the item's id and
-- state, and no sequence of attempts changes the item.
pub resolved_is_final :
    (policy : RoutingPolicy) (item : ReviewItem)
    → is_terminal item ≡ true
    → ((d : ReviewDecision) (as_of : Option Datetime)
        → dispose policy item d as_of ≡ err (already_resolved item.review_id item.state))
      × ((xs : List Attempt) → after_all policy item xs ≡ item)
unfolding after_all
resolved_is_final policy item t = (λ d as_of. (after-terminal policy item d as_of t).0, go)
  where
    go : (xs : List Attempt) → after_all policy item xs ≡ item
    go [] = refl
    go (x ∷ xs) = rw (after-terminal policy item x.0 x.1 t).1 (go xs)
