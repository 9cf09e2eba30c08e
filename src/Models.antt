-- ===== src/Models.antt =====
-- domain/models.py: the request, the decision, the approval and the queue item.
use human_review_console.Prelude.{ℕ, String, Bool, List, [], ◌∷◌, ◌++◌, length}
use human_review_console.Prelude.Int.{ℤ}
use human_review_console.Time.{Datetime}
use human_review_console.Kernel.{Severity, Disposition, ReviewState, is_terminal_state, Citation}

pub record ReviewRequest : Type 0 where
  pub review_id : String
  pub tenant : String
  pub action : String
  pub maker : String
  pub subject : String
  pub summary : String
  pub severity : Severity
  pub required_approvals : ℤ
  pub sod_group : String
  pub case_ref : String
  pub citations : List Citation
  pub source_key : String
  pub submitted_at : Datetime

pub record ReviewDecision : Type 0 where
  pub checker : String
  pub checker_tenant : String
  pub checker_groups : List String
  pub disposition : Disposition
  pub reason : String
  pub amendments : List String
  pub decided_at : Datetime

pub record Approval : Type 0 where
  pub checker : String
  pub reason : String
  pub at : Datetime

-- `item.review_id` and `item.tenant` are the request's.
pub record ReviewItem : Type 0 where
  pub request : ReviewRequest
  pub open request use {review_id, tenant}
  pub state : ReviewState
  pub approvals : List Approval
  pub terminal_reason : String

abbrev pub approvals_count : ReviewItem → ℕ
approvals_count item = length item.approvals

abbrev pub checkers : List Approval → List String
checkers [] = []
checkers (a ∷ rest) = a.checker ∷ checkers rest

-- `tuple(a.checker for a in self.approvals)`
abbrev pub approvers : ReviewItem → List String
approvers item = checkers item.approvals

abbrev pub is_terminal : ReviewItem → Bool
is_terminal item = is_terminal_state item.state

abbrev pub with_approval : ReviewItem → Approval → ReviewState → ReviewItem
with_approval item approval state = record item {
  approvals = item.approvals ++ approval ∷ [];
  state = state;
}

abbrev pub resolved : ReviewItem → ReviewState → String → ReviewItem
resolved item state reason = record item { state = state; terminal_reason = reason }
