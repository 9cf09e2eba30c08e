-- ===== src/Tests/Samples.antt =====
-- The data of the tests: a bank's review, two approvers, a codec, a redaction, a number of floats.
use human_review_console.Prelude.{ℕ, ◌+◌, ◌-◌, ◌*◌, ◌/◌, String, refl, none, [], ◌∷◌}
use human_review_console.Prelude.Int.{pos, pos_part}
use human_review_console.Time.{Datetime}
use human_review_console.Kernel.{Disposition, approve, critical}
use human_review_console.Models.{ReviewRequest, ReviewDecision, ReviewItem}
use human_review_console.Stores.Reviews.{Codec}
use human_review_console.Console.{Submission, DisposeRequest}
use human_review_console.Cases.Clock.{Floats}

abbrev pub noon : Datetime
noon = record { day = 739000; time = 43200000000 }

abbrev pub later : Datetime
later = record { day = 739003; time = 43200000000 }

abbrev pub request : ReviewRequest
request = record {
  review_id = "r1";
  tenant = "demo-bank";
  action = "disburse_loan";
  maker = "analyst";
  subject = "loan 7";
  summary = "large";
  severity = critical;
  required_approvals = pos 1;
  sod_group = "group:desk";
  case_ref = "";
  citations = [];
  source_key = "";
  submitted_at = noon;
}

abbrev pub decision_by : String → Disposition → ReviewDecision
decision_by checker disposition = record {
  checker = checker;
  checker_tenant = "demo-bank";
  checker_groups = "group:risk" ∷ "group:approver" ∷ [];
  disposition = disposition;
  reason = "seen";
  amendments = [];
  decided_at = later;
}

abbrev pub identity_codec : Codec
identity_codec = record {
  Payload = ReviewItem;
  dump = λ item. item;
  hydrate = λ item. item;
  hydrate-dump = λ item. refl;
}

abbrev pub mask : String → String
mask s = "[redacted]"

abbrev pub submission : String → String → Submission
submission review_id source_key = record {
  review_id = review_id;
  maker = "analyst";
  tenant = "demo-bank";
  action = "disburse_loan";
  subject = "loan 7";
  summary = "large";
  severity = critical;
  required_approvals = pos 1;
  sod_group = "";
  case_ref = "";
  citations = [];
  source_key = source_key;
}

abbrev pub approval_by : String → DisposeRequest
approval_by checker = record {
  review_id = "r1";
  checker = checker;
  checker_tenant = "demo-bank";
  checker_groups = "group:approver" ∷ [];
  disposition = approve;
  reason = "seen";
  amendments = [];
  as_of = none;
}

-- Tenths stand in for floats.
abbrev pub tenths : Floats
tenths = record {
  Float = ℕ;
  one = 10;
  subtract = λ a b. a - b;
  multiply = λ a b. a * b;
  of_int = pos_part;
  ceil = λ a. pos ((a + 9) / 10);
}
