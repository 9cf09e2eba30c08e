-- ===== src/Cases/Escalation.antt =====
-- `route` of adapters/review_router.py: the submission that an escalated case becomes.
use Prim.Native.String.{◌++◌ as text_append}
use human_review_console.Prelude.{String, none, some, map}
use human_review_console.Prelude.Int.{pos}
use human_review_console.Console.{Submission}
use human_review_console.Cases.Kernel.{finding_value}
use human_review_console.Cases.Models.{Case, last_transition, CaseAssessment}
use human_review_console.Strings.{join}
use human_review_console.Cases.Trail.{or_text}

-- The submission of `InProcessReviewRouter.route`; `review_id` is the fresh uuid.
unfoldable pub escalation : (String → String) → Case → CaseAssessment → String → String → Submission
escalation redact c assessment maker review_id = record {
  review_id = review_id;
  maker = maker;
  tenant = c.tenant;
  action = text_append "case_review:" c.case_type;
  subject = redact (
      text_append "Case " (
        text_append c.case_id
          (text_append " (" (text_append c.case_type (text_append ") in state " c.state)))));
  summary = redact (
      text_append "Escalated on: "
        (or_text (join ", " (map finding_value assessment.findings)) "escalated"));
  severity = c.severity;
  required_approvals = pos 1;
  sod_group = "";
  case_ref = c.case_id;
  citations = c.citations;
  source_key = "";
}

-- The actor of the last transition, or the engine.
abbrev pub last_actor : Case → String
last_actor c = elim (last_transition c.history) [ none ↦ "case-engine@system" | some t ↦ t.actor ]
