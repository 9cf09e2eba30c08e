-- ===== src/Cases/Trail.antt =====
-- `_record` of domain/cases/workflow_service.py: the redacted audit event of a case.
use Prim.Native.String.{◌++◌ as text_append, compare}
use text.Mathlib.Text.{is_le}
use human_review_console.Strings.{join}
use human_review_console.Prelude.{String, List, [], ◌∷◌, ◌==◌, map, if◌then◌else◌}
use human_review_console.Time.{Datetime}
use human_review_console.Cases.Kernel.{CaseDecision, CaseAuditEvent, CaseFinding}
use human_review_console.Cases.Models.{Case}

abbrev pub place_attribute : String × String → List (String × String) → List (String × String)
place_attribute a [] = a ∷ []
place_attribute a (b ∷ rest) =
    if is_le (compare a.0 b.0) then a ∷ b ∷ rest else b ∷ place_attribute a rest

-- `sorted(case.attributes.items())`; the keys are distinct.
abbrev pub sorted_attributes : List (String × String) → List (String × String)
sorted_attributes [] = []
sorted_attributes (a ∷ rest) = place_attribute a (sorted_attributes rest)

-- `attr_blob` of `_record`
abbrev pub attr_blob : Case → String
attr_blob c = join " " (
    map (λ (a : String × String). text_append a.0 (text_append "=" a.1))
      (sorted_attributes c.attributes))

-- The event that `_record` writes.
unfoldable pub case_event :
    (String → String)
    → Case
    → String
    → String
    → String
    → String
    → CaseDecision
    → String
    → List CaseFinding
    → Datetime
    → CaseAuditEvent
case_event redact c action actor from_state to_state decision summary findings recorded_at =
    record {
      action = action;
      case_id = c.case_id;
      tenant = c.tenant;
      actor = actor;
      from_state = from_state;
      to_state = to_state;
      decision = decision;
      severity = c.severity;
      redacted_summary = redact (text_append summary (text_append " :: " (attr_blob c)));
      findings = findings;
      citations = c.citations;
      timestamp = recorded_at;
    }

-- `summary or case_type`
abbrev pub or_text : String → String → String
or_text first second = if first == "" then second else first
