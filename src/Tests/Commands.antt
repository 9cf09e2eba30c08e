-- ===== src/Tests/Commands.antt =====
-- The decide command at a submitted review.
use human_review_console.Prelude.{String, true, ◌≡◌, none, some, []}
use human_review_console.Prelude.Int.{ℤ}
use human_review_console.Kernel.{approve}
use human_review_console.Models.{ReviewItem, is_terminal}
use human_review_console.Errors.{ok, err, review_not_found, already_resolved}
use human_review_console.MakerChecker.{default_routing}
use human_review_console.Cases.Workflow.{CaseWorld}
use human_review_console.Cli.{Exit, DecideArgs, decide, Readings, main}
use human_review_console.Cli.Decisions.{IsDecided, decide_command_lem}
use human_review_console.Tests.Samples.{noon, later, mask, tenths}
use human_review_console.Tests.Clocks.{holidays}
use human_review_console.Tests.Consoles.{store, lawful, submitted}
use human_review_console.Tests.Workflows.{registry, all_bound}

abbrev world : CaseWorld store
world = record { cases = []; timers = []; events = []; trail = []; console = submitted }

abbrev quoted : String → String
quoted s = s

abbrev days_text : ℤ → String
days_text n = "2"

abbrev readings : Readings
readings = record {
  fresh_id = "r2";
  escalation_id = "r3";
  now = later;
  evaluated_at = later;
  submitted_at = noon;
  recorded_at = later;
}

abbrev args : DecideArgs
args = record {
  review_id = "r1";
  disposition = approve;
  checker = "first";
  tenant = "demo-bank";
  groups = "group:analyst, group:approver";
  reason = "reviewed";
}

decide_command_lem_example :
    let out =
      main quoted days_text store mask default_routing tenths registry all_bound holidays readings
        (decide args)
        world in
    (store.get "demo-bank" "r1" world.console.store ≡ none
      → out ≡ (err (review_not_found "r1"), world))
    × ((item : ReviewItem)
        → lawful.IsValid world.console.store
        → store.get "demo-bank" "r1" world.console.store ≡ some item
        → is_terminal item ≡ true
        → out ≡ (err (already_resolved "r1" item.state), world))
    × ((e : Exit) (v : CaseWorld store)
        → out ≡ (ok e, v)
        → IsDecided quoted days_text store lawful mask default_routing tenths registry all_bound
            holidays readings args world.console e v.console
          × (v.cases ≡ world.cases))
decide_command_lem_example =
    decide_command_lem quoted days_text store lawful mask default_routing tenths registry all_bound
      holidays readings args world
