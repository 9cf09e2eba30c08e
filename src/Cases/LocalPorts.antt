-- ===== src/Cases/LocalPorts.antt =====
-- adapters/local/case_store.py, adapters/local/timers.py and adapters/local/events.py: the dicts
-- and the list of the local profile. A dict is its entries in insertion order; the lock makes each
-- operation one step.
use human_review_console.Prelude.{
  String, Bool, not, ◌&&◌, Option, none, some, List, [], ◌∷◌, ◌++◌, ◌==◌, keep, if◌then◌else◌,
}
use human_review_console.Time.{Datetime}
use human_review_console.Cases.Models.{Case}

abbrev pub is_case : Case → String → String → Bool
is_case c tenant case_id = c.tenant == tenant && c.case_id == case_id

-- `LocalCaseStore.put`: a key that is there keeps its place.
unfoldable pub put_case : Case → List Case → List Case
put_case c [] = c ∷ []
put_case c (d ∷ rest) = if is_case d c.tenant c.case_id then c ∷ rest else d ∷ put_case c rest

-- `LocalCaseStore.get`
unfoldable pub get_case : String → String → List Case → Option Case
get_case tenant case_id [] = none
get_case tenant case_id (d ∷ rest) =
    if is_case d tenant case_id then some d else get_case tenant case_id rest

-- `LocalCaseStore.list_by_tenant`
unfoldable pub list_by_tenant : String → List Case → List Case
list_by_tenant tenant cases = keep (λ c. c.tenant == tenant) cases

pub record Timer : Type 0 where
  pub tenant : String
  pub case_id : String
  pub clock : String
  pub fire_at : Datetime

abbrev pub is_timer : Timer → String → String → String → Bool
is_timer t tenant case_id clock = t.tenant == tenant && (t.case_id == case_id && t.clock == clock)

-- `LocalTimerAdapter.schedule`
unfoldable pub schedule : Timer → List Timer → List Timer
schedule t [] = t ∷ []
schedule t (u ∷ rest) =
    if is_timer u t.tenant t.case_id t.clock then t ∷ rest else u ∷ schedule t rest

-- `LocalTimerAdapter.cancel`
unfoldable pub cancel : String → String → String → List Timer → List Timer
cancel tenant case_id clock timers = keep (λ t. not (is_timer t tenant case_id clock)) timers

-- `_Event`
pub record Event : Type 0 where
  pub event_type : String
  pub tenant : String
  pub case_id : String
  pub attributes : List (String × String)

-- `LocalEventPublisher.publish`
abbrev pub publish : Event → List Event → List Event
publish event events = events ++ event ∷ []
