-- ===== src/Cases/CloudPorts.antt =====
-- adapters/gcp/timers.py, events.py and case_store.py, over the calls of the cloud's clients. The
-- reading of a variable is an argument.
pub mod Ids
pub mod Timers
pub mod Stored
use Prim.Native.Char.{Char, code}
use Prim.Native.String.{◌++◌ as text_append}
use mathlib.Core.Option
use human_review_console.Prelude.{
  ℕ, zero, suc, String, Bool, true, false, ◌&&◌, ◌||◌, ◌≡◌, Option, none, some, List, [], ◌∷◌, ◌==◌,
  map, leb, eqb, if◌then◌else◌,
}
use human_review_console.Strings.{join}
use human_review_console.Time.{Datetime}
use human_review_console.Errors.{Result, ok, err, runtime_error, ◌>>=◌}
use human_review_console.Config.{Setting, unset, emptied, given}
use human_review_console.Cases.Models.{Case}
use human_review_console.Stores.Firestore.{Client}

-- `_env` of timers.py
abbrev pub env : Setting → Result String
env (given value) = ok value
env unset = err runtime_error
env emptied = err runtime_error

-- `[A-Za-z0-9_-]`
abbrev pub is_task_char : Char → Bool
is_task_char c =
    let n = code c in
    (leb b'A' n && leb n b'Z')
    || (leb b'a' n && leb n b'z')
    || (leb b'0' n && leb n b'9')
    || eqb n b'_'
    || eqb n b'-'

-- `re.sub(r"[^A-Za-z0-9_-]", "-", raw)`
abbrev pub with_dashes : String → String
with_dashes String.[] = ""
with_dashes (String.◌∷◌ c s) =
    let rest = with_dashes s in if is_task_char c then String.◌∷◌ c rest else String.◌∷◌ "-" rest

-- `s[:n]`
abbrev pub first_chars : ℕ → String → String
first_chars zero s = ""
first_chars (suc n) String.[] = ""
first_chars (suc n) (String.◌∷◌ c s) = String.◌∷◌ c (first_chars n s)

-- `_task_id`
unfoldable pub task_id : String → String → String → String
task_id tenant case_id clock =
    first_chars 500 (with_dashes (join "" (tenant ∷ "--" ∷ case_id ∷ "--" ∷ clock ∷ [])))

-- `s.rstrip("/")`
abbrev pub without_slashes : String → String
without_slashes String.[] = ""
without_slashes (String.◌∷◌ c s) =
    let rest = without_slashes s in
    if eqb (code c) b'/' && rest == "" then "" else String.◌∷◌ c rest

-- The task that `schedule` creates.
pub record CloudTask : Type 0 where
  pub name : String
  pub schedule_time : Datetime
  pub url : String
  pub case_tenant : String
  pub case_clock : String
  pub service_account_email : String

-- The calls of the Cloud Tasks client, the tasks of the queue, and whether a name is in use or was
-- until recently.
pub record TasksClient : Type 1 where
  pub Queue : Type 0
  pub queue_path : (project region queue : String) → String
  pub delete_task : (name : String) → Queue → Result Queue
  pub create_task : (parent : String) → CloudTask → Queue → Result Queue
  pub task : (name : String) → Queue → Option CloudTask
  pub is_taken : (name : String) → Queue → Bool

-- `contextlib.suppress(Exception)`
abbrev pub suppressed : {W : Type 0} → (W → Result W) → W → W
suppressed call w = elim (call w) [ ok v ↦ v | err e ↦ w ]

-- `f"{parent}/tasks/{_task_id(tenant, case_id, clock)}"`
abbrev pub task_name : String → String → String → String → String
task_name parent tenant case_id clock =
    join "" (parent ∷ "/tasks/" ∷ task_id tenant case_id clock ∷ [])

module _ (client : TasksClient) (read : String → Setting) (region : String) where
  -- The queue's path, which is the text before the last `/tasks/` of a task's name too.
  abbrev pub parent_path : Result String
  parent_path = do
    project ← env (read "REVIEW_GCP_PROJECT")
    queue ← env (read "REVIEW_TASKS_QUEUE")
    ok (client.queue_path project region queue)

  abbrev pub task_of : String → String → String → String → Datetime → Result CloudTask
  task_of parent tenant case_id clock fire_at = do
    callback ← env (read "REVIEW_TIMER_CALLBACK_URL")
    invoker ← env (read "REVIEW_TASKS_INVOKER_SA")
    ok (record {
      name = task_name parent tenant case_id clock;
      schedule_time = fire_at;
      url = join "" (without_slashes callback ∷ "/v1/cases/" ∷ case_id ∷ "/evaluate" ∷ []);
      case_tenant = tenant;
      case_clock = clock;
      service_account_email = invoker;
    })

-- A message of Pub/Sub.
pub record Message : Type 0 where
  pub body : String
  pub attributes : List (String × String)

-- `{**entries, key: value}`: a key that is there keeps its place and takes the value.
abbrev pub with_entry : String × String → List (String × String) → List (String × String)
with_entry entry [] = entry ∷ []
with_entry entry (e ∷ rest) =
    let more = e ∷ with_entry entry rest in if e.0 == entry.0 then entry ∷ rest else more

abbrev pub with_entries : List (String × String) → List (String × String) → List (String × String)
with_entries [] entries = entries
with_entries (entry ∷ rest) entries = with_entries rest (with_entry entry entries)

-- `PubSubEventPublisher.publish`: the topic's project and name, and the message.
unfoldable pub publish :
    (read : String → Setting)
    → String
    → String
    → String
    → List (String × String)
    → Result (String × String × Message)
publish read event_type tenant case_id attributes = do
  project ← env (read "REVIEW_GCP_PROJECT")
  topic ← env (read "REVIEW_EVENTS_TOPIC")
  ok (
    project,
    topic,
    record {
      body = event_type;
      attributes =
          with_entries attributes
            (("event_type", event_type) ∷ ("tenant", tenant) ∷ ("case_id", case_id) ∷ []);
    },
  )

-- `FirestoreCaseStore`, over the collection `tenants/<tenant>/cases`.
module _ {Data : Type 0} (to_jsonable : Case → Data) (hydrate : Data → Case)
    (client : Client Data) where
  unfoldable pub put : Case → client.Database → Result (client.Database)
  put c db = client.set c.tenant c.case_id (to_jsonable c) db

  unfoldable pub get : String → String → client.Database → Option Case
  get tenant case_id db = Option.map hydrate (client.document tenant case_id db)

  unfoldable pub list_by_tenant : String → client.Database → List Case
  list_by_tenant tenant db = map hydrate (client.stream tenant db)
