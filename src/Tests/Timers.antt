-- ===== src/Tests/Timers.antt =====
-- Cloud Tasks as a list of tasks and the names that are not free, and a timer that is scheduled in
-- it, once and again.
use Prim.Native.String.{count}
use human_review_console.Prelude.{
  ◌≤◌, String, true, false, ◌≡◌, refl, sym, ap, ◌∙◌, Option, none, some, List, [], ◌∷◌, ◌==◌, ◌||◌,
  Bool, elem, Bool-cases, inl, inr, eq_iff, arith, if◌then◌else◌,
}
use human_review_console.Errors.{Error, Result, ok, err, runtime_error}
use human_review_console.Config.{Setting, given}
use human_review_console.Cases.CloudPorts.{TasksClient, CloudTask, task_id, task_name, task_of}
use human_review_console.Cases.CloudPorts.Ids.{has_task_chars}
use human_review_console.Cases.CloudPorts.Timers.{schedule, IsCloudTasks}
use human_review_console.Cases.CloudPorts.Timers.Scheduled.{IsScheduled, schedule_lem}
use human_review_console.Tests.Samples.{later}

-- The tasks of the queue, and the names that are not free.
abbrev TaskQueue : Type 0
TaskQueue = List CloudTask × List String

abbrev task : String → List CloudTask → Option CloudTask
task name [] = none
task name (t ∷ ts) = if t.name == name then some t else task name ts

abbrev without : String → List CloudTask → List CloudTask
without name [] = []
without name (t ∷ ts) = let rest = without name ts in if t.name == name then rest else t ∷ rest

abbrev is_some : Option CloudTask → Bool
is_some none = false
is_some (some t) = true

abbrev is_taken : String → TaskQueue → Bool
is_taken name (ts, deleted) = is_some (task name ts) || elem name deleted

abbrev deleted_task : String → TaskQueue → Result TaskQueue
deleted_task name (ts, deleted) =
    if is_some (task name ts) then ok (without name ts, name ∷ deleted) else err runtime_error

abbrev created_task : String → CloudTask → TaskQueue → Result TaskQueue
created_task parent t (ts, deleted) =
    if is_taken t.name (ts, deleted) then err runtime_error else ok (t ∷ ts, deleted)

abbrev tasks : TasksClient
tasks = record {
  Queue = TaskQueue;
  queue_path = λ project region queue. queue;
  delete_task = deleted_task;
  create_task = created_task;
  task = λ name q. task name q.0;
  is_taken = is_taken;
}

task-without :
    (name : String) (q : List CloudTask) (k : String)
    → task k (without name q) ≡ (if name == k then none else task k q)
task-without name [] k = ground arith
task-without name (t ∷ ts) k =
    ground (arith, task-without name ts k, eq_iff t.name name, eq_iff t.name k, eq_iff name k)

tasks-IsCloudTasks : IsCloudTasks tasks
tasks-IsCloudTasks = record {
  task-IsTaken = λ name t q there. rw there refl;
  create-refused = λ parent t q taken. (runtime_error, rw taken refl);
  task-create = λ parent t q r k h. elim (Bool-cases (is_taken t.name q)) [
    | inl taken ↦ cc (rw taken at h)
    | inr free ↦
        let same : (t ∷ q.0, q.1) ≡ r = cc (rw free at h) in
        ap (λ (x : TaskQueue). task k x.0) (sym same)
  ];
  task-delete = λ name q r k h. elim (Bool-cases (is_some (task name q.0))) [
    | inr absent ↦ cc (rw absent at h)
    | inl there ↦
        let same : (without name q.0, name ∷ q.1) ≡ r = cc (rw there at h) in
        ap (λ (x : TaskQueue). task k x.0) (sym same) ∙ task-without name q.0 k
  ];
  taken-delete = λ name q r h. elim (Bool-cases (is_some (task name q.0))) [
    | inr absent ↦ cc (rw absent at h)
    | inl there ↦
        let same : (without name q.0, name ∷ q.1) ≡ r = cc (rw there at h) in
        ap (is_taken name) (sym same) ∙ ground (arith, eq_iff name name)
  ];
}

abbrev variables : String → Setting
variables name = given "reviews"

abbrev queued : TaskQueue
queued = (schedule tasks variables "asia" "demo-bank" "c1" "resolution" later ([], [])).1

scheduled :
    schedule tasks variables "asia" "demo-bank" "c1" "resolution" later ([], []) ≡ (ok tt, queued)
unfolding schedule
scheduled = refl

-- The timer is scheduled a second time: the call raises, and its task is gone.
rescheduled :
    schedule tasks variables "asia" "demo-bank" "c1" "resolution" later queued
    ≡ (err runtime_error, ([], "reviews/tasks/demo-bank--c1--resolution" ∷ []))
unfolding schedule task_id
rescheduled = refl

schedule_lem_example :
    ((r : TaskQueue)
      → schedule tasks variables "asia" "demo-bank" "c1" "resolution" later queued ≡ (ok tt, r)
      → IsScheduled tasks tasks-IsCloudTasks variables "asia" "reviews" "demo-bank" "c1"
          "resolution" later queued r)
    × ((t : CloudTask) (r : TaskQueue)
        → task_of tasks variables "asia" "reviews" "demo-bank" "c1" "resolution" later ≡ ok t
        → deleted_task (task_name "reviews" "demo-bank" "c1" "resolution") queued ≡ ok r
        → (e : Error) × (schedule tasks variables "asia" "demo-bank" "c1" "resolution" later queued
            ≡ (err e, r))
          × (task (task_name "reviews" "demo-bank" "c1" "resolution") r.0 ≡ none))
    × (count (task_id "demo-bank" "c1" "resolution") ≤ 500)
    × (has_task_chars (task_id "demo-bank" "c1" "resolution") ≡ true)
schedule_lem_example =
    schedule_lem tasks tasks-IsCloudTasks variables "asia" "reviews" "demo-bank" "c1" "resolution"
      later queued refl
