-- ===== src/Cases/CloudPorts/Timers.antt =====
-- `schedule` and `cancel` of adapters/gcp/timers.py.
pub mod Scheduled
use Prim.Native.String.{count}
use human_review_console.Prelude.{
  ℕ, zero, suc, ◌≤◌, String, Bool, true, false, ◌&&◌, ◌≡◌, refl, sym, ◌∙◌, ap, none, some, [], ◌∷◌,
  ◌==◌, eq_iff, arith, Bool-cases, Option-cases, inl, inr, if◌then◌else◌,
}
use text.Mathlib.TextLemmas.{length-cons}
use human_review_console.Time.{Datetime}
use human_review_console.Errors.{Error, ok, err, bind_ok}
use human_review_console.Action.{Action, lift, modify, ◌>>=◌, ◌>>◌}
use human_review_console.Config.{Setting, unset, emptied, given}
use human_review_console.Strings.{join}
use human_review_console.Console.Outcomes.{Result-cases}
use human_review_console.Cases.CloudPorts.{
  env, is_task_char, with_dashes, first_chars, task_id, CloudTask, TasksClient, suppressed,
  task_name, parent_path, task_of, without_slashes,
}

module _ (client : TasksClient) (read : String → Setting) (region : String) where
  -- `create_task`, which may raise.
  abbrev pub created : String → CloudTask → Action (client.Queue) (Unit {0})
  created parent t queue = elim (client.create_task parent t queue) [
    | ok after ↦ (ok tt, after)
    | err e ↦ (err e, queue)
  ]

  -- `CloudTasksTimerAdapter.schedule`
  unfoldable pub schedule : String → String → String → Datetime → Action (client.Queue) (Unit {0})
  unfolding task_id
  schedule tenant case_id clock fire_at = do
    parent ← lift (parent_path client read region)
    t ← lift (task_of client read region parent tenant case_id clock fire_at)
    modify (suppressed (client.delete_task (t.name)))
    created parent t

  -- `CloudTasksTimerAdapter.cancel`
  unfoldable pub cancel : String → String → String → Action (client.Queue) (Unit {0})
  unfolding task_id
  cancel tenant case_id clock = do
    parent ← lift (parent_path client read region)
    modify (suppressed (client.delete_task (task_name parent tenant case_id clock)))

-- What Cloud Tasks documents: a name is taken while it has a task and for a time after the task is
-- deleted; a creation under a taken name is refused, and one that goes through adds the task; a
-- deletion removes the task of a name; neither touches a task of another name.
pub record IsCloudTasks (client : TasksClient) : Type 0 where
  pub task-IsTaken :
      (name : String) (t : CloudTask) (q : client.Queue)
      → client.task name q ≡ some t
      → client.is_taken name q ≡ true
  pub create-refused :
      (parent : String) (t : CloudTask) (q : client.Queue)
      → client.is_taken t.name q ≡ true
      → (e : Error) × (client.create_task parent t q ≡ err e)
  pub task-create :
      (parent : String) (t : CloudTask) (q r : client.Queue) (k : String)
      → client.create_task parent t q ≡ ok r
      → client.task k r ≡ (if t.name == k then some t else client.task k q)
  pub task-delete :
      (name : String) (q r : client.Queue) (k : String)
      → client.delete_task name q ≡ ok r
      → client.task k r ≡ (if name == k then none else client.task k q)
  pub taken-delete :
      (name : String) (q r : client.Queue)
      → client.delete_task name q ≡ ok r
      → client.is_taken name r ≡ true
