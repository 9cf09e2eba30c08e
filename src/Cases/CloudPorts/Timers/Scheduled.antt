-- ===== src/Cases/CloudPorts/Timers/Scheduled.antt =====
-- What a call of `schedule` does to the queue.
use Prim.Native.String.{count}
use human_review_console.Prelude.{
  ◌≤◌, String, true, false, ◌≡◌, refl, sym, ◌∙◌, ap, none, some, [], ◌∷◌, ◌==◌, eq_iff, Bool-cases,
  Option-cases, inl, inr,
}
use human_review_console.Time.{Datetime}
use human_review_console.Errors.{Error, ok, err, bind_ok}
use human_review_console.Config.{Setting, unset, emptied, given}
use human_review_console.Strings.{join}
use human_review_console.Console.Outcomes.{Result-cases}
use human_review_console.Cases.CloudPorts.{
  env, task_id, CloudTask, TasksClient, suppressed, task_name, parent_path, task_of,
  without_slashes,
}
use human_review_console.Cases.CloudPorts.Ids.{has_task_chars, task_id-IsSafe}
use human_review_console.Cases.CloudPorts.Timers.{created, schedule, IsCloudTasks}

module _ (client : TasksClient) (laws : IsCloudTasks client) (read : String → Setting)
    (region : String) where
  created_lem :
      (parent : String) (t : CloudTask) (q r : client.Queue)
      → created client read region parent t q ≡ (ok tt, r)
      → (client.is_taken t.name q ≡ false) × (client.create_task parent t q ≡ ok r)
  created_lem parent t q r h = elim (Result-cases (client.create_task parent t q)) [
    | inr (e, failed) ↦ cc (rw (failed, created) at h)
    | inl (after, made) ↦
        let same : after ≡ r = cc (rw (made, created) at h) in
        (
          elim (Bool-cases (client.is_taken t.name q)) [
            | inr free ↦ free
            | inl taken ↦
                let (e, refused) = laws.create-refused parent t q taken in cc (sym made ∙ refused)
          ],
          made ∙ ap (λ (x : client.Queue). ok x) same,
        )
  ]

  -- A name that is free after a deletion, suppressed or not, was free before, and the deletion did
  -- nothing.
  suppressed_free :
      (name : String) (q : client.Queue)
      → client.is_taken name (suppressed (client.delete_task name) q) ≡ false
      → suppressed (client.delete_task name) q ≡ q
  suppressed_free name q free = elim (Result-cases (client.delete_task name q)) [
    | inr (e, failed) ↦ rw (failed, suppressed) refl
    | inl (r, deleted) ↦
        let left : client.is_taken name r ≡ false = rw (deleted, suppressed) at free in
        cc (sym left ∙ laws.taken-delete name q r deleted)
  ]

  untaken_task :
      (name : String) (q : client.Queue)
      → client.is_taken name q ≡ false
      → client.task name q ≡ none
  untaken_task name q free = elim (Option-cases (client.task name q)) [
    | inl nothing ↦ nothing
    | inr (t, there) ↦ cc (sym free ∙ laws.task-IsTaken name t q there)
  ]

  -- The task of a timer: its name, its instant, the callback that evaluates the case, the tenant
  -- and the clock that it names, and the account that it calls with.
  pub record IsTimer (parent tenant case_id clock : String) (fire_at : Datetime) (t : CloudTask)
      : Type 0 where
    pub callback : String
    pub invoker : String
    pub callback_read : read "REVIEW_TIMER_CALLBACK_URL" ≡ given callback
    pub invoker_read : read "REVIEW_TASKS_INVOKER_SA" ≡ given invoker
    pub name_eq : t.name ≡ task_name parent tenant case_id clock
    pub schedule_time_eq : t.schedule_time ≡ fire_at
    pub url_eq :
        t.url ≡ join "" (without_slashes callback ∷ "/v1/cases/" ∷ case_id ∷ "/evaluate" ∷ [])
    pub case_tenant_eq : t.case_tenant ≡ tenant
    pub case_clock_eq : t.case_clock ≡ clock
    pub service_account_email_eq : t.service_account_email ≡ invoker

  env_lem : (x : Setting) (v : String) → env x ≡ ok v → x ≡ given v
  env_lem (given value) v h = cc h
  env_lem unset v h = cc h
  env_lem emptied v h = cc h

  task_of-IsTimer :
      (parent tenant case_id clock : String) (fire_at : Datetime) (t : CloudTask)
      → task_of client read region parent tenant case_id clock fire_at ≡ ok t
      → IsTimer parent tenant case_id clock fire_at t
  task_of-IsTimer parent tenant case_id clock fire_at t h =
      let (c, a, h1) = bind_ok (env (read "REVIEW_TIMER_CALLBACK_URL")) _ h in
      let (i, b, made) = bind_ok (env (read "REVIEW_TASKS_INVOKER_SA")) _ h1 in
      let same : record {
        name = task_name parent tenant case_id clock;
        schedule_time = fire_at;
        url = join "" (without_slashes c ∷ "/v1/cases/" ∷ case_id ∷ "/evaluate" ∷ []);
        case_tenant = tenant;
        case_clock = clock;
        service_account_email = i;
      }
          ≡ t =
        cc made in
      record {
        callback = c;
        invoker = i;
        callback_read = env_lem (read "REVIEW_TIMER_CALLBACK_URL") c a;
        invoker_read = env_lem (read "REVIEW_TASKS_INVOKER_SA") i b;
        name_eq = ap (λ (x : CloudTask). x.name) (sym same);
        schedule_time_eq = ap (λ (x : CloudTask). x.schedule_time) (sym same);
        url_eq = ap (λ (x : CloudTask). x.url) (sym same);
        case_tenant_eq = ap (λ (x : CloudTask). x.case_tenant) (sym same);
        case_clock_eq = ap (λ (x : CloudTask). x.case_clock) (sym same);
        service_account_email_eq = ap (λ (x : CloudTask). x.service_account_email) (sym same);
      }

  -- What a call of `schedule` that returns has done.
  abbrev pub IsScheduled :
      String → String → String → String → Datetime → client.Queue → client.Queue → Type 0
  IsScheduled parent tenant case_id clock fire_at q r =
      (client.task (task_name parent tenant case_id clock) q ≡ none)
      × ((t : CloudTask) × IsTimer parent tenant case_id clock fire_at t
          × (client.task (task_name parent tenant case_id clock) r ≡ some t))
      × ((k : String)
          → (task_name parent tenant case_id clock == k) ≡ false
          → client.task k r ≡ client.task k q)

  schedule-IsScheduled :
      (parent tenant case_id clock : String) (fire_at : Datetime) (q r : client.Queue)
      → parent_path client read region ≡ ok parent
      → schedule client read region tenant case_id clock fire_at q ≡ (ok tt, r)
      → IsScheduled parent tenant case_id clock fire_at q r
  unfolding schedule
  schedule-IsScheduled parent tenant case_id clock fire_at q r found h =
      elim (Result-cases (task_of client read region parent tenant case_id clock fire_at)) [
        | inr (e, failed) ↦ cc (simp (found, failed) at h)
        | inl (t, made) ↦
            let timer = task_of-IsTimer parent tenant case_id clock fire_at t made in
            let emptied = suppressed (client.delete_task (t.name)) q in
            let (free, put) = created_lem parent t emptied r (simp (found, made) at h) in
            let kept : emptied ≡ q = suppressed_free t.name q free in
            let after = λ (k : String). laws.task-create parent t emptied r k put in
            (
              ap (λ (k : String). client.task k q) (sym timer.name_eq)
                  ∙ untaken_task t.name q
                      (ap (λ (x : client.Queue). client.is_taken t.name x) (sym kept) ∙ free),
              (
                t,
                timer,
                ap (λ (k : String). client.task k r) (sym timer.name_eq)
                    ∙ after t.name
                    ∙ rw ((eq_iff t.name t.name).1 refl) refl,
              ),
              (λ k other.
                  let apart : (t.name == k) ≡ false =
                    ap (λ (n : String). n == k) timer.name_eq ∙ other in
                  after k ∙ rw apart (ap (client.task k) kept)),
            )
      ]

  refused_run :
      (parent tenant case_id clock : String) (fire_at : Datetime) (t : CloudTask) (e : Error)
      (q r : client.Queue)
      → parent_path client read region ≡ ok parent
      → task_of client read region parent tenant case_id clock fire_at ≡ ok t
      → client.delete_task t.name q ≡ ok r
      → client.create_task parent t r ≡ err e
      → schedule client read region tenant case_id clock fire_at q ≡ (err e, r)
  unfolding schedule
  refused_run parent tenant case_id clock fire_at t e q r found made gone refused =
      let emptied : suppressed (client.delete_task t.name) q ≡ r = rw (gone, suppressed) refl in
      rw found
        (rw made (ap (created client read region parent t) emptied ∙ rw (refused, created) refl))

  -- A timer that is scheduled again: the deletion goes through, and the creation is refused.
  rescheduled :
      (parent tenant case_id clock : String) (fire_at : Datetime) (t : CloudTask)
      (q r : client.Queue)
      → parent_path client read region ≡ ok parent
      → task_of client read region parent tenant case_id clock fire_at ≡ ok t
      → client.delete_task (task_name parent tenant case_id clock) q ≡ ok r
      → (e : Error) × (schedule client read region tenant case_id clock fire_at q ≡ (err e, r))
        × (client.task (task_name parent tenant case_id clock) r ≡ none)
  rescheduled parent tenant case_id clock fire_at t q r found made deleted =
      let timer = task_of-IsTimer parent tenant case_id clock fire_at t made in
      let gone : client.delete_task t.name q ≡ ok r =
        ap (λ (n : String). client.delete_task n q) timer.name_eq ∙ deleted in
      let (e, refused) = laws.create-refused parent t r (laws.taken-delete t.name q r gone) in
      (
        e,
        refused_run parent tenant case_id clock fire_at t e q r found made gone refused,
        laws.task-delete (task_name parent tenant case_id clock) q r
              (task_name parent tenant case_id clock) deleted
            ∙ rw
                ((eq_iff (task_name parent tenant case_id clock)
                    (task_name parent tenant case_id clock)).1
                  refl)
                refl,
      )

  -- If the client does what Cloud Tasks documents, a call of `schedule` that returns found no task
  -- under the timer's name, and leaves under it a task with the instant, the tenant, the clock and
  -- the account of the call, whose callback is that of the evaluation of the case under the
  -- configured address; it leaves every task of another name. Where the deletion of the timer's
  -- earlier task goes through, so that it is scheduled again, the call raises, since the name is not
  -- free yet, and the queue is left without a task for the timer. The id in the name has at most 500
  -- characters, each a letter, a digit, an underscore or a dash.
  pub schedule_lem :
      (parent tenant case_id clock : String) (fire_at : Datetime) (q : client.Queue)
      → parent_path client read region ≡ ok parent
      → ((r : client.Queue)
          → schedule client read region tenant case_id clock fire_at q ≡ (ok tt, r)
          → IsScheduled parent tenant case_id clock fire_at q r)
        × ((t : CloudTask) (r : client.Queue)
            → task_of client read region parent tenant case_id clock fire_at ≡ ok t
            → client.delete_task (task_name parent tenant case_id clock) q ≡ ok r
            → (e : Error) × (schedule client read region tenant case_id clock fire_at q
                ≡ (err e, r))
              × (client.task (task_name parent tenant case_id clock) r ≡ none))
        × (count (task_id tenant case_id clock) ≤ 500)
        × (has_task_chars (task_id tenant case_id clock) ≡ true)
  schedule_lem parent tenant case_id clock fire_at q found =
      let (short, safe) = task_id-IsSafe tenant case_id clock in
      (
        (λ r h. schedule-IsScheduled parent tenant case_id clock fire_at q r found h),
        (λ t r made deleted.
            rescheduled parent tenant case_id clock fire_at t q r found made deleted),
        short,
        safe,
      )
