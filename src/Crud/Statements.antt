-- ===== src/Crud/Statements.antt =====
-- The methods of CRUD (src/crud) as statements on the database of a world.
use flowlite.Base.{
  ℕ, suc, String, Bool, ◌&&◌, not, Option, none, some, true, false, List, [], ◌∷◌, ◌++◌, map, any,
  filter, head?, ◌==◌, nat_Column, string_Column,
}
use flowlite.Crud.JobRun
use flowlite.Crud.JobRun.{JobRun, JobRunStatus, JobRunFilter, JobRunSort, JobRunInput}
use flowlite.Crud.TaskRun
use flowlite.Crud.TaskRun.{TaskRun, TaskRunStatus, TaskRunFilter, TaskRunKey, TaskRunInput}
use flowlite.Crud.TaskRunAttempt
use flowlite.Crud.TaskRunAttempt.{
  TaskRunAttempt, TaskRunAttemptStatus, AttemptFilter, AttemptSort, AttemptKey, AttemptInput,
}
use flowlite.Crud.TaskRunAttemptOutput.{NewOutput, new_output_row}
use flowlite.Crud.World.{
  JobRunStop, Job, Task, JobRunNotification, JobRunNotificationStatus, NotifyOn,
  NotificationChannel, is_pending, Db, Action, missing_row, ◌>>=◌, ◌>>◌, pure, throw, current_ts,
  query, execute, insert,
}

abbrev pub is_some : {A : Type 0} → Option A → Bool
is_some none = false
is_some (some a) = true

-- The ids of a job run's attempts, which `parent_job_run_id` filters by.
abbrev pub attempt_ids : Db → ℕ → List ℕ
attempt_ids db job_run_id =
    map (λ a. a.id) (filter (λ a. a.job_run_id == job_run_id) db.task_run_attempts)

unfoldable pub select_job_runs :
    JobRunFilter → Option JobRunSort → (limit offset : Option ℕ) → Action (List JobRun)
select_job_runs f sort limit offset =
    query (λ db. JobRun.select_job_runs (attempt_ids db) f sort limit offset db.job_runs)

unfoldable pub select_job_run : JobRunFilter → Action (Option JobRun)
select_job_run f = query (λ db. JobRun.select_job_run (attempt_ids db) f db.job_runs)

unfoldable pub count_job_runs : JobRunFilter → Action ℕ
count_job_runs f = query (λ db. JobRun.count_job_runs (attempt_ids db) f db.job_runs)

-- SELECT DISTINCT: each id once, where it comes first.
abbrev pub distinct : List String → List String
distinct [] = []
distinct (id ∷ ids) = id ∷ filter (λ other. not (other == id)) (distinct ids)

unfoldable pub select_job_run_job_ids : JobRunFilter → Action (List String)
select_job_run_job_ids f = query (λ db.
    distinct (map (λ r. r.job_id) (filter (JobRun.job_run_filter (attempt_ids db) f) db.job_runs)))

-- `select_job_run_notifications` with the status pending.
unfoldable pub select_pending_notifications : Action (List JobRunNotification)
select_pending_notifications = query (λ db. filter is_pending db.job_run_notifications)

unfoldable pub update_job_runs : Option ℕ → JobRunInput → Action Unit
update_job_runs id i =
    execute (λ db. record db { job_runs = JobRun.update_job_runs id i db.job_runs })

unfoldable pub select_task_runs : TaskRunFilter → Action (List TaskRun)
select_task_runs f = query (λ db. TaskRun.select_task_runs f db.task_runs)

unfoldable pub select_task_run : TaskRunFilter → Action (Option TaskRun)
select_task_run f = query (λ db. TaskRun.select_task_run f db.task_runs)

unfoldable pub update_task_runs : TaskRunKey → TaskRunInput → Action Unit
update_task_runs k i =
    execute (λ db. record db { task_runs = TaskRun.update_task_runs k i db.task_runs })

unfoldable pub select_task_run_attempts :
    AttemptFilter → Option AttemptSort → Action (List TaskRunAttempt)
select_task_run_attempts f sort =
    query (λ db. TaskRunAttempt.select_task_run_attempts f sort db.task_run_attempts)

unfoldable pub update_task_run_attempts : AttemptKey → AttemptInput → Action Unit
update_task_run_attempts k i = execute (λ db. record db {
  task_run_attempts = TaskRunAttempt.update_task_run_attempts k i db.task_run_attempts;
})

-- `InsertTaskRunAttemptDataInput`
pub record NewAttempt : Type 0 where
  pub task_run_id : ℕ
  pub job_run_id : ℕ
  pub job_id : String
  pub task_id : String
  pub attempt : ℕ
  pub status : TaskRunAttemptStatus

unfoldable pub new_attempt_row : NewAttempt → (id now : ℕ) → TaskRunAttempt
new_attempt_row n id now = record {
  id = id;
  task_run_id = n.task_run_id;
  job_run_id = n.job_run_id;
  job_id = n.job_id;
  task_id = n.task_id;
  created_at = now;
  started_at = none;
  finished_at = none;
  attempt = n.attempt;
  status = n.status;
  process_group_id = none;
  output = "";
  waiting_since = none;
}

-- The foreign keys, and the unique index on (task_run_id, attempt).
unfoldable pub attempt_allowed : NewAttempt → Db → Bool
attempt_allowed n db =
    any (λ t. t.id == n.task_run_id) db.task_runs
    && any (λ j. j.id == n.job_run_id) db.job_runs
    && not
        (any (λ a. a.task_run_id == n.task_run_id && a.attempt == n.attempt) db.task_run_attempts)

unfoldable pub insert_task_run_attempt : NewAttempt → Action Unit
unfolding new_attempt_row attempt_allowed
insert_task_run_attempt n = current_ts >>= λ now. insert (attempt_allowed n) (λ db. record db {
  task_run_attempts = db.task_run_attempts ++ new_attempt_row n db.next_attempt_id now ∷ [];
  next_attempt_id = suc db.next_attempt_id;
})

-- The foreign keys.
abbrev pub output_allowed : NewOutput → Db → Bool
output_allowed n db =
    any (λ a. a.id == n.task_run_attempt_id) db.task_run_attempts
    && any (λ t. t.id == n.task_run_id) db.task_runs
    && any (λ j. j.id == n.job_run_id) db.job_runs

unfoldable pub insert_task_run_attempt_output : NewOutput → Action Unit
unfolding new_output_row
insert_task_run_attempt_output n = current_ts >>= λ now. insert (output_allowed n) (λ db.
    record db {
      task_run_attempt_outputs =
          db.task_run_attempt_outputs ++ new_output_row n db.next_output_id now ∷ [];
      next_output_id = suc db.next_output_id;
    })

-- `select_job_run_notifications` of a job run, by id.
unfoldable pub select_run_notifications : ℕ → Action (List JobRunNotification)
select_run_notifications job_run_id =
    query (λ db. filter (λ n. n.job_run_id == job_run_id) db.job_run_notifications)

-- `InsertJobRunDataInput`, and the row that is written, in the table's last place.
pub record NewJobRun : Type 0 where
  pub job_id : String
  pub job_name : String
  pub job_description : String
  pub parameters : List (String × String)
  pub scheduled_at : ℕ
  pub schedule_id : Option String
  pub status : JobRunStatus
  pub parent_task_run_attempt_id : Option ℕ

unfoldable pub new_job_run_row : NewJobRun → (id now : ℕ) → JobRun
new_job_run_row n id now = record {
  id = id;
  job_id = n.job_id;
  job_name = n.job_name;
  job_description = n.job_description;
  parameters = n.parameters;
  created_at = now;
  scheduled_at = n.scheduled_at;
  schedule_id = n.schedule_id;
  parent_task_run_attempt_id = n.parent_task_run_attempt_id;
  started_at = none;
  finished_at = none;
  status = n.status;
}

-- The foreign key of the parent.
abbrev pub job_run_allowed : NewJobRun → Db → Bool
job_run_allowed n db = elim n.parent_task_run_attempt_id [
  | none ↦ true
  | some id ↦ any (λ a. a.id == id) db.task_run_attempts
]

unfoldable pub insert_job_run : NewJobRun → Action ℕ
unfolding new_job_run_row
insert_job_run n w =
    (insert (job_run_allowed n) (λ db. record db {
      job_runs = db.job_runs ++ new_job_run_row n db.next_job_run_id w.now ∷ [];
      next_job_run_id = suc db.next_job_run_id;
    })
        >> pure w.db.next_job_run_id)
      w

-- `InsertTaskRunDataInput`
pub record NewTaskRun : Type 0 where
  pub job_run_id : ℕ
  pub job_id : String
  pub task_id : String
  pub command : String
  pub stdin : String
  pub depends_on : List String
  pub limits : List String
  pub timeout : ℕ
  pub idle_timeout : ℕ
  pub max_retries : ℕ
  pub retry_delay : ℕ
  pub env : List (String × String)
  pub secret_env : List (String × String)
  pub working_dir : String
  pub status : TaskRunStatus

unfoldable pub new_task_run_row : NewTaskRun → (id now : ℕ) → TaskRun
new_task_run_row n id now = record {
  id = id;
  job_run_id = n.job_run_id;
  job_id = n.job_id;
  task_id = n.task_id;
  command = n.command;
  stdin = n.stdin;
  depends_on = n.depends_on;
  timeout = n.timeout;
  idle_timeout = n.idle_timeout;
  max_retries = n.max_retries;
  retry_delay = n.retry_delay;
  env = n.env;
  secret_env = n.secret_env;
  working_dir = n.working_dir;
  limits = n.limits;
  created_at = now;
  started_at = none;
  finished_at = none;
  status = n.status;
}

-- The foreign key, and the unique index on (job_run_id, task_id, job_id).
unfoldable pub task_run_allowed : NewTaskRun → Db → Bool
task_run_allowed n db =
    any (λ j. j.id == n.job_run_id) db.job_runs
    && not (
        any (λ t. t.job_run_id == n.job_run_id && t.task_id == n.task_id && t.job_id == n.job_id)
          db.task_runs)

unfoldable pub insert_task_run : NewTaskRun → Action Unit
unfolding new_task_run_row task_run_allowed
insert_task_run n = current_ts >>= λ now. insert (task_run_allowed n) (λ db. record db {
  task_runs = db.task_runs ++ new_task_run_row n db.next_task_run_id now ∷ [];
  next_task_run_id = suc db.next_task_run_id;
})

-- `InsertJobRunNotificationDataInput`
pub record NewNotification : Type 0 where
  pub job_run_id : ℕ
  pub job_id : String
  pub notify_on : NotifyOn
  pub channel : NotificationChannel
  pub recipients : List String
  pub status : JobRunNotificationStatus
  pub error : String

unfoldable pub insert_job_run_notification : NewNotification → Action Unit
insert_job_run_notification n = current_ts >>= λ now.
    insert (λ db. any (λ j. j.id == n.job_run_id) db.job_runs)
      (λ db. record db {
        job_run_notifications =
            db.job_run_notifications
            ++ record {
              id = db.next_notification_id;
              job_run_id = n.job_run_id;
              job_id = n.job_id;
              notify_on = n.notify_on;
              channel = n.channel;
              recipients = n.recipients;
              status = n.status;
              error = n.error;
              created_at = now;
              sent_at = none;
            }
              ∷ [];
        next_notification_id = suc db.next_notification_id;
      })

-- `select_tasks` of a job, by `row_id`.
unfoldable pub select_tasks : String → Action (List Task)
select_tasks job_id = query (λ db. filter (λ t. t.job_id == job_id) db.tasks)

-- `select_job_run_stop` with a job run's id and a limit of one.
unfoldable pub select_job_run_stop : ℕ → Action (Option JobRunStop)
select_job_run_stop job_run_id =
    query (λ db. head? (filter (λ s. s.job_run_id == job_run_id) db.job_run_stops))

-- A stop row references its job run.
unfoldable pub insert_job_run_stop : ℕ → Action Unit
insert_job_run_stop job_run_id = current_ts >>= λ now.
    insert (λ db. any (λ j. j.id == job_run_id) db.job_runs)
      (λ db. record db {
        job_run_stops =
            db.job_run_stops
            ++ record { id = db.next_stop_id; job_run_id = job_run_id; created_at = now } ∷ [];
        next_stop_id = suc db.next_stop_id;
      })

-- `select_job` by its id.
unfoldable pub select_job : String → Action (Option Job)
select_job job_id = query (λ db. head? (filter (λ j. j.job_id == job_id) db.jobs))

-- `.ok_or_else(…)?` on a row that has to be there.
unfoldable pub required : {A : Type 0} → Option A → Action A
required none = throw missing_row
required (some a) = pure a

-- `is_job_run_stopped`, as every service asks it.
unfoldable pub is_job_run_stopped : ℕ → Action Bool
unfolding select_job_run_stop
is_job_run_stopped job_run_id = do stop ← select_job_run_stop job_run_id; pure (is_some stop)
