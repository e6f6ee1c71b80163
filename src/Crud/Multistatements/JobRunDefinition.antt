-- ===== src/Crud/Multistatements/JobRunDefinition.antt =====
-- src/crud/multistatements/job_run_definition.rs: what a run will execute, and its rows.
pub mod Declarations
pub mod Notifications
pub mod Parents
pub mod Rows
pub mod Submitted
use flowlite.Base.{
  ℕ, String, Bool, true, false, not, ◌&&◌, Option, none, some, List, [], ◌∷◌, ◌++◌, map, head?,
  keys, put_all, remove_all, ◌==◌, if◌then◌else◌,
}
use flowlite.JobYaml.{StringMap}
use flowlite.Crud.JobRun
use flowlite.Crud.TaskRun
use flowlite.Crud.TaskRunAttempt
use flowlite.Crud.TaskRunAttempt.{TaskRunAttempt, any_attempt, TaskRunAttemptStatus_Column}
use flowlite.Crud.World.{
  Job, Task, NotifyOn, NotificationChannel, Recipients, failure, success, pending, refused, Action,
  ◌>>=◌, ◌>>◌, pure, throw, done, return_early,
}
use flowlite.Crud.Statements.{
  NewJobRun, NewTaskRun, is_some, insert_job_run, insert_task_run, insert_job_run_notification,
  select_task_run_attempts, select_job_run_stop,
}

pub record JobRunTaskDefinition : Type 0 where
  pub task_id : String
  pub command : String
  pub stdin : String
  pub depends_on : List String
  pub limits : List String
  pub timeout : ℕ
  pub idle_timeout : ℕ
  pub max_retries : ℕ
  pub retry_delay : ℕ
  pub env : StringMap
  pub secret_env : StringMap
  pub working_dir : String

pub record JobRunNotificationDefinition : Type 0 where
  pub notify_on : NotifyOn
  pub channel : NotificationChannel
  pub recipients : List String

pub record JobRunDefinition : Type 0 where
  pub job_id : String
  pub job_name : String
  pub job_description : String
  pub parameters : StringMap
  pub scheduled_at : ℕ
  pub schedule_id : Option String
  pub parent_task_run_attempt_id : Option ℕ
  pub tasks : List JobRunTaskDefinition
  pub notifications : List JobRunNotificationDefinition

unfoldable pub merge_job_and_task_maps : StringMap → StringMap → StringMap
merge_job_and_task_maps job_map task_map = put_all job_map task_map

-- A `BTreeSet` as the keys of a map to nothing.
unfoldable pub union_job_and_task_limits : List String → List String → List String
union_job_and_task_limits job_limits task_limits =
    keys (put_all [] (map (λ limit. (limit, tt)) (job_limits ++ task_limits)))

unfoldable pub job_run_task_definition : Task → Job → JobRunTaskDefinition
unfolding merge_job_and_task_maps union_job_and_task_limits
job_run_task_definition task job =
    let env = merge_job_and_task_maps job.env task.env in
    let secret_env = merge_job_and_task_maps job.secret_env task.secret_env in
    record {
      task_id = task.task_id;
      command = task.command;
      stdin = task.stdin;
      depends_on = task.depends_on;
      limits = union_job_and_task_limits job.limits task.limits;
      timeout = task.timeout;
      idle_timeout = task.idle_timeout;
      max_retries = task.max_retries;
      retry_delay = task.retry_delay;
      env = remove_all env (keys task.secret_env);
      secret_env = remove_all secret_env (keys task.env);
      working_dir = task.working_dir;
    }

abbrev pub of_block : NotifyOn → Recipients → List JobRunNotificationDefinition
of_block notify_on block =
    map (λ entry. record { notify_on = notify_on; channel = entry.0; recipients = entry.1 }) block

unfoldable pub job_run_notification_definitions :
    Recipients → Recipients → List JobRunNotificationDefinition
job_run_notification_definitions on_failure_recipients on_success_recipients =
    of_block failure on_failure_recipients ++ of_block success on_success_recipients

-- An attempt that ended without succeeding, or whose job run is being stopped, refuses.
unfoldable pub check_parent : ℕ → TaskRunAttempt → Action (Option ℕ)
check_parent task_run_attempt_id attempt =
    if TaskRunAttempt.is_finished attempt.status && not (attempt.status == TaskRunAttempt.succeeded)
    then throw refused
    else do
      stop ← select_job_run_stop attempt.job_run_id
      if is_some stop then throw refused else pure (some task_run_attempt_id)

abbrev pub check_parent_row : ℕ → Option TaskRunAttempt → Action (Option ℕ)
check_parent_row task_run_attempt_id none = pure none
check_parent_row task_run_attempt_id (some attempt) = check_parent task_run_attempt_id attempt

unfoldable pub resolve_parent_task_run_attempt : Option ℕ → Action (Option ℕ)
unfolding check_parent
resolve_parent_task_run_attempt none = pure none
resolve_parent_task_run_attempt (some task_run_attempt_id) = do
  attempts ← select_task_run_attempts (record any_attempt { id = some task_run_attempt_id }) none
  check_parent_row task_run_attempt_id (head? attempts)

-- The input of one task run: planned, so that nothing dispatches it yet.
unfoldable pub task_run_input : ℕ → String → JobRunTaskDefinition → NewTaskRun
task_run_input job_run_id job_id task = record {
  job_run_id = job_run_id;
  job_id = job_id;
  task_id = task.task_id;
  command = task.command;
  stdin = task.stdin;
  depends_on = task.depends_on;
  limits = task.limits;
  timeout = task.timeout;
  idle_timeout = task.idle_timeout;
  max_retries = task.max_retries;
  retry_delay = task.retry_delay;
  env = task.env;
  secret_env = task.secret_env;
  working_dir = task.working_dir;
  status = TaskRun.planned;
}

-- The input of the job run: scheduled, for JobRunReleaser to release.
unfoldable pub job_run_input : JobRunDefinition → NewJobRun
job_run_input definition = record {
  job_id = definition.job_id;
  job_name = definition.job_name;
  job_description = definition.job_description;
  parameters = definition.parameters;
  scheduled_at = definition.scheduled_at;
  schedule_id = definition.schedule_id;
  status = JobRun.scheduled;
  parent_task_run_attempt_id = definition.parent_task_run_attempt_id;
}

unfoldable pub insert_tasks : ℕ → String → List JobRunTaskDefinition → Action Unit
unfolding task_run_input
insert_tasks job_run_id job_id [] = done
insert_tasks job_run_id job_id (task ∷ tasks) =
    insert_task_run (task_run_input job_run_id job_id task) >> insert_tasks job_run_id job_id tasks

unfoldable pub insert_notifications : ℕ → String → List JobRunNotificationDefinition → Action Unit
insert_notifications job_run_id job_id [] = done
insert_notifications job_run_id job_id (notification ∷ notifications) = do
  insert_job_run_notification (record {
    job_run_id = job_run_id;
    job_id = job_id;
    notify_on = notification.notify_on;
    channel = notification.channel;
    recipients = notification.recipients;
    status = pending;
    error = "";
  })
  insert_notifications job_run_id job_id notifications

unfoldable pub insert_job_run_definition : JobRunDefinition → Action ℕ
unfolding job_run_input insert_tasks insert_notifications
insert_job_run_definition definition = do
  job_run_id ← insert_job_run (job_run_input definition)
  insert_tasks job_run_id definition.job_id definition.tasks
  insert_notifications job_run_id definition.job_id definition.notifications
  pure job_run_id
