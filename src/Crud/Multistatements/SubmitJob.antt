-- ===== src/Crud/Multistatements/SubmitJob.antt =====
-- src/crud/multistatements/submit_job.rs and rerun_job.rs: a run of a job's current definition, or of the one
-- that an earlier run executed.
pub mod Parameters
pub mod Rerun
use Prim.Native.String as Str
use flowlite.Base.{
  ℕ, String, map, Bool, true, false, not, ◌&&◌, ◌||◌, Option, none, some, List, [], ◌∷◌,
  is_ascii_alphabetic, is_ascii_alphanumeric, is_char, all_chars, to_ascii_uppercase, get, put,
  keys, first_clash, if◌then◌else◌,
}
use flowlite.JobYaml.{StringMap}
use flowlite.Crud.JobRun
use flowlite.Crud.JobRun.{JobRun, any_job_run}
use flowlite.Crud.TaskRun
use flowlite.Crud.TaskRun.{TaskRun, any_task_run}
use flowlite.Crud.World.{Job, Task, JobRunNotification, Action, ◌>>=◌, pure, throw, refused, query}
use flowlite.Crud.Statements.{
  select_job, select_tasks, select_job_run, select_task_runs, select_run_notifications,
}
use flowlite.Crud.Multistatements.JobRunDefinition.{
  JobRunDefinition, JobRunTaskDefinition, JobRunNotificationDefinition, job_run_task_definition,
  job_run_notification_definitions, resolve_parent_task_run_attempt, insert_job_run_definition,
}

-- The parameters, or the first refusal.
pub data Resolved : Type 0 where
  resolved : StringMap → Resolved
  undeclared : String → Resolved
  invalid_name : String → Resolved
  same_variable : String → String → Resolved

unfoldable pub is_valid_parameter_name : String → Bool
is_valid_parameter_name Str.[] = false
is_valid_parameter_name (Str.◌∷◌ first chars) =
    (is_ascii_alphabetic first || is_char 95 first)
    && all_chars (λ c. is_ascii_alphanumeric c || is_char 95 c) chars

-- The loops over `parameters.keys()`: the names, then what they become in upper case.
unfoldable pub check_distinct : StringMap → Resolved
check_distinct parameters = elim (first_clash to_ascii_uppercase [] (keys parameters)) [
  | none ↦ resolved parameters
  | some (other_name, name) ↦ same_variable other_name name
]

unfoldable pub check_names : StringMap → List String → Resolved
unfolding check_distinct
check_names parameters [] = check_distinct parameters
check_names parameters (name ∷ names) =
    let rest = check_names parameters names in
    if is_valid_parameter_name name then rest else invalid_name name

-- The loop over the overrides.
unfoldable pub apply_overrides : StringMap → StringMap → StringMap → Resolved
unfolding check_names
apply_overrides declared parameters [] = check_names parameters (keys parameters)
apply_overrides declared parameters ((name, value) ∷ overrides) = elim (get declared name) [
  | none ↦ undeclared name
  | some _ ↦ apply_overrides declared (put parameters name value) overrides
]

unfoldable pub resolve_job_parameters : StringMap → StringMap → Resolved
unfolding apply_overrides
resolve_job_parameters declared overrides = apply_overrides declared declared overrides

-- `?` on the resolved parameters, and on a row that has to be there.
abbrev pub parameters_of : Resolved → Action StringMap
parameters_of (resolved parameters) = pure parameters
parameters_of _ = throw refused

abbrev pub found : {A : Type 0} → Option A → Action A
found none = throw refused
found (some row) = pure row

unfoldable pub submit_job :
    String
    → StringMap
    → (scheduled_at : ℕ) → (schedule_id : Option String) → (parent_task_run_attempt_id : Option ℕ)
    → Action ℕ
unfolding resolve_job_parameters
submit_job job_id overrides scheduled_at schedule_id parent_task_run_attempt_id = do
  parent ← resolve_parent_task_run_attempt parent_task_run_attempt_id
  row ← select_job job_id
  job ← found row
  parameters ← parameters_of (resolve_job_parameters job.parameters overrides)
  tasks ← select_tasks job_id
  insert_job_run_definition (record {
    job_id = job.job_id;
    job_name = job.name;
    job_description = job.description;
    parameters = parameters;
    scheduled_at = scheduled_at;
    schedule_id = schedule_id;
    parent_task_run_attempt_id = parent;
    tasks = map (λ task. job_run_task_definition task job) tasks;
    notifications =
        job_run_notification_definitions job.on_failure_recipients job.on_success_recipients;
  })

unfoldable pub task_definition_of : TaskRun → JobRunTaskDefinition
task_definition_of task_run = record {
  task_id = task_run.task_id;
  command = task_run.command;
  stdin = task_run.stdin;
  depends_on = task_run.depends_on;
  limits = task_run.limits;
  timeout = task_run.timeout;
  idle_timeout = task_run.idle_timeout;
  max_retries = task_run.max_retries;
  retry_delay = task_run.retry_delay;
  env = task_run.env;
  secret_env = task_run.secret_env;
  working_dir = task_run.working_dir;
}

unfoldable pub notification_definition_of : JobRunNotification → JobRunNotificationDefinition
notification_definition_of notification = record {
  notify_on = notification.notify_on;
  channel = notification.channel;
  recipients = notification.recipients;
}

-- The definition that a run executed, for whoever asks for it now.
unfoldable pub definition_of :
    JobRun → List TaskRun → List JobRunNotification → (parent : Option ℕ) → JobRunDefinition
unfolding task_definition_of notification_definition_of
definition_of job_run task_runs notifications parent = record {
  job_id = job_run.job_id;
  job_name = job_run.job_name;
  job_description = job_run.job_description;
  parameters = job_run.parameters;
  scheduled_at = job_run.scheduled_at;
  schedule_id = none;
  parent_task_run_attempt_id = parent;
  tasks = map task_definition_of task_runs;
  notifications = map notification_definition_of notifications;
}

unfoldable pub rerun_job : ℕ → (parent_task_run_attempt_id : Option ℕ) → Action ℕ
unfolding definition_of
rerun_job job_run_id parent_task_run_attempt_id = do
  parent ← resolve_parent_task_run_attempt parent_task_run_attempt_id
  row ← select_job_run (record any_job_run { id = some job_run_id })
  job_run ← found row
  task_runs ← select_task_runs (record any_task_run { job_run_id = some job_run_id })
  notifications ← select_run_notifications job_run_id
  insert_job_run_definition (definition_of job_run task_runs notifications parent)
