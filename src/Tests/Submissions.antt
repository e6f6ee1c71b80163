-- ===== src/Tests/Submissions.antt =====
-- Submissions and environments: the theorems at small inputs.
use flowlite.Base.{
  ℕ, suc, ◌++◌, String, ◌≡◌, ◌↔◌, ◌⊎◌, refl, inl, inr, Option, none, some, true, false, [], ◌∷◌,
  get, put, if◌then◌else◌, or_else, first_clash, to_ascii_uppercase, replace, starts_with,
  all_chars, to_string,
}
use flowlite.JobYaml.{StringMap}
use flowlite.JobYaml.Names
use flowlite.JobYaml.Names.{validate}
use flowlite.JobYaml.Files.{IsAccepted, validate-IsAccepted}
use flowlite.Crud.JobRun
use flowlite.Crud.JobRun.{JobRun}
use flowlite.Crud.TaskRun.{TaskRun}
use flowlite.Crud.TaskRunAttempt
use flowlite.Crud.TaskRunAttempt.{TaskRunAttempt}
use flowlite.Crud.World.{World, Job, Task, email, failure, ok, insert, query, operation}
use flowlite.Crud.Multistatements.SubmitJob
use flowlite.Crud.Multistatements.SubmitJob.{resolved, resolve_job_parameters, definition_of}
use flowlite.Crud.Multistatements.SubmitJob.Parameters.{
  IsSubmittable, resolve_job_parameters-IsSubmittable,
}
use flowlite.Crud.Multistatements.SubmitJob.Rerun.{ReadsBack, insert_job_run_definition-ReadsBack}
use flowlite.Crud.Multistatements.JobRunDefinition
use flowlite.Crud.Multistatements.JobRunDefinition.{
  JobRunDefinition, job_run_task_definition, job_run_input, insert_job_run_definition,
}
use flowlite.Crud.Multistatements.JobRunDefinition.Declarations.{
  declares, Disjoint, job_run_task_definition-declares,
}
use flowlite.Crud.Multistatements.JobRunDefinition.Rows.{scheduled_row, planned_rows}
use flowlite.Crud.Multistatements.JobRunDefinition.Notifications.{pending_rows}
use flowlite.Crud.Multistatements.JobRunDefinition.Submitted.{
  Submitted, insert_job_run_definition-Submitted,
}
use flowlite.Crud.Statements
use flowlite.Crud.Statements.{new_job_run_row}
use flowlite.Crud.Multistatements.JobRunDefinition.{resolve_parent_task_run_attempt, check_parent}
use flowlite.Crud.Multistatements.JobRunDefinition.Parents.{
  MaySubmit, resolve_parent_task_run_attempt-MaySubmit,
}
use flowlite.Orchestrator.TaskRunAttemptEnv
use flowlite.Orchestrator.TaskRunAttemptEnv.{
  parameter_env_name, task_input_env_name, command_variable,
}
use flowlite.Orchestrator.TaskRunAttemptEnv.Layers.{
  build, declared, build_task_run_attempt_env-declared, build_task_run_attempt_env-unforged,
}
use flowlite.Orchestrator.TaskRunAttemptEnv.Parameters.{build_task_run_attempt_env-parameters}
use flowlite.Orchestrator.TaskRunAttemptEnv.Inputs.{build_task_run_attempt_env-input}
use flowlite.Samples.{job_run, attempt, report, world}
use flowlite.Tests.Definitions.{nightly}

abbrev printed : ℕ → String
printed instant = "1970-01-01T00:00:00+00:00"

abbrev parameters : StringMap
parameters = ("day", "monday") ∷ ("region", "eu") ∷ []

abbrev run : JobRun
run = record (job_run 3 JobRun.running 4) { parameters = ("day", "friday") ∷ ("region", "eu") ∷ [] }

-- A task that declares a variable under the prefix, and a secret.
abbrev sly : TaskRun
sly = record report {
  env = ("FLOWLITE_JOB_ID", "other") ∷ ("MODE", "full") ∷ [];
  secret_env = ("PASSWORD", "warehouse") ∷ [];
}

abbrev secrets : StringMap
secrets = ("warehouse", "hunter2") ∷ []

abbrev results : StringMap
results = ("load", "runs/3/.output/load.1") ∷ []

abbrev env_of : TaskRun → Option StringMap
env_of =
    build printed run (attempt 1 report 1 TaskRunAttempt.running) "data" "runs/3" results none
      secrets

abbrev common : StringMap → StringMap
common own =
    ("FLOWLITE_ATTEMPT", "1")
    ∷ ("FLOWLITE_DATA_DIR", "data")
    ∷ ("FLOWLITE_INPUT_LOAD", "runs/3/.output/load.1")
    ∷ ("FLOWLITE_JOB_ID", "nightly")
    ∷ ("FLOWLITE_JOB_RUN_ID", "3")
    ∷ ("FLOWLITE_PARAM_DAY", "friday")
    ∷ ("FLOWLITE_PARAM_REGION", "eu")
    ∷ ("FLOWLITE_SCHEDULED_AT", "1970-01-01T00:00:00+00:00")
    ∷ ("FLOWLITE_TASK_ID", "report")
    ∷ ("FLOWLITE_TASK_OUTPUT", "runs/3/.output/report.1")
    ∷ ("FLOWLITE_TASK_RUN_ATTEMPT_ID", "1")
    ∷ ("FLOWLITE_TASK_RUN_ID", "3")
    ∷ own

abbrev sly_env : StringMap
sly_env = common (("MODE", "full") ∷ ("PASSWORD", "hunter2") ∷ [])

sly_built : env_of sly ≡ some sly_env
unfolding TaskRunAttemptEnv.build_task_run_attempt_env TaskRunAttemptEnv.own_layers
    TaskRunAttemptEnv.metadata TaskRunAttemptEnv.insert_secrets TaskRunAttemptEnv.previous_entries
    TaskRunAttemptEnv.task_output_path parameter_env_name task_input_env_name get put starts_with
    to_ascii_uppercase replace to_string
sly_built = refl

-- The same task without what it declares.
report_built : env_of report ≡ some (common [])
unfolding TaskRunAttemptEnv.build_task_run_attempt_env TaskRunAttemptEnv.own_layers
    TaskRunAttemptEnv.metadata TaskRunAttemptEnv.insert_secrets TaskRunAttemptEnv.previous_entries
    TaskRunAttemptEnv.task_output_path parameter_env_name task_input_env_name get put starts_with
    to_ascii_uppercase replace to_string
report_built = refl

job_id_is_owned : starts_with "FLOWLITE_JOB_ID" "FLOWLITE_" ≡ true
unfolding starts_with
job_id_is_owned = refl

-- What flowlite was started with.
abbrev server_env : StringMap
server_env =
    ("FLOWLITE_SMTP__PASSWORD", "hunter2") ∷ ("PASSWORD", "letmein") ∷ ("PATH", "/bin") ∷ []

build_task_run_attempt_env-declared_example : command_variable server_env sly_env "PASSWORD" ≡ (
    if starts_with "PASSWORD" "FLOWLITE_"
    then get sly_env "PASSWORD"
    else or_else (declared secrets sly "PASSWORD") (get server_env "PASSWORD"))
build_task_run_attempt_env-declared_example =
    build_task_run_attempt_env-declared printed run (attempt 1 report 1 TaskRunAttempt.running)
      "data" "runs/3" results none secrets server_env sly sly_env "PASSWORD" (tt, tt) sly_built

build_task_run_attempt_env-unforged_example :
    get sly_env "FLOWLITE_JOB_ID" ≡ get (common []) "FLOWLITE_JOB_ID"
build_task_run_attempt_env-unforged_example =
    build_task_run_attempt_env-unforged printed run (attempt 1 report 1 TaskRunAttempt.running)
      "data" "runs/3" results none secrets secrets sly report sly_env (common []) "FLOWLITE_JOB_ID"
      refl refl sly_built report_built job_id_is_owned

run_resolved : resolve_job_parameters parameters (("day", "friday") ∷ []) ≡ resolved run.parameters
unfolding resolve_job_parameters SubmitJob.apply_overrides SubmitJob.check_names
    SubmitJob.check_distinct SubmitJob.is_valid_parameter_name first_clash to_ascii_uppercase
    all_chars get put
run_resolved = refl

day_is_friday : get run.parameters "day" ≡ some "friday"
unfolding get
day_is_friday = refl

build_task_run_attempt_env-parameters_example :
    get sly_env (parameter_env_name "day") ≡ some "friday"
build_task_run_attempt_env-parameters_example =
    build_task_run_attempt_env-parameters printed run (attempt 1 report 1 TaskRunAttempt.running)
      "data" "runs/3" results none parameters (("day", "friday") ∷ []) secrets sly_env sly "day"
      "friday" run_resolved day_is_friday sly_built

resolve_job_parameters-IsSubmittable_example :
    (((chosen : StringMap) × (resolve_job_parameters parameters (("day", "friday") ∷ [])
          ≡ resolved chosen))
      ↔ IsSubmittable parameters (("day", "friday") ∷ []))
    × ((chosen : StringMap) (name : String)
        → resolve_job_parameters parameters (("day", "friday") ∷ []) ≡ resolved chosen
        → get chosen name ≡ or_else (get (("day", "friday") ∷ []) name) (get parameters name))
resolve_job_parameters-IsSubmittable_example =
    resolve_job_parameters-IsSubmittable parameters (("day", "friday") ∷ []) (tt, tt)

nightly_is_accepted : validate nightly ≡ none
unfolding validate Names.validate_task_ids Names.check_task_ids Names.is_valid_task_id
    Names.task_input_env_name Names.validate_secret_env Names.validate_secret_env_block
    Names.validate_env_names all_chars to_ascii_uppercase replace get put
nightly_is_accepted = refl

validate-IsAccepted_example : (validate nightly ≡ none) ↔ IsAccepted nightly
validate-IsAccepted_example = validate-IsAccepted nightly

load_has_result : get results "load" ≡ some "runs/3/.output/load.1"
unfolding get
load_has_result = refl

build_task_run_attempt_env-input_example :
    get sly_env (task_input_env_name "load") ≡ some "runs/3/.output/load.1"
build_task_run_attempt_env-input_example =
    build_task_run_attempt_env-input printed run (attempt 1 report 1 TaskRunAttempt.running) "data"
      "runs/3" results none secrets sly_env sly nightly "load" "runs/3/.output/load.1"
      nightly_is_accepted (tt, tt) (inr (inl refl), tt) load_has_result sly_built

-- A job whose password is plain, and a task that has it from a secret.
abbrev job : Job
job = record {
  job_id = "nightly";
  name = "Nightly";
  description = "";
  max_parallel_runs = 1;
  keep_runs = 0;
  parameters = parameters;
  env = ("PASSWORD", "none") ∷ [];
  secret_env = [];
  on_failure_recipients = (email, "oncall@example.com" ∷ []) ∷ [];
  on_success_recipients = [];
  limits = [];
}

abbrev task : Task
task = record {
  task_id = "report";
  job_id = "nightly";
  description = "";
  command = "true";
  stdin = "";
  depends_on = [];
  limits = [];
  timeout = 60;
  idle_timeout = 0;
  max_retries = 0;
  retry_delay = 0;
  env = [];
  secret_env = ("PASSWORD", "warehouse") ∷ [];
  working_dir = "";
}

task-Disjoint : Disjoint task.env task.secret_env
unfolding get
task-Disjoint name = inl refl

job-Disjoint : Disjoint job.env job.secret_env
unfolding get
job-Disjoint name = inr refl

job_run_task_definition-declares_example :
    (declares
        (job_run_task_definition task job).env
        (job_run_task_definition task job).secret_env
        "PASSWORD"
      ≡ or_else
          (declares task.env task.secret_env "PASSWORD")
          (declares job.env job.secret_env "PASSWORD"))
    × ((get (job_run_task_definition task job).env "PASSWORD" ≡ none)
        ⊎ (get (job_run_task_definition task job).secret_env "PASSWORD" ≡ none))
job_run_task_definition-declares_example =
    job_run_task_definition-declares task job "PASSWORD" tt (tt, tt) task-Disjoint job-Disjoint

abbrev definition : JobRunDefinition
definition = record {
  job_id = "nightly";
  job_name = "Nightly";
  job_description = "";
  parameters = parameters;
  scheduled_at = 20;
  schedule_id = some "daily";
  parent_task_run_attempt_id = none;
  tasks =
      record {
        task_id = "report";
        command = "true";
        stdin = "";
        depends_on = [];
        limits = [];
        timeout = 60;
        idle_timeout = 0;
        max_retries = 0;
        retry_delay = 0;
        env = [];
        secret_env = [];
        working_dir = "";
      }
      ∷ [];
  notifications =
      record { notify_on = failure; channel = email; recipients = "oncall@example.com" ∷ [] } ∷ [];
}

-- The second statement, the insert of the task run, fails.
abbrev failing : World
failing = record world { faults = false ∷ true ∷ [] }

insert_job_run_definition-Submitted_example :
    Submitted definition failing (insert_job_run_definition definition failing)
insert_job_run_definition-Submitted_example = insert_job_run_definition-Submitted definition failing

-- The job run 4 with its task run and its notification.
abbrev submitted : World
submitted = record world {
  db = record world.db {
    job_runs = world.db.job_runs ++ scheduled_row definition 4 world.now ∷ [];
    next_job_run_id = 5;
    task_runs =
        world.db.task_runs
        ++ planned_rows 4 "nightly" world.now world.db.next_task_run_id definition.tasks;
    next_task_run_id = suc world.db.next_task_run_id;
    job_run_notifications =
        world.db.job_run_notifications
        ++ pending_rows 4 "nightly" world.now world.db.next_notification_id
            definition.notifications;
    next_notification_id = suc world.db.next_notification_id;
  };
}

nightly_is_submitted : insert_job_run_definition definition world ≡ (ok 4, submitted)
unfolding insert_job_run_definition job_run_input JobRunDefinition.insert_tasks
    JobRunDefinition.insert_notifications JobRunDefinition.task_run_input Statements.insert_job_run
    Statements.insert_task_run Statements.insert_job_run_notification Statements.new_job_run_row
    Statements.new_task_run_row Statements.task_run_allowed insert operation
nightly_is_submitted = refl

insert_job_run_definition-ReadsBack_example : ReadsBack definition world.db 4 (some 1) submitted.db
insert_job_run_definition-ReadsBack_example =
    insert_job_run_definition-ReadsBack definition world (some 1) nightly_is_submitted

-- The failed attempt of a report may not submit runs, and a first attempt that runs may.
abbrev busy_parent : World
busy_parent = record world {
  db = record world.db { task_run_attempts = attempt 1 report 1 TaskRunAttempt.running ∷ [] };
}

parent_accepted : resolve_parent_task_run_attempt (some 1) busy_parent ≡ (ok (some 1), busy_parent)
unfolding resolve_parent_task_run_attempt check_parent Statements.select_task_run_attempts
    Statements.select_job_run_stop query operation TaskRunAttempt.select_task_run_attempts
    TaskRunAttempt.attempt_filter TaskRunAttempt.order_attempts TaskRunAttempt.is_finished
    TaskRunAttempt.TaskRunAttemptStatus-discrete
parent_accepted = refl

resolve_parent_task_run_attempt-MaySubmit_example :
    ◌≡◌ {A = ℕ} 1 1
    × (busy_parent.db ≡ busy_parent.db)
    × ((parent : TaskRunAttempt) × MaySubmit busy_parent.db 1 parent)
resolve_parent_task_run_attempt-MaySubmit_example =
    resolve_parent_task_run_attempt-MaySubmit 1 busy_parent parent_accepted
