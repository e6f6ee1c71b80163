-- ===== src/Tests/Definitions.antt =====
-- Job files, submissions and environments: the theorems at small inputs.
use flowlite.Base.{
  All, false, true, String, ◌≡◌, ◌≢◌, ◌↔◌, refl, inl, inr, none, some, List, [], ◌∷◌, ◌==◌,
  string_Column, if◌then◌else◌,
}
use flowlite.JobYaml.{JobYaml, JobYamlTask, JobYamlNotify}
use flowlite.Seeding
use flowlite.Seeding.{validate_job_tasks, find_task_dependency_cycle, stuck, in_a_cycle}
use flowlite.Seeding.Walk.{find_task_dependency_cycle-ends}
use flowlite.Seeding.Plans.{IsPlan, validate_job_tasks-IsPlan}
use flowlite.Seeding.Progress.{CanMove, validate_job_tasks-CanMove}
use flowlite.Crud.TaskRun
use flowlite.Crud.TaskRun.{TaskRun}
use flowlite.Samples.{task_run, config}
use flowlite.Seeding.Config.{
  IsKnown, IsDeliverable, validate_job_limits, validate_job_notifications,
  validate_job_limits-IsKnown,
}

abbrev pub declared_task : String → List String → JobYamlTask
declared_task id depends_on = record {
  id = id;
  description = "";
  command = "true";
  depends_on = depends_on;
  stdin = "";
  limits = [];
  timeout = none;
  idle_timeout = none;
  max_retries = none;
  retry_delay = none;
  env = [];
  secret_env = [];
  working_dir = "";
}

abbrev pub nobody : JobYamlNotify
nobody = record { email = []; slack = [] }

abbrev pub declared_job : List JobYamlTask → JobYaml
declared_job tasks = record {
  id = "nightly";
  name = "Nightly";
  description = "";
  max_parallel_runs = none;
  keep_runs = none;
  parameters = [];
  env = [];
  secret_env = [];
  limits = [];
  on_failure = nobody;
  on_success = nobody;
  tasks = tasks;
}

abbrev pub nightly : JobYaml
nightly = declared_job (
    declared_task "extract" []
    ∷ declared_task "load" ("extract" ∷ [])
    ∷ declared_task "report" ("load" ∷ "extract" ∷ [])
    ∷ [])

abbrev circular : JobYaml
circular = declared_job (
    declared_task "extract" []
    ∷ declared_task "load" ("extract" ∷ "report" ∷ [])
    ∷ declared_task "report" ("load" ∷ [])
    ∷ [])

nightly-accepted : validate_job_tasks nightly ≡ none
unfolding validate_job_tasks Seeding.check_declared_once Seeding.check_each_depends_on
    Seeding.check_depends_on Seeding.check_cycle find_task_dependency_cycle Seeding.walk_each
    Seeding.walk_task_dependencies Seeding.from_position Seeding.depends_on_of Seeding.lookup_task
nightly-accepted = refl

circular_refused : validate_job_tasks circular ≡ some (in_a_cycle ("load" ∷ "report" ∷ "load" ∷ []))
unfolding validate_job_tasks Seeding.check_declared_once Seeding.check_each_depends_on
    Seeding.check_depends_on Seeding.check_cycle find_task_dependency_cycle Seeding.walk_each
    Seeding.walk_task_dependencies Seeding.from_position Seeding.depends_on_of Seeding.lookup_task
circular_refused = refl

find_task_dependency_cycle-ends_example : find_task_dependency_cycle circular.tasks ≢ stuck
find_task_dependency_cycle-ends_example = find_task_dependency_cycle-ends circular.tasks

validate_job_tasks-IsPlan_example : (validate_job_tasks nightly ≡ none) ↔ IsPlan nightly.tasks
validate_job_tasks-IsPlan_example = validate_job_tasks-IsPlan nightly

-- The extract has ended, and nothing else has.
abbrev first_done : String → TaskRun
first_done id = task_run 1 3 id [] (if id == "extract" then TaskRun.succeeded else TaskRun.waiting)

validate_job_tasks-CanMove_example : CanMove first_done nightly.tasks
unfolding TaskRun.is_finished
validate_job_tasks-CanMove_example =
    validate_job_tasks-CanMove first_done nightly (declared_task "report" ("load" ∷ "extract" ∷ []))
      nightly-accepted (inr (inr (inl refl))) refl

-- A job that names somebody by mail, where there is no [smtp].
abbrev telling : JobYaml
telling = record nightly {
  limits = "warehouse" ∷ [];
  on_failure = record { email = "oncall@example.com" ∷ []; slack = [] };
}

validate_job_limits-IsKnown_example :
    ((validate_job_limits config telling ≡ none) ↔ (
      All (IsKnown config) telling.limits
      × All (λ task_yaml. All (IsKnown config) (JobYamlTask.limits task_yaml)) telling.tasks))
    × ((validate_job_notifications false true telling ≡ none) ↔ (
        IsDeliverable false true telling.on_failure × IsDeliverable false true telling.on_success))
validate_job_limits-IsKnown_example = validate_job_limits-IsKnown config false true telling
