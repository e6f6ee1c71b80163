-- ===== src/Samples.antt =====
-- Small tables, and what the services do on them.
use flowlite.Base.{ℕ, String, none, List, [], ◌∷◌}
use flowlite.Crud.JobRun
use flowlite.Crud.JobRun.{JobRun, JobRunStatus}
use flowlite.Crud.TaskRun
use flowlite.Crud.TaskRun.{TaskRun, TaskRunStatus}
use flowlite.Crud.TaskRunAttempt
use flowlite.Crud.TaskRunAttempt.{TaskRunAttempt, TaskRunAttemptStatus}
use flowlite.Orchestrator.TaskRunAttemptDispatcher.{AppConfig}
use flowlite.Crud.World.{World}

abbrev pub job_run : ℕ → JobRunStatus → ℕ → JobRun
job_run id status scheduled_at = record {
  id = id;
  job_id = "nightly";
  job_name = "Nightly";
  job_description = "";
  parameters = [];
  created_at = 1;
  scheduled_at = scheduled_at;
  schedule_id = none;
  parent_task_run_attempt_id = none;
  started_at = none;
  finished_at = none;
  status = status;
}

abbrev pub task_run : ℕ → ℕ → String → List String → TaskRunStatus → TaskRun
task_run id job_run_id task_id depends_on status = record {
  id = id;
  job_run_id = job_run_id;
  job_id = "nightly";
  task_id = task_id;
  command = "true";
  stdin = "";
  depends_on = depends_on;
  timeout = 60;
  idle_timeout = 0;
  max_retries = 2;
  retry_delay = 5;
  env = [];
  secret_env = [];
  working_dir = "";
  limits = [];
  created_at = 1;
  started_at = none;
  finished_at = none;
  status = status;
}

abbrev pub attempt : ℕ → TaskRun → ℕ → TaskRunAttemptStatus → TaskRunAttempt
attempt id t n status = record {
  id = id;
  task_run_id = t.id;
  job_run_id = t.job_run_id;
  job_id = t.job_id;
  task_id = t.task_id;
  created_at = 2;
  started_at = none;
  finished_at = none;
  attempt = n;
  status = status;
  process_group_id = none;
  output = "";
  waiting_since = none;
}

abbrev pub extract : TaskRun
extract = task_run 1 3 "extract" [] TaskRun.succeeded

abbrev pub load : TaskRun
load = task_run 2 3 "load" ("extract" ∷ []) TaskRun.waiting

abbrev pub report : TaskRun
report = task_run 3 3 "report" [] TaskRun.running

-- One run that is due, one that is queued and one that is running, with a failed first attempt.
abbrev pub world : World
world = record {
  db = record {
    job_runs =
        job_run 1 JobRun.scheduled 10 ∷ job_run 2 JobRun.queued 5 ∷ job_run 3 JobRun.running 4 ∷ [];
    task_runs = extract ∷ load ∷ report ∷ [];
    task_run_attempts = attempt 1 report 1 TaskRunAttempt.failed ∷ [];
    task_run_attempt_outputs = [];
    job_run_stops = [];
    job_run_notifications = [];
    jobs = [];
    tasks = [];
    next_job_run_id = 4;
    next_task_run_id = 4;
    next_attempt_id = 2;
    next_output_id = 1;
    next_stop_id = 1;
    next_notification_id = 1;
  };
  now = 20;
  faults = [];
  dirs = [];
  published = 0;
  children = [];
  spawned = [];
  next_pid = 100;
  signalled = [];
  asked = 0;
}

-- A task run that claims a limit has an attempt running, and another one has an attempt queued, whose
-- first attempt has failed.
abbrev pub holding : TaskRun
holding = record (task_run 4 3 "holding" [] TaskRun.running) { limits = "db" ∷ [] }

abbrev pub claiming : TaskRun
claiming = record (task_run 5 3 "claiming" [] TaskRun.running) { limits = "db" ∷ [] }

abbrev pub retry : TaskRunAttempt
retry = attempt 4 claiming 2 TaskRunAttempt.queued

abbrev pub busy : World
busy = record world {
  db = record world.db {
    task_runs = holding ∷ claiming ∷ [];
    task_run_attempts =
        attempt 2 holding 1 TaskRunAttempt.running
        ∷ attempt 3 claiming 1 TaskRunAttempt.failed
        ∷ retry
        ∷ [];
  };
  now = 10_000;
}

abbrev pub config : AppConfig
config = record {
  max_running_attempts = 3;
  concurrency_limits = ("db", 2) ∷ [];
  secrets = [];
  kill_grace = 10_000;
  max_task_output_bytes = 1024;
}
