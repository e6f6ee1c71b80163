-- ===== src/Crud/TaskRun.antt =====
-- src/crud/task_run.rs: the `task_run` table.
pub mod Lifecycle
use flowlite.Base.{
  Column, discrete_Column, ℕ, String, Bool, true, false, ◌&&◌, Option, none, List, map, filter,
  head?, nat_Column, string_Column, matches, if◌then◌else◌,
}
use flowlite.Crud.JobRun.{given}

pub data TaskRunStatus : Type 0 where
  planned waiting running succeeded failed skipped aborted timed_out invalid : TaskRunStatus

unfoldable pub TaskRunStatus-discrete : Discrete TaskRunStatus
TaskRunStatus-discrete = hlevel

instance abbrev pub TaskRunStatus_Column : Column TaskRunStatus
unfolding TaskRunStatus-discrete
TaskRunStatus_Column = discrete_Column TaskRunStatus-discrete

unfoldable pub is_finished : TaskRunStatus → Bool
is_finished planned = false
is_finished waiting = false
is_finished running = false
is_finished succeeded = true
is_finished failed = true
is_finished skipped = true
is_finished aborted = true
is_finished timed_out = true
is_finished invalid = true

unfoldable pub is_stopped : TaskRunStatus → Bool
is_stopped aborted = true
is_stopped skipped = true
is_stopped planned = false
is_stopped waiting = false
is_stopped running = false
is_stopped succeeded = false
is_stopped failed = false
is_stopped timed_out = false
is_stopped invalid = false

pub record TaskRun : Type 0 where
  pub id : ℕ
  pub job_run_id : ℕ
  pub job_id : String
  pub task_id : String
  pub command : String
  pub stdin : String
  pub depends_on : List String
  pub timeout : ℕ
  pub idle_timeout : ℕ
  pub max_retries : ℕ
  pub retry_delay : ℕ
  pub env : List (String × String)
  pub secret_env : List (String × String)
  pub working_dir : String
  pub limits : List String
  pub created_at : ℕ
  pub started_at : Option ℕ
  pub finished_at : Option ℕ
  pub status : TaskRunStatus

-- `SelectTaskRunsDataFilter`
pub record TaskRunFilter : Type 0 where
  pub id : Option ℕ
  pub job_run_id : Option ℕ
  pub job_id : Option String
  pub task_id : Option String
  pub status : Option TaskRunStatus

abbrev pub any_task_run : TaskRunFilter
any_task_run = record { id = none; job_run_id = none; job_id = none; task_id = none; status = none }

unfoldable pub task_run_filter : TaskRunFilter → TaskRun → Bool
task_run_filter f r =
    matches f.id r.id
    && matches f.job_run_id r.job_run_id
    && matches f.job_id r.job_id
    && matches f.task_id r.task_id
    && matches f.status r.status

-- The one sort that callers name is by id, which is the order of the rows.
unfoldable pub select_task_runs : TaskRunFilter → List TaskRun → List TaskRun
unfolding task_run_filter
select_task_runs f rows = filter (task_run_filter f) rows

unfoldable pub select_task_run : TaskRunFilter → List TaskRun → Option TaskRun
unfolding select_task_runs
select_task_run f rows = head? (select_task_runs f rows)

-- `UpdateTaskRunsDataInput` and `UpdateTaskRunsDataFilter`
pub record TaskRunInput : Type 0 where
  pub status : Option TaskRunStatus
  pub started_at : Option (Option ℕ)
  pub finished_at : Option (Option ℕ)

pub record TaskRunKey : Type 0 where
  pub id : Option ℕ
  pub job_run_id : Option ℕ
  pub status : Option TaskRunStatus

abbrev pub set_task_run : TaskRunInput → TaskRun → TaskRun
set_task_run i r = record r {
  started_at = given i.started_at r.started_at;
  finished_at = given i.finished_at r.finished_at;
  status = given i.status r.status;
}

abbrev pub task_run_key : TaskRunKey → TaskRun → Bool
task_run_key k r =
    matches k.id r.id && matches k.job_run_id r.job_run_id && matches k.status r.status

unfoldable pub update_task_runs : TaskRunKey → TaskRunInput → List TaskRun → List TaskRun
update_task_runs k i rows = map (λ r. if task_run_key k r then set_task_run i r else r) rows
