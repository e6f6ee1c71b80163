-- ===== src/Orchestrator/JobRunMonitor.antt =====
-- src/orchestrator/job_run_monitor.rs
pub mod Verdict
use flowlite.Base.{
  ℕ, Bool, true, false, not, Option, none, some, List, any, all, ◌==◌, if◌then◌else◌,
}
use flowlite.Crud.JobRun
use flowlite.Crud.JobRun.{JobRun, JobRunStatus, any_job_run}
use flowlite.Crud.TaskRun
use flowlite.Crud.TaskRun.{TaskRun, TaskRunStatus_Column, any_task_run}
use flowlite.Crud.World.{Action, ◌>>=◌, ◌>>◌, pure, done, current_ts, publish}
use flowlite.Crud.Statements.{select_job_runs, update_job_runs, select_task_runs}
use flowlite.Poller.{pass}

unfoldable pub derive_next_status : List TaskRun → Option JobRunStatus
derive_next_status task_runs =
    if not (all (λ t. TaskRun.is_finished t.status) task_runs)
    then some JobRun.running
    else if any (λ t. t.status == TaskRun.invalid) task_runs
    then some JobRun.invalid
    else if all (λ t. t.status == TaskRun.succeeded) task_runs
    then some JobRun.succeeded
    else if any (λ t. t.status == TaskRun.failed) task_runs
    then some JobRun.failed
    else if any (λ t. t.status == TaskRun.timed_out) task_runs
    then some JobRun.timed_out
    else if any (λ t. TaskRun.is_stopped t.status) task_runs
    then some JobRun.aborted
    else none

unfoldable pub update_job_run_status : JobRun → JobRunStatus → Action Unit
update_job_run_status job_run status = do
  now ← current_ts
  update_job_runs (some job_run.id)
      (record { status = some status; started_at = none; finished_at = some (some now) })
  publish

unfoldable pub settle : JobRun → Option JobRunStatus → Action Unit
unfolding update_job_run_status
settle job_run (some JobRun.succeeded) = update_job_run_status job_run JobRun.succeeded
settle job_run (some JobRun.failed) = update_job_run_status job_run JobRun.failed
settle job_run (some JobRun.timed_out) = update_job_run_status job_run JobRun.timed_out
settle job_run (some JobRun.aborted) = update_job_run_status job_run JobRun.aborted
settle job_run (some JobRun.running) = done
settle job_run _ = update_job_run_status job_run JobRun.invalid

unfoldable pub get_task_runs : JobRun → Action (List TaskRun)
get_task_runs job_run = select_task_runs (record any_task_run { job_run_id = some job_run.id })

unfoldable pub handle : JobRun → Action Unit
unfolding derive_next_status settle get_task_runs
handle job_run = do task_runs ← get_task_runs job_run; settle job_run (derive_next_status task_runs)

unfoldable pub select : Action (List JobRun)
select = select_job_runs (record any_job_run { status = some JobRun.running }) none none none

unfoldable pub run_pass : Action Unit
unfolding select handle
run_pass = pass select handle
