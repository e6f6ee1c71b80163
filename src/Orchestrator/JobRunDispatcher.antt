-- ===== src/Orchestrator/JobRunDispatcher.antt =====
-- src/orchestrator/job_run_dispatcher.rs
use flowlite.Base.{Bool, true, false, none, some, List}
use flowlite.Crud.JobRun.{JobRun, JobRunStatus, queued, running, skipped, any_job_run, by_id}
use flowlite.Crud.TaskRun.{planned, waiting}
use flowlite.Crud.World.{Action, ◌>>=◌, ◌>>◌, pure, done, current_ts, publish, create_job_run_dir}
use flowlite.Crud.Statements.{
  select_job_runs, update_job_runs, update_task_runs, is_job_run_stopped,
}
use flowlite.Crud.Multistatements.{skip_job_run, invalidate_job_run, is_job_at_max_parallel_runs}
use flowlite.Poller.{pass}

abbrev pub verdict : Bool → JobRunStatus
verdict true = queued
verdict false = running

abbrev pub unless_stopped : JobRun → Bool → Action JobRunStatus
unless_stopped job_run true = pure skipped
unless_stopped job_run false =
    is_job_at_max_parallel_runs job_run.job_id >>= λ full. pure (verdict full)

unfoldable pub derive_next_status : JobRun → Action JobRunStatus
derive_next_status job_run = is_job_run_stopped job_run.id >>= unless_stopped job_run

unfoldable pub set_to_skipped : JobRun → Action Unit
set_to_skipped job_run = skip_job_run job_run.id >> publish

unfoldable pub set_to_invalid : JobRun → Action Unit
set_to_invalid job_run = invalidate_job_run job_run.id >> publish

unfoldable pub write_running : JobRun → Action Unit
write_running job_run = do
  now ← current_ts
  update_job_runs (some job_run.id)
      (record { status = some running; started_at = some (some now); finished_at = none })
  publish

-- The directory first, then the task runs, then the job run.
unfoldable pub set_to_running : JobRun → Action Unit
unfolding write_running
set_to_running job_run = do
  create_job_run_dir job_run.id
  update_task_runs (record { id = none; job_run_id = some job_run.id; status = some planned })
      (record { status = some waiting; started_at = none; finished_at = none })
  write_running job_run

unfoldable pub settle : JobRun → JobRunStatus → Action Unit
unfolding set_to_skipped set_to_running set_to_invalid
settle job_run skipped = set_to_skipped job_run
settle job_run queued = done
settle job_run running = set_to_running job_run
settle job_run _ = set_to_invalid job_run

unfoldable pub handle : JobRun → Action Unit
unfolding derive_next_status settle
handle job_run = derive_next_status job_run >>= settle job_run

unfoldable pub select : Action (List JobRun)
select = select_job_runs (record any_job_run { status = some queued }) (some by_id) none none

unfoldable pub run_pass : Action Unit
unfolding select handle
run_pass = pass select handle
