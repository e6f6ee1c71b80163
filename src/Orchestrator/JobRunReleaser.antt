-- ===== src/Orchestrator/JobRunReleaser.antt =====
-- src/orchestrator/job_run_releaser.rs
pub mod Outcome
use flowlite.Base.{ℕ, Bool, true, false, leb, Option, none, some, List}
use flowlite.Crud.JobRun.{JobRun, JobRunStatus, scheduled, queued, skipped, any_job_run, by_id}
use flowlite.Crud.World.{Action, ◌>>=◌, ◌>>◌, pure, done, current_ts, publish}
use flowlite.Crud.Statements.{select_job_runs, update_job_runs, is_job_run_stopped}
use flowlite.Crud.Multistatements.{skip_job_run, invalidate_job_run}
use flowlite.Poller.{pass}

-- The verdict from `(is_stopped, is_due)`.
unfoldable pub verdict : Bool → Bool → JobRunStatus
verdict true _ = skipped
verdict false true = queued
verdict false false = scheduled

unfoldable pub derive_next_status : JobRun → Action JobRunStatus
unfolding verdict
derive_next_status job_run = do
  is_stopped ← is_job_run_stopped job_run.id
  now ← current_ts
  pure (verdict is_stopped (leb job_run.scheduled_at now))

unfoldable pub set_to_skipped : JobRun → Action Unit
set_to_skipped job_run = skip_job_run job_run.id >> publish

unfoldable pub set_to_queued : JobRun → Action Unit
set_to_queued job_run = do
  update_job_runs (some job_run.id)
      (record { status = some queued; started_at = none; finished_at = none })
  publish

unfoldable pub set_to_invalid : JobRun → Action Unit
set_to_invalid job_run = invalidate_job_run job_run.id >> publish

unfoldable pub settle : JobRun → JobRunStatus → Action Unit
unfolding set_to_skipped set_to_queued set_to_invalid
settle job_run skipped = set_to_skipped job_run
settle job_run queued = set_to_queued job_run
settle job_run scheduled = done
settle job_run _ = set_to_invalid job_run

unfoldable pub handle : JobRun → Action Unit
unfolding derive_next_status settle
handle job_run = derive_next_status job_run >>= settle job_run

unfoldable pub select : Action (List JobRun)
select = select_job_runs (record any_job_run { status = some scheduled }) (some by_id) none none

unfoldable pub run_pass : Action Unit
unfolding select handle
run_pass = pass select handle
