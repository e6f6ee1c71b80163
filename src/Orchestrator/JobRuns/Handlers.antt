-- ===== src/Orchestrator/JobRuns/Handlers.antt =====
-- Each service's handler moves its own job run forward, whichever statement fails.
use flowlite.Base.{
  ◌≡◌, refl, inl, inr, Bool, true, false, Option, none, some, List, arith, Bool-cases, ◌==◌,
  nat_Column, String,
}
use flowlite.Crud.JobRun
use flowlite.Crud.JobRun.{JobRun, JobRunStatus, JobRunInput, given}
use flowlite.Crud.JobRun.Lifecycle.{Forward, IsCurrent}
use flowlite.Crud.World.{Job, ◌>>◌, done, publish, create_job_run_dir}
use flowlite.Crud.World.Triples.{Reads, query-Reads, create_job_run_dir-Reads, bind-Reads}
use flowlite.Crud.Statements.{
  is_job_run_stopped, update_job_runs, select_job, select_job_runs, select_task_runs,
}
use flowlite.Crud.Multistatements.{
  skip_job_run, invalidate_job_run, is_job_at_max_parallel_runs, at_max_parallel_runs,
}
use flowlite.Orchestrator.JobRunReleaser
use flowlite.Orchestrator.JobRunDispatcher
use flowlite.Orchestrator.JobRunMonitor
use flowlite.Orchestrator.JobRuns.{
  AdvancesJobRuns, is_job_run_stopped-Reads, Reads-AdvancesJobRuns, reading, publishing,
  task_runs_first, update-AdvancesJobRuns, settle_unstarted-AdvancesJobRuns,
}

at_max_parallel_runs-Reads :
    (job_id : String) (job : Option Job) → Reads (at_max_parallel_runs job_id job)
unfolding select_job_runs
at_max_parallel_runs-Reads job_id none = λ w. refl
at_max_parallel_runs-Reads job_id (some job) = elim (Bool-cases (job.max_parallel_runs == 0)) [
  | inl unlimited ↦ rw unlimited (λ w. refl)
  | inr limited ↦ rw limited (bind-Reads _ _ (query-Reads _) (λ running w. refl))
]

is_job_at_max_parallel_runs-Reads : (job_id : String) → Reads (is_job_at_max_parallel_runs job_id)
unfolding is_job_at_max_parallel_runs select_job
is_job_at_max_parallel_runs-Reads job_id =
    bind-Reads (select_job job_id) (at_max_parallel_runs job_id) (query-Reads _)
      (at_max_parallel_runs-Reads job_id)

module _ (rows : List JobRun) (job_run : JobRun) (current : IsCurrent job_run rows) where
  skip-AdvancesJobRuns :
      Forward job_run.status JobRun.skipped
      → AdvancesJobRuns job_run.id rows (skip_job_run job_run.id >> publish)
  unfolding skip_job_run
  skip-AdvancesJobRuns fwd =
      publishing job_run.id rows (skip_job_run job_run.id)
        (settle_unstarted-AdvancesJobRuns rows job_run current _ _ fwd)

  invalidate-AdvancesJobRuns :
      Forward job_run.status JobRun.invalid
      → AdvancesJobRuns job_run.id rows (invalidate_job_run job_run.id >> publish)
  unfolding invalidate_job_run
  invalidate-AdvancesJobRuns fwd =
      publishing job_run.id rows (invalidate_job_run job_run.id)
        (settle_unstarted-AdvancesJobRuns rows job_run current _ _ fwd)

  write-AdvancesJobRuns :
      (i : JobRunInput)
      → Forward job_run.status (given i.status job_run.status)
      → AdvancesJobRuns job_run.id rows (update_job_runs (some job_run.id) i >> publish)
  write-AdvancesJobRuns i fwd =
      publishing job_run.id rows (update_job_runs (some job_run.id) i)
        (update-AdvancesJobRuns rows job_run current i fwd)

  releaser_settle-AdvancesJobRuns :
      job_run.status ≡ JobRun.scheduled
      → (s : JobRunStatus) → AdvancesJobRuns job_run.id rows (JobRunReleaser.settle job_run s)
  unfolding JobRunReleaser.settle
  releaser_settle-AdvancesJobRuns e JobRun.skipped = skip-AdvancesJobRuns (ground arith)
  releaser_settle-AdvancesJobRuns e JobRun.queued =
      write-AdvancesJobRuns
        (record { status = some JobRun.queued; started_at = none; finished_at = none })
        (ground arith)
  releaser_settle-AdvancesJobRuns e JobRun.scheduled =
      Reads-AdvancesJobRuns job_run.id rows done (λ w. refl)
  releaser_settle-AdvancesJobRuns e _ = invalidate-AdvancesJobRuns (ground arith)

  -- JobRunReleaser, for a run that is still scheduled.
  pub releaser-AdvancesJobRuns :
      job_run.status ≡ JobRun.scheduled
      → AdvancesJobRuns job_run.id rows (JobRunReleaser.handle job_run)
  unfolding JobRunReleaser.handle
  releaser-AdvancesJobRuns e =
      reading job_run.id rows (JobRunReleaser.derive_next_status job_run) _
        (bind-Reads _ _ (is_job_run_stopped-Reads job_run.id) (λ s w. refl))
        (releaser_settle-AdvancesJobRuns e)

  unless_stopped-Reads : (stopped : Bool) → Reads (JobRunDispatcher.unless_stopped job_run stopped)
  unless_stopped-Reads true = λ w. refl
  unless_stopped-Reads false =
      bind-Reads _ _ (is_job_at_max_parallel_runs-Reads job_run.job_id) (λ full w. refl)

  write_running-AdvancesJobRuns :
      Forward job_run.status JobRun.running
      → AdvancesJobRuns job_run.id rows (JobRunDispatcher.write_running job_run)
  unfolding JobRunDispatcher.write_running
  write_running-AdvancesJobRuns fwd w =
      write-AdvancesJobRuns
        (record {
          status = some JobRun.running;
          started_at = some (some w.now);
          finished_at = none;
        })
        fwd w

  start-AdvancesJobRuns :
      Forward job_run.status JobRun.running
      → AdvancesJobRuns job_run.id rows (JobRunDispatcher.set_to_running job_run)
  unfolding JobRunDispatcher.set_to_running
  start-AdvancesJobRuns fwd =
      reading job_run.id rows (create_job_run_dir job_run.id) _
        (create_job_run_dir-Reads job_run.id)
        (λ _.
          task_runs_first job_run.id rows _ _ (λ _. JobRunDispatcher.write_running job_run)
            (λ _. write_running-AdvancesJobRuns fwd))

  dispatcher_settle-AdvancesJobRuns :
      job_run.status ≡ JobRun.queued
      → (s : JobRunStatus) → AdvancesJobRuns job_run.id rows (JobRunDispatcher.settle job_run s)
  unfolding JobRunDispatcher.settle
  dispatcher_settle-AdvancesJobRuns e JobRun.skipped = skip-AdvancesJobRuns (ground arith)
  dispatcher_settle-AdvancesJobRuns e JobRun.queued =
      Reads-AdvancesJobRuns job_run.id rows done (λ w. refl)
  dispatcher_settle-AdvancesJobRuns e JobRun.running = start-AdvancesJobRuns (ground arith)
  dispatcher_settle-AdvancesJobRuns e _ = invalidate-AdvancesJobRuns (ground arith)

  -- JobRunDispatcher, for a run that is still queued.
  pub dispatcher-AdvancesJobRuns :
      job_run.status ≡ JobRun.queued
      → AdvancesJobRuns job_run.id rows (JobRunDispatcher.handle job_run)
  unfolding JobRunDispatcher.handle
  dispatcher-AdvancesJobRuns e =
      reading job_run.id rows (JobRunDispatcher.derive_next_status job_run) _
        (bind-Reads (is_job_run_stopped job_run.id) (JobRunDispatcher.unless_stopped job_run)
          (is_job_run_stopped-Reads job_run.id) unless_stopped-Reads)
        (dispatcher_settle-AdvancesJobRuns e)

  finish-AdvancesJobRuns :
      (s : JobRunStatus)
      → Forward job_run.status s
      → AdvancesJobRuns job_run.id rows (JobRunMonitor.update_job_run_status job_run s)
  unfolding JobRunMonitor.update_job_run_status
  finish-AdvancesJobRuns s fwd w =
      write-AdvancesJobRuns
        (record { status = some s; started_at = none; finished_at = some (some w.now) }) fwd w

  monitor_settle-AdvancesJobRuns :
      job_run.status ≡ JobRun.running
      → (s : Option JobRunStatus) → AdvancesJobRuns job_run.id rows (JobRunMonitor.settle job_run s)
  unfolding JobRunMonitor.settle
  monitor_settle-AdvancesJobRuns e (some JobRun.succeeded) = finish-AdvancesJobRuns _ (ground arith)
  monitor_settle-AdvancesJobRuns e (some JobRun.failed) = finish-AdvancesJobRuns _ (ground arith)
  monitor_settle-AdvancesJobRuns e (some JobRun.timed_out) = finish-AdvancesJobRuns _ (ground arith)
  monitor_settle-AdvancesJobRuns e (some JobRun.aborted) = finish-AdvancesJobRuns _ (ground arith)
  monitor_settle-AdvancesJobRuns e (some JobRun.running) =
      Reads-AdvancesJobRuns job_run.id rows done (λ w. refl)
  monitor_settle-AdvancesJobRuns e _ = finish-AdvancesJobRuns _ (ground arith)

  -- JobRunMonitor, for a run that is still running.
  pub monitor-AdvancesJobRuns :
      job_run.status ≡ JobRun.running
      → AdvancesJobRuns job_run.id rows (JobRunMonitor.handle job_run)
  unfolding JobRunMonitor.handle select_task_runs
  monitor-AdvancesJobRuns e =
      reading job_run.id rows (JobRunMonitor.get_task_runs job_run) _ (query-Reads _)
        (λ task_runs. monitor_settle-AdvancesJobRuns e (JobRunMonitor.derive_next_status task_runs))
