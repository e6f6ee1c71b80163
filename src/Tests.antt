-- ===== src/Tests.antt =====
-- The theorems at small inputs, and runs of the services.
mod Streams
mod Attempts
mod Cleanup
mod Definitions
mod Submissions
use flowlite.Base.{
  leb, List, any, ◌==◌, nat_Column, if◌then◌else◌, false, none, some, [], ◌∷◌, ◌≡◌, inr, refl, All,
  arith,
}
use flowlite.Crud.JobRun
use flowlite.Crud.JobRun.{JobRun, JobRunStatus}
use flowlite.Crud.JobRun.Lifecycle.{JobRunsEvolve}
use flowlite.Crud.TaskRun
use flowlite.Crud.TaskRun.{TaskRun, TaskRunStatus, TaskRunStatus-discrete}
use flowlite.Crud.Statements
use flowlite.Crud.Statements.{is_job_run_stopped, required, is_some}
use flowlite.Crud.TaskRun.Lifecycle.{TaskRunsEvolve}
use flowlite.Crud.World.{ok, operation, query, execute, insert_child, spawn, publish}
use flowlite.Crud.Multistatements.{delete_job_run}
use flowlite.Crud.Multistatements.Deletion.{AllOrNothing, delete_job_run-AllOrNothing}
use flowlite.Orchestrator.JobRunReleaser
use flowlite.Orchestrator.JobRunReleaser.Outcome.{Outcome, calm, handle-Outcome}
use flowlite.Orchestrator.JobRunDispatcher
use flowlite.Orchestrator.JobRunMonitor
use flowlite.Orchestrator.JobRunMonitor.Verdict.{
  status_of_gravity, gravest, derive_next_status-eq-gravest,
}
use flowlite.Orchestrator.TaskRunDispatcher
use flowlite.Orchestrator.TaskRunDispatcher.Bearings.{status_of_bearing, worst_bearing}
use flowlite.Orchestrator.TaskRunDispatcher.Verdict.{
  IsSatisfied, AreDependencies, stop_of, starts_after_dependencies, derive_next_status-eq-worst,
}
use flowlite.Orchestrator.TaskRunMonitor
use flowlite.Orchestrator.TaskRunMonitor.Attempts.{IsWithinRetries, handle-IsWithinRetries}
use flowlite.Orchestrator.JobRuns.Passes.{
  HasUniqueIds, releaser_pass-JobRunsEvolve, dispatcher_pass-JobRunsEvolve,
  monitor_pass-JobRunsEvolve,
}
use flowlite.Orchestrator.TaskRuns.Handlers.{
  dispatcher_handle-TaskRunsEvolve, monitor_handle-TaskRunsEvolve,
}
use flowlite.Orchestrator.TaskRunAttemptDispatcher
use flowlite.Orchestrator.TaskRunAttemptDispatcher.Gates.{MayStart, starts_within_limits}
use flowlite.Orchestrator.TaskRunAttemptDispatcher.Passes.{run_pass-IsSpawnedOnce}
use flowlite.Orchestrator.TaskRunAttemptDispatcher.Passes
use flowlite.Orchestrator.TaskRunAttemptDispatcher.Begun.{IsSpawnedOnce}
use flowlite.Crud.World.Frames.{seen}
use flowlite.Crud.Multistatements
use flowlite.Crud.TaskRunAttempt
use flowlite.Crud.TaskRunAttempt.{TaskRunAttemptStatus-discrete}
use flowlite.Samples.{busy, retry, config, world, extract, load, report, job_run}

load_starts : TaskRunDispatcher.derive_next_status load world ≡ (ok (some TaskRun.running), world)
unfolding TaskRunDispatcher.derive_next_status TaskRunDispatcher.should_skip
    TaskRunDispatcher.verdict TaskRunDispatcher.load_dependencies
    TaskRunDispatcher.get_dependent_task_runs TaskRunDispatcher.is_still_waiting
    TaskRunDispatcher.all_dependencies_succeeded is_job_run_stopped Statements.select_task_run
    required operation query TaskRun.select_task_run TaskRun.task_run_filter TaskRun.is_finished
    TaskRunStatus-discrete
load_starts = refl

starts_after_dependencies_example :
    All (IsSatisfied world.db load) load.depends_on × (stop_of world.db load.job_run_id ≡ none)
starts_after_dependencies_example = starts_after_dependencies load world world load_starts

derive_next_status-eq-gravest_example :
    JobRunMonitor.derive_next_status world.db.task_runs
    ≡ some (status_of_gravity (gravest world.db.task_runs))
derive_next_status-eq-gravest_example = derive_next_status-eq-gravest world.db.task_runs

report_within : IsWithinRetries report world.db
report_within = (inr (omega arith), tt)

handle-IsWithinRetries_example : IsWithinRetries report (TaskRunMonitor.handle report world).1.db
handle-IsWithinRetries_example = handle-IsWithinRetries report world report_within

unique : HasUniqueIds world.db.job_runs
unique = ((omega arith, (omega arith, tt)), ((omega arith, tt), (tt, tt)))

releaser_pass-JobRunsEvolve_example :
    JobRunsEvolve world.db.job_runs (JobRunReleaser.run_pass world).1.db.job_runs
releaser_pass-JobRunsEvolve_example = releaser_pass-JobRunsEvolve world unique

dispatcher_pass-JobRunsEvolve_example :
    JobRunsEvolve world.db.job_runs (JobRunDispatcher.run_pass world).1.db.job_runs
dispatcher_pass-JobRunsEvolve_example = dispatcher_pass-JobRunsEvolve world unique

monitor_pass-JobRunsEvolve_example :
    JobRunsEvolve world.db.job_runs (JobRunMonitor.run_pass world).1.db.job_runs
monitor_pass-JobRunsEvolve_example = monitor_pass-JobRunsEvolve world unique

delete_job_run-AllOrNothing_example : AllOrNothing 1 world (delete_job_run 1 world)
delete_job_run-AllOrNothing_example = delete_job_run-AllOrNothing 1 world

handle-Outcome_example :
    Outcome
      (any (λ s. s.job_run_id == 1) world.db.job_run_stops)
      (leb 10 world.now)
      1
      world.db
      (JobRunReleaser.handle (job_run 1 JobRun.scheduled 10) (calm world))
handle-Outcome_example = handle-Outcome (job_run 1 JobRun.scheduled 10) world

derive_next_status-eq-worst_example :
    (ds : List TaskRun) × AreDependencies world.db load load.depends_on ds
    × (some TaskRun.running
        ≡ some (
            if is_some (stop_of world.db load.job_run_id)
            then TaskRun.skipped
            else status_of_bearing (worst_bearing ds)))
derive_next_status-eq-worst_example = derive_next_status-eq-worst load world world load_starts

dispatcher_handle-TaskRunsEvolve_example :
    TaskRunsEvolve world.db.task_runs (TaskRunDispatcher.handle load world).1.db.task_runs
dispatcher_handle-TaskRunsEvolve_example =
    dispatcher_handle-TaskRunsEvolve load world (ground arith) refl

monitor_handle-TaskRunsEvolve_example :
    TaskRunsEvolve world.db.task_runs (TaskRunMonitor.handle report world).1.db.task_runs
monitor_handle-TaskRunsEvolve_example =
    monitor_handle-TaskRunsEvolve report world (ground arith) refl

retry_starts :
    TaskRunAttemptDispatcher.derive_next_status config retry busy
    ≡ (ok TaskRunAttempt.running, busy)
unfolding TaskRunAttemptDispatcher.derive_next_status TaskRunAttemptDispatcher.should_stay_queued
    TaskRunAttemptDispatcher.is_waiting_to_retry TaskRunAttemptDispatcher.is_at_cap
    TaskRunAttemptDispatcher.a_claimed_limit_is_full TaskRunAttemptDispatcher.get_task_run
    Multistatements.count_running_attempts Multistatements.select_running_attempts
    Multistatements.claimed_limit_slots Multistatements.tally_slots Multistatements.claim_all
    Multistatements.claim Multistatements.claimed is_job_run_stopped Statements.select_task_run
    Statements.select_task_run_attempts Statements.select_job_run_stop required operation query
    TaskRun.select_task_run TaskRun.task_run_filter TaskRunAttempt.select_task_run_attempts
    TaskRunAttempt.attempt_filter TaskRunAttempt.order_attempts TaskRunAttemptStatus-discrete
retry_starts = refl

starts_within_limits_example : MayStart busy.db busy.now config retry
starts_within_limits_example = starts_within_limits config retry busy busy retry_starts

unique_attempts : Passes.HasUniqueIds busy.db.task_run_attempts
unique_attempts = ground arith

run_pass-IsSpawnedOnce_example :
    IsSpawnedOnce (seen (TaskRunAttemptDispatcher.run_pass config busy).1)
run_pass-IsSpawnedOnce_example = run_pass-IsSpawnedOnce config busy unique_attempts (tt, tt)

-- The queued attempt is started, once.
retry_is_spawned : (TaskRunAttemptDispatcher.handle config retry busy).1.spawned ≡ 4 ∷ []
unfolding TaskRunAttemptDispatcher.handle TaskRunAttemptDispatcher.settle
    TaskRunAttemptDispatcher.set_to_running TaskRunAttemptDispatcher.prepare
    TaskRunAttemptDispatcher.launch TaskRunAttemptDispatcher.get_job_run
    TaskRunAttemptDispatcher.get_inputs TaskRunAttemptDispatcher.write_previous_attempt_files
    TaskRunAttemptDispatcher.build_env TaskRunAttemptDispatcher.update_attempt
    TaskRunAttemptDispatcher.get_task_run Statements.select_job_run Statements.select_task_run
    Statements.select_task_run_attempts Statements.update_task_run_attempts required operation query
    execute insert_child spawn publish JobRun.select_job_run JobRun.job_run_filter
    TaskRun.select_task_run TaskRun.task_run_filter TaskRunAttempt.select_task_run_attempts
    TaskRunAttempt.attempt_filter TaskRunAttempt.order_attempts
    TaskRunAttempt.update_task_run_attempts TaskRunAttemptStatus-discrete
retry_is_spawned = rw retry_starts refl
