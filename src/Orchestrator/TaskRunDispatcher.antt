-- ===== src/Orchestrator/TaskRunDispatcher.antt =====
-- src/orchestrator/task_run_dispatcher.rs
pub mod Bearings
pub mod Verdict
use flowlite.Base.{
  ℕ, String, Bool, true, false, not, ◌||◌, Option, none, some, List, [], ◌∷◌, any, all, ◌==◌,
  if◌then◌else◌,
}
use flowlite.Crud.TaskRun.{
  TaskRun, TaskRunStatus, TaskRunStatus_Column, planned, waiting, running, succeeded, failed,
  skipped, aborted, timed_out, invalid, is_finished, any_task_run, TaskRunFilter,
}
use flowlite.Crud.World.{Action, ◌>>=◌, ◌>>◌, pure, done, current_ts, publish}
use flowlite.Crud.Statements.{
  select_task_runs, select_task_run, update_task_runs, required, is_job_run_stopped,
}
use flowlite.Poller.{pass}

-- The statuses that `should_skip` names.
abbrev pub has_not_succeeded : TaskRunStatus → Bool
has_not_succeeded failed = true
has_not_succeeded skipped = true
has_not_succeeded aborted = true
has_not_succeeded timed_out = true
has_not_succeeded invalid = true
has_not_succeeded planned = false
has_not_succeeded waiting = false
has_not_succeeded running = false
has_not_succeeded succeeded = false

unfoldable pub should_skip : TaskRun → List TaskRun → Action Bool
should_skip task_run dependent_task_runs = do
  stopped ← is_job_run_stopped task_run.job_run_id
  pure (stopped || any (λ t. has_not_succeeded t.status) dependent_task_runs)

unfoldable pub is_still_waiting : List TaskRun → Bool
is_still_waiting dependent_task_runs = any (λ t. not (is_finished t.status)) dependent_task_runs

unfoldable pub all_dependencies_succeeded : List TaskRun → Bool
all_dependencies_succeeded dependent_task_runs =
    all (λ t. t.status == succeeded) dependent_task_runs

abbrev pub dependency_filter : TaskRun → String → TaskRunFilter
dependency_filter task_run task_id = record any_task_run {
  job_run_id = some task_run.job_run_id;
  job_id = some task_run.job_id;
  task_id = some task_id;
}

-- The loop of `get_dependent_task_runs`.
unfoldable pub load_dependencies : TaskRun → List String → Action (List TaskRun)
load_dependencies task_run [] = pure []
load_dependencies task_run (task_id ∷ task_ids) = do
  found ← select_task_run (dependency_filter task_run task_id)
  dependent_task_run ← required found
  others ← load_dependencies task_run task_ids
  pure (dependent_task_run ∷ others)

unfoldable pub get_dependent_task_runs : TaskRun → Action (List TaskRun)
unfolding load_dependencies
get_dependent_task_runs task_run = load_dependencies task_run task_run.depends_on

-- What the three checks say, in their order.
unfoldable pub verdict : Bool → List TaskRun → Option TaskRunStatus
unfolding is_still_waiting all_dependencies_succeeded
verdict must_skip dependent_task_runs =
    if must_skip
    then some skipped
    else if is_still_waiting dependent_task_runs
    then some waiting
    else if all_dependencies_succeeded dependent_task_runs
    then some running
    else none

unfoldable pub derive_next_status : TaskRun → Action (Option TaskRunStatus)
unfolding get_dependent_task_runs should_skip verdict
derive_next_status task_run = do
  dependent_task_runs ← get_dependent_task_runs task_run
  must_skip ← should_skip task_run dependent_task_runs
  pure (verdict must_skip dependent_task_runs)

-- `set_to_skipped` and `set_to_invalid`.
unfoldable pub set_to_finished : TaskRun → TaskRunStatus → Action Unit
set_to_finished task_run status = do
  now ← current_ts
  update_task_runs (record { id = some task_run.id; job_run_id = none; status = none })
      (record { status = some status; started_at = none; finished_at = some (some now) })
  publish

unfoldable pub set_to_running : TaskRun → Action Unit
set_to_running task_run = do
  now ← current_ts
  update_task_runs (record { id = some task_run.id; job_run_id = none; status = none })
      (record { status = some running; started_at = some (some now); finished_at = none })
  publish

unfoldable pub settle : TaskRun → Option TaskRunStatus → Action Unit
unfolding set_to_finished set_to_running
settle task_run (some skipped) = set_to_finished task_run skipped
settle task_run (some waiting) = done
settle task_run (some running) = set_to_running task_run
settle task_run _ = set_to_finished task_run invalid

unfoldable pub handle : TaskRun → Action Unit
unfolding derive_next_status settle
handle task_run = derive_next_status task_run >>= settle task_run

unfoldable pub select : Action (List TaskRun)
select = select_task_runs (record any_task_run { status = some waiting })

unfoldable pub run_pass : Action Unit
unfolding select handle
run_pass = pass select handle
