-- ===== src/Orchestrator/TaskRuns/Handlers.antt =====
-- The handlers of TaskRunDispatcher and TaskRunMonitor move their own task run forward, whichever
-- statement fails.
use flowlite.Base.{ℕ, ◌≡◌, refl, List, [], ◌∷◌, String, ◌+◌, ◌≤◌}
use flowlite.Crud.TaskRun
use flowlite.Crud.TaskRun.{TaskRun, TaskRunStatus}
use flowlite.Crud.TaskRun.Lifecycle.{TaskRunsEvolve}
use flowlite.Crud.TaskRunAttempt.{TaskRunAttemptStatus_Column}
use flowlite.Crud.World.{World, publish}
use flowlite.Crud.World.Triples.{Triple, Reads, query-Reads, bind-Reads, bind-Triple, insert-Triple}
use flowlite.Crud.Statements
use flowlite.Crud.Statements.{
  required, insert_task_run_attempt, select_task_run_attempts, NewAttempt,
}
use flowlite.Orchestrator.JobRuns.{is_job_run_stopped-Reads}
use flowlite.Orchestrator.TaskRunDispatcher
use flowlite.Orchestrator.TaskRunDispatcher.{load_dependencies, dependency_filter}
use flowlite.Orchestrator.TaskRunMonitor
use flowlite.Orchestrator.TaskRunMonitor.Attempts.{get_or_start_keeps, derive_keeps}
use flowlite.Orchestrator.TaskRuns.{
  HasTaskRuns, AdvancesTaskRuns, IsCurrent, required-Reads, before, reading,
  dispatcher_settle-AdvancesTaskRuns, monitor_settle-AdvancesTaskRuns,
}

load_dependencies-Reads :
    (task_run : TaskRun) (task_ids : List String) → Reads (load_dependencies task_run task_ids)
unfolding load_dependencies Statements.select_task_run
load_dependencies-Reads task_run [] = λ w. refl
load_dependencies-Reads task_run (task_id ∷ task_ids) =
    bind-Reads (Statements.select_task_run (dependency_filter task_run task_id)) _ (query-Reads _)
      (λ found. bind-Reads (required found) _ (required-Reads found) (λ d.
        bind-Reads (load_dependencies task_run task_ids) _
          (load_dependencies-Reads task_run task_ids) (λ others w. refl)))

derive-Reads : (task_run : TaskRun) → Reads (TaskRunDispatcher.derive_next_status task_run)
unfolding TaskRunDispatcher.derive_next_status TaskRunDispatcher.should_skip
derive-Reads task_run =
    bind-Reads (load_dependencies task_run task_run.depends_on) _
      (load_dependencies-Reads task_run task_run.depends_on)
      (λ ds.
        bind-Reads (TaskRunDispatcher.should_skip task_run ds) _
          (bind-Reads _ _ (is_job_run_stopped-Reads task_run.job_run_id) (λ stopped w. refl))
          (λ skip w. refl))

module _ (rows : List TaskRun) where
  insert_attempt-HasTaskRuns :
      (task_run : TaskRun) (n : ℕ)
      → Triple (HasTaskRuns rows) (TaskRunMonitor.insert_attempt task_run n) (HasTaskRuns rows)
  unfolding TaskRunMonitor.insert_attempt insert_task_run_attempt publish
  insert_attempt-HasTaskRuns task_run n w =
      bind-Triple (HasTaskRuns rows) (HasTaskRuns rows) (HasTaskRuns rows)
        (insert_task_run_attempt (TaskRunMonitor.attempt_of task_run n)) (λ _. publish) (λ d p. p)
        (λ w'. insert-Triple (HasTaskRuns rows) (HasTaskRuns rows) _ _ (λ d p. p) (λ d p. p) w')
        (λ _ w' p. p) w

  dispatcher-AdvancesTaskRuns :
      (task_run : TaskRun)
      → IsCurrent task_run rows
      → task_run.status ≡ TaskRun.waiting
      → AdvancesTaskRuns rows (TaskRunDispatcher.handle task_run)
  unfolding TaskRunDispatcher.handle
  dispatcher-AdvancesTaskRuns task_run current e =
      before rows (TaskRunDispatcher.derive_next_status task_run) _
        (reading rows (TaskRunDispatcher.derive_next_status task_run) (derive-Reads task_run))
        (dispatcher_settle-AdvancesTaskRuns rows task_run current e)

  monitor-AdvancesTaskRuns :
      (task_run : TaskRun)
      → IsCurrent task_run rows
      → task_run.status ≡ TaskRun.running
      → AdvancesTaskRuns rows (TaskRunMonitor.handle task_run)
  unfolding TaskRunMonitor.handle
  monitor-AdvancesTaskRuns task_run current e =
      let H = HasTaskRuns rows in
      let inserts =
        λ (n : ℕ) (fits : n ≤ task_run.max_retries + 1). insert_attempt-HasTaskRuns task_run n in
      before rows (TaskRunMonitor.get_or_start_task_run_attempt task_run) _
        (get_or_start_keeps H task_run inserts)
        (λ last.
          before rows (TaskRunMonitor.derive_next_status task_run last) _
            (derive_keeps H task_run inserts last)
            (monitor_settle-AdvancesTaskRuns rows task_run current e))

-- TaskRunDispatcher handles a task run that is still waiting, whichever operations fail: the table
-- keeps its rows, each row keeps its columns but its instants and its status, and no status goes back.
pub dispatcher_handle-TaskRunsEvolve :
    (task_run : TaskRun) (w : World)
    → IsCurrent task_run w.db.task_runs
    → task_run.status ≡ TaskRun.waiting
    → TaskRunsEvolve w.db.task_runs (TaskRunDispatcher.handle task_run w).1.db.task_runs
dispatcher_handle-TaskRunsEvolve task_run w current e =
    dispatcher-AdvancesTaskRuns w.db.task_runs task_run current e w refl

-- TaskRunMonitor handles a task run that is still running, whichever operations fail: the table
-- keeps its rows, each row keeps its columns but its instants and its status, and no status goes back.
pub monitor_handle-TaskRunsEvolve :
    (task_run : TaskRun) (w : World)
    → IsCurrent task_run w.db.task_runs
    → task_run.status ≡ TaskRun.running
    → TaskRunsEvolve w.db.task_runs (TaskRunMonitor.handle task_run w).1.db.task_runs
monitor_handle-TaskRunsEvolve task_run w current e =
    monitor-AdvancesTaskRuns w.db.task_runs task_run current e w refl
