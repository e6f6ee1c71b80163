-- ===== src/Orchestrator/TaskRunMonitor.antt =====
-- src/orchestrator/task_run_monitor.rs
pub mod Attempts
use flowlite.Base.{
  ℕ, ◌+◌, ltb, Bool, true, false, not, u32, Option, none, some, List, last?, ◌==◌, if◌then◌else◌,
}
use flowlite.Crud.TaskRun
use flowlite.Crud.TaskRun.{TaskRun, TaskRunStatus, any_task_run}
use flowlite.Crud.TaskRunAttempt
use flowlite.Crud.TaskRunAttempt.{
  TaskRunAttempt, TaskRunAttemptStatus, TaskRunAttemptStatus_Column, any_attempt, by_attempt,
}
use flowlite.Crud.World.{Action, ◌>>=◌, ◌>>◌, pure, done, current_ts, publish}
use flowlite.Crud.Statements.{
  select_task_runs, update_task_runs, select_task_run_attempts, insert_task_run_attempt, required,
  NewAttempt,
}
use flowlite.Poller.{pass}

unfoldable pub select_last_task_run_attempt : TaskRun → Action (Option TaskRunAttempt)
select_last_task_run_attempt task_run = do
  attempts ←
      select_task_run_attempts (record any_attempt { task_run_id = some task_run.id })
        (some by_attempt)
  pure (last? attempts)

abbrev pub attempt_of : TaskRun → ℕ → NewAttempt
attempt_of task_run attempt = record {
  task_run_id = task_run.id;
  job_run_id = task_run.job_run_id;
  job_id = task_run.job_id;
  task_id = task_run.task_id;
  attempt = attempt;
  status = TaskRunAttempt.queued;
}

unfoldable pub insert_attempt : TaskRun → ℕ → Action Unit
insert_attempt task_run attempt = insert_task_run_attempt (attempt_of task_run attempt) >> publish

abbrev pub start_unless : TaskRun → Option TaskRunAttempt → Action TaskRunAttempt
start_unless task_run (some attempt) = pure attempt
start_unless task_run none = do
  insert_attempt task_run 1
  found ← select_last_task_run_attempt task_run
  required found

unfoldable pub get_or_start_task_run_attempt : TaskRun → Action TaskRunAttempt
unfolding select_last_task_run_attempt insert_attempt
get_or_start_task_run_attempt task_run =
    select_last_task_run_attempt task_run >>= start_unless task_run

unfoldable pub insert_next_attempt : TaskRun → TaskRunAttempt → Action Unit
unfolding insert_attempt
insert_next_attempt task_run last = insert_attempt task_run (u32 (last.attempt + 1))

unfoldable pub derive_next_status : TaskRun → TaskRunAttempt → Action (Option TaskRunStatus)
unfolding insert_next_attempt
derive_next_status task_run last =
    if last.status == TaskRunAttempt.invalid
    then pure (some TaskRun.invalid)
    else if last.status == TaskRunAttempt.succeeded
    then pure (some TaskRun.succeeded)
    else if not (TaskRunAttempt.is_finished last.status)
    then pure (some TaskRun.running)
    else if last.status == TaskRunAttempt.failed
    then (if ltb last.attempt (u32 (task_run.max_retries + 1))
        then insert_next_attempt task_run last >> pure (some TaskRun.running)
        else pure (some TaskRun.failed))
    else if last.status == TaskRunAttempt.timed_out
    then pure (some TaskRun.timed_out)
    else if TaskRunAttempt.is_stopped last.status
    then pure (some TaskRun.aborted)
    else pure none

unfoldable pub update_task_run_status : TaskRun → TaskRunStatus → Action Unit
update_task_run_status task_run status = do
  now ← current_ts
  update_task_runs (record { id = some task_run.id; job_run_id = none; status = none })
      (record { status = some status; started_at = none; finished_at = some (some now) })
  publish

unfoldable pub settle : TaskRun → Option TaskRunStatus → Action Unit
unfolding update_task_run_status
settle task_run (some TaskRun.succeeded) = update_task_run_status task_run TaskRun.succeeded
settle task_run (some TaskRun.failed) = update_task_run_status task_run TaskRun.failed
settle task_run (some TaskRun.timed_out) = update_task_run_status task_run TaskRun.timed_out
settle task_run (some TaskRun.aborted) = update_task_run_status task_run TaskRun.aborted
settle task_run (some TaskRun.running) = done
settle task_run _ = update_task_run_status task_run TaskRun.invalid

unfoldable pub handle : TaskRun → Action Unit
unfolding get_or_start_task_run_attempt derive_next_status settle
handle task_run = do
  last ← get_or_start_task_run_attempt task_run
  status ← derive_next_status task_run last
  settle task_run status

unfoldable pub select : Action (List TaskRun)
select = select_task_runs (record any_task_run { status = some TaskRun.running })

unfoldable pub run_pass : Action Unit
unfolding select handle
run_pass = pass select handle
