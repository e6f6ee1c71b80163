-- ===== src/Orchestrator/TaskRunAttemptDispatcher.antt =====
-- src/orchestrator/task_run_attempt_dispatcher.rs
pub mod Limits
pub mod Gates
pub mod Reading
pub mod Begun
pub mod Spawns
pub mod Passes
use flowlite.Base.{
  ℕ, ◌+◌, ◌*◌, String, Bool, true, false, ◌&&◌, not, Option, none, some, List, [], ◌∷◌, any, all,
  head?, filter, ltb, leb, ◌==◌, nat_Column, string_Column, if◌then◌else◌,
}
use flowlite.Crud.JobRun.{JobRun, any_job_run}
use flowlite.Crud.TaskRun.{TaskRun, any_task_run}
use flowlite.Crud.TaskRunAttempt
use flowlite.Crud.TaskRunAttempt.{
  TaskRunAttempt, TaskRunAttemptStatus, AttemptInput, any_attempt, by_id,
}
use flowlite.Crud.World.{
  Action, ◌>>=◌, ◌>>◌, pure, return_early, throw, done, current_ts, operation, operation_failed,
  publish, spawn, insert_child, missing_row,
}
use flowlite.Crud.Statements.{
  is_some, select_task_run, select_job_run, select_task_run_attempts, update_task_run_attempts,
  required, is_job_run_stopped,
}
use flowlite.Crud.Multistatements.{count_running_attempts, claimed, claimed_limit_slots}
use flowlite.Poller.{pass}

-- What `AppConfig` says to the attempt services: the cap, the limits by name, the names of the secrets,
-- the grace of a command in milliseconds, and the most that a result may be.
pub record AppConfig : Type 0 where
  pub max_running_attempts : ℕ
  pub concurrency_limits : List (String × ℕ)
  pub secrets : List String
  pub kill_grace : ℕ
  pub max_task_output_bytes : ℕ

unfoldable pub get_task_run : TaskRunAttempt → Action TaskRun
get_task_run attempt =
    select_task_run (record any_task_run { id = some attempt.task_run_id }) >>= required

unfoldable pub get_job_run : TaskRunAttempt → Action JobRun
get_job_run attempt =
    select_job_run (record any_job_run { id = some attempt.job_run_id }) >>= required

-- The write of a status, for the row of the attempt's id.
unfoldable pub update_attempt : TaskRunAttempt → AttemptInput → Action Unit
update_attempt attempt i =
    update_task_run_attempts (record { id = some attempt.id; task_run_id = none; status = none }) i

-- An update of no column.
abbrev pub no_change : AttemptInput
no_change = record {
  status = none;
  started_at = none;
  finished_at = none;
  process_group_id = none;
  output = none;
  waiting_since = none;
}

-- `set_to_invalid`, `set_to_invalid_already_spawned` and `set_to_skipped`.
unfoldable pub set_to_finished : TaskRunAttempt → TaskRunAttemptStatus → Action Unit
unfolding update_attempt
set_to_finished attempt status = do
  now ← current_ts
  update_attempt attempt (record no_change { status = some status; finished_at = some (some now) })
  publish

-- One round of the loop over the limits that a task run claims. A limit of 0 is no limit.
abbrev pub is_full : List (String × ℕ) → Option (String × ℕ) → String → Bool
is_full slots none limit = false
is_full slots (some (_, configured_max)) limit =
    not (configured_max == 0) && leb configured_max (claimed limit slots)

abbrev pub any_full : AppConfig → List String → List (String × ℕ) → Bool
any_full config limits slots =
    any
      (λ limit. is_full slots (head? (filter (λ l. l.0 == limit) config.concurrency_limits)) limit)
      limits

abbrev pub full_of : AppConfig → List String → Action Bool
full_of config [] = pure false
full_of config (limit ∷ limits) = do
  slots ← claimed_limit_slots
  pure (any_full config (limit ∷ limits) slots)

unfoldable pub a_claimed_limit_is_full : AppConfig → TaskRunAttempt → Action Bool
unfolding get_task_run
a_claimed_limit_is_full config attempt = do
  task_run ← get_task_run attempt
  full_of config task_run.limits

-- The first reason of `should_stay_queued`. Instants are in milliseconds.
unfoldable pub is_waiting_to_retry : TaskRunAttempt → Action Bool
unfolding get_task_run
is_waiting_to_retry attempt =
    if ltb 1 attempt.attempt
    then (do
      task_run ← get_task_run attempt
      now ← current_ts
      pure (ltb now (attempt.created_at + task_run.retry_delay * 1000)))
    else pure false

-- The second one.
unfoldable pub is_at_cap : AppConfig → Action Bool
is_at_cap config =
    if ltb 0 config.max_running_attempts
    then (do
      running_attempts ← count_running_attempts
      pure (leb config.max_running_attempts running_attempts))
    else pure false

unfoldable pub should_stay_queued : AppConfig → TaskRunAttempt → Action Bool
unfolding is_waiting_to_retry is_at_cap a_claimed_limit_is_full
should_stay_queued config attempt = do
  waiting ← is_waiting_to_retry attempt
  return_early waiting true (do
    capped ← is_at_cap config
    return_early capped true (a_claimed_limit_is_full config attempt))

unfoldable pub derive_next_status : AppConfig → TaskRunAttempt → Action TaskRunAttemptStatus
unfolding should_stay_queued
derive_next_status config attempt =
    return_early (is_some attempt.started_at) TaskRunAttempt.invalid (do
      stopped ← is_job_run_stopped attempt.job_run_id
      return_early stopped TaskRunAttempt.skipped (do
        stays ← should_stay_queued config attempt
        return_early stays TaskRunAttempt.queued (pure TaskRunAttempt.running)))

-- `get_inputs` reads the results of the dependencies, where there are any.
unfoldable pub get_inputs : TaskRun → List String → Action Unit
get_inputs task_run [] = done
get_inputs task_run (task_id ∷ task_ids) = do
  outputs ←
      select_task_run_attempts
        (record any_attempt {
          job_run_id = some task_run.job_run_id;
          status = some TaskRunAttempt.succeeded;
        })
        none
  done

-- `write_previous_attempt_files` for a retry: the previous attempt has to be there, its output is
-- read, and its log is written.
unfoldable pub write_previous_attempt_files : TaskRunAttempt → Action Unit
write_previous_attempt_files attempt = if ltb attempt.attempt 2 then done else (do
  attempts ←
      select_task_run_attempts (record any_attempt { task_run_id = some attempt.task_run_id }) none
  previous_attempt ← required (head? (filter (λ a. a.attempt + 1 == attempt.attempt) attempts))
  operation
  operation)

-- `build_task_run_attempt_env` fails where a secret of the task is not defined.
unfoldable pub build_env : AppConfig → TaskRun → Action Unit
build_env config task_run =
    if all (λ s. any (λ name. name == s.1) config.secrets) task_run.secret_env
    then done
    else throw missing_row

-- The child that the map gets, and the write that lets TaskRunAttemptMonitor pick it up; or, where
-- nothing was spawned, the write that takes the started instant back.
abbrev pub launched : TaskRun → TaskRunAttempt → ℕ → Option ℕ → Action Unit
launched task_run attempt started_at none =
    update_attempt attempt (record no_change { started_at = some none }) >> throw operation_failed
launched task_run attempt started_at (some pid) =
    insert_child (record {
      task_run_attempt_id = attempt.id;
      process_group_id = some pid;
      times_out_at = started_at + task_run.timeout * 1000;
      idle_timeout =
          if ltb 0 task_run.idle_timeout then some (task_run.idle_timeout * 1000) else none;
      last_output_at = started_at;
      terminating = none;
    })
    >> (update_attempt attempt (record no_change {
      status = some TaskRunAttempt.running;
      process_group_id = some (some pid);
    })
        >> publish)

-- From the write of the started instant on.
unfoldable pub launch : TaskRun → TaskRunAttempt → Action Unit
unfolding update_attempt
launch task_run attempt = do
  started_at ← current_ts
  update_attempt attempt (record no_change { started_at = some (some started_at) })
  pid ← spawn attempt.id
  launched task_run attempt started_at pid

-- What is done before it. `job_run_dir` looks at the disk.
unfoldable pub prepare : AppConfig → TaskRunAttempt → Action TaskRun
unfolding get_task_run get_job_run get_inputs write_previous_attempt_files build_env
prepare config attempt = do
  task_run ← get_task_run attempt
  job_run ← get_job_run attempt
  operation
  get_inputs task_run task_run.depends_on
  write_previous_attempt_files attempt
  build_env config task_run
  pure task_run

unfoldable pub set_to_running : AppConfig → TaskRunAttempt → Action Unit
unfolding prepare launch
set_to_running config attempt = do task_run ← prepare config attempt; launch task_run attempt

unfoldable pub settle : AppConfig → TaskRunAttempt → TaskRunAttemptStatus → Action Unit
unfolding set_to_finished set_to_running
settle config attempt TaskRunAttempt.skipped = set_to_finished attempt TaskRunAttempt.skipped
settle config attempt TaskRunAttempt.queued = done
settle config attempt TaskRunAttempt.running = set_to_running config attempt
settle config attempt _ = set_to_finished attempt TaskRunAttempt.invalid

unfoldable pub handle : AppConfig → TaskRunAttempt → Action Unit
unfolding derive_next_status settle
handle config attempt = derive_next_status config attempt >>= settle config attempt

unfoldable pub select : Action (List TaskRunAttempt)
select =
    select_task_run_attempts (record any_attempt { status = some TaskRunAttempt.queued })
      (some by_id)

unfoldable pub run_pass : AppConfig → Action Unit
unfolding select handle
run_pass config = pass select (handle config)
