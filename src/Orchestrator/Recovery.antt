-- ===== src/Orchestrator/Recovery.antt =====
-- src/orchestrator/recovery.rs: what a start does with the attempts of an earlier run.
pub mod Kills
use flowlite.Base.{ℕ, ltb, Bool, true, false, Option, none, some, List, [], ◌∷◌, if◌then◌else◌}
use flowlite.Crud.TaskRunAttempt
use flowlite.Crud.TaskRunAttempt.{TaskRunAttempt, any_attempt, by_id}
use flowlite.Crud.World.{
  Action, ◌>>=◌, ◌>>◌, pure, done, current_ts, operation, ask, signal, to_group, sigkill,
}
use flowlite.Crud.Statements.{select_task_run_attempts, update_task_run_attempts}
use flowlite.Crud.Multistatements.{stop_child_job_runs}
use flowlite.Orchestrator.TaskRunAttemptChildren.{System}

module _ (system : System) where
  abbrev pub kill_group_started : ℕ → (started_at system_boot_time : Option ℕ) → Action Bool
  kill_group_started group none system_boot_time = pure false
  kill_group_started group (some started_at) none = pure false
  kill_group_started group (some started_at) (some system_boot_time) =
      if ltb started_at system_boot_time
      then pure false
      else (signal (to_group group sigkill) >> ask (λ w. system.group_killed w group))

  abbrev pub kill_group_of : TaskRunAttempt → Option ℕ → Option ℕ → Action Bool
  kill_group_of attempt none system_boot_time = pure false
  kill_group_of attempt (some group) system_boot_time =
      kill_group_started group attempt.started_at system_boot_time

  -- It tells whether it killed something.
  unfoldable pub kill_orphan_process_group : TaskRunAttempt → Option ℕ → Action Bool
  kill_orphan_process_group attempt system_boot_time =
      kill_group_of attempt attempt.process_group_id system_boot_time

  unfoldable pub recover_attempt : Option ℕ → TaskRunAttempt → Action Unit
  unfolding kill_orphan_process_group
  recover_attempt system_boot_time attempt = do
    kill_orphan_process_group attempt system_boot_time
    operation
    stop_child_job_runs attempt
    now ← current_ts
    update_task_run_attempts (record { id = some attempt.id; task_run_id = none; status = none })
        (record {
          status = some TaskRunAttempt.invalid;
          started_at = none;
          finished_at = some (some now);
          process_group_id = none;
          output = none;
          waiting_since = none;
        })

  unfoldable pub recover_each : Option ℕ → List TaskRunAttempt → Action Unit
  unfolding recover_attempt
  recover_each system_boot_time [] = done
  recover_each system_boot_time (attempt ∷ attempts) =
      recover_attempt system_boot_time attempt >> recover_each system_boot_time attempts

  unfoldable pub recover_orphaned_task_run_attempts : Option ℕ → Action Unit
  unfolding recover_each
  recover_orphaned_task_run_attempts system_boot_time =
      select_task_run_attempts (record any_attempt { status = some TaskRunAttempt.running })
        (some by_id)
      >>= recover_each system_boot_time
