-- ===== src/Orchestrator/TaskRunAttemptDispatcher/Spawns.antt =====
-- No command is started twice for an attempt, whatever fails.
use flowlite.Base.{
  ℕ, ◌≡◌, ◌≢◌, refl, sym, subst, true, none, some, List, any, All, ◌==◌, nat_Column, Option-cases,
  inl, inr,
}
use flowlite.Crud.TaskRunAttempt
use flowlite.Crud.TaskRunAttempt.{
  TaskRunAttempt, TaskRunAttemptStatus, AttemptInput, update_task_run_attempts, set_attempt,
  attempt_key,
}
use flowlite.Crud.World.{
  Db, World, Result, ◌>>=◌, ◌>>◌, throw, operation_failed, spawn, insert_child, publish,
}
use flowlite.Crud.World.Frames.{
  Seen, seen, publish-Keeps, insert_child-Keeps, Leads, Keeps-Leads, bind-Leads, execute-Leads,
  spawn-Leads,
}
use flowlite.Crud.Statements
use flowlite.Crud.Statements.{is_some}
use flowlite.Crud.TaskRun.{TaskRun}
use flowlite.Orchestrator.TaskRunAttemptDispatcher.{
  AppConfig, update_attempt, no_change, set_to_finished, launched, launch, prepare, set_to_running,
  settle, derive_next_status, handle,
}
use flowlite.Orchestrator.TaskRunAttemptDispatcher.Reading.{derive_next_status-Keeps, prepare-Keeps}
use flowlite.Orchestrator.TaskRunAttemptDispatcher.Begun.{
  is_begun, IsSpawnedOnce, IsRead, now_begun, not_begun, still_begun_each, begun_others,
  not_spawned,
}

module _ (attempt : TaskRunAttempt) where
  -- Before the started instant is written, and between that and the spawn.
  abbrev NotBegun : Seen → Type 0
  NotBegun (d, ids) =
      IsSpawnedOnce (d, ids)
      × All (λ j. j ≢ attempt.id) ids
      × (any (λ r. r.id == attempt.id) d.task_run_attempts ≡ true)

  abbrev Begun : Seen → Type 0
  Begun (d, ids) =
      IsSpawnedOnce (d, ids)
      × All (λ j. j ≢ attempt.id) ids
      × (is_begun attempt.id d.task_run_attempts ≡ true)

  -- A write that leaves the started instants alone, and a wake-up.
  write-IsSpawnedOnce :
      (i : AttemptInput)
      → i.started_at ≡ none
      → Leads IsSpawnedOnce (update_attempt attempt i >> publish) IsSpawnedOnce
  unfolding update_attempt Statements.update_task_run_attempts
  write-IsSpawnedOnce i e =
      execute-Leads IsSpawnedOnce IsSpawnedOnce IsSpawnedOnce _ publish (λ s p. p)
        (λ d ids p. (p.0, still_begun_each i e attempt.id d.task_run_attempts ids p.1))
        (Keeps-Leads IsSpawnedOnce IsSpawnedOnce publish publish-Keeps (λ s p. p))

  launched-IsSpawnedOnce :
      (task_run : TaskRun) (at : ℕ) → Leads Begun (launched task_run attempt at none) IsSpawnedOnce
  unfolding update_attempt Statements.update_task_run_attempts
  launched-IsSpawnedOnce task_run at =
      execute-Leads Begun IsSpawnedOnce IsSpawnedOnce _ (throw operation_failed) (λ s p. p.0)
        (λ d ids p. (p.0.0, begun_others _ attempt.id d.task_run_attempts ids p.1 p.0.1)) (λ w p. p)

  recorded-IsSpawnedOnce :
      (task_run : TaskRun) (at pid : ℕ)
      → Leads IsSpawnedOnce (launched task_run attempt at (some pid)) IsSpawnedOnce
  recorded-IsSpawnedOnce task_run at pid =
      bind-Leads IsSpawnedOnce IsSpawnedOnce IsSpawnedOnce (insert_child _) _ (λ s p. p)
        (Keeps-Leads IsSpawnedOnce IsSpawnedOnce (insert_child _) (insert_child-Keeps _) (λ s p. p))
        (λ _. write-IsSpawnedOnce _ refl)

  launch-IsSpawnedOnce :
      (task_run : TaskRun) → Leads NotBegun (launch task_run attempt) IsSpawnedOnce
  unfolding launch update_attempt Statements.update_task_run_attempts
  launch-IsSpawnedOnce task_run w =
      execute-Leads NotBegun Begun IsSpawnedOnce _
        (spawn attempt.id >>= launched task_run attempt w.now) (λ s p. p.0)
        (λ d ids p. (
          (p.0.0, begun_others _ attempt.id d.task_run_attempts ids p.1 p.0.1),
          p.1,
          now_begun attempt.id _ w.now refl d.task_run_attempts p.2,
        ))
        (spawn-Leads Begun IsSpawnedOnce IsSpawnedOnce attempt.id (launched task_run attempt w.now)
          (λ d ids p. ((p.1, p.0.0), (p.2, p.0.1))) (launched-IsSpawnedOnce task_run w.now)
          (λ pid. recorded-IsSpawnedOnce task_run w.now pid))
        w

  read_first :
      (d : Db) (ids : List ℕ)
      → attempt.started_at ≡ none
      → IsRead attempt d.task_run_attempts
      → IsSpawnedOnce (d, ids)
      → NotBegun (d, ids)
  read_first d ids e r p = (
    p,
    not_spawned attempt.id d.task_run_attempts ids (not_begun attempt d.task_run_attempts e r.1)
        p.1,
    r.0,
  )

  set_to_finished-IsSpawnedOnce :
      (status : TaskRunAttemptStatus)
      → Leads IsSpawnedOnce (set_to_finished attempt status) IsSpawnedOnce
  unfolding set_to_finished
  set_to_finished-IsSpawnedOnce status w =
      write-IsSpawnedOnce
        (record no_change { status = some status; finished_at = some (some w.now) }) refl w

  set_to_running-IsSpawnedOnce :
      (config : AppConfig) → Leads NotBegun (set_to_running config attempt) IsSpawnedOnce
  unfolding set_to_running
  set_to_running-IsSpawnedOnce config =
      bind-Leads NotBegun NotBegun IsSpawnedOnce (prepare config attempt) _ (λ s p. p.0)
        (Keeps-Leads NotBegun NotBegun (prepare config attempt) (prepare-Keeps config attempt)
          (λ s p. p))
        launch-IsSpawnedOnce

  settle-IsSpawnedOnce :
      (config : AppConfig) (status : TaskRunAttemptStatus)
      → Leads NotBegun (settle config attempt status) IsSpawnedOnce
  unfolding settle
  settle-IsSpawnedOnce config TaskRunAttempt.skipped w p = set_to_finished-IsSpawnedOnce _ w p.0
  settle-IsSpawnedOnce config TaskRunAttempt.queued w p = p.0
  settle-IsSpawnedOnce config TaskRunAttempt.running w p = set_to_running-IsSpawnedOnce config w p
  settle-IsSpawnedOnce config _ w p = set_to_finished-IsSpawnedOnce _ w p.0

-- The second reading of an attempt that was begun before finds no outcome for it.
begun-handle :
    (config : AppConfig) (attempt : TaskRunAttempt) (w : World) (at : ℕ)
    → attempt.started_at ≡ some at
    → handle config attempt w ≡ set_to_finished attempt TaskRunAttempt.invalid w
unfolding handle derive_next_status settle
begun-handle config attempt w at e = rw e refl

-- TaskRunAttemptDispatcher handles an attempt that was read as the table has it, whichever operations
-- fail, the spawn included: where before no command had been started twice for an attempt, and the table
-- had a started instant for each attempt that one was started for, both are so afterwards.
pub handle-IsSpawnedOnce :
    (config : AppConfig) (attempt : TaskRunAttempt) (w : World)
    → IsRead attempt w.db.task_run_attempts
    → IsSpawnedOnce (seen w)
    → IsSpawnedOnce (seen (handle config attempt w).1)
unfolding handle
handle-IsSpawnedOnce config attempt w r p = elim (Option-cases attempt.started_at) [
  | inl e ↦
      bind-Leads (NotBegun attempt) (NotBegun attempt) IsSpawnedOnce
        (derive_next_status config attempt) (settle config attempt) (λ s q. q.0)
        (Keeps-Leads (NotBegun attempt) (NotBegun attempt) (derive_next_status config attempt)
          (derive_next_status-Keeps config attempt) (λ s q. q))
        (settle-IsSpawnedOnce attempt config) w (read_first attempt w.db w.spawned e r p)
  | inr (at, e) ↦
      subst (λ (x : Result Unit × World). IsSpawnedOnce (seen x.1))
        (sym (begun-handle config attempt w at e))
        (set_to_finished-IsSpawnedOnce attempt TaskRunAttempt.invalid w p)
]
