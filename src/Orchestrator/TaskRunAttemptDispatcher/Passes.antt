-- ===== src/Orchestrator/TaskRunAttemptDispatcher/Passes.antt =====
-- A whole pass of TaskRunAttemptDispatcher starts no command twice.
use flowlite.Base.{
  ℕ, ◌≡◌, ◌≢◌, refl, sym, ap, subst, Bool, true, Option, none, some, List, [], ◌∷◌, any, All,
  All-imp, filter, ◌==◌, nat_Column, Bool-cases, inl, inr, arith,
}
use flowlite.Crud.TaskRun.{TaskRun}
use flowlite.Crud.TaskRunAttempt
use flowlite.Crud.TaskRunAttempt.{
  TaskRunAttempt, TaskRunAttemptStatus, AttemptInput, attempt_filter, any_attempt,
  update_task_run_attempts,
}
use flowlite.Crud.World.{
  World, Action, Result, ok, err, and_then, operation, query, ◌>>=◌, ◌>>◌, throw, operation_failed,
  spawn, insert_child, publish,
}
use flowlite.Crud.World.Frames.{
  Seen, seen, operation-Keeps, publish-Keeps, insert_child-Keeps, Leads, Keeps-Leads, bind-Leads,
  execute-Leads, spawn-Leads,
}
use flowlite.Crud.Statements
use flowlite.Poller.{handle_all, pass}
use flowlite.Orchestrator.TaskRunAttemptDispatcher.{
  AppConfig, update_attempt, no_change, set_to_finished, launched, launch, prepare, set_to_running,
  settle, derive_next_status, handle, select, run_pass,
}
use flowlite.Orchestrator.TaskRunAttemptDispatcher.Reading.{derive_next_status-Keeps, prepare-Keeps}
use flowlite.Orchestrator.TaskRunAttemptDispatcher.Begun.{IsSpawnedOnce, IsRead, update_at}
use flowlite.Orchestrator.TaskRunAttemptDispatcher.Spawns.{handle-IsSpawnedOnce}

-- What updates of the attempt's own row and its spawn keep, the handler keeps.
module _ (attempt : TaskRunAttempt) (P : List TaskRunAttempt → Type 0)
    (writes : (i : AttemptInput) (rows : List TaskRunAttempt)
      → P rows
      → P (update_at attempt.id i rows)) where
  abbrev Rows : Seen → Type 0
  Rows (d, ids) = P d.task_run_attempts

  write_keeps :
      {B : Type 0} (i : AttemptInput) (k : Action B)
      → Leads Rows k Rows
      → Leads Rows (update_attempt attempt i >> k) Rows
  unfolding update_attempt Statements.update_task_run_attempts
  write_keeps i k next =
      execute-Leads Rows Rows Rows _ k (λ s p. p) (λ d ids p. writes i d.task_run_attempts p) next

  publish_keeps : Leads Rows publish Rows
  publish_keeps = Keeps-Leads Rows Rows publish publish-Keeps (λ s p. p)

  launched_keeps :
      (task_run : TaskRun) (at : ℕ) (pid : Option ℕ)
      → Leads Rows (launched task_run attempt at pid) Rows
  launched_keeps task_run at none = write_keeps _ (throw operation_failed) (λ w p. p)
  launched_keeps task_run at (some pid) =
      bind-Leads Rows Rows Rows (insert_child _) _ (λ s p. p)
        (Keeps-Leads Rows Rows (insert_child _) (insert_child-Keeps _) (λ s p. p))
        (λ _. write_keeps _ publish publish_keeps)

  launch_keeps : (task_run : TaskRun) → Leads Rows (launch task_run attempt) Rows
  unfolding launch
  launch_keeps task_run w =
      write_keeps (record no_change { started_at = some (some w.now) })
        (spawn attempt.id >>= launched task_run attempt w.now)
        (spawn-Leads Rows Rows Rows attempt.id (launched task_run attempt w.now) (λ d ids p. p)
          (launched_keeps task_run w.now none) (λ pid. launched_keeps task_run w.now (some pid)))
        w

  finish_keeps : (status : TaskRunAttemptStatus) → Leads Rows (set_to_finished attempt status) Rows
  unfolding set_to_finished
  finish_keeps status w =
      write_keeps (record no_change { status = some status; finished_at = some (some w.now) })
        publish publish_keeps w

  settle_keeps :
      (config : AppConfig) (status : TaskRunAttemptStatus)
      → Leads Rows (settle config attempt status) Rows
  unfolding settle set_to_running
  settle_keeps config TaskRunAttempt.skipped = finish_keeps _
  settle_keeps config TaskRunAttempt.queued = λ w p. p
  settle_keeps config TaskRunAttempt.running =
      bind-Leads Rows Rows Rows (prepare config attempt) _ (λ s p. p)
        (Keeps-Leads Rows Rows (prepare config attempt) (prepare-Keeps config attempt) (λ s p. p))
        launch_keeps
  settle_keeps config _ = finish_keeps _

  handle_keeps : (config : AppConfig) → Leads Rows (handle config attempt) Rows
  unfolding handle
  handle_keeps config =
      bind-Leads Rows Rows Rows (derive_next_status config attempt) (settle config attempt)
        (λ s p. p)
        (Keeps-Leads Rows Rows (derive_next_status config attempt)
          (derive_next_status-Keeps config attempt) (λ s p. p))
        (settle_keeps config)

-- An update of another row leaves a row as it was read.
update_at-IsRead :
    (attempt : TaskRunAttempt) (id : ℕ)
    → attempt.id ≢ id
    → (i : AttemptInput) (rows : List TaskRunAttempt) → IsRead attempt rows
    → IsRead attempt (update_at id i rows)
unfolding update_task_run_attempts
update_at-IsRead attempt id ne i rows h = (found rows h.0, same rows h.1)
  where
    found :
        (qs : List TaskRunAttempt)
        → any (λ r. r.id == attempt.id) qs ≡ true
        → any (λ r. r.id == attempt.id) (update_at id i qs) ≡ true
    found [] e = e
    found (q ∷ qs) e = ground (arith, found qs)

    same :
        (qs : List TaskRunAttempt)
        → All (λ r. r.id ≡ attempt.id → r.started_at ≡ attempt.started_at) qs
        → All (λ r. r.id ≡ attempt.id → r.started_at ≡ attempt.started_at) (update_at id i qs)
    same [] a = tt
    same (q ∷ qs) a = (ground (arith, a.0), same qs a.1)

-- `id` is the primary key.
abbrev pub HasUniqueIds : List TaskRunAttempt → Type 0
HasUniqueIds [] = Unit
HasUniqueIds (r ∷ rs) = All (λ s. s.id ≢ r.id) rs × HasUniqueIds rs

handle_all-IsSpawnedOnce :
    (config : AppConfig) (selected : List TaskRunAttempt) (w : World)
    → HasUniqueIds selected
    → All (λ q. IsRead q w.db.task_run_attempts) selected
    → IsSpawnedOnce (seen w)
    → IsSpawnedOnce (seen (handle_all (handle config) selected w).1)
unfolding handle_all
handle_all-IsSpawnedOnce config [] w u h p = p
handle_all-IsSpawnedOnce config (r ∷ selected) w u h p =
    handle_all-IsSpawnedOnce config selected (handle config r w).1 u.1 (later selected u.0 h.1)
      (handle-IsSpawnedOnce config r w h.0 p)
  where
    later :
        (qs : List TaskRunAttempt)
        → All (λ q. q.id ≢ r.id) qs
        → All (λ q. IsRead q w.db.task_run_attempts) qs
        → All (λ q. IsRead q (handle config r w).1.db.task_run_attempts) qs
    later [] ne a = tt
    later (q ∷ qs) ne a =
        (handle_keeps r (IsRead q) (update_at-IsRead q r.id ne.0) config w a.0, later qs ne.1 a.1)

-- With unique ids each row is read as it stands there.
All-IsRead : (rows : List TaskRunAttempt) → HasUniqueIds rows → All (λ q. IsRead q rows) rows
All-IsRead [] u = tt
All-IsRead (r ∷ rows) u = (
  (ground (arith), ((λ _. refl), All-imp (λ s ne e. absurd (ne e)) rows u.0)),
  behind rows (All-IsRead rows u.1) u.0,
)
  where
    behind :
        (qs : List TaskRunAttempt)
        → All (λ q. IsRead q rows) qs
        → All (λ q. q.id ≢ r.id) qs
        → All (λ q. IsRead q (r ∷ rows)) qs
    behind [] a ne = tt
    behind (q ∷ qs) a ne =
        ((ground (arith, a.0.0), ((λ e. absurd (ne.0 (sym e))), a.0.1)), behind qs a.1 ne.1)

module _ (p : TaskRunAttempt → Bool) where
  filter-All :
      (P : TaskRunAttempt → Type 0) (rows : List TaskRunAttempt)
      → All P rows
      → All P (filter p rows)
  filter-All P [] h = tt
  filter-All P (r ∷ rows) h = elim (Bool-cases (p r)) [
    | inl hit ↦ rw hit (h.0, filter-All P rows h.1)
    | inr miss ↦ rw miss (filter-All P rows h.1)
  ]

  filter_unique : (rows : List TaskRunAttempt) → HasUniqueIds rows → HasUniqueIds (filter p rows)
  filter_unique [] u = tt
  filter_unique (r ∷ rows) u = elim (Bool-cases (p r)) [
    | inl hit ↦ rw hit (filter-All (λ s. s.id ≢ r.id) rows u.0, filter_unique rows u.1)
    | inr miss ↦ rw miss (filter_unique rows u.1)
  ]

-- A pass of TaskRunAttemptDispatcher over a table with unique ids, whichever operations fail, spawns
-- included: where before no command had been started twice for an attempt, and the table had a started
-- instant for each attempt that one was started for, both are so afterwards.
pub run_pass-IsSpawnedOnce :
    (config : AppConfig) (w : World)
    → HasUniqueIds w.db.task_run_attempts
    → IsSpawnedOnce (seen w)
    → IsSpawnedOnce (seen (run_pass config w).1)
unfolding run_pass pass select query Statements.select_task_run_attempts
    TaskRunAttempt.select_task_run_attempts TaskRunAttempt.order_attempts
run_pass-IsSpawnedOnce config w u p = after_select (operation w) (operation-Keeps w)
  where
    chosen : TaskRunAttempt → Bool
    chosen = attempt_filter (record any_attempt { status = some TaskRunAttempt.queued })

    after_select :
        (x : Result Unit × World)
        → seen x.1 ≡ seen w
        → IsSpawnedOnce (
            seen
              (and_then
                (and_then x (λ _ v. (ok (filter chosen v.db.task_run_attempts), v)))
                (handle_all (handle config))).1)
    after_select (ok _, v) e =
        let rows : v.db.task_run_attempts ≡ w.db.task_run_attempts =
          ap (λ (s : Seen). s.0.task_run_attempts) e in
        let unique : HasUniqueIds v.db.task_run_attempts = subst HasUniqueIds (sym rows) u in
        handle_all-IsSpawnedOnce config (filter chosen v.db.task_run_attempts) v
          (filter_unique chosen v.db.task_run_attempts unique)
          (filter-All chosen (λ q. IsRead q v.db.task_run_attempts) v.db.task_run_attempts
            (All-IsRead v.db.task_run_attempts unique))
          (subst IsSpawnedOnce (sym e) p)
    after_select (err _, v) e = subst IsSpawnedOnce (sym e) p
