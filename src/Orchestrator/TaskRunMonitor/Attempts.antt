-- ===== src/Orchestrator/TaskRunMonitor/Attempts.antt =====
-- How many attempts TaskRunMonitor gives a task run.
use flowlite.Base.{
  ℕ, ◌≤◌, ◌+◌, ◌≡◌, ◌≢◌, ◌⊎◌, refl, true, not, ltb, u32, Option, none, some, [], ◌∷◌, All,
  All-append, arith, ◌==◌, Bool-cases, inl, inr,
}
use flowlite.Crud.TaskRun
use flowlite.Crud.TaskRun.{TaskRun, TaskRunStatus}
use flowlite.Crud.TaskRunAttempt
use flowlite.Crud.TaskRunAttempt.{TaskRunAttempt, TaskRunAttemptStatus, TaskRunAttemptStatus_Column}
use flowlite.Crud.World.{Db, World, ◌>>◌, pure, publish}
use flowlite.Crud.World.Triples.{
  Triple, Reads, query-Reads, bind-Reads, bind-Triple, insert-Triple, execute-Triple, Reads-Triple,
  read-Triple,
}
use flowlite.Crud.Statements.{
  required, insert_task_run_attempt, select_task_run_attempts, new_attempt_row, update_task_runs,
}
use flowlite.Orchestrator.TaskRunMonitor.{
  select_last_task_run_attempt, attempt_of, insert_attempt, start_unless,
  get_or_start_task_run_attempt, insert_next_attempt, derive_next_status, update_task_run_status,
  settle, handle,
}

pub last-Reads : (task_run : TaskRun) → Reads (select_last_task_run_attempt task_run)
unfolding select_last_task_run_attempt select_task_run_attempts
last-Reads task_run = bind-Reads _ _ (query-Reads _) (λ attempts w. refl)

required-Reads : {A : Type 0} (o : Option A) → Reads (required o)
unfolding required
required-Reads none = λ w. refl
required-Reads (some a) = λ w. refl

-- What every insert of an allowed attempt keeps, the reads and the decision keep too.
module _ (P : Db → Type 0) (task_run : TaskRun)
    (inserts : (n : ℕ)
      → n ≤ task_run.max_retries + 1
      → Triple P (insert_attempt task_run n) P) where
  start_unless_keeps : (found : Option TaskRunAttempt) → Triple P (start_unless task_run found) P
  start_unless_keeps (some a) = λ w p. p
  start_unless_keeps none =
      bind-Triple P P P (insert_attempt task_run 1) _ (λ d p. p) (inserts 1 (omega arith))
        (λ _.
          read-Triple P P (select_last_task_run_attempt task_run) _ (last-Reads task_run) (λ d p. p)
            (λ found. Reads-Triple P P (required found) (required-Reads found) (λ d p. p)))

  pub get_or_start_keeps : Triple P (get_or_start_task_run_attempt task_run) P
  unfolding get_or_start_task_run_attempt
  get_or_start_keeps =
      read-Triple P P (select_last_task_run_attempt task_run) (start_unless task_run)
        (last-Reads task_run) (λ d p. p) start_unless_keeps

  pub derive_keeps : (last : TaskRunAttempt) → Triple P (derive_next_status task_run last) P
  unfolding derive_next_status
  derive_keeps last = elim (Bool-cases (last.status == TaskRunAttempt.invalid)) [
    | inl e ↦ rw e (λ w p. p)
    | inr e ↦ rw e (elim (Bool-cases (last.status == TaskRunAttempt.succeeded)) [
      | inl e ↦ rw e (λ w p. p)
      | inr e ↦ rw e (elim (Bool-cases (not (TaskRunAttempt.is_finished last.status))) [
        | inl e ↦ rw e (λ w p. p)
        | inr e ↦ rw e (elim (Bool-cases (last.status == TaskRunAttempt.failed)) [
          | inl e ↦ rw e (elim (Bool-cases (ltb last.attempt (u32 (task_run.max_retries + 1)))) [
            | inl left ↦ rw left (retry left)
            | inr none_left ↦ rw none_left (λ w p. p)
          ])
          | inr e ↦ rw e (elim (Bool-cases (last.status == TaskRunAttempt.timed_out)) [
            | inl e ↦ rw e (λ w p. p)
            | inr e ↦ rw e (elim (Bool-cases (TaskRunAttempt.is_stopped last.status)) [
              | inl e ↦ rw e (λ w p. p)
              | inr e ↦ rw e (λ w p. p)
            ])
          ])
        ])
      ])
    ])
  ]
    where
      retry :
          ltb last.attempt (u32 (task_run.max_retries + 1)) ≡ true
          → Triple P (insert_next_attempt task_run last >> pure (some TaskRun.running)) P
      retry left =
          bind-Triple P P P (insert_attempt task_run (u32 (last.attempt + 1))) _ (λ d p. p)
            (inserts (u32 (last.attempt + 1)) (ground arith)) (λ _ w p. p)

-- An attempt of another task run, or numbered at most one above the retries.
abbrev pub IsNumberedWithin : TaskRun → TaskRunAttempt → Type 0
IsNumberedWithin task_run a = (a.task_run_id ≢ task_run.id) ⊎ (a.attempt ≤ task_run.max_retries + 1)

-- Attempts of the task run are numbered at most one above its retries.
abbrev pub IsWithinRetries : TaskRun → Db → Type 0
IsWithinRetries task_run d = All (IsNumberedWithin task_run) d.task_run_attempts

module _ (task_run : TaskRun) where
  abbrev Within : Db → Type 0
  Within = IsWithinRetries task_run

  insert_attempt-Within :
      (n : ℕ) → n ≤ task_run.max_retries + 1 → Triple Within (insert_attempt task_run n) Within
  unfolding insert_attempt insert_task_run_attempt publish
  insert_attempt-Within n fits =
      bind-Triple Within Within Within (insert_task_run_attempt (attempt_of task_run n))
        (λ _. publish) (λ d p. p)
        (λ w.
          insert-Triple Within Within _ _ (λ d p. p)
            (λ d p.
              All-append (IsNumberedWithin task_run) d.task_run_attempts
                (new_attempt_row (attempt_of task_run n) d.next_attempt_id w.now ∷ []) p
                (row d.next_attempt_id w.now, tt))
            w)
        (λ _ w p. p)
    where
      row :
          (id now : ℕ) → IsNumberedWithin task_run (new_attempt_row (attempt_of task_run n) id now)
      row id now = inr fits

  finish-Within : (s : TaskRunStatus) → Triple Within (update_task_run_status task_run s) Within
  unfolding update_task_run_status update_task_runs publish
  finish-Within s w =
      bind-Triple Within Within Within
        (update_task_runs (record { id = some task_run.id; job_run_id = none; status = none })
          (record { status = some s; started_at = none; finished_at = some (some w.now) }))
        (λ _. publish) (λ d p. p) (execute-Triple Within Within _ (λ d p. p) (λ d p. p))
        (λ _ w' p. p) w

  settle-Within : (s : Option TaskRunStatus) → Triple Within (settle task_run s) Within
  unfolding settle
  settle-Within (some TaskRun.succeeded) = finish-Within _
  settle-Within (some TaskRun.failed) = finish-Within _
  settle-Within (some TaskRun.timed_out) = finish-Within _
  settle-Within (some TaskRun.aborted) = finish-Within _
  settle-Within (some TaskRun.running) = λ w p. p
  settle-Within _ = finish-Within _

-- Where no attempt of a task run is numbered above its retries and one, that is so after TaskRunMonitor
-- has handled the task run, whichever operations fail.
pub handle-IsWithinRetries :
    (task_run : TaskRun) (w : World)
    → IsWithinRetries task_run w.db
    → IsWithinRetries task_run (handle task_run w).1.db
unfolding handle
handle-IsWithinRetries task_run =
    let W = IsWithinRetries task_run in
    let ins = insert_attempt-Within task_run in
    bind-Triple W W W (get_or_start_task_run_attempt task_run) _ (λ d p. p)
      (get_or_start_keeps W task_run ins)
      (λ last.
        bind-Triple W W W (derive_next_status task_run last) (settle task_run) (λ d p. p)
          (derive_keeps W task_run ins last) (settle-Within task_run))
