-- ===== src/Crud/Multistatements/DeleteJobRunsWithChildren.antt =====
-- src/crud/multistatements/delete_job_runs_with_children.rs: the rows of one run, deleted for good.
use flowlite.Base.{
  ℕ, ◌≡◌, Bool, true, not, ◌&&◌, Option, none, some, List, filter, any, all, ◌==◌, nat_Column,
}
use flowlite.Crud.JobRun.{JobRun}
use flowlite.Crud.TaskRun.{TaskRun}
use flowlite.Crud.TaskRunAttempt.{TaskRunAttempt}
use flowlite.Crud.TaskRunAttemptOutput.{TaskRunAttemptOutput}
use flowlite.Crud.World.{Db, World, Action, JobRunStop, JobRunNotification, ◌>>◌, insert}

-- The rows of a table that are another run's.
abbrev pub others : {A : Type 0} → (A → ℕ) → ℕ → List A → List A
others run_of id rows = filter (λ row. not (run_of row == id)) rows

-- Whether a row references nothing that is gone: an attempt by its id.
abbrev pub has_attempt : Db → ℕ → Bool
has_attempt db attempt_id = any (λ a. a.id == attempt_id) db.task_run_attempts

abbrev pub has_task_run : Db → ℕ → Bool
has_task_run db task_run_id = any (λ t. t.id == task_run_id) db.task_runs

abbrev pub has_job_run : Db → ℕ → Bool
has_job_run db job_run_id = any (λ j. j.id == job_run_id) db.job_runs

abbrev pub has_parent : Db → Option ℕ → Bool
has_parent db none = true
has_parent db (some attempt_id) = has_attempt db attempt_id

-- The foreign keys (PRAGMA foreign_keys).
unfoldable pub is_sound : Db → Bool
is_sound db =
    all
      (λ o.
        has_attempt db o.task_run_attempt_id
        && has_task_run db o.task_run_id
        && has_job_run db o.job_run_id)
      db.task_run_attempt_outputs
    && all (λ a. has_task_run db a.task_run_id && has_job_run db a.job_run_id) db.task_run_attempts
    && all (λ t. has_job_run db t.job_run_id) db.task_runs
    && all (λ s. has_job_run db s.job_run_id) db.job_run_stops
    && all (λ n. has_job_run db n.job_run_id) db.job_run_notifications
    && all (λ j. has_parent db j.parent_task_run_attempt_id) db.job_runs

-- A DELETE that the database refuses where a row would reference what is gone.
unfoldable pub delete : (Db → Db) → Action Unit
unfolding is_sound
delete g = insert (λ db. is_sound (g db)) g

abbrev pub without_outputs : ℕ → Db → Db
without_outputs id db = record db {
  task_run_attempt_outputs =
      others (λ (o : TaskRunAttemptOutput). o.job_run_id) id db.task_run_attempt_outputs;
}

abbrev pub without_attempts : ℕ → Db → Db
without_attempts id db = record db {
  task_run_attempts = others (λ (a : TaskRunAttempt). a.job_run_id) id db.task_run_attempts;
}

abbrev pub without_task_runs : ℕ → Db → Db
without_task_runs id db = record db {
  task_runs = others (λ (t : TaskRun). t.job_run_id) id db.task_runs;
}

abbrev pub without_stops : ℕ → Db → Db
without_stops id db = record db {
  job_run_stops = others (λ (s : JobRunStop). s.job_run_id) id db.job_run_stops;
}

abbrev pub without_notifications : ℕ → Db → Db
without_notifications id db = record db {
  job_run_notifications =
      others (λ (n : JobRunNotification). n.job_run_id) id db.job_run_notifications;
}

abbrev pub without_job_run : ℕ → Db → Db
without_job_run id db = record db { job_runs = others (λ (j : JobRun). j.id) id db.job_runs }

unfoldable pub delete_job_run_rows : ℕ → Action Unit
delete_job_run_rows id =
    delete (without_outputs id)
    >> (delete (without_attempts id)
        >> (delete (without_task_runs id)
            >> (delete (without_stops id)
                >> (delete (without_notifications id) >> delete (without_job_run id)))))

-- The tables with the rows of the other runs only, and all of them.
pub record IsPurged (id : ℕ) (before after : Db) : Type 0 where
  pub outputs :
      after.task_run_attempt_outputs
      ≡ others (λ (o : TaskRunAttemptOutput). o.job_run_id) id before.task_run_attempt_outputs
  pub attempts :
      after.task_run_attempts
      ≡ others (λ (a : TaskRunAttempt). a.job_run_id) id before.task_run_attempts
  pub task_runs : after.task_runs ≡ others (λ (t : TaskRun). t.job_run_id) id before.task_runs
  pub stops :
      after.job_run_stops ≡ others (λ (s : JobRunStop). s.job_run_id) id before.job_run_stops
  pub notifications :
      after.job_run_notifications
      ≡ others (λ (n : JobRunNotification). n.job_run_id) id before.job_run_notifications
  pub job_runs : after.job_runs ≡ others (λ (j : JobRun). j.id) id before.job_runs
