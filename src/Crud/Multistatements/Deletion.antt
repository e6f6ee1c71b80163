-- ===== src/Crud/Multistatements/Deletion.antt =====
-- What `delete_job_run` leaves behind, whichever of its statements fails.
use flowlite.Base.{ℕ, Bool, true, Option, none, some, ◌≡◌, ◌≢◌, ◌⊎◌, arith}
use flowlite.Crud.JobRun
use flowlite.Crud.JobRun.{JobRun, any_job_run}
use flowlite.Crud.TaskRun
use flowlite.Crud.World.{Db, World, Result, ok, operation, query, execute, transaction, commit}
use flowlite.Crud.Statements.{
  is_some, attempt_ids, select_job_run, update_job_runs, update_task_runs,
}
use flowlite.Crud.Multistatements.{settle_unstarted, delete_job_run}

-- The run of this id, where it is still scheduled.
abbrev pub scheduled_run : ℕ → Db → Option JobRun
scheduled_run id d =
    JobRun.select_job_run (attempt_ids d)
      (record any_job_run { id = some id; status = some JobRun.scheduled }) d.job_runs

-- The database with the run and its task runs settled, both in one step.
abbrev pub tombstoned : ℕ → ℕ → Db → Db
tombstoned id now d = record d {
  job_runs =
      JobRun.update_job_runs (some id)
        (record { status = some JobRun.deleted; started_at = none; finished_at = some (some now) })
        d.job_runs;
  task_runs =
      TaskRun.update_task_runs (record { id = none; job_run_id = some id; status = none })
        (record { status = some TaskRun.skipped; started_at = none; finished_at = some (some now) })
        d.task_runs;
}

-- Nothing is written and no deletion is told, or both writes are there and it is told.
abbrev pub AllOrNothing : ℕ → World → Result Bool × World → Type 0
AllOrNothing id w x =
    ((x.1.db ≡ w.db) × (x.0 ≢ ok true))
    ⊎ ((x.0 ≡ ok true)
        × (x.1.db ≡ tombstoned id w.now w.db)
        × (is_some (scheduled_run id w.db) ≡ true))

-- Whichever statement of it fails, `delete_job_run` either leaves the database as it was and does not
-- tell of a deletion, or it tells of one, the run was still scheduled, and both the run and its task
-- runs are settled.
pub delete_job_run-AllOrNothing : (id : ℕ) (w : World) → AllOrNothing id w (delete_job_run id w)
unfolding delete_job_run transaction select_job_run update_job_runs update_task_runs commit query
    execute operation settle_unstarted
delete_job_run-AllOrNothing id w = ground arith
