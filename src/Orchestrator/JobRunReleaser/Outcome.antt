-- ===== src/Orchestrator/JobRunReleaser/Outcome.antt =====
-- What JobRunReleaser writes when no operation fails.
use flowlite.Base.{
  ℕ, leb, ◌≡◌, refl, Bool, true, false, none, some, List, [], ◌∷◌, arith, Matched, Matched-refl,
  ◌==◌, nat_Column, if◌then◌else◌, head?, filter, any, ap,
}
use flowlite.Crud.JobRun
use flowlite.Crud.JobRun.{JobRun, JobRunStatus, JobRunInput}
use flowlite.Crud.TaskRun
use flowlite.Crud.TaskRun.{TaskRun, TaskRunStatus, TaskRunStatus_Column}
use flowlite.Crud.World.{Db, World, Result, ok, operation, query, execute, publish}
use flowlite.Crud.Statements.{is_some, is_job_run_stopped, update_job_runs, update_task_runs}
use flowlite.Crud.Multistatements.{skip_job_run}
use flowlite.Orchestrator.JobRunReleaser.{verdict, handle, derive_next_status, settle}

-- The same world, in which no operation is going to fail.
abbrev pub calm : World → World
calm w = record w { faults = [] }

abbrev pub is_stopped : Db → ℕ → Bool
is_stopped db id = any (λ s. s.job_run_id == id) db.job_run_stops

is_some-head-filter :
    {A : Type 0} (p : A → Bool) (xs : List A) → is_some (head? (filter p xs)) ≡ any p xs
is_some-head-filter p [] = refl
is_some-head-filter p (x ∷ xs) = ground (arith, is_some-head-filter p xs)

derive_calm :
    (job_run : JobRun) (w : World)
    → derive_next_status job_run (calm w)
      ≡ (ok (verdict (is_stopped w.db job_run.id) (leb job_run.scheduled_at w.now)), calm w)
unfolding derive_next_status is_job_run_stopped query
derive_calm job_run w =
    ap (λ b. (ok (verdict b (leb job_run.scheduled_at w.now)), calm w))
      (is_some-head-filter (λ s. s.job_run_id == job_run.id) w.db.job_run_stops)

-- What becomes of a row of either table where a run is handled that has a stop or is due.
abbrev pub job_run_after : (stopped due : Bool) → ℕ → JobRun → JobRunStatus
job_run_after stopped due id r =
    if r.id == id
    then (if stopped then JobRun.skipped else if due then JobRun.queued else r.status)
    else r.status

abbrev pub task_run_after : (stopped : Bool) → ℕ → TaskRun → TaskRunStatus
task_run_after stopped id t =
    if stopped then (if t.job_run_id == id then TaskRun.skipped else t.status) else t.status

module _ (id : ℕ) where
  update_job_runs_status :
      (s : JobRunStatus) (i : JobRunInput) (rows : List JobRun)
      → i.status ≡ some s
      → Matched
          (λ r r'. r'.status ≡ (if r.id == id then s else r.status))
          rows
          (JobRun.update_job_runs (some id) i rows)
  unfolding JobRun.update_job_runs
  update_job_runs_status s i [] e = tt
  update_job_runs_status s i (r ∷ rows) e = (ground arith, update_job_runs_status s i rows e)

  update_task_runs_status :
      (s : TaskRunStatus) (i : TaskRun.TaskRunInput) (tasks : List TaskRun)
      → i.status ≡ some s
      → Matched
          (λ t t'. t'.status ≡ (if t.job_run_id == id then s else t.status))
          tasks
          (TaskRun.update_task_runs
            (record { id = none; job_run_id = some id; status = none })
            i
            tasks)
  unfolding TaskRun.update_task_runs
  update_task_runs_status s i [] e = tt
  update_task_runs_status s i (t ∷ tasks) e = (ground arith, update_task_runs_status s i tasks e)

-- What handling a run leaves behind.
abbrev pub Outcome : (stopped due : Bool) → ℕ → Db → Result Unit × World → Type 0
Outcome stopped due id d x =
    (x.0 ≡ ok tt)
    × Matched (λ r r'. r'.status ≡ job_run_after stopped due id r) d.job_runs x.1.db.job_runs
    × Matched (λ t t'. t'.status ≡ task_run_after stopped id t) d.task_runs x.1.db.task_runs

unchanged : (id : ℕ) (r : JobRun) → r.status ≡ (if r.id == id then r.status else r.status)
unchanged id r = ground arith

settle-Outcome :
    (job_run : JobRun) (w : World) (stopped due : Bool)
    → Outcome stopped due job_run.id w.db (settle job_run (verdict stopped due) (calm w))
unfolding verdict settle skip_job_run update_job_runs update_task_runs execute operation publish
settle-Outcome job_run w true due = (
  refl,
  update_job_runs_status job_run.id JobRun.skipped _ w.db.job_runs refl,
  update_task_runs_status job_run.id TaskRun.skipped _ w.db.task_runs refl,
)
settle-Outcome job_run w false true = (
  refl,
  update_job_runs_status job_run.id JobRun.queued _ w.db.job_runs refl,
  Matched-refl _ (λ t. refl) w.db.task_runs,
)
settle-Outcome job_run w false false = (
  refl,
  Matched-refl _ (unchanged job_run.id) w.db.job_runs,
  Matched-refl _ (λ t. refl) w.db.task_runs,
)

-- While no operation fails, JobRunReleaser handles any row it is given, and what it writes follows
-- from that row's id and scheduled instant alone: where there is a stop of the run, it is skipped with
-- all its task runs; where there is none and its instant has come, it is queued; else nothing
-- changes. The status that the run has in the table, or that its task runs have, plays no part in it,
-- and no other row changes its status.
pub handle-Outcome :
    (job_run : JobRun) (w : World)
    → Outcome
        (any (λ s. s.job_run_id == job_run.id) w.db.job_run_stops)
        (leb job_run.scheduled_at w.now)
        job_run.id
        w.db
        (handle job_run (calm w))
unfolding handle
handle-Outcome job_run w = rw (derive_calm job_run w) (settle-Outcome job_run w _ _)
