-- ===== src/Orchestrator/JobRuns.antt =====
-- What the services' handlers, and a deletion or a stop by a user, do to the `job_run` table.
pub mod Handlers
pub mod Passes
use flowlite.Base.{
  subst, ℕ, ◌<◌, ◌≡◌, refl, ◌⊎◌, inl, inr, Bool, true, false, Option, none, some, List, [], ◌∷◌,
  arith, if◌then◌else◌, sym,
}
use flowlite.Crud.JobRun
use flowlite.Crud.JobRun.{JobRun, JobRunStatus, JobRunInput, given}
use flowlite.Crud.JobRun.Lifecycle.{
  Forward, StepAt, StepAt-refl, JobRunsEvolveAt, IsCurrent, update_job_runs-JobRunsEvolveAt,
}
use flowlite.Base.{Matched-refl}
use flowlite.Crud.TaskRun
use flowlite.Crud.TaskRun.{TaskRun, TaskRunStatus, TaskRunKey, TaskRunInput}
use flowlite.Crud.TaskRunAttempt.{TaskRunAttempt}
use flowlite.Crud.World.{Db, World, Action, ◌>>=◌, ◌>>◌, pure, done, publish, current_ts, commit}
use flowlite.Crud.World.Triples.{
  Triple, Reads, query-Reads, create_job_run_dir-Reads, publish-Reads, commit-Reads, bind-Reads,
  execute-Triple, insert-Triple, Reads-Triple, bind-Triple, read-Triple, transaction-Triple,
}
use flowlite.Crud.Statements.{
  update_job_runs, update_task_runs, is_job_run_stopped, select_job_run_stop, select_job,
  select_job_runs, select_job_run, insert_job_run_stop,
}
use flowlite.Crud.Multistatements.{
  settle_unstarted, skip_job_run, invalidate_job_run, delete_job_run, is_job_at_max_parallel_runs,
}
use flowlite.Orchestrator.JobRunReleaser
use flowlite.Orchestrator.JobRunDispatcher
use flowlite.Orchestrator.JobRunMonitor

abbrev pub HasJobRuns : List JobRun → Db → Type 0
HasJobRuns rows d = d.job_runs ≡ rows

abbrev pub EvolvedJobRuns : ℕ → List JobRun → Db → Type 0
EvolvedJobRuns id rows d = JobRunsEvolveAt id rows d.job_runs

-- From a table `rows` the action leaves one that has evolved from it.
abbrev pub AdvancesJobRuns : {A : Type 0} → ℕ → List JobRun → Action A → Type 0
AdvancesJobRuns id rows m = Triple (HasJobRuns rows) m (EvolvedJobRuns id rows)

pub is_job_run_stopped-Reads : (id : ℕ) → Reads (is_job_run_stopped id)
unfolding is_job_run_stopped
is_job_run_stopped-Reads id = bind-Reads (select_job_run_stop id) _ (query-Reads _) (λ stop w. refl)

module _ (id : ℕ) (rows : List JobRun) where
  pub has-evolved : (d : Db) → HasJobRuns rows d → EvolvedJobRuns id rows d
  has-evolved d p =
      subst (λ t. JobRunsEvolveAt id rows t) (sym p)
        (Matched-refl (StepAt id) (StepAt-refl id) rows)

  pub Reads-AdvancesJobRuns : {A : Type 0} (m : Action A) → Reads m → AdvancesJobRuns id rows m
  Reads-AdvancesJobRuns m reads =
      Reads-Triple (HasJobRuns rows) (EvolvedJobRuns id rows) m reads has-evolved

  -- A read in front.
  pub reading :
      {A B : Type 0} (m : Action A) (f : A → Action B)
      → Reads m
      → ((a : A) → AdvancesJobRuns id rows (f a))
      → AdvancesJobRuns id rows (m >>= f)
  reading m f reads next =
      read-Triple (HasJobRuns rows) (EvolvedJobRuns id rows) m f reads has-evolved next

  -- A last wake-up.
  pub publishing :
      {A : Type 0} (m : Action A)
      → AdvancesJobRuns id rows m
      → AdvancesJobRuns id rows (m >> publish)
  unfolding publish
  publishing m h =
      bind-Triple (HasJobRuns rows) (EvolvedJobRuns id rows) (EvolvedJobRuns id rows) m
        (λ _. publish) (λ d q. q) h (λ _ w q. q)

  -- A write to the task runs in front.
  pub task_runs_first :
      {B : Type 0} (k : TaskRunKey) (i : TaskRunInput) (f : Unit → Action B)
      → ((u : Unit) → AdvancesJobRuns id rows (f u))
      → AdvancesJobRuns id rows (update_task_runs k i >>= f)
  unfolding update_task_runs
  task_runs_first k i f =
      bind-Triple (HasJobRuns rows) (HasJobRuns rows) (EvolvedJobRuns id rows)
        (update_task_runs k i) f has-evolved
        (execute-Triple (HasJobRuns rows) (HasJobRuns rows) _ (λ d p. p) (λ d p. p))

module _ (rows : List JobRun) (job_run : JobRun) (current : IsCurrent job_run rows) where
  pub update-AdvancesJobRuns :
      (i : JobRunInput)
      → Forward job_run.status (given i.status job_run.status)
      → AdvancesJobRuns job_run.id rows (update_job_runs (some job_run.id) i)
  unfolding update_job_runs
  update-AdvancesJobRuns i fwd =
      execute-Triple (HasJobRuns rows) (EvolvedJobRuns job_run.id rows) _
        (has-evolved job_run.id rows)
        (λ d p.
          subst
            (λ t. JobRunsEvolveAt job_run.id rows (JobRun.update_job_runs (some job_run.id) i t))
            (sym p) (update_job_runs-JobRunsEvolveAt job_run i rows fwd current))

  pub settle_unstarted-AdvancesJobRuns :
      (t : TaskRunStatus) (s : JobRunStatus)
      → Forward job_run.status s
      → AdvancesJobRuns job_run.id rows (settle_unstarted t s job_run.id)
  unfolding settle_unstarted
  settle_unstarted-AdvancesJobRuns t s fwd w =
      task_runs_first job_run.id rows _ _ _ (λ _. update-AdvancesJobRuns _ fwd) w
