-- ===== src/Orchestrator/TaskRuns.antt =====
-- What the services' handlers do to the `task_run` table.
pub mod Handlers
use flowlite.Base.{
  subst, ℕ, ◌≡◌, refl, sym, inl, inr, ◌⊎◌, ◌<◌, Bool, true, false, ◌&&◌, Option, none, some, List,
  [], ◌∷◌, All, All-imp, All-of, arith, Matched-refl, String, nat_Column, ==_iff, matches,
}
use flowlite.Crud.JobRun.{given, JobRun}
use flowlite.Crud.TaskRun
use flowlite.Crud.TaskRun.{
  TaskRun, TaskRunStatus, TaskRunStatus_Column, TaskRunInput, TaskRunKey, task_run_key,
}
use flowlite.Crud.TaskRun.Lifecycle.{
  rank, Forward, TaskRunStep, TaskRunStep-refl, TaskRunsEvolve, update_task_runs-TaskRunsEvolve,
}
use flowlite.Crud.TaskRunAttempt.{TaskRunAttempt}
use flowlite.Crud.World.{Db, World, Action, ◌>>=◌, ◌>>◌, pure, done, publish}
use flowlite.Crud.World.Triples.{
  Triple, Reads, query-Reads, bind-Reads, execute-Triple, insert-Triple, Reads-Triple, bind-Triple,
  read-Triple,
}
use flowlite.Crud.Statements
use flowlite.Crud.Statements.{required, update_task_runs, NewAttempt, insert_task_run_attempt}
use flowlite.Orchestrator.JobRuns.{is_job_run_stopped-Reads}
use flowlite.Orchestrator.TaskRunDispatcher
use flowlite.Orchestrator.TaskRunMonitor

abbrev pub HasTaskRuns : List TaskRun → Db → Type 0
HasTaskRuns rows d = d.task_runs ≡ rows

abbrev pub EvolvedTaskRuns : List TaskRun → Db → Type 0
EvolvedTaskRuns rows d = TaskRunsEvolve rows d.task_runs

abbrev pub AdvancesTaskRuns : {A : Type 0} → List TaskRun → Action A → Type 0
AdvancesTaskRuns rows m = Triple (HasTaskRuns rows) m (EvolvedTaskRuns rows)

-- What is known of the table when a handler starts: the row's id stands for its status.
abbrev pub IsCurrent : TaskRun → List TaskRun → Type 0
IsCurrent task_run rows = All (λ r. r.id ≡ task_run.id → r.status ≡ task_run.status) rows

pub required-Reads : {A : Type 0} (o : Option A) → Reads (required o)
unfolding required
required-Reads none = λ w. refl
required-Reads (some a) = λ w. refl

abbrev key_of : TaskRun → TaskRunKey
key_of task_run = record { id = some task_run.id; job_run_id = none; status = none }

module _ (rows : List TaskRun) where
  pub has-evolved : (d : Db) → HasTaskRuns rows d → EvolvedTaskRuns rows d
  has-evolved d p =
      subst (λ t. TaskRunsEvolve rows t) (sym p) (Matched-refl TaskRunStep TaskRunStep-refl rows)

  -- Actions in front that leave the task runs alone.
  pub before :
      {A B : Type 0} (m : Action A) (f : A → Action B)
      → Triple (HasTaskRuns rows) m (HasTaskRuns rows)
      → ((a : A) → AdvancesTaskRuns rows (f a))
      → AdvancesTaskRuns rows (m >>= f)
  before m f =
      bind-Triple (HasTaskRuns rows) (HasTaskRuns rows) (EvolvedTaskRuns rows) m f has-evolved

  pub reading :
      {A : Type 0} (m : Action A) → Reads m → Triple (HasTaskRuns rows) m (HasTaskRuns rows)
  reading m reads = Reads-Triple (HasTaskRuns rows) (HasTaskRuns rows) m reads (λ d p. p)

  module _ (task_run : TaskRun) (current : IsCurrent task_run rows) where
    write-AdvancesTaskRuns :
        (i : TaskRunInput)
        → Forward task_run.status (given i.status task_run.status)
        → AdvancesTaskRuns rows (update_task_runs (key_of task_run) i >> publish)
    unfolding update_task_runs publish
    write-AdvancesTaskRuns i fwd =
        bind-Triple (HasTaskRuns rows) (EvolvedTaskRuns rows) (EvolvedTaskRuns rows)
          (update_task_runs (key_of task_run) i) (λ _. publish) (λ d q. q)
          (execute-Triple (HasTaskRuns rows) (EvolvedTaskRuns rows) _ has-evolved (λ d p.
            subst (λ t. TaskRunsEvolve rows (TaskRun.update_task_runs (key_of task_run) i t))
              (sym p)
              (update_task_runs-TaskRunsEvolve (key_of task_run) i rows
                (All-imp named rows current))))
          (λ _ w q. q)
      where
        named :
            (r : TaskRun)
            → (r.id ≡ task_run.id → r.status ≡ task_run.status)
            → task_run_key (key_of task_run) r ≡ true
            → Forward r.status (given i.status r.status)
        named r same hit = let e = same ((==_iff r.id task_run.id).0 (ground arith)) in rw e fwd

    pub dispatcher_settle-AdvancesTaskRuns :
        task_run.status ≡ TaskRun.waiting
        → (s : Option TaskRunStatus) → AdvancesTaskRuns rows (TaskRunDispatcher.settle task_run s)
    unfolding TaskRunDispatcher.settle
    dispatcher_settle-AdvancesTaskRuns e (some TaskRun.skipped) = λ w.
        write-AdvancesTaskRuns
          (record {
            status = some TaskRun.skipped;
            started_at = none;
            finished_at = some (some w.now);
          })
          (ground arith) w
    dispatcher_settle-AdvancesTaskRuns e (some TaskRun.waiting) = λ w. has-evolved w.db
    dispatcher_settle-AdvancesTaskRuns e (some TaskRun.running) = λ w.
        write-AdvancesTaskRuns
          (record {
            status = some TaskRun.running;
            started_at = some (some w.now);
            finished_at = none;
          })
          (ground arith) w
    dispatcher_settle-AdvancesTaskRuns e _ = λ w.
        write-AdvancesTaskRuns
          (record {
            status = some TaskRun.invalid;
            started_at = none;
            finished_at = some (some w.now);
          })
          (ground arith) w

    finish :
        (s : TaskRunStatus)
        → task_run.status ≡ TaskRun.running
        → rank s ≡ 3
        → AdvancesTaskRuns rows (TaskRunMonitor.update_task_run_status task_run s)
    unfolding TaskRunMonitor.update_task_run_status
    finish s e last w =
        write-AdvancesTaskRuns
          (record { status = some s; started_at = none; finished_at = some (some w.now) })
          (ground arith) w

    pub monitor_settle-AdvancesTaskRuns :
        task_run.status ≡ TaskRun.running
        → (s : Option TaskRunStatus) → AdvancesTaskRuns rows (TaskRunMonitor.settle task_run s)
    unfolding TaskRunMonitor.settle
    monitor_settle-AdvancesTaskRuns e (some TaskRun.succeeded) = finish TaskRun.succeeded e refl
    monitor_settle-AdvancesTaskRuns e (some TaskRun.failed) = finish TaskRun.failed e refl
    monitor_settle-AdvancesTaskRuns e (some TaskRun.timed_out) = finish TaskRun.timed_out e refl
    monitor_settle-AdvancesTaskRuns e (some TaskRun.aborted) = finish TaskRun.aborted e refl
    monitor_settle-AdvancesTaskRuns e (some TaskRun.running) = λ w. has-evolved w.db
    monitor_settle-AdvancesTaskRuns e _ = finish TaskRun.invalid e refl
