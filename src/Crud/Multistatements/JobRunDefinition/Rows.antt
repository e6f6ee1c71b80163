-- ===== src/Crud/Multistatements/JobRunDefinition/Rows.antt =====
-- The rows that a submission leaves, whole or cut short by a statement that failed.
use flowlite.Base.{
  ℕ, suc, ◌<◌, none, length, ◌≡◌, refl, sym, ap, ◌∙◌, subst, String, List, [], ◌∷◌, ◌++◌, take,
  append_assoc, append-nil, arith,
}
use flowlite.Crud.JobRun
use flowlite.Crud.JobRun.{JobRun}
use flowlite.Crud.TaskRun
use flowlite.Crud.TaskRun.{TaskRun}
use flowlite.Crud.World.{
  World, Db, JobRunNotification, Error, Result, ok, err, pure, insert, operation,
}
use flowlite.Crud.World.Preserved.{bind-cases}
use flowlite.Crud.World.Inversion.{insert-eq-ok, insert-eq-err, >>=-eq-ok, pure-eq-ok}
use flowlite.Crud.Statements.{
  NewJobRun, NewTaskRun, new_job_run_row, new_task_run_row, task_run_allowed, job_run_allowed,
  insert_job_run, insert_task_run,
}
use flowlite.Crud.Multistatements.JobRunDefinition.{
  JobRunDefinition, JobRunTaskDefinition, job_run_input, task_run_input, insert_tasks,
}

-- The row of a job run that waits for JobRunReleaser.
abbrev pub scheduled_row : JobRunDefinition → (id now : ℕ) → JobRun
scheduled_row definition id now = record {
  id = id;
  job_id = definition.job_id;
  job_name = definition.job_name;
  job_description = definition.job_description;
  parameters = definition.parameters;
  created_at = now;
  scheduled_at = definition.scheduled_at;
  schedule_id = definition.schedule_id;
  parent_task_run_attempt_id = definition.parent_task_run_attempt_id;
  started_at = none;
  finished_at = none;
  status = JobRun.scheduled;
}

-- The row of a task run that nothing dispatches yet.
abbrev pub planned_row : (job_run_id : ℕ) → String → JobRunTaskDefinition → (id now : ℕ) → TaskRun
planned_row job_run_id job_id task id now = record {
  id = id;
  job_run_id = job_run_id;
  job_id = job_id;
  task_id = task.task_id;
  command = task.command;
  stdin = task.stdin;
  depends_on = task.depends_on;
  timeout = task.timeout;
  idle_timeout = task.idle_timeout;
  max_retries = task.max_retries;
  retry_delay = task.retry_delay;
  env = task.env;
  secret_env = task.secret_env;
  working_dir = task.working_dir;
  limits = task.limits;
  created_at = now;
  started_at = none;
  finished_at = none;
  status = TaskRun.planned;
}

-- The task runs of some tasks, from an id on.
abbrev pub planned_rows : ℕ → String → ℕ → ℕ → List JobRunTaskDefinition → List TaskRun
planned_rows job_run_id job_id now id [] = []
planned_rows job_run_id job_id now id (task ∷ tasks) =
    planned_row job_run_id job_id task id now ∷ planned_rows job_run_id job_id now (suc id) tasks

-- The table of notifications, and its next id.
abbrev pub outbox : Db → List JobRunNotification × ℕ
outbox db = (db.job_run_notifications, db.next_notification_id)

-- Rows were added to the task runs: one for each task where the loop came to its end, and else for fewer
-- of the first ones than there are tasks.
pub record TasksInserted (job_run_id : ℕ) (job_id : String) (tasks : List JobRunTaskDefinition)
    (db : Db) (now : ℕ) (answer : Result Unit) (after : World) : Type 0 where
  pub written : ℕ
  pub task_runs :
      after.db.task_runs
      ≡ db.task_runs ++ planned_rows job_run_id job_id now db.next_task_run_id (take written tasks)
  pub job_runs : after.db.job_runs ≡ db.job_runs
  pub complete : answer ≡ ok tt → take written tasks ≡ tasks
  pub partial : {e : Error} → answer ≡ err e → written < length tasks
  pub untouched : outbox after.db ≡ outbox db
  pub clock : after.now ≡ now

pub ap2 : {a b : Db} {m n : ℕ} → a ≡ b → m ≡ n → ◌≡◌ {A = Db × ℕ} (a, m) (b, n)
ap2 p q i = (p i, q i)

-- The tables with one more task run.
abbrev with_task_run : NewTaskRun → ℕ → Db → Db
with_task_run n now db = record db {
  task_runs = db.task_runs ++ new_task_run_row n db.next_task_run_id now ∷ [];
  next_task_run_id = suc db.next_task_run_id;
}

pub insert_tasks-TasksInserted :
    (job_run_id : ℕ) (job_id : String) (tasks : List JobRunTaskDefinition) (w : World)
    → let x = insert_tasks job_run_id job_id tasks w in
      TasksInserted job_run_id job_id tasks w.db w.now x.0 x.1
unfolding insert_tasks insert_task_run new_task_run_row task_run_input
insert_tasks-TasksInserted job_run_id job_id [] w = record {
  written = 0;
  task_runs = sym (append-nil w.db.task_runs);
  job_runs = refl;
  complete = λ _. refl;
  partial = λ h. cc;
  untouched = refl;
  clock = refl;
}
insert_tasks-TasksInserted job_run_id job_id (task ∷ tasks) w =
    let n = task_run_input job_run_id job_id task in
    bind-cases
      (λ (x : Result Unit × World).
        TasksInserted job_run_id job_id (task ∷ tasks) w.db w.now x.0 x.1)
      (insert_task_run n) (λ _. insert_tasks job_run_id job_id tasks) w
      (λ u v e.
        let (db, clock) = insert-eq-ok (task_run_allowed n) (with_task_run n w.now) w e in
        let x = insert_tasks job_run_id job_id tasks v in
        let rest =
          subst (λ (s : Db × ℕ). TasksInserted job_run_id job_id tasks s.0 s.1 x.0 x.1)
            (ap2 db clock) (insert_tasks-TasksInserted job_run_id job_id tasks v) in
        record {
          written = suc rest.written;
          task_runs = rest.task_runs ∙ append_assoc w.db.task_runs _ _;
          job_runs = rest.job_runs;
          complete = λ h. ap (λ ts. task ∷ ts) (rest.complete h);
          partial = λ h. let l = rest.partial h in omega (arith, l);
          untouched = rest.untouched;
          clock = rest.clock;
        })
      (λ v e h.
        let (db, clock) = insert-eq-err (task_run_allowed n) (with_task_run n w.now) w h in
        record {
          written = 0;
          task_runs = ap (λ (d : Db). d.task_runs) db ∙ sym (append-nil w.db.task_runs);
          job_runs = ap (λ (d : Db). d.job_runs) db;
          complete = λ h. cc;
          partial = λ _. omega arith;
          untouched = ap outbox db;
          clock = clock;
        })

-- The tables with one more job run.
abbrev pub with_job_run : JobRunDefinition → ℕ → Db → Db
with_job_run definition now db = record db {
  job_runs = db.job_runs ++ scheduled_row definition db.next_job_run_id now ∷ [];
  next_job_run_id = suc db.next_job_run_id;
}

pub insert_job_run-eq-ok :
    (definition : JobRunDefinition) (w : World) {id : ℕ} {v : World}
    → insert_job_run (job_run_input definition) w ≡ (ok id, v)
    → (id ≡ w.db.next_job_run_id) × (v.db ≡ with_job_run definition w.now w.db) × (v.now ≡ w.now)
unfolding insert_job_run new_job_run_row job_run_input
insert_job_run-eq-ok definition w {id} {v} h =
    let allowed = job_run_allowed (job_run_input definition) in
    let (u, middle, first, last) =
      >>=-eq-ok (insert allowed (with_job_run definition w.now)) (λ _. pure w.db.next_job_run_id) w
        h in
    let (db, clock) = insert-eq-ok allowed (with_job_run definition w.now) w first in
    let (same, rest) = pure-eq-ok w.db.next_job_run_id middle last in
    (
      sym same,
      ap (λ (x : World). x.db) (sym rest) ∙ db,
      ap (λ (x : World). x.now) (sym rest) ∙ clock,
    )

pub insert_job_run-eq-err :
    (n : NewJobRun) (w : World) {e : Error} {v : World}
    → insert_job_run n w ≡ (err e, v)
    → (v.db ≡ w.db) × (v.now ≡ w.now)
unfolding insert_job_run insert operation
insert_job_run-eq-err n w h = ground arith
