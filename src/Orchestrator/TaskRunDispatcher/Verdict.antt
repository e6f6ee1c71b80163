-- ===== src/Orchestrator/TaskRunDispatcher/Verdict.antt =====
-- When TaskRunDispatcher::derive_next_status lets a task run start, wait or be skipped.
use flowlite.Base.{
  ℕ, ◌≡◌, refl, sym, ap, ◌∙◌, String, Bool, true, false, ◌||◌, Option, none, some, List, [], ◌∷◌,
  any, ◌==◌, nat_Column, string_Column, arith, subst, if◌then◌else◌, filter, head?, All, In,
  head-filter,
}
use flowlite.Crud.TaskRun.{
  TaskRun, TaskRunStatus, TaskRunStatus_Column, running, succeeded, skipped, select_task_run,
  select_task_runs, task_run_filter,
}
use flowlite.Crud.World.{JobRunStop, Db, World, ok, ◌>>=◌, pure}
use flowlite.Crud.World.Inversion.{>>=-eq-ok, query-eq-ok, pure-eq-ok}
use flowlite.Crud.Statements
use flowlite.Crud.Statements.{required, is_job_run_stopped, select_job_run_stop, is_some}
use flowlite.Orchestrator.TaskRunDispatcher.{
  has_not_succeeded, verdict, dependency_filter, load_dependencies, should_skip, derive_next_status,
}
use flowlite.Orchestrator.TaskRunDispatcher.Bearings.{
  worst_bearing, status_of_bearing, verdict_bearing, is_running,
}

-- A row of the task that a dependency names, in the job run of the task run.
pub record IsDependency (db : Db) (task_run : TaskRun) (task_id : String) (d : TaskRun)
    : Type 0 where
  pub row : In d db.task_runs
  pub in_job_run : d.job_run_id ≡ task_run.job_run_id
  pub of_job : d.job_id ≡ task_run.job_id
  pub of_task : d.task_id ≡ task_id

dependency_filter_iff :
    (task_run : TaskRun) (task_id : String) (d : TaskRun)
    → task_run_filter (dependency_filter task_run task_id) d ≡ true
    → (d.job_run_id ≡ task_run.job_run_id) × (d.job_id ≡ task_run.job_id) × (d.task_id ≡ task_id)
unfolding task_run_filter
dependency_filter_iff task_run task_id d h =
    let h1 : (d.job_run_id == task_run.job_run_id) ≡ true = ground arith in
    let h2 : (d.job_id == task_run.job_id) ≡ true = ground arith in
    let h3 : (d.task_id == task_id) ≡ true = ground arith in
    (
      (nat_Column.equals_iff d.job_run_id task_run.job_run_id).0 h1,
      (string_Column.equals_iff d.job_id task_run.job_id).0 h2,
      (string_Column.equals_iff d.task_id task_id).0 h3,
    )

select-IsDependency :
    (db : Db) (task_run : TaskRun) (task_id : String) {d : TaskRun}
    → select_task_run (dependency_filter task_run task_id) db.task_runs ≡ some d
    → IsDependency db task_run task_id d
unfolding select_task_run select_task_runs
select-IsDependency db task_run task_id {d} e =
    let (row, test) =
      head-filter (task_run_filter (dependency_filter task_run task_id)) db.task_runs e in
    let (run, job, task) = dependency_filter_iff task_run task_id d test in
    record { row = row; in_job_run = run; of_job = job; of_task = task }

-- A row for each dependency, in their order.
abbrev pub AreDependencies : Db → TaskRun → List String → List TaskRun → Type 0
AreDependencies db task_run [] [] = Unit
AreDependencies db task_run [] (d ∷ ds) = ⊥
AreDependencies db task_run (task_id ∷ task_ids) [] = ⊥
AreDependencies db task_run (task_id ∷ task_ids) (d ∷ ds) =
    IsDependency db task_run task_id d × AreDependencies db task_run task_ids ds

required-eq-ok :
    {A : Type 0} (o : Option A) (w : World) {a : A} {w' : World}
    → required o w ≡ (ok a, w')
    → (o ≡ some a) × (w' ≡ w)
unfolding required
required-eq-ok none w h = cc
required-eq-ok (some a) w h = (cc, cc)

load_dependencies-AreDependencies :
    (task_run : TaskRun) (task_ids : List String) (w : World) (ds : List TaskRun) (w' : World)
    → load_dependencies task_run task_ids w ≡ (ok ds, w')
    → AreDependencies w.db task_run task_ids ds × (w'.db ≡ w.db)
unfolding load_dependencies Statements.select_task_run
load_dependencies-AreDependencies task_run [] w [] w' h = (tt, cc)
load_dependencies-AreDependencies task_run [] w (d ∷ ds) w' h = absurd (cc)
load_dependencies-AreDependencies task_run (task_id ∷ task_ids) w ds w' h =
    let rest = load_dependencies task_run task_ids in
    let (found, v, read, h1) =
      >>=-eq-ok (Statements.select_task_run (dependency_filter task_run task_id))
        (λ found. required found >>= λ d. rest >>= λ others. pure (d ∷ others)) w h in
    let (d, v1, needed, h2) =
      >>=-eq-ok (required found) (λ d. rest >>= λ others. pure (d ∷ others)) v h1 in
    let (others, v2, loaded, h3) = >>=-eq-ok rest (λ others. pure (d ∷ others)) v1 h2 in
    let (answer, same) =
      query-eq-ok (λ db. select_task_run (dependency_filter task_run task_id) db.task_runs) w
        read in
    let (got, here) = required-eq-ok found v needed in
    let (others_found, same2) =
      load_dependencies-AreDependencies task_run task_ids v1 others v2 loaded in
    let db1 : v1.db ≡ w.db = ap (λ (x : World). x.db) here ∙ same in
    let (all_of_them, last) = pure-eq-ok (d ∷ others) v2 h3 in
    (
      subst (AreDependencies w.db task_run (task_id ∷ task_ids)) all_of_them (
        select-IsDependency w.db task_run task_id (sym answer ∙ got),
        subst (λ db. AreDependencies db task_run task_ids others) db1 others_found,
      ),
      ap (λ (x : World). x.db) (sym last) ∙ same2 ∙ db1,
    )

-- A stop row of the job run, if there is one.
abbrev pub stop_of : Db → ℕ → Option JobRunStop
stop_of db job_run_id = head? (filter (λ s. s.job_run_id == job_run_id) db.job_run_stops)

is_job_run_stopped-eq-ok :
    (id : ℕ) (w w' : World) (b : Bool)
    → is_job_run_stopped id w ≡ (ok b, w')
    → (b ≡ is_some (stop_of w.db id)) × (w'.db ≡ w.db)
unfolding is_job_run_stopped
is_job_run_stopped-eq-ok id w w' b h =
    let (stop, v, read, h1) =
      >>=-eq-ok (select_job_run_stop id) (λ stop. pure (is_some stop)) w h in
    let (answer, same) = query-eq-ok (λ db. stop_of db id) w read in (cc (ap is_some answer), cc)

-- What derive_next_status has read, where it answers.
derive_next_status-eq-ok :
    (task_run : TaskRun) (w w' : World) {s : Option TaskRunStatus}
    → derive_next_status task_run w ≡ (ok s, w')
    → (ds : List TaskRun) × AreDependencies w.db task_run task_run.depends_on ds
      × (s
          ≡ verdict
              (is_some (stop_of w.db task_run.job_run_id)
                || any (λ t. has_not_succeeded t.status) ds)
              ds)
unfolding derive_next_status should_skip
derive_next_status-eq-ok task_run w w' h =
    let (ds, v, loads, h1) =
      >>=-eq-ok (load_dependencies task_run task_run.depends_on)
        (λ ds. should_skip task_run ds >>= λ skip. pure (verdict skip ds)) w h in
    let (skip, v1, asks, h2) =
      >>=-eq-ok (should_skip task_run ds) (λ skip. pure (verdict skip ds)) v h1 in
    let (stopped, v2, stops, h3) =
      >>=-eq-ok (is_job_run_stopped task_run.job_run_id)
        (λ stopped. pure (stopped || any (λ t. has_not_succeeded t.status) ds)) v asks in
    let (found, same) =
      load_dependencies-AreDependencies task_run task_run.depends_on w ds v loads in
    let (stop, same2) = is_job_run_stopped-eq-ok task_run.job_run_id v v2 stopped stops in
    let here : stopped ≡ is_some (stop_of w.db task_run.job_run_id) =
      stop ∙ ap (λ (x : Db). is_some (stop_of x task_run.job_run_id)) same in
    let (tests, _) = pure-eq-ok (stopped || any (λ t. has_not_succeeded t.status) ds) v2 h3 in
    let (answer, _) = pure-eq-ok (verdict skip ds) v1 h2 in
    (
      ds,
      found,
      sym answer
          ∙ ap (λ b. verdict b ds) (sym tests)
          ∙ ap (λ b. verdict (b || any (λ t. has_not_succeeded t.status) ds) ds) here,
    )

-- Where derive_next_status answers, it has one row of the table for each dependency, of that task in
-- the job run of the task run, and the answer is skipped where there is a stop of the job run, and
-- else the one that the worst of these rows calls for, whatever their order; there always is one.
pub derive_next_status-eq-worst :
    (task_run : TaskRun) (w w' : World) {s : Option TaskRunStatus}
    → derive_next_status task_run w ≡ (ok s, w')
    → (ds : List TaskRun) × AreDependencies w.db task_run task_run.depends_on ds
      × (s
          ≡ some (
              if is_some (stop_of w.db task_run.job_run_id)
              then skipped
              else status_of_bearing (worst_bearing ds)))
derive_next_status-eq-worst task_run w w' h =
    let (ds, found, answer) = derive_next_status-eq-ok task_run w w' h in
    (ds, found, answer ∙ verdict_bearing (is_some (stop_of w.db task_run.job_run_id)) ds)

-- A dependency that a row of the table shows to have succeeded.
abbrev pub IsSatisfied : Db → TaskRun → String → Type 0
IsSatisfied db task_run task_id =
    (d : TaskRun) × In d db.task_runs
    × (d.job_run_id ≡ task_run.job_run_id)
    × (d.job_id ≡ task_run.job_id)
    × (d.task_id ≡ task_id)
    × (d.status ≡ succeeded)

IsSatisfied-of_AreDependencies :
    (db : Db) (task_run : TaskRun) (task_ids : List String) (ds : List TaskRun)
    → AreDependencies db task_run task_ids ds
    → worst_bearing ds ≡ 0
    → All (IsSatisfied db task_run) task_ids
IsSatisfied-of_AreDependencies db task_run [] [] l h = tt
IsSatisfied-of_AreDependencies db task_run [] (d ∷ ds) l h = absurd l
IsSatisfied-of_AreDependencies db task_run (task_id ∷ task_ids) [] l h = absurd l
IsSatisfied-of_AreDependencies db task_run (task_id ∷ task_ids) (d ∷ ds) (is, l) h = (
  (d, is.row, is.in_job_run, is.of_job, is.of_task, ground arith),
  IsSatisfied-of_AreDependencies db task_run task_ids ds l (ground arith),
)

-- Where derive_next_status answers that a task run is to run, the table has for each task that it
-- depends on a row of that task, with the task run's job and job run, whose status is succeeded, and
-- there is no stop of the job run.
pub starts_after_dependencies :
    (task_run : TaskRun) (w w' : World)
    → derive_next_status task_run w ≡ (ok (some running), w')
    → All (IsSatisfied w.db task_run) task_run.depends_on
      × (stop_of w.db task_run.job_run_id ≡ none)
starts_after_dependencies task_run w w' h =
    let (ds, found, answer) = derive_next_status-eq-ok task_run w w' h in
    let (running_on, best) =
      is_running (is_some (stop_of w.db task_run.job_run_id)) ds (sym answer) in
    (
      IsSatisfied-of_AreDependencies w.db task_run task_run.depends_on ds found best,
      not_some _ running_on,
    )
  where
    not_some : (o : Option JobRunStop) → is_some o ≡ false → o ≡ none
    not_some none e = refl
    not_some (some s) e = cc
