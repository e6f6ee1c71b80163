-- ===== src/Seeding/Progress.antt =====
-- A job that was accepted never waits for itself: what TaskRunDispatcher decides on its task runs.
use flowlite.Base.{
  ◌≡◌, ◌≢◌, refl, sym, subst, String, Bool, false, ◌⊎◌, inl, inr, none, some, List, [], ◌∷◌, map,
  In, All-In, arith, Bool-cases,
}
use flowlite.JobYaml.{JobYaml, JobYamlTask}
use flowlite.Seeding.{depends_on_of, validate_job_tasks}
use flowlite.Seeding.Graph.{Grounded, grounded}
use flowlite.Seeding.Declared.{ids_of, In-ids_of, ids_of-In, depends_on_of-declared}
use flowlite.Seeding.Plans.{IsPlan, validate_job_tasks-IsPlan}
use flowlite.Crud.TaskRun.{TaskRun, TaskRunStatus_Column, waiting, is_finished}
use flowlite.Orchestrator.TaskRunDispatcher.{verdict, is_still_waiting}

module _ (run_of : String → TaskRun) where
  -- A task run that has not ended.
  abbrev pub IsOpen : String → Type 0
  IsOpen id = is_finished (run_of id).status ≡ false

  -- Of some task runs, one has not ended, or the dispatcher does not hold back for them.
  some-IsOpen :
      (ids : List String)
      → ((id : String) × In id ids × IsOpen id) ⊎ (is_still_waiting (map run_of ids) ≡ false)
  unfolding is_still_waiting
  some-IsOpen [] = inr refl
  some-IsOpen (id ∷ ids) = elim (Bool-cases (is_finished (run_of id).status)) [
    | inr unended ↦ inl (id, inl refl, unended)
    | inl ended ↦ elim (some-IsOpen ids) [
      | inl (other, m, unended) ↦ inl (other, inr m, unended)
      | inr none_waits ↦ inr (ground arith)
    ]
  ]

  verdict-decided :
      (must_skip : Bool) (task_runs : List TaskRun)
      → is_still_waiting task_runs ≡ false
      → verdict must_skip task_runs ≢ some waiting
  unfolding verdict
  verdict-decided must_skip task_runs h e = ground arith

  -- A task whose run may be decided on.
  abbrev pub CanMove : List JobYamlTask → Type 0
  CanMove tasks =
      (task_yaml : JobYamlTask) × In task_yaml tasks
      × IsOpen task_yaml.id
      × ((must_skip : Bool) → verdict must_skip (map run_of task_yaml.depends_on) ≢ some waiting)

  Grounded-CanMove :
      (tasks : List JobYamlTask) (id : String)
      → IsPlan tasks
      → Grounded (depends_on_of tasks) id
      → (task_yaml : JobYamlTask) → In task_yaml tasks
      → task_yaml.id ≡ id
      → IsOpen id
      → CanMove tasks
  Grounded-CanMove tasks id plan (grounded h) task_yaml m e unended =
      elim (some-IsOpen task_yaml.depends_on) [
        | inr none_waits ↦ (
          task_yaml,
          m,
          subst IsOpen (sym e) unended,
          λ must_skip. verdict-decided must_skip (map run_of task_yaml.depends_on) none_waits,
        )
        | inl (dependency, among, waits) ↦
            let declared = depends_on_of-declared tasks task_yaml plan.distinct m in
            let along = subst (λ x. depends_on_of tasks x ≡ task_yaml.depends_on) e declared in
            let known = All-In _ task_yaml.depends_on (All-In _ tasks plan.known m) among in
            let (next, is_in, same) = In-ids_of tasks dependency known in
            Grounded-CanMove tasks dependency plan
              (h dependency (subst (In dependency) (sym along) among)) next is_in same waits
      ]

  -- Where validate_job_tasks accepted a job and a task run of it has not ended, there is a task run
  -- that has not ended and on which TaskRunDispatcher, by the runs of its dependencies, decides
  -- otherwise than to keep it waiting, whether or not it must skip it.
  pub validate_job_tasks-CanMove :
      (job_yaml : JobYaml) (task_yaml : JobYamlTask)
      → validate_job_tasks job_yaml ≡ none
      → In task_yaml job_yaml.tasks
      → IsOpen task_yaml.id
      → CanMove job_yaml.tasks
  validate_job_tasks-CanMove job_yaml task_yaml accepted m unended =
      let plan = (validate_job_tasks-IsPlan job_yaml).0 accepted in
      let ends =
        All-In _ (ids_of job_yaml.tasks) plan.grounds (ids_of-In job_yaml.tasks task_yaml m) in
      Grounded-CanMove job_yaml.tasks task_yaml.id plan ends task_yaml m refl unended
