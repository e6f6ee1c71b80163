-- ===== src/Seeding/Plans.antt =====
-- What `validate_job_tasks` accepts, against what a graph of tasks must be to come to an end.
use flowlite.Base.{
  suc, ◌≡◌, ◌≢◌, ◌↔◌, refl, sym, subst, String, inl, inr, none, some, List, [], ◌∷◌, length, ◌==◌,
  string_Column, All, All-imp, In, or_else, or_else-eq-none, All-In, All_from_In, arith, Bool-cases,
}
use flowlite.JobYaml.{JobYaml, JobYamlTask}
use flowlite.Seeding.{
  contains, Refusal, in_a_cycle, Walked, cycle, clear, stuck, walk_task_dependencies,
  find_task_dependency_cycle, depends_on_of, check_declared_once, check_depends_on,
  check_each_depends_on, check_cycle, validate_job_tasks,
}
use flowlite.Seeding.Walk.{contains→In, In→contains, Walked-cases, find_task_dependency_cycle-ends}
use flowlite.Seeding.Graph.{
  Grounded, IsCycle, walk_each-IsCycle, walk-IsCycle, walk_each-Grounded, walk-Grounded,
}
use flowlite.Seeding.Declared.{ids_of, Distinct, ids_of-In, depends_on_of-declared}
use flowlite.Seeding.Chains.{IsCycle-refuted, step, Grounded-Reaches}

-- Each dependency is a task of the job, and every chain of dependencies ends.
pub record IsPlan (tasks : List JobYamlTask) : Type 0 where
  pub distinct : Distinct [] tasks
  pub known : All (λ task_yaml. All (λ id. In id (ids_of tasks)) task_yaml.depends_on) tasks
  pub grounds : All (Grounded (depends_on_of tasks)) (ids_of tasks)

-- An answer of the walk, told apart.
data Searched (tasks : List JobYamlTask) : Walked → Type 0 where
  found : {ids : List String} → IsCycle (depends_on_of tasks) ids → Searched tasks (cycle ids)
  none_found :
      {ids : List String}
      → All (Grounded (depends_on_of tasks)) (ids_of tasks)
      → Searched tasks (clear ids)

searched : (tasks : List JobYamlTask) → Searched tasks (find_task_dependency_cycle tasks)
unfolding find_task_dependency_cycle
searched tasks = elim (Walked-cases (find_task_dependency_cycle tasks)) [
  | inl (ids, e) ↦ subst (Searched tasks) (sym e) (
      found (
        walk_each-IsCycle (depends_on_of tasks)
          (walk_task_dependencies (suc (length tasks)) (depends_on_of tasks) []) (ids_of tasks) []
          (λ acyclic id _.
            walk-IsCycle (depends_on_of tasks) (suc (length tasks)) [] acyclic id ids tt)
          e))
  | inr (inl (ids, e)) ↦
      let (_, all) =
        walk_each-Grounded (depends_on_of tasks)
          (walk_task_dependencies (suc (length tasks)) (depends_on_of tasks) [])
          (walk-Grounded (depends_on_of tasks) (suc (length tasks)) []) (ids_of tasks) [] ids tt
          e in
      subst (Searched tasks) (sym e) (none_found all)
  | inr (inr e) ↦ absurd (find_task_dependency_cycle-ends tasks e)
]

-- Each loop passes exactly what it is to check.
check_declared_once-eq-none :
    (seen : List String) (tasks : List JobYamlTask)
    → (check_declared_once seen tasks ≡ none) ↔ Distinct seen tasks
unfolding check_declared_once
check_declared_once-eq-none seen [] = (λ _. tt, λ _. refl)
check_declared_once-eq-none seen (task_yaml ∷ tasks) =
    let (to, from) = check_declared_once-eq-none (task_yaml.id ∷ seen) tasks in
    elim (Bool-cases (contains seen task_yaml.id)) [
      | inl twice ↦
          (λ h. absurd (ground arith), λ h. absurd (h.0 (contains→In seen task_yaml.id twice)))
      | inr once ↦ (
        λ h.
            ((λ m. let twice = In→contains seen task_yaml.id m in ground arith), to (ground arith)),
        λ h. let rest = from h.1 in ground arith,
      )
    ]

abbrev Passes : List String → String → String → Type 0
Passes task_ids id dependency = (dependency ≢ id) × In dependency task_ids

check_depends_on-eq-none :
    (task_ids : List String) (id : String) (depends_on : List String)
    → (check_depends_on task_ids id depends_on ≡ none) ↔ All (Passes task_ids id) depends_on
unfolding check_depends_on
check_depends_on-eq-none task_ids id [] = (λ _. tt, λ _. refl)
check_depends_on-eq-none task_ids id (dependency ∷ depends_on) =
    let (to, from) = check_depends_on-eq-none task_ids id depends_on in
    let (same_to, same_from) = string_Column.equals_iff dependency id in
    (
      λ h. (
        (
          λ e. let same = same_from e in ground arith,
          contains→In task_ids dependency (ground arith),
        ),
        to (ground arith),
      ),
      λ h.
          let is_in = In→contains task_ids dependency h.0.1 in
          let rest = from h.1 in
          elim (Bool-cases (dependency == id)) [
            | inl same ↦ absurd (h.0.0 (same_to same))
            | inr other ↦ ground arith
          ],
    )

check_each_depends_on-eq-none :
    (task_ids : List String) (tasks : List JobYamlTask)
    → (check_each_depends_on task_ids tasks ≡ none)
      ↔ All (λ task_yaml. All (Passes task_ids task_yaml.id) task_yaml.depends_on) tasks
unfolding check_each_depends_on
check_each_depends_on-eq-none task_ids [] = (λ _. tt, λ _. refl)
check_each_depends_on-eq-none task_ids (task_yaml ∷ tasks) =
    let (to, from) = check_each_depends_on-eq-none task_ids tasks in
    let (first_to, first_from) =
      check_depends_on-eq-none task_ids task_yaml.id task_yaml.depends_on in
    let (both_to, both_from) =
      or_else-eq-none (check_depends_on task_ids task_yaml.id task_yaml.depends_on)
        (check_each_depends_on task_ids tasks) in
    (λ h. (first_to (both_to h).0, to (both_to h).1), λ h. both_from (first_from h.0, from h.1))

check_cycle-eq-none :
    (tasks : List JobYamlTask)
    → (check_cycle tasks ≡ none) ↔ All (Grounded (depends_on_of tasks)) (ids_of tasks)
unfolding check_cycle
check_cycle-eq-none tasks = go (find_task_dependency_cycle tasks) (searched tasks)
  where
    go :
        (walked : Walked)
        → Searched tasks walked
        → (elim walked [
          | cycle ids ↦ some (in_a_cycle ids)
          | clear _ ↦ none
          | stuck ↦ some Refusal.out_of_fuel
        ]
            ≡ none)
          ↔ All (Grounded (depends_on_of tasks)) (ids_of tasks)
    go _ (found {ids} is_cycle) =
        (λ h. cc, λ grounds. absurd (IsCycle-refuted tasks ids grounds is_cycle))
    go _ (none_found grounds) = (λ _. grounds, λ _. refl)

-- No task of a plan depends on itself.
IsPlan-Passes :
    (tasks : List JobYamlTask)
    → IsPlan tasks
    → All (λ task_yaml. All (Passes (ids_of tasks) task_yaml.id) task_yaml.depends_on) tasks
IsPlan-Passes tasks plan = All_from_In _ tasks (λ task_yaml m.
    All_from_In _ task_yaml.depends_on (λ dependency n.
      let declared = depends_on_of-declared tasks task_yaml plan.distinct m in
      let ends = All-In _ (ids_of tasks) plan.grounds (ids_of-In tasks task_yaml m) in
      (
        λ e. Grounded-Reaches (depends_on_of tasks) ends (
            step (
              subst (In task_yaml.id) (sym declared) (subst (λ x. In x task_yaml.depends_on) e n))),
        All-In _ task_yaml.depends_on (All-In _ tasks plan.known m) n,
      )))

-- validate_job_tasks accepts a job exactly where no task id is declared twice, every dependency is a
-- task of the job, and every chain of dependencies ends.
pub validate_job_tasks-IsPlan :
    (job_yaml : JobYaml) → (validate_job_tasks job_yaml ≡ none) ↔ IsPlan job_yaml.tasks
unfolding validate_job_tasks
validate_job_tasks-IsPlan job_yaml =
    let tasks = job_yaml.tasks in
    let (once_to, once_from) = check_declared_once-eq-none [] tasks in
    let (known_to, known_from) = check_each_depends_on-eq-none (ids_of tasks) tasks in
    let (ends_to, ends_from) = check_cycle-eq-none tasks in
    let (outer_to, outer_from) =
      or_else-eq-none (check_declared_once [] tasks)
        (or_else (check_each_depends_on (ids_of tasks) tasks) (check_cycle tasks)) in
    let (inner_to, inner_from) =
      or_else-eq-none (check_each_depends_on (ids_of tasks) tasks) (check_cycle tasks) in
    (
      λ h. record {
        distinct = once_to (outer_to h).0;
        known =
            All-imp (λ task_yaml. All-imp (λ id passes. passes.1) task_yaml.depends_on) tasks
              (known_to (inner_to (outer_to h).1).0);
        grounds = ends_to (inner_to (outer_to h).1).1;
      },
      λ plan. outer_from (
        once_from plan.distinct,
        inner_from (known_from (IsPlan-Passes tasks plan), ends_from plan.grounds),
      ),
    )
