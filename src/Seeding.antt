-- ===== src/Seeding.antt =====
-- src/crud/crud.rs: what a job must meet before `seed_job` writes it to the database.
pub mod Walk
pub mod Graph
pub mod Declared
pub mod Chains
pub mod Plans
pub mod Progress
pub mod Config
use flowlite.Base.{
  ℕ, zero, suc, String, Bool, true, false, not, ◌||◌, ◌&&◌, Option, none, some, List, [], ◌∷◌, ◌++◌,
  any, map, length, ◌==◌, string_Column, or_else, if◌then◌else◌,
}
use flowlite.JobYaml.{JobYaml, JobYamlTask}

abbrev pub contains : List String → String → Bool
contains ids id = any (λ other. other == id) ids

-- What is refused, in the order of the checks. `out_of_fuel` is no refusal of the source.
pub data Refusal : Type 0 where
  declared_twice : String → Refusal
  depends_on_itself : String → Refusal
  depends_on_unknown : String → String → Refusal
  in_a_cycle : List String → Refusal
  out_of_fuel : Refusal

-- `depends_on_by_task_id`: where an id is declared twice, collecting keeps the last.
unfoldable pub lookup_task : List JobYamlTask → String → Option (List String)
lookup_task [] id = none
lookup_task (task_yaml ∷ tasks) id =
    let later = lookup_task tasks id in
    elim later [
      | some depends_on ↦ some depends_on
      | none ↦ if task_yaml.id == id then some task_yaml.depends_on else none
    ]

unfoldable pub depends_on_of : List JobYamlTask → String → List String
unfolding lookup_task
depends_on_of tasks id = elim (lookup_task tasks id) [ some depends_on ↦ depends_on | none ↦ [] ]

-- `path[position..]` at the first position of an id, if it is on the path.
unfoldable pub from_position : String → List String → Option (List String)
from_position id [] = none
from_position id (other ∷ path) =
    let later = from_position id path in if other == id then some (other ∷ path) else later

-- What a walk answers: a cycle, or no cycle with the ids now known to be free of cycles.
pub data Walked : Type 0 where
  cycle : List String → Walked
  clear : List String → Walked
  stuck : Walked

-- The loop over some tasks, which a cycle ends. The ids known to be free of cycles go from one to the next.
unfoldable pub walk_each : (List String → String → Walked) → List String → List String → Walked
walk_each walk acyclic [] = clear acyclic
walk_each walk acyclic (id ∷ ids) = elim (walk acyclic id) [
  | cycle ids ↦ cycle ids
  | clear acyclic ↦ walk_each walk acyclic ids
  | stuck ↦ stuck
]

-- What follows the loop: without a cycle, the task is free of cycles too.
abbrev pub remember : String → Walked → Walked
remember id (cycle ids) = cycle ids
remember id (clear acyclic) = clear (id ∷ acyclic)
remember id stuck = stuck

-- The push before the loop and the pop behind it make the path an argument of the loop alone.
unfoldable pub walk_task_dependencies :
    ℕ → (String → List String) → (path acyclic : List String) → String → Walked
unfolding from_position walk_each
walk_task_dependencies zero depends_on path acyclic id = stuck
walk_task_dependencies (suc fuel) depends_on path acyclic id = elim (from_position id path) [
  | some ids ↦ cycle (ids ++ id ∷ [])
  | none ↦ elim (contains acyclic id) [
    | true ↦ clear acyclic
    | false ↦ remember id (
        walk_each (walk_task_dependencies fuel depends_on (path ++ id ∷ [])) acyclic
          (depends_on id))
  ]
]

-- One level of calls for each task, and one for an id that is on the path already.
unfoldable pub find_task_dependency_cycle : List JobYamlTask → Walked
unfolding walk_each walk_task_dependencies depends_on_of
find_task_dependency_cycle tasks =
    walk_each (walk_task_dependencies (suc (length tasks)) (depends_on_of tasks) []) []
      (map (λ task_yaml. task_yaml.id) tasks)

-- The loops of `validate_job_tasks`: the ids seen so far, and the dependencies of each task.
unfoldable pub check_declared_once : List String → List JobYamlTask → Option Refusal
check_declared_once task_ids [] = none
check_declared_once task_ids (task_yaml ∷ tasks) =
    let rest = check_declared_once (task_yaml.id ∷ task_ids) tasks in
    if contains task_ids task_yaml.id then some (declared_twice task_yaml.id) else rest

unfoldable pub check_depends_on : List String → String → List String → Option Refusal
check_depends_on task_ids id [] = none
check_depends_on task_ids id (dependent_task_id ∷ depends_on) =
    let rest = check_depends_on task_ids id depends_on in
    if dependent_task_id == id
    then some (depends_on_itself id)
    else if not (contains task_ids dependent_task_id)
    then some (depends_on_unknown id dependent_task_id)
    else rest

unfoldable pub check_each_depends_on : List String → List JobYamlTask → Option Refusal
unfolding check_depends_on
check_each_depends_on task_ids [] = none
check_each_depends_on task_ids (task_yaml ∷ tasks) =
    or_else (check_depends_on task_ids task_yaml.id task_yaml.depends_on)
      (check_each_depends_on task_ids tasks)

unfoldable pub check_cycle : List JobYamlTask → Option Refusal
unfolding find_task_dependency_cycle
check_cycle tasks = elim (find_task_dependency_cycle tasks) [
  | cycle ids ↦ some (in_a_cycle ids)
  | clear _ ↦ none
  | stuck ↦ some out_of_fuel
]

unfoldable pub validate_job_tasks : JobYaml → Option Refusal
unfolding check_declared_once check_each_depends_on check_cycle
validate_job_tasks job_yaml = or_else (check_declared_once [] job_yaml.tasks) (
    or_else (check_each_depends_on (map (λ task_yaml. task_yaml.id) job_yaml.tasks) job_yaml.tasks)
      (check_cycle job_yaml.tasks))
