-- ===== src/Seeding/Walk.antt =====
-- The walk over the dependencies: its fuel, and what its answer says of the graph.
use flowlite.Base.{
  ℕ, zero, suc, ◌+◌, ◌≤◌, ◌<◌, ◌≡◌, ◌≢◌, refl, sym, ◌∙◌, String, true, false, ◌||◌, ◌⊎◌, inl, inr,
  none, some, List, [], ◌∷◌, ◌++◌, map, length, ◌==◌, string_Column, if◌then◌else◌, In, arith,
  Bool-cases, Option-cases,
}
use flowlite.JobYaml.{JobYamlTask}
use flowlite.Seeding.{
  contains, lookup_task, depends_on_of, from_position, Walked, cycle, clear, stuck, walk_each,
  remember, walk_task_dependencies, find_task_dependency_cycle,
}

pub contains→In : (ids : List String) (id : String) → contains ids id ≡ true → In id ids
contains→In [] id h = cc
contains→In (other ∷ ids) id h = elim (Bool-cases (other == id)) [
  | inl e ↦ inl ((string_Column.equals_iff other id).0 e)
  | inr e ↦ inr (contains→In ids id (ground arith))
]

pub In→contains : (ids : List String) (id : String) → In id ids → contains ids id ≡ true
In→contains [] id m = absurd m
In→contains (other ∷ ids) id (inl e) = rw ((string_Column.equals_iff other id).1 e) refl
In→contains (other ∷ ids) id (inr m) = let rest = In→contains ids id m in ground arith

contains-append :
    (path : List String) (id other : String)
    → contains (path ++ id ∷ []) other ≡ (contains path other || (id == other))
contains-append [] id other = ground arith
contains-append (first ∷ path) id other = let rest = contains-append path id other in ground arith

-- How many tasks are not on the path.
unfoldable fresh : List String → List JobYamlTask → ℕ
fresh path [] = 0
fresh path (task_yaml ∷ tasks) = (if contains path task_yaml.id then 0 else 1) + fresh path tasks

fresh-length : (tasks : List JobYamlTask) → fresh [] tasks ≤ length tasks
unfolding fresh lookup_task
fresh-length [] = omega arith
fresh-length (task_yaml ∷ tasks) = omega (arith, fresh-length tasks)

fresh-append :
    (path : List String) (id : String) (tasks : List JobYamlTask)
    → fresh (path ++ id ∷ []) tasks ≤ fresh path tasks
unfolding fresh lookup_task
fresh-append path id [] = omega arith
fresh-append path id (task_yaml ∷ tasks) =
    let rest = fresh-append path id tasks in
    rw (contains-append path id task_yaml.id) (ground arith)

pub lookup_task-last :
    (task_yaml : JobYamlTask) (tasks : List JobYamlTask) (id : String) {depends_on : List String}
    → lookup_task tasks id ≡ none
    → lookup_task (task_yaml ∷ tasks) id ≡ some depends_on
    → (task_yaml.id ≡ id) × (task_yaml.depends_on ≡ depends_on)
unfolding lookup_task
lookup_task-last task_yaml tasks id {depends_on} e found =
    let test : (if task_yaml.id == id then some task_yaml.depends_on else none) ≡ some depends_on =
      rw e at found in
    elim (Bool-cases (task_yaml.id == id)) [
      | inl same ↦ ((string_Column.equals_iff task_yaml.id id).0 same, ground arith)
      | inr other ↦ absurd (ground arith)
    ]

-- A task that comes on the path is fresh no more.
fresh-lookup_task :
    (path : List String) (id : String) (tasks : List JobYamlTask) {depends_on : List String}
    → contains path id ≡ false
    → lookup_task tasks id ≡ some depends_on
    → fresh (path ++ id ∷ []) tasks < fresh path tasks
unfolding fresh lookup_task
fresh-lookup_task path id [] off found = cc
fresh-lookup_task path id (task_yaml ∷ tasks) off found =
    elim (Option-cases (lookup_task tasks id)) [
      | inl e ↦
          let rest = fresh-append path id tasks in
          let same = (lookup_task-last task_yaml tasks id e found).0 in
          let on = (string_Column.equals_iff id task_yaml.id).1 (sym same) in
          let absent : contains path task_yaml.id ≡ false = rw same off in
          rw (contains-append path id task_yaml.id) (ground arith)
      | inr (d, e) ↦
          let rest = fresh-lookup_task path id tasks off e in
          rw (contains-append path id task_yaml.id) (ground arith)
    ]

from_position-none :
    (id : String) (path : List String) → from_position id path ≡ none → contains path id ≡ false
unfolding from_position
from_position-none id [] e = refl
from_position-none id (other ∷ path) e = elim (Bool-cases (other == id)) [
  | inl same ↦ absurd (ground arith)
  | inr off ↦
      let rest : from_position id path ≡ none = ground arith in
      let absent = from_position-none id path rest in ground arith
]

-- What one call does: it closes a cycle, knows the task already, or walks what it depends on.
pub walk-cases :
    (fuel : ℕ) (depends_on : String → List String) (path acyclic : List String) (id : String)
    → let walked = walk_task_dependencies (suc fuel) depends_on path acyclic id in
      ((ids : List String) × (from_position id path ≡ some ids) × (walked ≡ cycle (ids ++ id ∷ [])))
      ⊎ ((contains acyclic id ≡ true) × (walked ≡ clear acyclic))
      ⊎ ((contains path id ≡ false)
          × (walked
              ≡ remember id (
                  walk_each
                    (walk_task_dependencies fuel depends_on (path ++ id ∷ []))
                    acyclic
                    (depends_on id))))
unfolding walk_task_dependencies
walk-cases fuel depends_on path acyclic id = elim (Option-cases (from_position id path)) [
  | inr (ids, e) ↦ inl (ids, e, rw (e, walk_task_dependencies) refl)
  | inl e ↦ elim (Bool-cases (contains acyclic id)) [
    | inl known ↦ inr (inl (known, rw (e, walk_task_dependencies, known) refl))
    | inr unknown ↦
        inr (inr (from_position-none id path e, rw (e, walk_task_dependencies, unknown) refl))
  ]
]

pub Walked-cases :
    (walked : Walked)
    → ((ids : List String) × (walked ≡ cycle ids))
      ⊎ ((ids : List String) × (walked ≡ clear ids))
      ⊎ (walked ≡ stuck)
Walked-cases (cycle ids) = inl (ids, refl)
Walked-cases (clear ids) = inr (inl (ids, refl))
Walked-cases stuck = inr (inr refl)

-- What the first of several walks does to the loop.
pub walk_each-cases :
    (walk : List String → String → Walked) (acyclic : List String) (id : String) (ids : List String)
    → let walked = walk_each walk acyclic (id ∷ ids) in
      ((found : List String) × (walk acyclic id ≡ cycle found) × (walked ≡ cycle found))
      ⊎ ((known : List String) × (walk acyclic id ≡ clear known)
          × (walked ≡ walk_each walk known ids))
      ⊎ ((walk acyclic id ≡ stuck) × (walked ≡ stuck))
unfolding walk_each
walk_each-cases walk acyclic id ids = elim (Walked-cases (walk acyclic id)) [
  | inl (found, e) ↦ inl (found, e, rw (e, walk_each) refl)
  | inr (inl (known, e)) ↦ inr (inl (known, e, rw (e, walk_each) refl))
  | inr (inr e) ↦ inr (inr (e, rw (e, walk_each) refl))
]

-- A loop whose walks all have enough fuel has enough itself.
walk_each-enough :
    (walk : List String → String → Walked)
    → ((acyclic : List String) (id : String) → walk acyclic id ≢ stuck)
    → (ids acyclic : List String) → walk_each walk acyclic ids ≢ stuck
unfolding walk_each
walk_each-enough walk enough [] acyclic e = cc
walk_each-enough walk enough (id ∷ ids) acyclic e = elim (walk_each-cases walk acyclic id ids) [
  | inl (found, _, same) ↦ cc
  | inr (inl (known, _, same)) ↦ walk_each-enough walk enough ids known (sym same ∙ e)
  | inr (inr (out, _)) ↦ enough acyclic id out
]

remember-stuck : (id : String) (walked : Walked) → remember id walked ≡ stuck → walked ≡ stuck
remember-stuck id (cycle ids) e = cc
remember-stuck id (clear ids) e = cc
remember-stuck id stuck e = refl

no_dependencies :
    (tasks : List JobYamlTask) (walk : List String → String → Walked) (acyclic : List String)
    (id : String)
    → lookup_task tasks id ≡ none
    → walk_each walk acyclic (depends_on_of tasks id) ≢ stuck
unfolding depends_on_of walk_each
no_dependencies tasks walk acyclic id unknown = rw (unknown, depends_on_of) (λ e. cc)

-- A call for each task that is not on the path yet, and one more, is fuel enough.
walk-enough :
    (tasks : List JobYamlTask) (fuel : ℕ) (path : List String)
    → fresh path tasks < fuel
    → (acyclic : List String) (id : String)
    → walk_task_dependencies fuel (depends_on_of tasks) path acyclic id ≢ stuck
walk-enough tasks zero path h acyclic id e = absurd (omega arith)
walk-enough tasks (suc fuel) path h acyclic id e =
    elim (walk-cases fuel (depends_on_of tasks) path acyclic id) [
      | inl (ids, _, same) ↦ cc
      | inr (inl (_, same)) ↦ cc
      | inr (inr (off, same)) ↦
          let walk = walk_task_dependencies fuel (depends_on_of tasks) (path ++ id ∷ []) in
          let each =
            remember-stuck id (walk_each walk acyclic (depends_on_of tasks id)) (sym same ∙ e) in
          elim (Option-cases (lookup_task tasks id)) [
            | inl unknown ↦ no_dependencies tasks walk acyclic id unknown each
            | inr (depends_on, known) ↦
                let less = fresh-lookup_task path id tasks off known in
                walk_each-enough walk (walk-enough tasks fuel (path ++ id ∷ []) (omega arith))
                  (depends_on_of tasks id) acyclic each
          ]
    ]

-- The walk over the dependencies of a job's tasks ends, whatever the tasks: as many calls deep as
-- there are tasks, and one more, is fuel enough.
pub find_task_dependency_cycle-ends :
    (tasks : List JobYamlTask) → find_task_dependency_cycle tasks ≢ stuck
unfolding find_task_dependency_cycle
find_task_dependency_cycle-ends tasks =
    let bound = fresh-length tasks in
    walk_each-enough _ (walk-enough tasks (suc (length tasks)) [] (omega arith))
      (map (λ task_yaml. task_yaml.id) tasks) []
