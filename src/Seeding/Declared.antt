-- ===== src/Seeding/Declared.antt =====
-- The tasks of a job by their ids, as the walk looks them up.
use flowlite.Base.{
  ◌≡◌, refl, sym, ap, subst, String, inl, inr, none, some, List, [], ◌∷◌, map, ◌==◌, string_Column,
  In, arith, Bool-cases, Option-cases,
}
use flowlite.JobYaml.{JobYamlTask}
use flowlite.Seeding.{lookup_task, depends_on_of}
use flowlite.Seeding.Walk.{lookup_task-last}

abbrev pub ids_of : List JobYamlTask → List String
ids_of tasks = map (λ task_yaml. task_yaml.id) tasks

-- No id is declared twice, nor is any of the ids that were seen before.
abbrev pub Distinct : List String → List JobYamlTask → Type 0
Distinct seen [] = Unit
Distinct seen (task_yaml ∷ tasks) = ¬ In task_yaml.id seen × Distinct (task_yaml.id ∷ seen) tasks

lookup_task-In :
    (tasks : List JobYamlTask) (id : String) {depends_on : List String}
    → lookup_task tasks id ≡ some depends_on
    → In id (ids_of tasks)
unfolding lookup_task
lookup_task-In [] id e = cc
lookup_task-In (task_yaml ∷ tasks) id e = elim (Option-cases (lookup_task tasks id)) [
  | inr (depends_on, found) ↦ inr (lookup_task-In tasks id found)
  | inl last ↦ inl (lookup_task-last task_yaml tasks id last e).0
]

pub depends_on_of-In :
    (tasks : List JobYamlTask) (id next : String)
    → In next (depends_on_of tasks id)
    → In id (ids_of tasks)
unfolding depends_on_of
depends_on_of-In tasks id next m = elim (Option-cases (lookup_task tasks id)) [
  | inr (depends_on, found) ↦ lookup_task-In tasks id found
  | inl e ↦ absurd (rw (e, depends_on_of) at m)
]

lookup_task-Distinct :
    (seen : List String) (tasks : List JobYamlTask) (id : String)
    → Distinct seen tasks
    → In id seen
    → lookup_task tasks id ≡ none
unfolding lookup_task
lookup_task-Distinct seen [] id h m = refl
lookup_task-Distinct seen (task_yaml ∷ tasks) id h m =
    let rest = lookup_task-Distinct (task_yaml.id ∷ seen) tasks id h.1 (inr m) in
    elim (Bool-cases (task_yaml.id == id)) [
      | inl same ↦
          let e = (string_Column.equals_iff task_yaml.id id).0 same in
          absurd (h.0 (subst (λ x. In x seen) (sym e) m))
      | inr off ↦ ground arith
    ]

-- Where no id is declared twice, each task's dependencies are the ones it declares.
pub lookup_task-declared :
    (seen : List String) (tasks : List JobYamlTask) (task_yaml : JobYamlTask)
    → Distinct seen tasks
    → In task_yaml tasks
    → lookup_task tasks task_yaml.id ≡ some task_yaml.depends_on
unfolding lookup_task
lookup_task-declared seen [] task_yaml h m = absurd m
lookup_task-declared seen (first ∷ tasks) task_yaml h (inl e) =
    let later = lookup_task-Distinct (first.id ∷ seen) tasks first.id h.1 (inl refl) in
    let same = (string_Column.equals_iff first.id first.id).1 refl in
    subst (λ t. lookup_task (first ∷ tasks) t.id ≡ some t.depends_on) e (ground arith)
lookup_task-declared seen (first ∷ tasks) task_yaml h (inr m) =
    rw (lookup_task-declared (first.id ∷ seen) tasks task_yaml h.1 m, lookup_task) refl

-- A dependency that a task declares is one that the walk goes along.
pub depends_on_of-declared :
    (tasks : List JobYamlTask) (task_yaml : JobYamlTask)
    → Distinct [] tasks
    → In task_yaml tasks
    → depends_on_of tasks task_yaml.id ≡ task_yaml.depends_on
unfolding depends_on_of
depends_on_of-declared tasks task_yaml h m =
    rw (lookup_task-declared [] tasks task_yaml h m, depends_on_of) refl

pub ids_of-In :
    (tasks : List JobYamlTask) (task_yaml : JobYamlTask)
    → In task_yaml tasks
    → In task_yaml.id (ids_of tasks)
ids_of-In [] task_yaml m = absurd m
ids_of-In (first ∷ tasks) task_yaml (inl e) = inl (ap (λ t. t.id) e)
ids_of-In (first ∷ tasks) task_yaml (inr m) = inr (ids_of-In tasks task_yaml m)

pub In-ids_of :
    (tasks : List JobYamlTask) (id : String)
    → In id (ids_of tasks)
    → (task_yaml : JobYamlTask) × In task_yaml tasks × (task_yaml.id ≡ id)
In-ids_of [] id m = absurd m
In-ids_of (first ∷ tasks) id (inl e) = (first, inl refl, e)
In-ids_of (first ∷ tasks) id (inr m) =
    let (task_yaml, is_in, e) = In-ids_of tasks id m in (task_yaml, inr is_in, e)
