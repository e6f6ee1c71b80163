-- ===== src/Crud/Multistatements/JobRunDefinition/Declarations.antt =====
-- The variables of a task run: what the task declares, over what its job declares.
use flowlite.Base.{
  ◌≡◌, refl, sym, ◌∙◌, String, true, false, ◌⊎◌, inl, inr, Option, none, some, List, [], ◌∷◌, any,
  get, keys, put_all, remove_all, IsMap, get-put_all, get-remove_all, or_else, ◌==◌, string_Column,
  Bool-cases, Option-cases,
}
use flowlite.JobYaml.{StringMap}
use flowlite.Crud.World.{Job, Task}
use flowlite.Crud.Multistatements.JobRunDefinition.{
  merge_job_and_task_maps, job_run_task_definition,
}

-- A variable with a plain value, or with the value of a secret.
pub data Variable : Type 0 where
  plain secret : String → Variable

abbrev pub variable : Option String → Option String → Option Variable
variable (some value) secret_name = some (plain value)
variable none (some secret_name) = some (secret secret_name)
variable none none = none

-- What a level declares for a variable.
abbrev pub declares : StringMap → StringMap → String → Option Variable
declares env secret_env name = variable (get env name) (get secret_env name)

-- No variable is in both blocks of a level.
abbrev pub Disjoint : StringMap → StringMap → Type 0
Disjoint env secret_env = (name : String) → (get env name ≡ none) ⊎ (get secret_env name ≡ none)

true-ne-false : ¬ (true ≡ false)
true-ne-false e = cc

-- Whether a key is among those of a map.
any_key :
    {V : Type 0} (entries : List (String × V)) (name : String)
    → any (λ key. name == key) (keys entries)
      ≡ elim (get entries name) [ some _ ↦ true | none ↦ false ]
unfolding get
any_key [] name = refl
any_key (entry ∷ entries) name =
    let rest = any_key entries name in
    elim (Bool-cases (entry.0 == name)) [
      | inl same ↦
          let e = (string_Column.equals_iff entry.0 name).0 same in
          let back = (string_Column.equals_iff name entry.0).1 (sym e) in rw (same, back, get) refl
      | inr off ↦ elim (Bool-cases (name == entry.0)) [
        | inl back ↦
            let e = (string_Column.equals_iff name entry.0).0 back in
            absurd (true-ne-false (sym ((string_Column.equals_iff entry.0 name).1 (sym e)) ∙ off))
        | inr apart ↦ rw (apart, off, get) rest
      ]
    ]

-- A block of a task over the job's, without what the other block of the task has.
abbrev block : (own other job : Option String) → Option String
block own none job = or_else own job
block own (some _) job = none

-- One block of a task's definition: the other block of the task takes names away.
get-block :
    (job_map task_map other : StringMap) (name : String)
    → IsMap task_map
    → get (remove_all (merge_job_and_task_maps job_map task_map) (keys other)) name
      ≡ block (get task_map name) (get other name) (get job_map name)
unfolding merge_job_and_task_maps
get-block job_map task_map other name m =
    let removed = get-remove_all (put_all job_map task_map) (keys other) name in
    let merged = get-put_all job_map task_map name m in
    let known = any_key other name in
    elim (Option-cases (get other name)) [
      | inl absent ↦ rw absent (rw (rw absent at known) at removed ∙ merged)
      | inr (value, found) ↦ rw found (rw (rw found at known) at removed)
    ]

blocks_together :
    (env secret_env job_env job_secret_env : Option String)
    → ((env ≡ none) ⊎ (secret_env ≡ none))
    → ((job_env ≡ none) ⊎ (job_secret_env ≡ none))
    → (variable (block env secret_env job_env) (block secret_env env job_secret_env)
        ≡ or_else (variable env secret_env) (variable job_env job_secret_env))
      × ((block env secret_env job_env ≡ none) ⊎ (block secret_env env job_secret_env ≡ none))
blocks_together none none job_env job_secret_env h k = (refl, k)
blocks_together (some value) none job_env job_secret_env h k = (refl, inr refl)
blocks_together none (some name) job_env job_secret_env h k = (refl, inl refl)
blocks_together (some value) (some name) job_env job_secret_env (inl e) k = cc
blocks_together (some value) (some name) job_env job_secret_env (inr e) k = cc

-- Where no level has a variable in both of its blocks, a task run declares for each variable, and whether by
-- a value or by a secret, what its task declares, or else what its job does; and it has no variable in both
-- of its blocks.
pub job_run_task_definition-declares :
    (task : Task) (job : Job) (name : String)
    → IsMap task.env
    → IsMap task.secret_env
    → Disjoint task.env task.secret_env
    → Disjoint job.env job.secret_env
    → let definition = job_run_task_definition task job in
      (declares definition.env definition.secret_env name
        ≡ or_else (declares task.env task.secret_env name) (declares job.env job.secret_env name))
      × ((get definition.env name ≡ none) ⊎ (get definition.secret_env name ≡ none))
unfolding job_run_task_definition
job_run_task_definition-declares task job name m n own other =
    let plains = get-block job.env task.env task.secret_env name m in
    let secrets = get-block job.secret_env task.secret_env task.env name n in
    let (same, apart) =
      blocks_together (get task.env name) (get task.secret_env name) (get job.env name)
        (get job.secret_env name) (own name) (other name) in
    rw (plains, secrets) (same, apart)
