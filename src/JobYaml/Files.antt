-- ===== src/JobYaml/Files.antt =====
-- What a job file that was accepted has.
use flowlite.Base.{
  ◌≡◌, ◌↔◌, refl, String, true, false, inl, inr, none, some, List, [], ◌∷◌, map, All, All-imp,
  All-zip, starts_with, get, put, keys, or_else, or_else-eq-none, find_map, find_map-eq-none,
  first_clash, Apart, first_clash-eq-none, if◌then◌else◌, arith, Bool-cases, Option-cases,
}
use flowlite.JobYaml.{StringMap, JobYaml, JobYamlTask}
use flowlite.JobYaml.Names.{
  FileRefusal, is_valid_task_id, task_input_env_name, is_valid_env_var_name, is_valid_secret_name,
  check_task_ids, validate_task_ids, reserved, validate_env_names, check_secret,
  validate_secret_env_block, validate_secret_env, validate,
}

abbrev task_ids : List JobYamlTask → List String
task_ids tasks = map (λ task. task.id) tasks

-- A secret that has a variable of its own, by the plain variables of the same level.
pub record IsSecret (env : StringMap) (entry : String × String) : Type 0 where
  pub variable : is_valid_env_var_name entry.0 ≡ true
  pub free : starts_with entry.0 "FLOWLITE_" ≡ false
  pub secret : is_valid_secret_name entry.1 ≡ true
  pub once : get env entry.0 ≡ none

-- One level of a file, the job's or a task's: its plain variables and its secret ones.
pub record IsClean (env secret_env : StringMap) : Type 0 where
  pub free : All (λ name. starts_with name "FLOWLITE_" ≡ false) (keys env)
  pub secrets : All (IsSecret env) secret_env

pub record IsAccepted (job : JobYaml) : Type 0 where
  pub valid : All (λ task. is_valid_task_id task.id ≡ true) job.tasks
  pub apart : Apart task_input_env_name (map (λ task. task.id) job.tasks)
  pub own : IsClean job.env job.secret_env
  pub each : All (λ task. IsClean task.env task.secret_env) job.tasks

check_task_ids_iff :
    (seen : StringMap) (tasks : List JobYamlTask)
    → (check_task_ids seen tasks ≡ none) ↔ (
        All (λ task. is_valid_task_id task.id ≡ true) tasks
        × (first_clash task_input_env_name seen (task_ids tasks) ≡ none))
unfolding check_task_ids first_clash
check_task_ids_iff seen [] = (λ _. (tt, refl), λ _. refl)
check_task_ids_iff seen (task ∷ tasks) =
    let (to, from) = check_task_ids_iff (put seen (task_input_env_name task.id) task.id) tasks in
    elim (Bool-cases (is_valid_task_id task.id)) [
      | inr invalid ↦ rw (invalid, check_task_ids) (λ h. cc, λ h. cc h.0.0)
      | inl valid ↦ elim (Option-cases (get seen (task_input_env_name task.id))) [
        | inr (other, found) ↦ rw (valid, check_task_ids, found, first_clash) (λ h. cc, λ h. cc h.1)
        | inl unseen ↦
            rw (valid, check_task_ids, unseen, first_clash)
              (λ h. ((refl, (to h).0), (to h).1), λ h. from (h.0.1, h.1))
      ]
    ]

reserved_iff :
    (env : StringMap)
    → (reserved env ≡ none) ↔ All (λ name. starts_with name "FLOWLITE_" ≡ false) (keys env)
reserved_iff env =
    let (to, from) =
      find_map-eq-none
        (λ name.
          if starts_with name "FLOWLITE_" then some (FileRefusal.reserved_variable name) else none)
        (keys env) in
    (
      λ h. All-imp (λ name e. ground arith) (keys env) (to h),
      λ h. from (All-imp (λ name e. ground arith) (keys env) h),
    )

check_secret_iff :
    (env : StringMap) (entry : String × String)
    → (check_secret env entry ≡ none) ↔ IsSecret env entry
unfolding check_secret
check_secret_iff env entry = (
  λ h. record {
    variable = ground arith;
    free = ground arith;
    secret = ground arith;
    once = ground arith;
  },
  λ h.
      let variable = h.variable in
      let free = h.free in let secret = h.secret in let once = h.once in ground arith,
)

validate_secret_env_block_iff :
    (env secret_env : StringMap)
    → (validate_secret_env_block env secret_env ≡ none) ↔ All (IsSecret env) secret_env
unfolding validate_secret_env_block
validate_secret_env_block_iff env secret_env =
    let (to, from) = find_map-eq-none (check_secret env) secret_env in
    (
      λ h. All-imp (λ entry. (check_secret_iff env entry).0) secret_env (to h),
      λ h. from (All-imp (λ entry. (check_secret_iff env entry).1) secret_env h),
    )

validate_secret_env_iff :
    (job : JobYaml)
    → (validate_secret_env job ≡ none) ↔ (
        All (IsSecret job.env) job.secret_env
        × All (λ task. All (IsSecret task.env) task.secret_env) job.tasks)
unfolding validate_secret_env
validate_secret_env_iff job =
    let block = λ (task : JobYamlTask). validate_secret_env_block task.env task.secret_env in
    let (to, from) =
      or_else-eq-none (validate_secret_env_block job.env job.secret_env)
        (find_map block job.tasks) in
    let (own, own_back) = validate_secret_env_block_iff job.env job.secret_env in
    let (each, each_back) = find_map-eq-none block job.tasks in
    (
      λ h. (
        own (to h).0,
        All-imp (λ task. (validate_secret_env_block_iff task.env task.secret_env).0) job.tasks
            (each (to h).1),
      ),
      λ h. from (
        own_back h.0,
        each_back (
            All-imp (λ task. (validate_secret_env_block_iff task.env task.secret_env).1) job.tasks
              h.1),
      ),
    )

validate_env_names_iff :
    (job : JobYaml)
    → (validate_env_names job ≡ none)
      ↔ All
          (λ env. All (λ name. starts_with name "FLOWLITE_" ≡ false) (keys env))
          (job.env ∷ map (λ task. task.env) job.tasks)
unfolding validate_env_names
validate_env_names_iff job =
    let blocks = job.env ∷ map (λ task. task.env) job.tasks in
    let (to, from) = find_map-eq-none reserved blocks in
    (
      λ h. All-imp (λ env. (reserved_iff env).0) blocks (to h),
      λ h. from (All-imp (λ env. (reserved_iff env).1) blocks h),
    )

-- A fact of a part of each item.
All-part :
    {A B : Type 0} (P : B → Type 0) (part : A → B) (xs : List A)
    → All P (map part xs) ↔ All (λ x. P (part x)) xs
All-part P part [] = (λ _. tt, λ _. tt)
All-part P part (x ∷ xs) =
    let (to, from) = All-part P part xs in (λ h. (h.0, to h.1), λ h. (h.0, from h.1))

validate_task_ids_iff :
    (job : JobYaml)
    → (validate_task_ids job ≡ none) ↔ (
        All (λ task. is_valid_task_id task.id ≡ true) job.tasks
        × Apart task_input_env_name (task_ids job.tasks))
unfolding validate_task_ids
validate_task_ids_iff job =
    let (to, from) = check_task_ids_iff [] job.tasks in
    let (apart, back) = first_clash-eq-none task_input_env_name (task_ids job.tasks) in
    (λ h. ((to h).0, apart (to h).1), λ h. from (h.0, back h.1))

-- A job file is accepted exactly where every task id is a valid one, no two of them name the same input
-- variable, no plain variable is under FLOWLITE_, and in every secret_env, the job's and each task's, the
-- variables are valid, outside FLOWLITE_ and not in the env of the same level, and the secrets' names
-- are valid.
pub validate-IsAccepted : (job : JobYaml) → (validate job ≡ none) ↔ IsAccepted job
unfolding validate
validate-IsAccepted job =
    let later = or_else (validate_secret_env job) (validate_env_names job) in
    let (to, from) = or_else-eq-none (validate_task_ids job) later in
    let (two, back) = or_else-eq-none (validate_secret_env job) (validate_env_names job) in
    let (ids, ids_back) = validate_task_ids_iff job in
    let (secrets, secrets_back) = validate_secret_env_iff job in
    let (names, names_back) = validate_env_names_iff job in
    let part =
      All-part (λ env. All (λ name. starts_with name "FLOWLITE_" ≡ false) (keys env))
        (λ task. JobYamlTask.env task) job.tasks in
    (
      λ h.
          let (own, each) = secrets (two (to h).1).0 in
          let (free, others) = names (two (to h).1).1 in
          record {
            valid = (ids (to h).0).0;
            apart = (ids (to h).0).1;
            own = record { free = free; secrets = own };
            each =
                All-zip (λ task f s. record { free = f; secrets = s }) job.tasks (part.0 others)
                  each;
          },
      λ h. from (
        ids_back (h.valid, h.apart),
        back (
          secrets_back (h.own.secrets, All-imp (λ task c. c.secrets) job.tasks h.each),
          names_back (h.own.free, part.1 (All-imp (λ task c. c.free) job.tasks h.each)),
        ),
      ),
    )
