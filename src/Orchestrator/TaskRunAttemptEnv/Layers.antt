-- ===== src/Orchestrator/TaskRunAttemptEnv/Layers.antt =====
-- The layers of an environment: what a task declares never comes under the prefix of flowlite, and what it
-- declares elsewhere reaches the command.
use text.Mathlib.TextLemmas.{append_assoc}
use flowlite.Base.{
  ℕ, ◌≡◌, ◌≢◌, refl, sym, ap, ◌∙◌, subst, String, true, false, inl, inr, Option, none, some, [],
  ◌∷◌, ◌==◌, string_Column, if◌then◌else◌, All, ◌+++◌, starts_with, starts_with-append, get, put,
  put_all, or_else, retain, get-put, get-retain, Bool-cases, Option-cases, some-inversion,
  get-absent, to_ascii_uppercase, replace, ascii, IsMap,
}
use flowlite.JobYaml.{StringMap}
use flowlite.Crud.JobRun.{JobRun}
use flowlite.Crud.TaskRun.{TaskRun}
use flowlite.Crud.TaskRunAttempt.{TaskRunAttempt}
use flowlite.Orchestrator.TaskRunAttemptEnv.{
  PreviousAttemptFiles, parameter_env_name, task_input_env_name, insert_secrets, is_free, renamed,
  previous_entries, metadata, own_layers, build_task_run_attempt_env, command_variable,
}

-- Every entry is under the prefix of flowlite.
abbrev pub Owned : StringMap → Type 0
Owned entries = All (λ entry. starts_with entry.0 "FLOWLITE_" ≡ true) entries

owned_prefix :
    (middle rest : String) → starts_with (("FLOWLITE_" +++ middle) +++ rest) "FLOWLITE_" ≡ true
owned_prefix middle rest =
    subst (λ s. starts_with s "FLOWLITE_" ≡ true) (sym (append_assoc "FLOWLITE_" middle rest))
      (starts_with-append "FLOWLITE_" (middle +++ rest))

renamed-Owned :
    (name_of : String → String)
    → ((name : String) → starts_with (name_of name) "FLOWLITE_" ≡ true)
    → (entries : StringMap) → Owned (renamed name_of entries)
renamed-Owned name_of h [] = tt
renamed-Owned name_of h (entry ∷ entries) = (h entry.0, renamed-Owned name_of h entries)

parameter_env_name-Owned :
    (name : String) → starts_with (parameter_env_name name) "FLOWLITE_" ≡ true
unfolding parameter_env_name
parameter_env_name-Owned name = owned_prefix "PARAM_" (to_ascii_uppercase name)

task_input_env_name-Owned :
    (task_id : String) → starts_with (task_input_env_name task_id) "FLOWLITE_" ≡ true
unfolding task_input_env_name
task_input_env_name-Owned task_id =
    owned_prefix "INPUT_" (replace 45 (ascii 95) (to_ascii_uppercase task_id))

previous_entries-Owned :
    (previous : Option PreviousAttemptFiles) → Owned (previous_entries previous)
unfolding previous_entries starts_with
previous_entries-Owned none = tt
previous_entries-Owned (some previous) = elim (Option-cases previous.output) [
  | inl e ↦ rw (e, previous_entries) (refl, tt)
  | inr (output, e) ↦ rw (e, previous_entries) (refl, (refl, tt))
]

-- An entry under the prefix is none for a name outside it.
put_all-Owned :
    (env entries : StringMap) (name : String)
    → Owned entries
    → starts_with name "FLOWLITE_" ≡ false
    → get (put_all env entries) name ≡ get env name
put_all-Owned env [] name h free = refl
put_all-Owned env (entry ∷ entries) name h free =
    let rest = put_all-Owned (put env entry.0 entry.1) entries name h.1 free in
    let first = get-put env entry.0 entry.1 name in
    elim (Bool-cases (entry.0 == name)) [
      | inl same ↦
          let e = (string_Column.equals_iff entry.0 name).0 same in
          absurd (true-ne-false (sym (subst (λ s. starts_with s "FLOWLITE_" ≡ true) e h.0) ∙ free))
      | inr off ↦ rest ∙ rw off at first
    ]
  where
    true-ne-false : ¬ (true ≡ false)
    true-ne-false e = cc

-- What stands under a name after some entries follows from what stood under it before.
pub put_all_congruent :
    (env other entries : StringMap) (name : String)
    → get env name ≡ get other name
    → get (put_all env entries) name ≡ get (put_all other entries) name
put_all_congruent env other [] name e = e
put_all_congruent env other (entry ∷ entries) name e =
    put_all_congruent (put env entry.0 entry.1) (put other entry.0 entry.1) entries name (
      get-put env entry.0 entry.1 name
      ∙ ap (λ o. if entry.0 == name then some entry.1 else o) e
      ∙ sym (get-put other entry.0 entry.1 name))

pub some_inj : {A : Type 0} {x y : A} → some x ≡ some y → x ≡ y
some_inj e = cc

-- A secret's value stands under its variable, and any other variable is as it was.
insert_secrets-get :
    (secrets env secret_env : StringMap) {after : StringMap} (name : String)
    → IsMap secret_env
    → insert_secrets secrets env secret_env ≡ some after
    → get after name
      ≡ elim (get secret_env name) [ none ↦ get env name | some secret ↦ get secrets secret ]
unfolding insert_secrets get
insert_secrets-get secrets env [] {after} name h e = ap (λ m. get m name) (some_inj (sym e))
insert_secrets-get secrets env ((variable, secret) ∷ secret_env) {after} name h e =
    let (value, found, later) =
      some-inversion (get secrets secret)
        (λ value. insert_secrets secrets (put env variable value) secret_env) e in
    let rest = insert_secrets-get secrets (put env variable value) secret_env name h.1 later in
    let first = get-put env variable value name in
    elim (Bool-cases (variable == name)) [
      | inl same ↦
          let absent = get-absent secret_env name (
            subst (λ k. All (λ other. other.0 ≢ k) secret_env)
              ((string_Column.equals_iff variable name).0 same) h.0) in
          rw (same, get) (rw absent at rest ∙ rw same at first ∙ sym found)
      | inr off ↦
          rw (off, get)
            (rest
              ∙ ap (λ o. elim (get secret_env name) [ none ↦ o | some secret ↦ get secrets secret ])
                  (rw off at first))
    ]

-- What the task declares under a name: a secret's value, else a plain one.
abbrev pub declared : StringMap → TaskRun → String → Option String
declared secrets task_run name = elim (get task_run.secret_env name) [
  | none ↦ get task_run.env name
  | some secret ↦ get secrets secret
]

module _ (to_rfc3339 : ℕ → String) (job_run : JobRun) (task_run_attempt : TaskRunAttempt)
    (data_dir job_run_dir : String) (inputs : StringMap)
    (previous_attempt : Option PreviousAttemptFiles) where
  abbrev pub layers : StringMap → String → ℕ → StringMap
  layers =
      own_layers to_rfc3339 job_run task_run_attempt data_dir job_run_dir inputs previous_attempt

  abbrev pub build : StringMap → TaskRun → Option StringMap
  build =
      build_task_run_attempt_env to_rfc3339 job_run task_run_attempt data_dir job_run_dir inputs
        previous_attempt

  metadata-Owned :
      (task_id : String) (task_run_id : ℕ)
      → Owned (
          metadata to_rfc3339 job_run task_run_attempt data_dir job_run_dir inputs previous_attempt
            task_id task_run_id)
  unfolding metadata starts_with
  metadata-Owned task_id task_run_id =
      (refl, (refl, (refl, (refl, (refl, (refl, (refl, (refl, (refl, tt)))))))))

  own_layers-free :
      (env : StringMap) (task_id : String) (task_run_id : ℕ) (name : String)
      → starts_with name "FLOWLITE_" ≡ false
      → get (layers env task_id task_run_id) name ≡ get env name
  unfolding own_layers
  own_layers-free env task_id task_run_id name free =
      put_all-Owned _ (previous_entries previous_attempt) name
        (previous_entries-Owned previous_attempt) free
      ∙ put_all-Owned _ (renamed task_input_env_name inputs) name
          (renamed-Owned task_input_env_name task_input_env_name-Owned inputs) free
      ∙ put_all-Owned _
          (metadata to_rfc3339 job_run task_run_attempt data_dir job_run_dir inputs previous_attempt
            task_id task_run_id)
          name (metadata-Owned task_id task_run_id) free
      ∙ put_all-Owned env (renamed parameter_env_name job_run.parameters) name
          (renamed-Owned parameter_env_name parameter_env_name-Owned job_run.parameters) free

  own_layers-congruent :
      (env other : StringMap) (task_id : String) (task_run_id : ℕ) (name : String)
      → get env name ≡ get other name
      → get (layers env task_id task_run_id) name ≡ get (layers other task_id task_run_id) name
  unfolding own_layers
  own_layers-congruent env other task_id task_run_id name e =
      put_all_congruent _ _ (previous_entries previous_attempt) name (
        put_all_congruent _ _ (renamed task_input_env_name inputs) name (
          put_all_congruent _ _
            (metadata to_rfc3339 job_run task_run_attempt data_dir job_run_dir inputs
              previous_attempt task_id task_run_id)
            name
            (put_all_congruent env other (renamed parameter_env_name job_run.parameters) name e)))

  pub build-inversion :
      (secrets : StringMap) (task_run : TaskRun) {env : StringMap}
      → build secrets task_run ≡ some env
      → (before : StringMap) × (insert_secrets secrets task_run.env task_run.secret_env
          ≡ some before)
        × (env ≡ layers (retain is_free before) task_run.task_id task_run.id)
  unfolding build_task_run_attempt_env
  build-inversion secrets task_run {env} e =
      let (before, found, own) =
        some-inversion (insert_secrets secrets task_run.env task_run.secret_env)
          (λ env. some (layers (retain is_free env) task_run.task_id task_run.id)) e in
      (before, found, cc own)

  environment-declared :
      (secrets : StringMap) (task_run : TaskRun) (env : StringMap) (name : String)
      → IsMap task_run.secret_env
      → build secrets task_run ≡ some env
      → starts_with name "FLOWLITE_" ≡ false
      → get env name ≡ declared secrets task_run name
  environment-declared secrets task_run env name h e free =
      let (before, found, own) = build-inversion secrets task_run e in
      let kept = get-retain is_free before name in
      ap (λ m. get m name) own
      ∙ own_layers-free (retain is_free before) task_run.task_id task_run.id name free
      ∙ rw free at kept
      ∙ insert_secrets-get secrets task_run.env task_run.secret_env name h found

  -- Where the environment of an attempt is built, the command that inherits other variables sees under the
  -- prefix FLOWLITE_ what was built and nothing inherited. Any other variable is what the task declares
  -- for it, the secret's value where its secret_env has the variable, else the value of its env; and
  -- where neither has it, what the command inherits.
  pub build_task_run_attempt_env-declared :
      (secrets inherited : StringMap) (task_run : TaskRun) (env : StringMap) (name : String)
      → IsMap task_run.secret_env
      → build secrets task_run ≡ some env
      → command_variable inherited env name ≡ (
          if starts_with name "FLOWLITE_"
          then get env name
          else or_else (declared secrets task_run name) (get inherited name))
  unfolding command_variable
  build_task_run_attempt_env-declared secrets inherited task_run env name h e =
      let kept = get-retain is_free inherited name in
      elim (Bool-cases (starts_with name "FLOWLITE_")) [
        | inl owned ↦
            rw owned
              (ap (λ o. or_else (get env name) o) (rw owned at kept) ∙ or_nothing (get env name))
        | inr free ↦ rw free (
            ap (λ o. or_else (get env name) o) (rw free at kept)
            ∙ ap (λ o. or_else o (get inherited name))
                (environment-declared secrets task_run env name h e free))
      ]
    where
      or_nothing : (o : Option String) → or_else o none ≡ o
      or_nothing none = refl
      or_nothing (some value) = refl

  -- Where the environments of two attempts are built alike but for what the task runs declare and the
  -- secrets are, the variables under the prefix FLOWLITE_ are the same in both: no declaration forges or
  -- adds one.
  pub build_task_run_attempt_env-unforged :
      (secrets others : StringMap) (task_run other : TaskRun) (env forged : StringMap)
      (name : String)
      → task_run.id ≡ other.id
      → task_run.task_id ≡ other.task_id
      → build secrets task_run ≡ some env
      → build others other ≡ some forged
      → starts_with name "FLOWLITE_" ≡ true
      → get env name ≡ get forged name
  build_task_run_attempt_env-unforged secrets others task_run other env forged name i t e f prefix =
      let (before, _, own) = build-inversion secrets task_run e in
      let (after, _, theirs) = build-inversion others other f in
      let dropped = get-retain is_free before name in
      let gone = get-retain is_free after name in
      ap (λ m. get m name) own
      ∙ own_layers-congruent (retain is_free before) (retain is_free after) task_run.task_id
          task_run.id name (rw prefix at dropped ∙ sym (rw prefix at gone))
      ∙ ap (λ x. get (layers (retain is_free after) x task_run.id) name) t
      ∙ ap (λ x. get (layers (retain is_free after) other.task_id x) name) i
      ∙ sym (ap (λ m. get m name) theirs)
