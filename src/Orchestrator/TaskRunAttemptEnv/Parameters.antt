-- ===== src/Orchestrator/TaskRunAttemptEnv/Parameters.antt =====
-- What flowlite hands to a command under its own prefix arrives: the parameters of the run, and the results of
-- the tasks that it depends on.
use Prim.Native.Char.{code}
use Prim.Native.String.append as append
use text.Mathlib.TextLemmas.{append_assoc, append_cancel_left, head-eq_of_cons-eq}
use flowlite.Base.{
  ℕ, ◌≡◌, ◌≢◌, refl, sym, ap, ◌∙◌, subst, String, true, false, inl, inr, Option, none, some, List,
  [], ◌∷◌, ◌==◌, string_Column, All, All-imp, ◌+++◌, starts_with, starts_with-append, get, put,
  put_all, retain, keys, get-put, or_else, IsMap, get-put_all, get-absent, Apart, Bool-cases,
  Option-cases, arith, to_ascii_uppercase, replace, ascii,
}
use flowlite.JobYaml.{StringMap}
use flowlite.Crud.JobRun.{JobRun}
use flowlite.Crud.TaskRun.{TaskRun}
use flowlite.Crud.TaskRunAttempt.{TaskRunAttempt}
use flowlite.Crud.Multistatements.SubmitJob.{resolved, resolve_job_parameters}
use flowlite.Crud.Multistatements.SubmitJob.Parameters.{resolve_job_parameters-Apart}
use flowlite.Orchestrator.TaskRunAttemptEnv.{
  PreviousAttemptFiles, parameter_env_name, task_input_env_name, is_free, renamed, previous_entries,
  metadata, own_layers,
}
use flowlite.Orchestrator.TaskRunAttemptEnv.Layers.{build, build-inversion}

-- Entries whose names come out apart are a map.
renamed-IsMap :
    (name_of : String → String) (entries : StringMap)
    → Apart name_of (keys entries)
    → IsMap (renamed name_of entries)
renamed-IsMap name_of [] h = tt
renamed-IsMap name_of (entry ∷ entries) h = (others entries h.0, renamed-IsMap name_of entries h.1)
  where
    others :
        (entries : StringMap)
        → All (λ other. name_of other ≢ name_of entry.0) (keys entries)
        → All (λ other. other.0 ≢ name_of entry.0) (renamed name_of entries)
    others [] h = tt
    others (other ∷ entries) h = (h.0, others entries h.1)

some-ne-none : {x : String} → ¬ (some x ≡ none)
some-ne-none e = cc

-- An entry is found under its new name.
get-renamed :
    (name_of : String → String) (entries : StringMap) (name value : String)
    → IsMap (renamed name_of entries)
    → get entries name ≡ some value
    → get (renamed name_of entries) (name_of name) ≡ some value
unfolding get
get-renamed name_of [] name value m e = cc
get-renamed name_of (entry ∷ entries) name value m e = elim (Bool-cases (entry.0 == name)) [
  | inl same ↦
      let is = ap name_of ((string_Column.equals_iff entry.0 name).0 same) in
      let found = (string_Column.equals_iff (name_of entry.0) (name_of name)).1 is in
      rw (found, get) (rw (same, get) at e)
  | inr off ↦
      let later = get-renamed name_of entries name value m.1 (rw (off, get) at e) in
      elim (Bool-cases (name_of entry.0 == name_of name)) [
        | inl clash ↦
            let is = (string_Column.equals_iff (name_of entry.0) (name_of name)).0 clash in
            let away = subst (λ k. All (λ other. other.0 ≢ k) (renamed name_of entries)) is m.0 in
            absurd
              (some-ne-none (sym later ∙ get-absent (renamed name_of entries) (name_of name) away))
        | inr apart ↦ rw (apart, get) later
      ]
]

-- Entries under other names leave a name alone.
put_all_away :
    (env entries : StringMap) (name : String)
    → All (λ entry. entry.0 ≢ name) entries
    → get (put_all env entries) name ≡ get env name
put_all_away env [] name h = refl
put_all_away env (entry ∷ entries) name h = elim (Bool-cases (entry.0 == name)) [
  | inl same ↦ absurd (h.0 ((string_Column.equals_iff entry.0 name).0 same))
  | inr off ↦
      let first = get-put env entry.0 entry.1 name in
      put_all_away (put env entry.0 entry.1) entries name h.1 ∙ rw off at first
]

-- Entries that do not start as a name does are under other names.
unlike_prefix :
    (prefix rest : String) (entries : StringMap)
    → All (λ entry. starts_with entry.0 prefix ≡ false) entries
    → All (λ entry. entry.0 ≢ prefix +++ rest) entries
unlike_prefix prefix rest [] h = tt
unlike_prefix prefix rest (entry ∷ entries) h = (
  λ e.
      true-ne-false
        (sym (starts_with-append prefix rest) ∙ ap (λ s. starts_with s prefix) (sym e) ∙ h.0),
  unlike_prefix prefix rest entries h.1,
)
  where
    true-ne-false : ¬ (true ≡ false)
    true-ne-false e = cc

-- The two families of names have no name in common.
input-ne-parameter :
    (input rest : String) → "FLOWLITE_INPUT_" +++ input ≢ "FLOWLITE_PARAM_" +++ rest
input-ne-parameter input rest e =
    let tails = append_cancel_left "FLOWLITE_" ("INPUT_" +++ input) ("PARAM_" +++ rest) (
      sym (append_assoc "FLOWLITE_" "INPUT_" input) ∙ e ∙ append_assoc "FLOWLITE_" "PARAM_" rest) in
    let heads = sym (append.cons "I" "NPUT_" input) ∙ tails ∙ append.cons "P" "ARAM_" rest in
    letters (ap code (head-eq_of_cons-eq {x = "I"} {y = "P"} heads))
  where
    letters : ¬ ◌≡◌ {A = ℕ} 73 80
    letters e = omega arith

module _ (to_rfc3339 : ℕ → String) (job_run : JobRun) (task_run_attempt : TaskRunAttempt)
    (data_dir job_run_dir : String) (inputs : StringMap)
    (previous_attempt : Option PreviousAttemptFiles) where
  abbrev run_metadata : String → ℕ → StringMap
  run_metadata =
      metadata to_rfc3339 job_run task_run_attempt data_dir job_run_dir inputs previous_attempt

  run_metadata-away :
      (task_id : String) (task_run_id : ℕ) (rest : String)
      → All (λ entry. entry.0 ≢ "FLOWLITE_PARAM_" +++ rest) (run_metadata task_id task_run_id)
  unfolding starts_with metadata
  run_metadata-away task_id task_run_id rest =
      unlike_prefix "FLOWLITE_PARAM_" rest (run_metadata task_id task_run_id)
        (refl, (refl, (refl, (refl, (refl, (refl, (refl, (refl, (refl, tt)))))))))

inputs_away :
    (entries : StringMap) (rest : String)
    → All (λ entry. entry.0 ≢ "FLOWLITE_PARAM_" +++ rest) (renamed task_input_env_name entries)
unfolding task_input_env_name
inputs_away [] rest = tt
inputs_away (entry ∷ entries) rest = (
  input-ne-parameter (replace 45 (ascii 95) (to_ascii_uppercase entry.0)) rest,
  inputs_away entries rest,
)

parameters-Apart :
    (names : List String) → Apart to_ascii_uppercase names → Apart parameter_env_name names
unfolding parameter_env_name
parameters-Apart [] h = tt
parameters-Apart (name ∷ names) h = (
  All-imp
      (λ other differs e. differs (
        append_cancel_left "FLOWLITE_PARAM_" (to_ascii_uppercase other) (to_ascii_uppercase name)
          e))
      names h.0,
  parameters-Apart names h.1,
)

previous_away :
    (prefix rest : String) (previous : Option PreviousAttemptFiles)
    → starts_with "FLOWLITE_PREVIOUS_ATTEMPT_LOG" prefix ≡ false
    → starts_with "FLOWLITE_PREVIOUS_ATTEMPT_OUTPUT" prefix ≡ false
    → All (λ entry. entry.0 ≢ prefix +++ rest) (previous_entries previous)
unfolding previous_entries
previous_away prefix rest none h k = tt
previous_away prefix rest (some previous) h k =
    unlike_prefix prefix rest (previous_entries (some previous))
      (elim (Option-cases previous.output) [
        | inl e ↦ rw (e, previous_entries) (h, tt)
        | inr (output, e) ↦ rw (e, previous_entries) (h, (k, tt))
      ])

module _ (to_rfc3339 : ℕ → String) (job_run : JobRun) (task_run_attempt : TaskRunAttempt)
    (data_dir job_run_dir : String) (inputs : StringMap)
    (previous_attempt : Option PreviousAttemptFiles) where
  -- Where a job run has the parameters that a submission was resolved to, the environment of each attempt
  -- of it, if it is built, has each of them under its variable, with its value.
  pub build_task_run_attempt_env-parameters :
      (declared overrides secrets env : StringMap) (task_run : TaskRun) (name value : String)
      → resolve_job_parameters declared overrides ≡ resolved job_run.parameters
      → get job_run.parameters name ≡ some value
      → build to_rfc3339 job_run task_run_attempt data_dir job_run_dir inputs previous_attempt
          secrets task_run
        ≡ some env
      → get env (parameter_env_name name) ≡ some value
  unfolding own_layers parameter_env_name starts_with
  build_task_run_attempt_env-parameters declared overrides secrets env task_run name value r e h =
      let rest = to_ascii_uppercase name in
      let key = parameter_env_name name in
      let (before, _, own) =
        build-inversion to_rfc3339 job_run task_run_attempt data_dir job_run_dir inputs
          previous_attempt secrets task_run h in
      let upper = resolve_job_parameters-Apart declared overrides job_run.parameters r in
      let apart = parameters-Apart (keys job_run.parameters) upper in
      let m = renamed-IsMap parameter_env_name job_run.parameters apart in
      let found = get-renamed parameter_env_name job_run.parameters name value m e in
      ap (λ x. get x key) own
      ∙ put_all_away _ (previous_entries previous_attempt) key
          (previous_away "FLOWLITE_PARAM_" rest previous_attempt refl refl)
      ∙ put_all_away _ (renamed task_input_env_name inputs) key (inputs_away inputs rest)
      ∙ put_all_away _
          (run_metadata to_rfc3339 job_run task_run_attempt data_dir job_run_dir inputs
            previous_attempt task_run.task_id task_run.id)
          key
          (run_metadata-away to_rfc3339 job_run task_run_attempt data_dir job_run_dir inputs
            previous_attempt task_run.task_id task_run.id rest)
      ∙ get-put_all (retain is_free before) (renamed parameter_env_name job_run.parameters) key m
      ∙ ap (λ o. or_else o (get (retain is_free before) key)) found

  -- Where no two inputs come under the same variable, the environment of an attempt, if it is built, has each
  -- of them under its variable.
  pub build_task_run_attempt_env-inputs :
      (secrets env : StringMap) (task_run : TaskRun) (task_id path : String)
      → Apart task_input_env_name (keys inputs)
      → get inputs task_id ≡ some path
      → build to_rfc3339 job_run task_run_attempt data_dir job_run_dir inputs previous_attempt
          secrets task_run
        ≡ some env
      → get env (task_input_env_name task_id) ≡ some path
  unfolding own_layers task_input_env_name starts_with
  build_task_run_attempt_env-inputs secrets env task_run task_id path apart e h =
      let key = task_input_env_name task_id in
      let rest = replace 45 (ascii 95) (to_ascii_uppercase task_id) in
      let (before, _, own) =
        build-inversion to_rfc3339 job_run task_run_attempt data_dir job_run_dir inputs
          previous_attempt secrets task_run h in
      let m = renamed-IsMap task_input_env_name inputs apart in
      let found = get-renamed task_input_env_name inputs task_id path m e in
      let run =
        put_all (put_all (retain is_free before) (renamed parameter_env_name job_run.parameters)) (
          run_metadata to_rfc3339 job_run task_run_attempt data_dir job_run_dir inputs
            previous_attempt task_run.task_id task_run.id) in
      ap (λ x. get x key) own
      ∙ put_all_away _ (previous_entries previous_attempt) key
          (previous_away "FLOWLITE_INPUT_" rest previous_attempt refl refl)
      ∙ get-put_all run (renamed task_input_env_name inputs) key m
      ∙ ap (λ o. or_else o (get run key)) found
