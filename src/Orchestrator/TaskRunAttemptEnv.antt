-- ===== src/Orchestrator/TaskRunAttemptEnv.antt =====
-- src/orchestrator/task_run_attempt_env.rs: the environment that an attempt's command is given.
pub mod Layers
pub mod Parameters
pub mod Inputs
use flowlite.Base.{
  ℕ, String, Bool, not, Option, none, some, List, [], ◌∷◌, ◌++◌, map, ◌+++◌, to_ascii_uppercase,
  replace, ascii, starts_with, to_string, get, put, put_all, or_else, retain,
}
use flowlite.JobYaml.{StringMap}
use flowlite.Crud.JobRun.{JobRun}
use flowlite.Crud.TaskRun.{TaskRun}
use flowlite.Crud.TaskRunAttempt.{TaskRunAttempt}

pub record PreviousAttemptFiles : Type 0 where
  pub log : String
  pub output : Option String

-- src/run_dir.rs: a path joined to one that does not end in a separator.
abbrev pub join : String → String → String
join path name = path +++ ("/" +++ name)

unfoldable pub task_output_path : String → String → ℕ → String
task_output_path job_run_dir task_id attempt =
    join (join job_run_dir ".output") (task_id +++ ("." +++ to_string attempt))

unfoldable pub parameter_env_name : String → String
parameter_env_name name = "FLOWLITE_PARAM_" +++ to_ascii_uppercase name

unfoldable pub task_input_env_name : String → String
task_input_env_name task_id =
    "FLOWLITE_INPUT_" +++ replace 45 (ascii 95) (to_ascii_uppercase task_id)

-- The loop over `secret_env`: the secret's value under the variable's name. None is the error.
unfoldable pub insert_secrets : StringMap → StringMap → StringMap → Option StringMap
insert_secrets secrets env [] = some env
insert_secrets secrets env ((name, secret_name) ∷ secret_env) = elim (get secrets secret_name) [
  | none ↦ none
  | some value ↦ insert_secrets secrets (put env name value) secret_env
]

abbrev pub is_free : String → Bool
is_free name = not (starts_with name "FLOWLITE_")

-- The entries of a map under other names.
abbrev pub renamed : (String → String) → StringMap → StringMap
renamed name_of entries = map (λ entry. (name_of entry.0, entry.1)) entries

unfoldable pub previous_entries : Option PreviousAttemptFiles → StringMap
previous_entries none = []
previous_entries (some previous) =
    ("FLOWLITE_PREVIOUS_ATTEMPT_LOG", previous.log) ∷ elim previous.output [
      | none ↦ []
      | some output ↦ ("FLOWLITE_PREVIOUS_ATTEMPT_OUTPUT", output) ∷ []
    ]

-- What the dispatcher gathers for a spawn, with the printing of instants by chrono.
module _ (to_rfc3339 : ℕ → String) (job_run : JobRun) (task_run_attempt : TaskRunAttempt)
    (data_dir job_run_dir : String) (inputs : StringMap)
    (previous_attempt : Option PreviousAttemptFiles) where
  unfoldable pub metadata : (task_id : String) (task_run_id : ℕ) → StringMap
  metadata task_id task_run_id =
      ("FLOWLITE_DATA_DIR", data_dir)
      ∷ ("FLOWLITE_JOB_ID", job_run.job_id)
      ∷ ("FLOWLITE_JOB_RUN_ID", to_string job_run.id)
      ∷ ("FLOWLITE_TASK_ID", task_id)
      ∷ ("FLOWLITE_TASK_RUN_ID", to_string task_run_id)
      ∷ ("FLOWLITE_TASK_RUN_ATTEMPT_ID", to_string task_run_attempt.id)
      ∷ ("FLOWLITE_ATTEMPT", to_string task_run_attempt.attempt)
      ∷ ("FLOWLITE_SCHEDULED_AT", to_rfc3339 job_run.scheduled_at)
      ∷ ("FLOWLITE_TASK_OUTPUT", task_output_path job_run_dir task_id task_run_attempt.attempt)
      ∷ []

  -- The variables that flowlite sets itself, in the order of the calls.
  unfoldable pub own_layers : StringMap → (task_id : String) (task_run_id : ℕ) → StringMap
  unfolding metadata previous_entries
  own_layers env task_id task_run_id =
      let parameters = put_all env (renamed parameter_env_name job_run.parameters) in
      let run = put_all parameters (metadata task_id task_run_id) in
      let results = put_all run (renamed task_input_env_name inputs) in
      put_all results (previous_entries previous_attempt)

  unfoldable pub build_task_run_attempt_env : StringMap → TaskRun → Option StringMap
  unfolding own_layers insert_secrets
  build_task_run_attempt_env secrets task_run =
      elim (insert_secrets secrets task_run.env task_run.secret_env) [
        | none ↦ none
        | some env ↦ some (own_layers (retain is_free env) task_run.task_id task_run.id)
      ]

-- A variable of the command that TaskRunAttemptDispatcher spawns. It removes the inherited variables under
-- the prefix, then lays the built environment over the rest.
unfoldable pub command_variable : (inherited env : StringMap) → String → Option String
command_variable inherited env name = or_else (get env name) (get (retain is_free inherited) name)
