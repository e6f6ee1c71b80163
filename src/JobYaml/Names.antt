-- ===== src/JobYaml/Names.antt =====
-- The names in a job file: task ids, environment variables and secrets.
use Prim.Native.String as Str
use flowlite.Base.{
  String, Bool, true, false, not, ◌&&◌, ◌||◌, Option, none, some, List, [], ◌∷◌, map, ◌+++◌,
  is_ascii_alphabetic, is_ascii_alphanumeric, is_ascii_lowercase, is_ascii_digit, is_char,
  all_chars, has_double, to_ascii_uppercase, replace, ascii, starts_with, get, put, keys, or_else,
  find_map, if◌then◌else◌,
}
use flowlite.JobYaml.{StringMap, JobYaml, JobYamlTask}

pub data FileRefusal : Type 0 where
  invalid_task_id : String → FileRefusal
  same_input : String → String → FileRefusal
  reserved_variable : String → FileRefusal
  invalid_variable : String → FileRefusal
  invalid_secret : String → FileRefusal
  in_both_blocks : String → FileRefusal

abbrev pub is_empty : String → Bool
is_empty Str.[] = true
is_empty (Str.◌∷◌ _ _) = false

unfoldable pub is_valid_task_id : String → Bool
is_valid_task_id id =
    not (is_empty id) && all_chars (λ c. is_ascii_alphanumeric c || is_char 45 c || is_char 95 c) id

unfoldable pub task_input_env_name : String → String
task_input_env_name task_id =
    "FLOWLITE_INPUT_" +++ replace 45 (ascii 95) (to_ascii_uppercase task_id)

unfoldable pub is_valid_env_var_name : String → Bool
is_valid_env_var_name Str.[] = false
is_valid_env_var_name (Str.◌∷◌ first chars) =
    (is_ascii_alphabetic first || is_char 95 first)
    && all_chars (λ c. is_ascii_alphanumeric c || is_char 95 c) chars

unfoldable pub is_valid_secret_name : String → Bool
is_valid_secret_name name =
    not (is_empty name)
    && not (has_double 95 name)
    && all_chars (λ c. is_ascii_lowercase c || is_ascii_digit c || is_char 95 c) name

-- The loop of `validate_task_ids`, with the input names it has seen.
unfoldable pub check_task_ids : StringMap → List JobYamlTask → Option FileRefusal
check_task_ids seen_input_names [] = none
check_task_ids seen_input_names (task ∷ tasks) =
    let input_name = task_input_env_name task.id in
    let rest = check_task_ids (put seen_input_names input_name task.id) tasks in
    if not (is_valid_task_id task.id)
    then some (invalid_task_id task.id)
    else elim (get seen_input_names input_name) [
      | some other_task_id ↦ some (same_input other_task_id task.id)
      | none ↦ rest
    ]

unfoldable pub validate_task_ids : JobYaml → Option FileRefusal
unfolding check_task_ids
validate_task_ids job = check_task_ids [] job.tasks

abbrev pub reserved : StringMap → Option FileRefusal
reserved env =
    find_map (λ name. if starts_with name "FLOWLITE_" then some (reserved_variable name) else none)
      (keys env)

unfoldable pub validate_env_names : JobYaml → Option FileRefusal
validate_env_names job = find_map reserved (job.env ∷ map (λ task. task.env) job.tasks)

-- One entry of a `secret_env` block, by the `env` block of the same level.
unfoldable pub check_secret : StringMap → String × String → Option FileRefusal
check_secret env (variable_name, secret_name) =
    if not (is_valid_env_var_name variable_name)
    then some (invalid_variable variable_name)
    else if starts_with variable_name "FLOWLITE_"
    then some (reserved_variable variable_name)
    else if not (is_valid_secret_name secret_name)
    then some (invalid_secret secret_name)
    else elim (get env variable_name) [ some _ ↦ some (in_both_blocks variable_name) | none ↦ none ]

unfoldable pub validate_secret_env_block : StringMap → StringMap → Option FileRefusal
unfolding check_secret
validate_secret_env_block env secret_env = find_map (check_secret env) secret_env

unfoldable pub validate_secret_env : JobYaml → Option FileRefusal
unfolding validate_secret_env_block
validate_secret_env job =
    or_else (validate_secret_env_block job.env job.secret_env)
      (find_map (λ task. validate_secret_env_block task.env task.secret_env) job.tasks)

-- What `from_yaml_str` checks of a job that was parsed.
unfoldable pub validate : JobYaml → Option FileRefusal
unfolding validate_task_ids validate_secret_env validate_env_names
validate job =
    or_else (validate_task_ids job) (or_else (validate_secret_env job) (validate_env_names job))
