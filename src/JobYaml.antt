-- ===== src/JobYaml.antt =====
-- src/yaml_models/job_yaml.rs: a job file after it has been parsed.
pub mod Names
pub mod Files
use flowlite.Base.{ℕ, String, Option, List}

-- A `BTreeMap` of strings: its entries in the order of their keys.
abbrev pub StringMap : Type 0
StringMap = List (String × String)

pub record JobYamlTask : Type 0 where
  pub id : String
  pub description : String
  pub command : String
  pub stdin : String
  pub depends_on : List String
  pub limits : List String
  pub timeout : Option ℕ
  pub idle_timeout : Option ℕ
  pub max_retries : Option ℕ
  pub retry_delay : Option ℕ
  pub env : StringMap
  pub secret_env : StringMap
  pub working_dir : String

pub record JobYamlNotify : Type 0 where
  pub email : List String
  pub slack : List String

pub record JobYaml : Type 0 where
  pub id : String
  pub name : String
  pub description : String
  pub max_parallel_runs : Option ℕ
  pub keep_runs : Option ℕ
  pub parameters : StringMap
  pub env : StringMap
  pub secret_env : StringMap
  pub limits : List String
  pub on_failure : JobYamlNotify
  pub on_success : JobYamlNotify
  pub tasks : List JobYamlTask
