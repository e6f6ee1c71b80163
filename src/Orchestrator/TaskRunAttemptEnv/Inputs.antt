-- ===== src/Orchestrator/TaskRunAttemptEnv/Inputs.antt =====
-- The results that a task is handed, where its job's file was accepted.
use flowlite.Base.{
  ℕ, ◌≡◌, ◌≢◌, sym, ap, ◌∙◌, String, Option, none, some, List, [], ◌∷◌, map, inl, inr, All, In,
  All-In, get, keys, IsMap, Apart,
}
use flowlite.JobYaml.{StringMap, JobYaml}
use flowlite.JobYaml.Names
use flowlite.JobYaml.Names.{validate}
use flowlite.JobYaml.Files.{validate-IsAccepted}
use flowlite.Crud.JobRun.{JobRun}
use flowlite.Crud.TaskRun.{TaskRun}
use flowlite.Crud.TaskRunAttempt.{TaskRunAttempt}
use flowlite.Orchestrator.TaskRunAttemptEnv.{PreviousAttemptFiles, task_input_env_name}
use flowlite.Orchestrator.TaskRunAttemptEnv.Layers.{build}
use flowlite.Orchestrator.TaskRunAttemptEnv.Parameters.{build_task_run_attempt_env-inputs}

-- Among names that come out apart, the same image means the same name.
Apart-In :
    (image : String → String) (names : List String) (name other : String)
    → Apart image names
    → In name names
    → In other names
    → image name ≡ image other
    → name ≡ other
Apart-In image [] name other h m n e = absurd m
Apart-In image (first ∷ names) name other h (inl p) (inl q) e = sym p ∙ q
Apart-In image (first ∷ names) name other h (inl p) (inr n) e =
    absurd (All-In (λ x. image x ≢ image first) names h.0 n (sym e ∙ ap image (sym p)))
Apart-In image (first ∷ names) name other h (inr m) (inl q) e =
    absurd (All-In (λ x. image x ≢ image first) names h.0 m (e ∙ ap image (sym q)))
Apart-In image (first ∷ names) name other h (inr m) (inr n) e =
    Apart-In image names name other h.1 m n e

-- So the keys of a map among them come out apart too.
IsMap-Apart :
    (image : String → String) (names : List String) (entries : StringMap)
    → Apart image names
    → IsMap entries
    → All (λ key. In key names) (keys entries)
    → Apart image (keys entries)
IsMap-Apart image names [] h m among = tt
IsMap-Apart image names (entry ∷ entries) h m among =
    (others entries m.0 among.1, IsMap-Apart image names entries h m.1 among.1)
  where
    others :
        (entries : StringMap)
        → All (λ other. other.0 ≢ entry.0) entries
        → All (λ key. In key names) (keys entries)
        → All (λ other. image other ≢ image entry.0) (keys entries)
    others [] d a = tt
    others (other ∷ entries) d a =
        ((λ e. d.0 (Apart-In image names other.0 entry.0 h a.0 among.0 e)), others entries d.1 a.1)

-- Where a job file was accepted and the inputs of an attempt are results of tasks of the job, the
-- environment of the attempt, if it is built, has each of them under its variable.
pub build_task_run_attempt_env-input :
    (to_rfc3339 : ℕ → String) (job_run : JobRun) (task_run_attempt : TaskRunAttempt)
    (data_dir job_run_dir : String) (inputs : StringMap)
    (previous_attempt : Option PreviousAttemptFiles) (secrets env : StringMap) (task_run : TaskRun)
    (job : JobYaml) (task_id path : String)
    → validate job ≡ none
    → IsMap inputs
    → All (λ key. In key (map (λ task. task.id) job.tasks)) (keys inputs)
    → get inputs task_id ≡ some path
    → build to_rfc3339 job_run task_run_attempt data_dir job_run_dir inputs previous_attempt secrets
        task_run
      ≡ some env
    → get env (task_input_env_name task_id) ≡ some path
unfolding task_input_env_name Names.task_input_env_name
build_task_run_attempt_env-input to_rfc3339 job_run task_run_attempt data_dir job_run_dir inputs
      previous_attempt secrets env task_run job task_id path accepted m among found built =
    let apart = ((validate-IsAccepted job).0 accepted).apart in
    build_task_run_attempt_env-inputs to_rfc3339 job_run task_run_attempt data_dir job_run_dir
      inputs previous_attempt secrets env task_run task_id path
      (IsMap-Apart task_input_env_name (map (λ task. task.id) job.tasks) inputs apart m among) found
      built
