-- ===== src/Orchestrator/TaskRunAttemptDispatcher/Reading.antt =====
-- Deciding on an attempt, and preparing its start, only read.
use flowlite.Base.{
  ℕ, Bool, true, false, ltb, Option, none, some, List, [], ◌∷◌, refl, if◌then◌else◌, String,
}
use flowlite.Crud.TaskRun.{TaskRun}
use flowlite.Crud.TaskRunAttempt
use flowlite.Crud.TaskRunAttempt.{TaskRunAttempt}
use flowlite.Crud.World.{Action, ◌>>=◌, pure, return_early, operation}
use flowlite.Crud.World.Frames.{Keeps, operation-Keeps, query-Keeps, bind-Keeps}
use flowlite.Crud.Statements
use flowlite.Crud.Statements.{
  required, is_job_run_stopped, select_job_run_stop, select_task_run_attempts,
}
use flowlite.Crud.Multistatements.{
  select_running_attempts, count_running_attempts, tally_slots, claimed_limit_slots,
}
use flowlite.Orchestrator.TaskRunAttemptDispatcher.{
  AppConfig, get_task_run, get_job_run, full_of, a_claimed_limit_is_full, is_waiting_to_retry,
  is_at_cap, should_stay_queued, derive_next_status, get_inputs, write_previous_attempt_files,
  build_env, prepare,
}

pub required-Keeps : {A : Type 0} (o : Option A) → Keeps (required o)
unfolding required
required-Keeps none w = refl
required-Keeps (some a) w = refl

if-Keeps : {A : Type 0} (b : Bool) (m n : Action A) → Keeps m → Keeps n → Keeps (if b then m else n)
if-Keeps true m n h k = h
if-Keeps false m n h k = k

return_early-Keeps :
    {A : Type 0} (b : Bool) (a : A) (m : Action A) → Keeps m → Keeps (return_early b a m)
return_early-Keeps true a m h = λ w. refl
return_early-Keeps false a m h = h

-- A read and then an answer.
read_pure-Keeps :
    {A B : Type 0} (m : Action A) (f : A → B) → Keeps m → Keeps (m >>= λ a. pure (f a))
read_pure-Keeps m f h = bind-Keeps m (λ a. pure (f a)) h (λ a w. refl)

is_job_run_stopped-Keeps : (id : ℕ) → Keeps (is_job_run_stopped id)
unfolding is_job_run_stopped select_job_run_stop
is_job_run_stopped-Keeps id = read_pure-Keeps _ _ (query-Keeps _)

get_task_run-Keeps : (attempt : TaskRunAttempt) → Keeps (get_task_run attempt)
unfolding get_task_run Statements.select_task_run
get_task_run-Keeps attempt = bind-Keeps _ required (query-Keeps _) required-Keeps

get_job_run-Keeps : (attempt : TaskRunAttempt) → Keeps (get_job_run attempt)
unfolding get_job_run Statements.select_job_run
get_job_run-Keeps attempt = bind-Keeps _ required (query-Keeps _) required-Keeps

running-Keeps : Keeps select_running_attempts
unfolding select_running_attempts select_task_run_attempts
running-Keeps = query-Keeps _

tally_slots-Keeps :
    (attempts : List TaskRunAttempt) (slots : List (String × ℕ))
    → Keeps (tally_slots attempts slots)
unfolding tally_slots Statements.select_task_run
tally_slots-Keeps [] slots = λ w. refl
tally_slots-Keeps (a ∷ attempts) slots = bind-Keeps _ _ (query-Keeps _) (λ found.
    bind-Keeps (required found) _ (required-Keeps found) (λ task_run. tally_slots-Keeps attempts _))

full_of-Keeps : (config : AppConfig) (limits : List String) → Keeps (full_of config limits)
unfolding claimed_limit_slots
full_of-Keeps config [] = λ w. refl
full_of-Keeps config (limit ∷ limits) =
    read_pure-Keeps claimed_limit_slots _
      (bind-Keeps select_running_attempts _ running-Keeps (λ attempts. tally_slots-Keeps _ []))

module _ (config : AppConfig) (attempt : TaskRunAttempt) where
  waiting-Keeps : Keeps (is_waiting_to_retry attempt)
  unfolding is_waiting_to_retry
  waiting-Keeps =
      if-Keeps (ltb 1 attempt.attempt) _ _
        (bind-Keeps (get_task_run attempt) _ (get_task_run-Keeps attempt) (λ task_run w. refl))
        (λ w. refl)

  cap-Keeps : Keeps (is_at_cap config)
  unfolding is_at_cap count_running_attempts
  cap-Keeps =
      if-Keeps (ltb 0 config.max_running_attempts) _ _
        (read_pure-Keeps count_running_attempts _
          (read_pure-Keeps select_running_attempts _ running-Keeps))
        (λ w. refl)

  should_stay_queued-Keeps : Keeps (should_stay_queued config attempt)
  unfolding should_stay_queued a_claimed_limit_is_full
  should_stay_queued-Keeps = bind-Keeps (is_waiting_to_retry attempt) _ waiting-Keeps (λ waiting.
      return_early-Keeps waiting true _ (
        bind-Keeps (is_at_cap config) _ cap-Keeps (λ capped. return_early-Keeps capped true _ (
          bind-Keeps (get_task_run attempt) _ (get_task_run-Keeps attempt)
            (λ task_run. full_of-Keeps config task_run.limits)))))

  pub derive_next_status-Keeps : Keeps (derive_next_status config attempt)
  unfolding derive_next_status
  derive_next_status-Keeps = return_early-Keeps _ TaskRunAttempt.invalid _ (
      bind-Keeps (is_job_run_stopped attempt.job_run_id) _
        (is_job_run_stopped-Keeps attempt.job_run_id)
        (λ stopped. return_early-Keeps stopped TaskRunAttempt.skipped _ (
          bind-Keeps (should_stay_queued config attempt) _ should_stay_queued-Keeps
            (λ stays. return_early-Keeps stays TaskRunAttempt.queued _ (λ w. refl)))))

  get_inputs-Keeps :
      (task_run : TaskRun) (task_ids : List String) → Keeps (get_inputs task_run task_ids)
  unfolding get_inputs select_task_run_attempts
  get_inputs-Keeps task_run [] = λ w. refl
  get_inputs-Keeps task_run (task_id ∷ task_ids) = read_pure-Keeps _ _ (query-Keeps _)

  previous-Keeps : Keeps (write_previous_attempt_files attempt)
  unfolding write_previous_attempt_files select_task_run_attempts
  previous-Keeps =
      if-Keeps (ltb attempt.attempt 2) _ _ (λ w. refl)
        (bind-Keeps _ _ (query-Keeps _) (λ attempts.
          bind-Keeps (required _) _ (required-Keeps _)
            (λ previous. bind-Keeps _ _ operation-Keeps (λ _. operation-Keeps))))

  build_env-Keeps : (task_run : TaskRun) → Keeps (build_env config task_run)
  unfolding build_env
  build_env-Keeps task_run = if-Keeps _ _ _ (λ w. refl) (λ w. refl)

  pub prepare-Keeps : Keeps (prepare config attempt)
  unfolding prepare
  prepare-Keeps = bind-Keeps (get_task_run attempt) _ (get_task_run-Keeps attempt) (λ task_run.
      bind-Keeps (get_job_run attempt) _ (get_job_run-Keeps attempt) (λ job_run.
        bind-Keeps operation _ operation-Keeps (λ _.
          bind-Keeps (get_inputs task_run task_run.depends_on) _
            (get_inputs-Keeps task_run task_run.depends_on)
            (λ _.
              bind-Keeps (write_previous_attempt_files attempt) _ previous-Keeps
                (λ _. read_pure-Keeps (build_env config task_run) _ (build_env-Keeps task_run))))))
