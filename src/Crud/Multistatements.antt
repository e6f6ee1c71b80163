-- ===== src/Crud/Multistatements.antt =====
-- src/crud/multistatements: the chains of statements that several callers share.
pub mod SubmitJob
pub mod JobRunDefinition
pub mod Deletion
pub mod Slots
pub mod RetentionCandidates
pub mod DeleteJobRunsWithChildren
use flowlite.Base.{
  ℕ, suc, ◌+◌, String, Bool, true, false, ◌&&◌, not, Option, none, some, List, [], ◌∷◌, filter,
  length, leb, ◌==◌, nat_Column, string_Column, option_Column, if◌then◌else◌,
}
use flowlite.Crud.JobRun
use flowlite.Crud.JobRun.{JobRun, JobRunFilter, any_job_run, by_id, JobRunStatus_Column}
use flowlite.Crud.TaskRun
use flowlite.Crud.TaskRun.{TaskRun, TaskRunStatus, any_task_run}
use flowlite.Crud.TaskRunAttempt
use flowlite.Crud.TaskRunAttempt.{TaskRunAttempt, any_attempt}
use flowlite.Crud.World.{Job, Action, ◌>>=◌, ◌>>◌, pure, done, current_ts, transaction, commit}
use flowlite.Crud.Statements.{
  is_some, select_job_runs, select_job_run, update_job_runs, select_task_run, update_task_runs,
  select_task_run_attempts, select_job_run_stop, insert_job_run_stop, select_job, required,
}

-- A run and its task runs settled as never started: the task runs first.
unfoldable pub settle_unstarted : TaskRunStatus → JobRun.JobRunStatus → ℕ → Action Unit
settle_unstarted task_status status job_run_id = do
  now ← current_ts
  update_task_runs (record { id = none; job_run_id = some job_run_id; status = none })
      (record { status = some task_status; started_at = none; finished_at = some (some now) })
  update_job_runs (some job_run_id)
      (record { status = some status; started_at = none; finished_at = some (some now) })

unfoldable pub skip_job_run : ℕ → Action Unit
unfolding settle_unstarted
skip_job_run = settle_unstarted TaskRun.skipped JobRun.skipped

unfoldable pub invalidate_job_run : ℕ → Action Unit
unfolding settle_unstarted
invalidate_job_run = settle_unstarted TaskRun.invalid JobRun.invalid

abbrev tombstone : ℕ → Option JobRun → Action Bool
tombstone job_run_id none = pure false
tombstone job_run_id (some _) =
    settle_unstarted TaskRun.skipped JobRun.deleted job_run_id >> commit >> pure true

-- `delete_job_run` tells whether the run was still scheduled, and so deleted.
unfoldable pub delete_job_run : ℕ → Action Bool
unfolding settle_unstarted
delete_job_run job_run_id = transaction (
    select_job_run (record any_job_run { id = some job_run_id; status = some JobRun.scheduled })
    >>= tombstone job_run_id)

-- The loop of `stop_child_job_runs`.
unfoldable pub stop_each : List JobRun → Action Unit
stop_each [] = done
stop_each (child ∷ children) = do
  stop ← select_job_run_stop child.id
  if is_some stop then done else insert_job_run_stop child.id
  stop_each children

unfoldable pub unfinished_children : ℕ → List JobRun → List JobRun
unfinished_children attempt_id children =
    filter (λ c. not (JobRun.is_finished c.status))
      (filter (λ c. c.parent_task_run_attempt_id == some attempt_id) children)

unfoldable pub stop_child_job_runs : TaskRunAttempt → Action Unit
unfolding stop_each unfinished_children
stop_child_job_runs attempt = do
  children ←
      select_job_runs (record any_job_run { parent_job_run_id = some attempt.job_run_id })
        (some by_id) none none
  stop_each (unfinished_children attempt.id children)

unfoldable pub select_running_attempts : Action (List TaskRunAttempt)
select_running_attempts =
    select_task_run_attempts (record any_attempt { status = some TaskRunAttempt.running }) none

abbrev pub at_max_parallel_runs : String → Option Job → Action Bool
at_max_parallel_runs job_id none = pure false
at_max_parallel_runs job_id (some job) =
    if job.max_parallel_runs == 0
    then pure false
    else (select_job_runs
          (record any_job_run { job_id = some job_id; status = some JobRun.running }) none none none
        >>= λ running_job_runs. pure (leb job.max_parallel_runs (length running_job_runs)))

unfoldable pub is_job_at_max_parallel_runs : String → Action Bool
is_job_at_max_parallel_runs job_id = select_job job_id >>= at_max_parallel_runs job_id

abbrev pub is_working : TaskRunAttempt → Bool
is_working a = not (is_some a.waiting_since)

unfoldable pub count_running_attempts : Action ℕ
unfolding select_running_attempts
count_running_attempts = do
  running_attempts ← select_running_attempts
  pure (length (filter is_working running_attempts))

unfoldable pub count_waiting_attempts : Action ℕ
unfolding select_running_attempts
count_waiting_attempts = do
  running_attempts ← select_running_attempts
  pure (length (filter (λ a. is_some a.waiting_since) running_attempts))

-- `entry(limit).or_insert(0) += 1`. The BTreeMap is an association list, read by its keys only.
unfoldable pub claim : String → List (String × ℕ) → List (String × ℕ)
claim limit [] = (limit, 1) ∷ []
claim limit ((name, n) ∷ slots) =
    let rest = claim limit slots in
    if name == limit then (name, n + 1) ∷ slots else (name, n) ∷ rest

unfoldable pub claim_all : List String → List (String × ℕ) → List (String × ℕ)
unfolding claim
claim_all [] slots = slots
claim_all (limit ∷ limits) slots = claim_all limits (claim limit slots)

unfoldable pub claimed : String → List (String × ℕ) → ℕ
claimed limit [] = 0
claimed limit ((name, n) ∷ slots) =
    let rest = claimed limit slots in if name == limit then n else rest

-- The loop of `claimed_limit_slots` over the attempts that hold a slot.
unfoldable pub tally_slots : List TaskRunAttempt → List (String × ℕ) → Action (List (String × ℕ))
unfolding claim_all
tally_slots [] slots = pure slots
tally_slots (a ∷ attempts) slots = do
  found ← select_task_run (record any_task_run { id = some a.task_run_id })
  task_run ← required found
  tally_slots attempts (claim_all task_run.limits slots)

unfoldable pub claimed_limit_slots : Action (List (String × ℕ))
unfolding tally_slots select_running_attempts
claimed_limit_slots = do
  running_attempts ← select_running_attempts
  tally_slots (filter is_working running_attempts) []
