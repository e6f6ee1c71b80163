-- ===== src/Crud/TaskRunAttempt.antt =====
-- src/crud/task_run_attempt.rs: the `task_run_attempt` table.
use flowlite.Base.{
  Column, discrete_Column, ℕ, String, Bool, true, false, ◌&&◌, Option, none, some, List, [], ◌∷◌,
  map, filter, nat_Column, string_Column, matches, if◌then◌else◌, leb,
}
use flowlite.Crud.JobRun.{given}

pub data TaskRunAttemptStatus : Type 0 where
  queued running succeeded failed skipped aborted timed_out invalid : TaskRunAttemptStatus

unfoldable pub TaskRunAttemptStatus-discrete : Discrete TaskRunAttemptStatus
TaskRunAttemptStatus-discrete = hlevel

instance abbrev pub TaskRunAttemptStatus_Column : Column TaskRunAttemptStatus
unfolding TaskRunAttemptStatus-discrete
TaskRunAttemptStatus_Column = discrete_Column TaskRunAttemptStatus-discrete

unfoldable pub is_finished : TaskRunAttemptStatus → Bool
is_finished queued = false
is_finished running = false
is_finished succeeded = true
is_finished failed = true
is_finished skipped = true
is_finished aborted = true
is_finished timed_out = true
is_finished invalid = true

unfoldable pub is_stopped : TaskRunAttemptStatus → Bool
is_stopped aborted = true
is_stopped skipped = true
is_stopped queued = false
is_stopped running = false
is_stopped succeeded = false
is_stopped failed = false
is_stopped timed_out = false
is_stopped invalid = false

pub record TaskRunAttempt : Type 0 where
  pub id : ℕ
  pub task_run_id : ℕ
  pub job_run_id : ℕ
  pub job_id : String
  pub task_id : String
  pub created_at : ℕ
  pub started_at : Option ℕ
  pub finished_at : Option ℕ
  pub attempt : ℕ
  pub status : TaskRunAttemptStatus
  pub process_group_id : Option ℕ
  pub output : String
  pub waiting_since : Option ℕ

-- `SelectTaskRunAttemptsDataFilter` and its sorts
pub record AttemptFilter : Type 0 where
  pub id : Option ℕ
  pub task_run_id : Option ℕ
  pub job_run_id : Option ℕ
  pub task_id : Option String
  pub status : Option TaskRunAttemptStatus

abbrev pub any_attempt : AttemptFilter
any_attempt = record {
  id = none;
  task_run_id = none;
  job_run_id = none;
  task_id = none;
  status = none;
}

pub data AttemptSort : Type 0 where
  by_id by_attempt : AttemptSort

unfoldable pub attempt_filter : AttemptFilter → TaskRunAttempt → Bool
attempt_filter f r =
    matches f.id r.id
    && matches f.task_run_id r.task_run_id
    && matches f.job_run_id r.job_run_id
    && matches f.task_id r.task_id
    && matches f.status r.status

-- ORDER BY attempt ASC
unfoldable pub insert_by_attempt : TaskRunAttempt → List TaskRunAttempt → List TaskRunAttempt
insert_by_attempt a [] = a ∷ []
insert_by_attempt a (b ∷ bs) =
    let rest = insert_by_attempt a bs in if leb a.attempt b.attempt then a ∷ b ∷ bs else b ∷ rest

unfoldable pub order_attempts : Option AttemptSort → List TaskRunAttempt → List TaskRunAttempt
unfolding insert_by_attempt
order_attempts none rows = rows
order_attempts (some by_id) rows = rows
order_attempts (some by_attempt) [] = []
order_attempts (some by_attempt) (a ∷ rows) =
    insert_by_attempt a (order_attempts (some by_attempt) rows)

unfoldable pub select_task_run_attempts :
    AttemptFilter → Option AttemptSort → List TaskRunAttempt → List TaskRunAttempt
unfolding attempt_filter order_attempts
select_task_run_attempts f sort rows = order_attempts sort (filter (attempt_filter f) rows)

-- `UpdateTaskRunAttemptsDataInput` and `UpdateTaskRunAttemptsDataFilter`
pub record AttemptInput : Type 0 where
  pub status : Option TaskRunAttemptStatus
  pub started_at : Option (Option ℕ)
  pub finished_at : Option (Option ℕ)
  pub process_group_id : Option (Option ℕ)
  pub output : Option String
  pub waiting_since : Option (Option ℕ)

pub record AttemptKey : Type 0 where
  pub id : Option ℕ
  pub task_run_id : Option ℕ
  pub status : Option TaskRunAttemptStatus

abbrev pub set_attempt : AttemptInput → TaskRunAttempt → TaskRunAttempt
set_attempt i r = record r {
  started_at = given i.started_at r.started_at;
  finished_at = given i.finished_at r.finished_at;
  status = given i.status r.status;
  process_group_id = given i.process_group_id r.process_group_id;
  output = given i.output r.output;
  waiting_since = given i.waiting_since r.waiting_since;
}

abbrev pub attempt_key : AttemptKey → TaskRunAttempt → Bool
attempt_key k r =
    matches k.id r.id && matches k.task_run_id r.task_run_id && matches k.status r.status

unfoldable pub update_task_run_attempts :
    AttemptKey → AttemptInput → List TaskRunAttempt → List TaskRunAttempt
update_task_run_attempts k i rows = map (λ r. if attempt_key k r then set_attempt i r else r) rows
