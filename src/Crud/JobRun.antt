-- ===== src/Crud/JobRun.antt =====
-- src/crud/job_run.rs: the `job_run` table. A statement is a function on the table's rows, which
-- stand in the order of their ids; a timestamp is a number of milliseconds.
pub mod Lifecycle
use flowlite.Base.{
  Column, discrete_Column, ℕ, String, Bool, true, false, ◌&&◌, Option, none, some, List, [], ◌∷◌,
  map, reverse, filter, any, take, drop, head?, ◌==◌, nat_Column, string_Column, option_Column,
  matches, if◌then◌else◌, length,
}

pub data JobRunStatus : Type 0 where
  scheduled queued running succeeded failed skipped aborted timed_out invalid deleted : JobRunStatus

unfoldable pub JobRunStatus-discrete : Discrete JobRunStatus
JobRunStatus-discrete = hlevel

instance abbrev pub JobRunStatus_Column : Column JobRunStatus
unfolding JobRunStatus-discrete
JobRunStatus_Column = discrete_Column JobRunStatus-discrete

-- `JobRunStatus::ALL`
abbrev pub all_job_run_statuses : List JobRunStatus
all_job_run_statuses =
    scheduled ∷ queued ∷ running ∷ succeeded ∷ failed ∷ skipped ∷ aborted ∷ timed_out ∷ invalid
    ∷ deleted ∷ []

unfoldable pub is_finished : JobRunStatus → Bool
is_finished scheduled = false
is_finished queued = false
is_finished running = false
is_finished succeeded = true
is_finished failed = true
is_finished skipped = true
is_finished aborted = true
is_finished timed_out = true
is_finished invalid = true
is_finished deleted = true

unfoldable pub is_rerunnable : JobRunStatus → Bool
is_rerunnable deleted = false
is_rerunnable scheduled = true
is_rerunnable queued = true
is_rerunnable running = true
is_rerunnable succeeded = true
is_rerunnable failed = true
is_rerunnable skipped = true
is_rerunnable aborted = true
is_rerunnable timed_out = true
is_rerunnable invalid = true

-- `Display`
unfoldable pub to_string : JobRunStatus → String
to_string scheduled = "scheduled"
to_string queued = "queued"
to_string running = "running"
to_string succeeded = "succeeded"
to_string failed = "failed"
to_string skipped = "skipped"
to_string aborted = "aborted"
to_string timed_out = "timedout"
to_string invalid = "invalid"
to_string deleted = "deleted"

pub record JobRun : Type 0 where
  pub id : ℕ
  pub job_id : String
  pub job_name : String
  pub job_description : String
  pub parameters : List (String × String)
  pub created_at : ℕ
  pub scheduled_at : ℕ
  pub schedule_id : Option String
  pub parent_task_run_attempt_id : Option ℕ
  pub started_at : Option ℕ
  pub finished_at : Option ℕ
  pub status : JobRunStatus

-- `SelectJobRunsDataFilter`
pub record JobRunFilter : Type 0 where
  pub id : Option ℕ
  pub job_id : Option String
  pub status : Option JobRunStatus
  pub statuses : Option (List JobRunStatus)
  pub schedule_id : Option String
  pub scheduled_at : Option ℕ
  pub parent_job_run_id : Option ℕ

abbrev pub any_job_run : JobRunFilter
any_job_run = record {
  id = none;
  job_id = none;
  status = none;
  statuses = none;
  schedule_id = none;
  scheduled_at = none;
  parent_job_run_id = none;
}

pub data JobRunSort : Type 0 where
  by_id by_id_desc : JobRunSort

abbrev status_in : Option (List JobRunStatus) → JobRunStatus → Bool
status_in none s = true
status_in (some ss) s = any (λ t. t == s) ss

-- `parent_task_run_attempt_id IN (SELECT id FROM task_run_attempt WHERE job_run_id = …)`, given the
-- ids that the inner SELECT yields for a job run. NULL is in no list.
abbrev parent_in : (ℕ → List ℕ) → Option ℕ → Option ℕ → Bool
parent_in attempt_ids none p = true
parent_in attempt_ids (some job_run_id) none = false
parent_in attempt_ids (some job_run_id) (some p) = any (λ a. a == p) (attempt_ids job_run_id)

abbrev schedule_matches : Option String → Option String → Bool
schedule_matches none s = true
schedule_matches (some t) none = false
schedule_matches (some t) (some s) = s == t

-- `push_job_run_filter`
unfoldable pub job_run_filter : (ℕ → List ℕ) → JobRunFilter → JobRun → Bool
job_run_filter attempt_ids f r =
    matches f.job_id r.job_id
    && matches f.status r.status
    && status_in f.statuses r.status
    && matches f.id r.id
    && schedule_matches f.schedule_id r.schedule_id
    && matches f.scheduled_at r.scheduled_at
    && parent_in attempt_ids f.parent_job_run_id r.parent_task_run_attempt_id

abbrev pub order_job_runs : Option JobRunSort → List JobRun → List JobRun
order_job_runs none rows = rows
order_job_runs (some by_id) rows = rows
order_job_runs (some by_id_desc) rows = reverse rows

abbrev pub limit_rows : {A : Type 0} → Option ℕ → List A → List A
limit_rows none rows = rows
limit_rows (some n) rows = take n rows

abbrev pub offset_rows : {A : Type 0} → Option ℕ → List A → List A
offset_rows none rows = rows
offset_rows (some n) rows = drop n rows

unfoldable pub select_job_runs :
    (ℕ → List ℕ)
    → JobRunFilter
    → Option JobRunSort
    → (limit offset : Option ℕ) → List JobRun
    → List JobRun
unfolding job_run_filter
select_job_runs attempt_ids f sort limit offset rows =
    limit_rows limit
      (offset_rows offset (order_job_runs sort (filter (job_run_filter attempt_ids f) rows)))

-- `select_job_run`: the first row of the select, which every caller limits to one.
unfoldable pub select_job_run : (ℕ → List ℕ) → JobRunFilter → List JobRun → Option JobRun
unfolding select_job_runs
select_job_run attempt_ids f rows = head? (select_job_runs attempt_ids f none (some 1) none rows)

unfoldable pub count_job_runs : (ℕ → List ℕ) → JobRunFilter → List JobRun → ℕ
unfolding job_run_filter
count_job_runs attempt_ids f rows = length (filter (job_run_filter attempt_ids f) rows)

-- `UpdateJobRunsDataInput`: an absent column is left as it is.
pub record JobRunInput : Type 0 where
  pub status : Option JobRunStatus
  pub started_at : Option (Option ℕ)
  pub finished_at : Option (Option ℕ)

abbrev pub given {ℓ} : {A : Type ℓ} → Option A → A → A
given none old = old
given (some new) old = new

abbrev pub set_job_run : JobRunInput → JobRun → JobRun
set_job_run i r = record r {
  started_at = given i.started_at r.started_at;
  finished_at = given i.finished_at r.finished_at;
  status = given i.status r.status;
}

-- `update_job_runs`, whose filter is an optional id. With no column given nothing is written.
unfoldable pub update_job_runs : Option ℕ → JobRunInput → List JobRun → List JobRun
update_job_runs id i rows = map (λ r. if matches id r.id then set_job_run i r else r) rows
