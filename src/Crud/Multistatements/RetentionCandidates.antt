-- ===== src/Crud/Multistatements/RetentionCandidates.antt =====
-- src/crud/multistatements/retention_candidates.rs: which finished job runs may be deleted.
pub mod Kept
use flowlite.Base.{
  ℕ, ◌-◌, ◌≤◌, min, String, Bool, not, Option, none, some, List, ◌++◌, ◌≡◌, sym, ap, ◌∙◌, map,
  filter, any, length, take, drop, take-append-drop, length-drop, u32, ◌==◌, nat_Column, arith,
}
use flowlite.Crud.JobRun
use flowlite.Crud.JobRun.{
  JobRun, JobRunFilter, any_job_run, by_id, all_job_run_statuses, job_run_filter,
}
use flowlite.Crud.World.{Db, World, JobRunNotification, is_pending, Action, ok, ◌>>=◌, pure}
use flowlite.Crud.World.Inversion.{>>=-eq-ok, query-eq-ok, pure-eq-ok}
use flowlite.Crud.Statements.{
  attempt_ids, select_job_runs, count_job_runs, select_job_run_job_ids,
  select_pending_notifications,
}

pub data SelectDeletableSort : Type 0 where
  newest_first oldest_first : SelectDeletableSort

unfoldable pub finished_job_runs_filter : Option String → JobRunFilter
finished_job_runs_filter job_id = record any_job_run {
  job_id = job_id;
  statuses = some (filter JobRun.is_finished all_job_run_statuses);
}

unfoldable pub count_finished_job_runs : Action ℕ
count_finished_job_runs =
    count_job_runs (finished_job_runs_filter none) >>= λ count. pure (u32 count)

unfoldable pub select_job_ids_with_finished_job_runs : Action (List String)
select_job_ids_with_finished_job_runs = select_job_run_job_ids (finished_job_runs_filter none)

abbrev pub or_zero : Option ℕ → ℕ
or_zero none = 0
or_zero (some n) = n

abbrev pub at_most : Option ℕ → ℕ → ℕ
at_most none n = n
at_most (some limit) n = min limit n

-- The window. With `newest_first` the offset is a cap on what is read oldest first.
unfoldable pub select_window :
    Option String → Option SelectDeletableSort → (limit offset : Option ℕ) → Action (List JobRun)
select_window job_id (some newest_first) limit offset =
    count_job_runs (finished_job_runs_filter job_id) >>= λ matched.
    select_job_runs (finished_job_runs_filter job_id) (some by_id)
      (some (at_most limit (matched - or_zero offset))) none
select_window job_id (some oldest_first) limit offset =
    select_job_runs (finished_job_runs_filter job_id) (some by_id) limit offset
select_window job_id none limit offset =
    select_job_runs (finished_job_runs_filter job_id) (some by_id) limit offset

abbrev pub owes : List JobRunNotification → ℕ → Bool
owes pending id = any (λ n. n.job_run_id == id) pending

unfoldable pub select_deletable_job_runs :
    Option String → Option SelectDeletableSort → (limit offset : Option ℕ) → Action (List ℕ)
unfolding select_window
select_deletable_job_runs job_id sort limit offset = do
  window ← select_window job_id sort limit offset
  pending ← select_pending_notifications
  pure (filter (λ id. not (owes pending id)) (map (λ r. r.id) window))

-- The finished runs of a job, or of all jobs, in the order of their ids.
abbrev pub finished_runs : Option String → Db → List JobRun
finished_runs job_id db =
    filter (job_run_filter (attempt_ids db) (finished_job_runs_filter job_id)) db.job_runs
