-- ===== src/Tests/Cleanup.antt =====
-- The theorems on retention and on what is shown of the limits at small inputs.
use flowlite.Base.{ℕ, none, some, [], ◌∷◌, ◌≡◌, ◌≤◌, refl, length, arith}
use flowlite.Crud.JobRun
use flowlite.Crud.JobRun.{JobRun}
use flowlite.Crud.Statements
use flowlite.Crud.World.{World, ok, operation, query, pending, failure, email}
use flowlite.Crud.Multistatements.RetentionCandidates
use flowlite.Crud.Multistatements.RetentionCandidates.{select_deletable_job_runs, newest_first}
use flowlite.Crud.Multistatements.RetentionCandidates.Kept.{
  KeepsNewest, select_deletable_job_runs-KeepsNewest,
}
use flowlite.Crud.Multistatements.DeleteJobRunsWithChildren
use flowlite.Retention
use flowlite.Retention.{RetentionConfig}
use flowlite.Retention.Budget.{select-IsWithinBudget}
use flowlite.Limits.{limit_rows, shown_full, limit_rows-is_full}
use flowlite.Orchestrator.TaskRunAttemptDispatcher.{any_full}
use flowlite.Samples.{job_run, world, config}

-- Four runs that have finished, the second of which owes a notification, and one that has not.
abbrev aged : World
aged = record world {
  db = record world.db {
    job_runs =
        job_run 1 JobRun.succeeded 1
        ∷ job_run 2 JobRun.failed 2
        ∷ job_run 3 JobRun.succeeded 3
        ∷ job_run 4 JobRun.running 4
        ∷ job_run 5 JobRun.succeeded 5
        ∷ [];
    job_run_notifications =
        record {
          id = 1;
          job_run_id = 2;
          job_id = "nightly";
          notify_on = failure;
          channel = email;
          recipients = "oncall@example.com" ∷ [];
          status = pending;
          error = "";
          created_at = 2;
          sent_at = none;
        }
        ∷ [];
  };
}

one_is_kept :
    select_deletable_job_runs (some "nightly") (some newest_first) none (some 1) aged
    ≡ (ok (1 ∷ 3 ∷ []), aged)
unfolding select_deletable_job_runs RetentionCandidates.select_window
    RetentionCandidates.finished_job_runs_filter Statements.count_job_runs
    Statements.select_job_runs Statements.select_pending_notifications query operation
    JobRun.count_job_runs JobRun.select_job_runs JobRun.job_run_filter JobRun.is_finished
    JobRun.JobRunStatus-discrete
one_is_kept = refl

select_deletable_job_runs-KeepsNewest_example : KeepsNewest 1 (some "nightly") aged.db (1 ∷ 3 ∷ [])
select_deletable_job_runs-KeepsNewest_example =
    select_deletable_job_runs-KeepsNewest (some "nightly") none 1 aged one_is_kept

abbrev two_at_most : RetentionConfig
two_at_most = record { default_keep_runs = 1; keep_runs_total = 2; max_deletes_per_pass = 2 }

one_is_selected : Retention.select two_at_most aged ≡ (ok (1 ∷ []), aged)
unfolding Retention.select Retention.select_per_job_candidates Retention.select_each
    Retention.select_candidates_of Retention.remaining_budget
    Retention.select_global_overflow_candidates Retention.select_overflow
    RetentionCandidates.count_finished_job_runs
    RetentionCandidates.select_job_ids_with_finished_job_runs Statements.select_job_run_job_ids
    Statements.select_job select_deletable_job_runs RetentionCandidates.select_window
    RetentionCandidates.finished_job_runs_filter Statements.count_job_runs
    Statements.select_job_runs Statements.select_pending_notifications query operation
    JobRun.count_job_runs JobRun.select_job_runs JobRun.job_run_filter JobRun.is_finished
    JobRun.JobRunStatus-discrete
one_is_selected = refl

select-IsWithinBudget_example : length {A = ℕ} (1 ∷ []) ≤ 2
select-IsWithinBudget_example =
    select-IsWithinBudget two_at_most aged (ground arith) (ground arith) one_is_selected

limit_rows-is_full_example :
    shown_full "db" (limit_rows 3 1 (("db", 2) ∷ []) (("db", 2) ∷ []))
    ≡ any_full config ("db" ∷ []) (("db", 2) ∷ [])
limit_rows-is_full_example = limit_rows-is_full config 1 "db" (("db", 2) ∷ []) refl
