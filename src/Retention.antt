-- ===== src/Retention.antt =====
-- src/retention/service.rs: which finished job runs a pass deletes.
pub mod Budget
use flowlite.Base.{
  ℕ, ◌-◌, min, String, Bool, not, Option, none, some, List, [], ◌∷◌, ◌++◌, filter, any, length, u32,
  ◌==◌, nat_Column, if◌then◌else◌,
}
use flowlite.Crud.World.{Job, Action, ◌>>=◌, ◌>>◌, pure, operation}
use flowlite.Crud.Statements.{select_job}
use flowlite.Crud.Multistatements.RetentionCandidates.{
  newest_first, oldest_first, count_finished_job_runs, select_job_ids_with_finished_job_runs,
  select_deletable_job_runs, at_most,
}

-- What `AppConfig` says to this service.
pub record RetentionConfig : Type 0 where
  pub default_keep_runs : ℕ
  pub keep_runs_total : ℕ
  pub max_deletes_per_pass : ℕ

unfoldable pub remaining_budget : (budget selected_so_far : ℕ) → Option ℕ
remaining_budget budget selected_so_far =
    if budget == 0 then none else some (budget - selected_so_far)

module _ (config : RetentionConfig) where
  abbrev pub keep_runs_of : Option Job → ℕ
  keep_runs_of none = config.default_keep_runs
  keep_runs_of (some job) = job.keep_runs

  -- One round of the loop over the jobs. A job that keeps 0 runs keeps all.
  unfoldable pub select_candidates_of : (budget selected : ℕ) → String → Action (List ℕ)
  unfolding remaining_budget
  select_candidates_of budget selected job_id = do
    job ← select_job job_id
    if keep_runs_of job == 0
        then pure []
        else select_deletable_job_runs (some job_id) (some newest_first)
            (remaining_budget budget selected) (some (keep_runs_of job))

  unfoldable pub select_each : (budget : ℕ) → List String → List ℕ → Action (List ℕ)
  unfolding select_candidates_of
  select_each budget [] ids = pure ids
  select_each budget (job_id ∷ job_ids) ids = do
    candidates ← select_candidates_of budget (u32 (length ids)) job_id
    select_each budget job_ids (ids ++ candidates)

  unfoldable pub select_per_job_candidates : (budget : ℕ) → Action (List ℕ)
  unfolding select_each
  select_per_job_candidates budget = do
    job_ids ← select_job_ids_with_finished_job_runs
    select_each budget job_ids []

  abbrev pub is_new : List ℕ → ℕ → Bool
  is_new already_selected id = not (any (λ other. other == id) already_selected)

  -- Where there are more finished runs than are kept in all.
  unfoldable pub select_overflow : (budget overflow : ℕ) → List ℕ → Action (List ℕ)
  unfolding remaining_budget
  select_overflow budget overflow already_selected =
      if overflow == 0
      then pure []
      else (select_deletable_job_runs none (some oldest_first)
            (some (at_most (remaining_budget budget (u32 (length already_selected))) overflow)) none
          >>= λ candidates. pure (filter (is_new already_selected) candidates))

  unfoldable pub select_global_overflow_candidates : (budget : ℕ) → List ℕ → Action (List ℕ)
  unfolding select_overflow
  select_global_overflow_candidates budget already_selected =
      if config.keep_runs_total == 0
      then pure []
      else (count_finished_job_runs >>= λ finished.
          select_overflow budget (finished - config.keep_runs_total) already_selected)

  -- `select` of the service, after it has taken a connection.
  unfoldable pub select : Action (List ℕ)
  unfolding select_per_job_candidates select_global_overflow_candidates
  select = do
    operation
    per_job_ids ← select_per_job_candidates config.max_deletes_per_pass
    global_ids ← select_global_overflow_candidates config.max_deletes_per_pass per_job_ids
    pure (per_job_ids ++ global_ids)
