-- ===== src/Orchestrator/JobRuns/Passes.antt =====
-- A whole pass of a service moves job runs forward.
use flowlite.Base.{
  subst, ℕ, ◌≡◌, ◌≢◌, refl, sym, Bool, true, some, List, [], ◌∷◌, arith, All, All-imp, Matched-refl,
  Matched-trans, filter, Bool-cases, inl, inr, ap, ◌∙◌,
}
use flowlite.Crud.JobRun
use flowlite.Crud.JobRun.{JobRun, JobRunStatus, JobRunStatus_Column, job_run_filter, any_job_run}
use flowlite.Crud.JobRun.Lifecycle.{
  JobRunStep, JobRunStep-refl, JobRunStep-trans, JobRunsEvolve, JobRunsEvolve-of_at,
  JobRunsEvolveAt, IsCurrent, IsCurrent-JobRunsEvolveAt,
}
use flowlite.Crud.World.{Db, World, Action, query}
use flowlite.Crud.World.Triples.{Triple, query-Triple}
use flowlite.Crud.Statements.{select_job_runs, attempt_ids}
use flowlite.Poller.{handle_all, pass}
use flowlite.Orchestrator.JobRunReleaser
use flowlite.Orchestrator.JobRunDispatcher
use flowlite.Orchestrator.JobRunMonitor
use flowlite.Orchestrator.JobRuns.{HasJobRuns, AdvancesJobRuns}
use flowlite.Orchestrator.JobRuns.Handlers.{
  releaser-AdvancesJobRuns, dispatcher-AdvancesJobRuns, monitor-AdvancesJobRuns,
}

-- `id` is the primary key.
abbrev pub HasUniqueIds : List JobRun → Type 0
HasUniqueIds [] = Unit
HasUniqueIds (r ∷ rs) = All (λ s. s.id ≢ r.id) rs × HasUniqueIds rs

-- What a service's select hands to its handler: rows of one status, as the table has them.
abbrev AsSelected : JobRunStatus → List JobRun → JobRun → Type 0
AsSelected status rows r = (r.status ≡ status) × IsCurrent r rows

All-filter :
    (P : JobRun → Type 0) (p : JobRun → Bool) (rows : List JobRun)
    → All P rows
    → All (λ r. P r × (p r ≡ true)) (filter p rows)
All-filter P p [] h = tt
All-filter P p (r ∷ rows) h = elim (Bool-cases (p r)) [
  | inl hit ↦ rw hit ((h.0, hit), All-filter P p rows h.1)
  | inr miss ↦ rw miss (All-filter P p rows h.1)
]

HasUniqueIds-filter :
    (p : JobRun → Bool) (rows : List JobRun) → HasUniqueIds rows → HasUniqueIds (filter p rows)
HasUniqueIds-filter p [] h = tt
HasUniqueIds-filter p (r ∷ rows) h = elim (Bool-cases (p r)) [
  | inl hit ↦ rw hit (
    All-imp (λ s k. k.0) (filter p rows) (All-filter (λ s. s.id ≢ r.id) p rows h.0),
    HasUniqueIds-filter p rows h.1,
  )
  | inr miss ↦ rw miss (HasUniqueIds-filter p rows h.1)
]

-- With unique ids each row is the only one of its id.
All-IsCurrent : (rows : List JobRun) → HasUniqueIds rows → All (λ r. IsCurrent r rows) rows
All-IsCurrent [] h = tt
All-IsCurrent (r ∷ rows) h =
    ((λ _. refl, All-imp (λ s ne e. absurd (ne e)) rows h.0), zip rows (All-IsCurrent rows h.1) h.0)
  where
    zip :
        (qs : List JobRun)
        → All (λ q. IsCurrent q rows) qs
        → All (λ q. q.id ≢ r.id) qs
        → All (λ q. IsCurrent q (r ∷ rows)) qs
    zip [] a b = tt
    zip (q ∷ qs) a b = ((λ e. absurd (b.0 (sym e)), a.0), zip qs a.1 b.1)

-- The handler of each row moves that row on, so the rows after it are still as selected.
module _ (status : JobRunStatus) (handle : JobRun → Action Unit)
    (advances : (rows : List JobRun) (r : JobRun)
      → IsCurrent r rows
      → r.status ≡ status
      → AdvancesJobRuns r.id rows (handle r)) where
  handle_all-JobRunsEvolve :
      (selected rows : List JobRun)
      → HasUniqueIds selected
      → All (AsSelected status rows) selected
      → Triple (HasJobRuns rows) (handle_all handle selected) (λ d. JobRunsEvolve rows d.job_runs)
  unfolding handle_all
  handle_all-JobRunsEvolve [] rows u h w e =
      subst (λ t. JobRunsEvolve rows t) (sym e) (Matched-refl JobRunStep JobRunStep-refl rows)
  handle_all-JobRunsEvolve (r ∷ selected) rows u h w e =
      let after = (handle r w).1.db.job_runs in
      let moved = advances rows r h.0.1 h.0.0 w e in
      Matched-trans JobRunStep JobRunStep-trans rows after _
        (JobRunsEvolve-of_at r.id rows after moved)
        (handle_all-JobRunsEvolve selected after u.1 (keep selected u.0 h.1 after moved)
          (handle r w).1 refl)
    where
      keep :
          (qs : List JobRun)
          → All (λ q. q.id ≢ r.id) qs
          → All (AsSelected status rows) qs
          → (after : List JobRun) → JobRunsEvolveAt r.id rows after
          → All (AsSelected status after) qs
      keep [] ne h after m = tt
      keep (q ∷ qs) ne h after m = (
        (h.0.0, IsCurrent-JobRunsEvolveAt r.id q rows after ne.0 m h.0.1),
        keep qs ne.1 h.1 after m,
      )

  pass-JobRunsEvolve :
      (select : Db → List JobRun) (rows : List JobRun)
      → ((d : Db) → HasJobRuns rows d → HasUniqueIds (select d))
      → ((d : Db) → HasJobRuns rows d → All (AsSelected status rows) (select d))
      → Triple (HasJobRuns rows) (pass (query select) handle) (λ d. JobRunsEvolve rows d.job_runs)
  unfolding pass
  pass-JobRunsEvolve select rows unique fit =
      query-Triple (HasJobRuns rows) (λ d. JobRunsEvolve rows d.job_runs) select (handle_all handle)
        (λ d e.
          subst (λ t. JobRunsEvolve rows t) (sym e) (Matched-refl JobRunStep JobRunStep-refl rows))
        (λ d e w same.
          handle_all-JobRunsEvolve (select d) rows (unique d e) (fit d e) w
            (ap (λ (x : Db). x.job_runs) same ∙ e))

-- The rows of one status, by the WHERE of a service's select.
abbrev of_status : JobRunStatus → Db → List JobRun
of_status status d =
    filter (job_run_filter (attempt_ids d) (record any_job_run { status = some status })) d.job_runs

status_of_filter :
    (status : JobRunStatus) (ids : ℕ → List ℕ) (r : JobRun)
    → job_run_filter ids (record any_job_run { status = some status }) r ≡ true
    → r.status ≡ status
unfolding job_run_filter
status_of_filter status ids r h = (JobRunStatus_Column.equals_iff r.status status).0 (ground arith)

module _ (status : JobRunStatus) (rows : List JobRun) (unique : HasUniqueIds rows) where
  of_status_unique : (d : Db) → HasJobRuns rows d → HasUniqueIds (of_status status d)
  of_status_unique d e = HasUniqueIds-filter _ d.job_runs (subst HasUniqueIds (sym e) unique)

  of_status-AsSelected :
      (d : Db) → HasJobRuns rows d → All (AsSelected status rows) (of_status status d)
  of_status-AsSelected d e =
      let p = job_run_filter (attempt_ids d) (record any_job_run { status = some status }) in
      All-imp (λ r h. (status_of_filter status (attempt_ids d) r h.1, h.0)) (filter p d.job_runs)
        (All-filter (λ r. IsCurrent r rows) p d.job_runs
          (subst (λ t. All (λ r. IsCurrent r rows) t) (sym e) (All-IsCurrent rows unique)))

-- A pass of JobRunReleaser over a table with unique ids, whichever operations fail: the table keeps
-- its rows, each row keeps its columns but its instants and its status, and no status goes back.
pub releaser_pass-JobRunsEvolve :
    (w : World)
    → HasUniqueIds w.db.job_runs
    → JobRunsEvolve w.db.job_runs (JobRunReleaser.run_pass w).1.db.job_runs
unfolding JobRunReleaser.run_pass select_job_runs JobRun.select_job_runs
releaser_pass-JobRunsEvolve w u =
    pass-JobRunsEvolve JobRun.scheduled JobRunReleaser.handle
      (λ rows r c e. releaser-AdvancesJobRuns rows r c e) (of_status JobRun.scheduled) w.db.job_runs
      (of_status_unique JobRun.scheduled w.db.job_runs u)
      (of_status-AsSelected JobRun.scheduled w.db.job_runs u) w refl

-- A pass of JobRunDispatcher over a table with unique ids, whichever operations fail: the table keeps
-- its rows, each row keeps its columns but its instants and its status, and no status goes back.
pub dispatcher_pass-JobRunsEvolve :
    (w : World)
    → HasUniqueIds w.db.job_runs
    → JobRunsEvolve w.db.job_runs (JobRunDispatcher.run_pass w).1.db.job_runs
unfolding JobRunDispatcher.run_pass select_job_runs JobRun.select_job_runs
dispatcher_pass-JobRunsEvolve w u =
    pass-JobRunsEvolve JobRun.queued JobRunDispatcher.handle
      (λ rows r c e. dispatcher-AdvancesJobRuns rows r c e) (of_status JobRun.queued) w.db.job_runs
      (of_status_unique JobRun.queued w.db.job_runs u)
      (of_status-AsSelected JobRun.queued w.db.job_runs u) w refl

-- A pass of JobRunMonitor over a table with unique ids, whichever operations fail: the table keeps
-- its rows, each row keeps its columns but its instants and its status, and no status goes back.
pub monitor_pass-JobRunsEvolve :
    (w : World)
    → HasUniqueIds w.db.job_runs
    → JobRunsEvolve w.db.job_runs (JobRunMonitor.run_pass w).1.db.job_runs
unfolding JobRunMonitor.run_pass select_job_runs JobRun.select_job_runs
monitor_pass-JobRunsEvolve w u =
    pass-JobRunsEvolve JobRun.running JobRunMonitor.handle
      (λ rows r c e. monitor-AdvancesJobRuns rows r c e) (of_status JobRun.running) w.db.job_runs
      (of_status_unique JobRun.running w.db.job_runs u)
      (of_status-AsSelected JobRun.running w.db.job_runs u) w refl
