-- ===== src/Crud/JobRun/Lifecycle.antt =====
-- The life of a job run: scheduled, queued, running, finished.
use flowlite.Base.{
  ℕ, ◌<◌, ◌≡◌, refl, ◌⊎◌, inl, inr, true, some, List, All, Matched, Matched-map, Matched-imp,
  Matched-All, arith, ◌≢◌, ap, sym, ◌∙◌, matches, nat_Column, if◌then◌else◌, Bool-cases, ==_iff,
}
use flowlite.Crud.JobRun.{
  JobRunStatus, scheduled, queued, running, JobRun, JobRunInput, update_job_runs, set_job_run,
  given, is_finished,
}

-- How far a run has come.
abbrev pub rank : JobRunStatus → ℕ
rank scheduled = 0
rank queued = 1
rank running = 2
rank _ = 3

abbrev pub Forward : JobRunStatus → JobRunStatus → Type 0
Forward s t = (s ≡ t) ⊎ (rank s < rank t)

-- A row keeps all columns but its instants and its status, which does not go back.
pub record JobRunStep (r s : JobRun) : Type 0 where
  pub kept :
      s ≡ record r { started_at = s.started_at; finished_at = s.finished_at; status = s.status }
  pub forward : Forward r.status s.status

pub JobRunStep-refl : (r : JobRun) → JobRunStep r r
JobRunStep-refl r = record { kept = refl; forward = inl refl }

pub JobRunStep-trans : (r s t : JobRun) → JobRunStep r s → JobRunStep s t → JobRunStep r t
JobRunStep-trans r s t h k = ground arith

pub is_finished-rank : (s : JobRunStatus) → is_finished s ≡ true → rank s ≡ 3
unfolding is_finished
is_finished-rank s h = ground arith

-- A finished run stays as it finished.
pub JobRunStep-is_finished :
    (r s : JobRun) → JobRunStep r s → is_finished r.status ≡ true → s.status ≡ r.status
unfolding is_finished
JobRunStep-is_finished r s h f = ground (arith, h.forward)

-- The table keeps its rows, and each takes such a step.
abbrev pub JobRunsEvolve : List JobRun → List JobRun → Type 0
JobRunsEvolve = Matched JobRunStep

-- The same, where the rows of other runs do not change at all.
pub record StepAt (id : ℕ) (r s : JobRun) : Type 0 where
  pub step : JobRunStep r s
  pub others : r.id ≢ id → s ≡ r

abbrev pub JobRunsEvolveAt : ℕ → List JobRun → List JobRun → Type 0
JobRunsEvolveAt id = Matched (StepAt id)

pub StepAt-refl : (id : ℕ) (r : JobRun) → StepAt id r r
StepAt-refl id r = record { step = JobRunStep-refl r; others = λ _. refl }

pub JobRunsEvolve-of_at :
    (id : ℕ) (rows rows' : List JobRun) → JobRunsEvolveAt id rows rows' → JobRunsEvolve rows rows'
JobRunsEvolve-of_at id = Matched-imp (StepAt id) JobRunStep (λ r s h. h.step)

-- What is known of the table when a handler starts: the row's id stands for its status.
abbrev pub IsCurrent : JobRun → List JobRun → Type 0
IsCurrent job_run rows = All (λ r. r.id ≡ job_run.id → r.status ≡ job_run.status) rows

-- A step of one run leaves what was read of another run true.
pub IsCurrent-JobRunsEvolveAt :
    (id : ℕ) (job_run : JobRun) (rows rows' : List JobRun)
    → job_run.id ≢ id
    → JobRunsEvolveAt id rows rows'
    → IsCurrent job_run rows
    → IsCurrent job_run rows'
IsCurrent-JobRunsEvolveAt id job_run rows rows' ne m =
    Matched-All (StepAt id) (λ r. r.id ≡ job_run.id → r.status ≡ job_run.status)
      (λ r s h same e. carried r s h same e) rows rows' m
  where
    carried :
        (r s : JobRun)
        → StepAt id r s
        → (r.id ≡ job_run.id → r.status ≡ job_run.status)
        → s.id ≡ job_run.id
        → s.status ≡ job_run.status
    carried r s h same e =
        let same_id : s.id ≡ r.id = ap (λ (x : JobRun). x.id) h.step.kept in
        let e' : r.id ≡ job_run.id = sym same_id ∙ e in
        let unchanged : s ≡ r = h.others (λ p. ne (sym e' ∙ p)) in
        ap (λ (x : JobRun). x.status) unchanged ∙ same e'

set_job_run-StepAt :
    (i : JobRunInput) (r : JobRun) (id : ℕ)
    → r.id ≡ id
    → Forward r.status (given i.status r.status)
    → StepAt id r (set_job_run i r)
set_job_run-StepAt i r id e fwd = record {
  step = record { kept = refl; forward = fwd };
  others = λ ne. absurd (ne e);
}

update-StepAt :
    (job_run : JobRun) (i : JobRunInput)
    → Forward job_run.status (given i.status job_run.status)
    → (r : JobRun) → (r.id ≡ job_run.id → r.status ≡ job_run.status)
    → StepAt job_run.id r (if matches (some job_run.id) r.id then set_job_run i r else r)
update-StepAt job_run i fwd r same = elim (Bool-cases (matches (some job_run.id) r.id)) [
  | inl hit ↦
      let at_id = (==_iff r.id job_run.id).0 hit in
      rw hit (set_job_run-StepAt i r job_run.id at_id (rw (same at_id) fwd))
  | inr miss ↦ rw miss (StepAt-refl job_run.id r)
]

pub update_job_runs-JobRunsEvolveAt :
    (job_run : JobRun) (i : JobRunInput) (rows : List JobRun)
    → Forward job_run.status (given i.status job_run.status)
    → IsCurrent job_run rows
    → JobRunsEvolveAt job_run.id rows (update_job_runs (some job_run.id) i rows)
unfolding update_job_runs
update_job_runs-JobRunsEvolveAt job_run i rows fwd current =
    Matched-map (StepAt job_run.id) {P = λ r. r.id ≡ job_run.id → r.status ≡ job_run.status}
      (update-StepAt job_run i fwd) rows current
