-- ===== src/Crud/TaskRun/Lifecycle.antt =====
-- The life of a task run: planned, waiting, running, finished.
use flowlite.Base.{
  ℕ, ◌<◌, ◌≡◌, refl, ◌⊎◌, inl, inr, true, List, All, Matched, Matched-map, arith, nat_Column,
  if◌then◌else◌, Bool-cases,
}
use flowlite.Crud.JobRun.{given}
use flowlite.Crud.TaskRun.{
  TaskRunStatus, TaskRunStatus_Column, planned, waiting, running, is_finished, TaskRun,
  TaskRunInput, TaskRunKey, set_task_run, task_run_key, update_task_runs,
}

abbrev pub rank : TaskRunStatus → ℕ
rank planned = 0
rank waiting = 1
rank running = 2
rank _ = 3

abbrev pub Forward : TaskRunStatus → TaskRunStatus → Type 0
Forward s t = (s ≡ t) ⊎ (rank s < rank t)

-- A row keeps all columns but its instants and its status, which does not go back.
pub record TaskRunStep (r s : TaskRun) : Type 0 where
  pub kept :
      s ≡ record r { started_at = s.started_at; finished_at = s.finished_at; status = s.status }
  pub forward : Forward r.status s.status

pub TaskRunStep-refl : (r : TaskRun) → TaskRunStep r r
TaskRunStep-refl r = record { kept = refl; forward = inl refl }

abbrev pub TaskRunsEvolve : List TaskRun → List TaskRun → Type 0
TaskRunsEvolve = Matched TaskRunStep

-- A finished task run stays as it finished.
pub TaskRunStep-is_finished :
    (r s : TaskRun) → TaskRunStep r s → is_finished r.status ≡ true → s.status ≡ r.status
unfolding is_finished
TaskRunStep-is_finished r s h f = ground (arith, h.forward)

set_task_run-TaskRunStep :
    (i : TaskRunInput) (r : TaskRun)
    → Forward r.status (given i.status r.status)
    → TaskRunStep r (set_task_run i r)
set_task_run-TaskRunStep i r fwd = record { kept = refl; forward = fwd }

-- An update moves no row back if it moves none back of those that its WHERE names.
pub update_task_runs-TaskRunsEvolve :
    (k : TaskRunKey) (i : TaskRunInput) (rows : List TaskRun)
    → All (λ r. task_run_key k r ≡ true → Forward r.status (given i.status r.status)) rows
    → TaskRunsEvolve rows (update_task_runs k i rows)
unfolding update_task_runs
update_task_runs-TaskRunsEvolve k i rows =
    Matched-map TaskRunStep
      {P = λ r. task_run_key k r ≡ true → Forward r.status (given i.status r.status)} each rows
  where
    each :
        (r : TaskRun)
        → (task_run_key k r ≡ true → Forward r.status (given i.status r.status))
        → TaskRunStep r (if task_run_key k r then set_task_run i r else r)
    each r h = elim (Bool-cases (task_run_key k r)) [
      | inl hit ↦ rw hit (set_task_run-TaskRunStep i r (h hit))
      | inr miss ↦ rw miss (TaskRunStep-refl r)
    ]
