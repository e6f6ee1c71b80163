-- ===== src/Orchestrator/JobRunMonitor/Verdict.antt =====
-- The ladder of JobRunMonitor::derive_next_status against a ranking of the task runs.
use flowlite.Base.{
  ℕ, ◌≤◌, ◌<◌, ◌≡◌, refl, Bool, ltb, some, List, [], ◌∷◌, any, all, ◌==◌, nat_Column, arith,
  if◌then◌else◌, max,
}
use flowlite.Crud.JobRun
use flowlite.Crud.JobRun.{JobRunStatus}
use flowlite.Crud.TaskRun
use flowlite.Crud.TaskRun.{TaskRun, TaskRunStatus, TaskRunStatus_Column, TaskRunStatus-discrete}
use flowlite.Orchestrator.JobRunMonitor.{derive_next_status}

-- How grave a task run's status is for its job run: a success, a stop, a timeout, a failure, an
-- unknown outcome, and what is not finished above all.
abbrev pub gravity : TaskRunStatus → ℕ
gravity TaskRun.succeeded = 0
gravity TaskRun.skipped = 1
gravity TaskRun.aborted = 1
gravity TaskRun.timed_out = 2
gravity TaskRun.failed = 3
gravity TaskRun.invalid = 4
gravity TaskRun.planned = 5
gravity TaskRun.waiting = 5
gravity TaskRun.running = 5

abbrev pub gravest : List TaskRun → ℕ
gravest [] = 0
gravest (t ∷ ts) = max (gravity t.status) (gravest ts)

abbrev pub status_of_gravity : ℕ → JobRunStatus
status_of_gravity n =
    if n == 0
    then JobRun.succeeded
    else if n == 1
    then JobRun.aborted
    else if n == 2
    then JobRun.timed_out
    else if n == 3
    then JobRun.failed
    else if n == 4
    then JobRun.invalid
    else JobRun.running

all_finished : (ts : List TaskRun) → all (λ t. TaskRun.is_finished t.status) ts ≡ ltb (gravest ts) 5
unfolding TaskRun.is_finished
all_finished [] = refl
all_finished (t ∷ ts) = ground (arith, all_finished ts)

all_succeeded :
    (ts : List TaskRun) → all (λ t. t.status == TaskRun.succeeded) ts ≡ (gravest ts == 0)
unfolding TaskRunStatus-discrete
all_succeeded [] = refl
all_succeeded (t ∷ ts) = ground (arith, all_succeeded ts)

-- Where nothing is graver than `k`, a test for that gravity tells whether it is reached.
any-gravity :
    (p : TaskRunStatus → Bool) (k : ℕ)
    → 0 < k
    → ((s : TaskRunStatus) → p s ≡ (gravity s == k))
    → (ts : List TaskRun) → gravest ts ≤ k
    → any (λ t. p t.status) ts ≡ (gravest ts == k)
any-gravity p k pos same [] h = ground arith
any-gravity p k pos same (t ∷ ts) h =
    ground (arith, same t.status, any-gravity p k pos same ts (ground arith))

is_invalid : (s : TaskRunStatus) → (s == TaskRun.invalid) ≡ (gravity s == 4)
unfolding TaskRunStatus-discrete
is_invalid s = ground arith

is_failed : (s : TaskRunStatus) → (s == TaskRun.failed) ≡ (gravity s == 3)
unfolding TaskRunStatus-discrete
is_failed s = ground arith

is_timed_out : (s : TaskRunStatus) → (s == TaskRun.timed_out) ≡ (gravity s == 2)
unfolding TaskRunStatus-discrete
is_timed_out s = ground arith

is_stopped-gravity : (s : TaskRunStatus) → TaskRun.is_stopped s ≡ (gravity s == 1)
unfolding TaskRun.is_stopped
is_stopped-gravity s = ground arith

-- The next status of a running job run is the one that its gravest task run calls for, whatever
-- the order of the task runs: there is always one, and no task runs at all count as a success.
pub derive_next_status-eq-gravest :
    (ts : List TaskRun) → derive_next_status ts ≡ some (status_of_gravity (gravest ts))
unfolding derive_next_status
derive_next_status-eq-gravest ts =
    rw (all_finished ts, all_succeeded ts)
      (ground (
        arith,
        any-gravity (λ s. s == TaskRun.invalid) 4 (omega arith) is_invalid ts,
        any-gravity (λ s. s == TaskRun.failed) 3 (omega arith) is_failed ts,
        any-gravity (λ s. s == TaskRun.timed_out) 2 (omega arith) is_timed_out ts,
        any-gravity TaskRun.is_stopped 1 (omega arith) is_stopped-gravity ts,
      ))
