-- ===== src/Orchestrator/TaskRunDispatcher/Bearings.antt =====
-- What the statuses of the dependencies make of a waiting task run in TaskRunDispatcher.
use flowlite.Base.{
  ℕ, ◌≤◌, ◌≡◌, refl, Bool, false, not, ◌||◌, some, List, [], ◌∷◌, any, all, ◌==◌, nat_Column, arith,
  if◌then◌else◌, max,
}
use flowlite.Crud.TaskRun.{
  TaskRun, TaskRunStatus, TaskRunStatus_Column, TaskRunStatus-discrete, planned, waiting, running,
  succeeded, failed, skipped, aborted, timed_out, invalid, is_finished,
}
use flowlite.Orchestrator.TaskRunDispatcher.{has_not_succeeded, verdict}

-- How a dependency bears on the task run: a success lets it start, an unfinished one holds it, any
-- other end rules it out.
abbrev pub bearing : TaskRunStatus → ℕ
bearing succeeded = 0
bearing planned = 1
bearing waiting = 1
bearing running = 1
bearing failed = 2
bearing skipped = 2
bearing aborted = 2
bearing timed_out = 2
bearing invalid = 2

abbrev pub worst_bearing : List TaskRun → ℕ
worst_bearing [] = 0
worst_bearing (t ∷ ts) = max (bearing t.status) (worst_bearing ts)

abbrev pub status_of_bearing : ℕ → TaskRunStatus
status_of_bearing n = if n == 0 then running else if n == 1 then waiting else skipped

worst_bearing-le : (ts : List TaskRun) → worst_bearing ts ≤ 2
worst_bearing-le [] = omega arith
worst_bearing-le (t ∷ ts) = ground (arith, worst_bearing-le ts)

any_not_succeeded :
    (ts : List TaskRun) → any (λ t. has_not_succeeded t.status) ts ≡ (worst_bearing ts == 2)
any_not_succeeded [] = refl
any_not_succeeded (t ∷ ts) = ground (arith, any_not_succeeded ts, worst_bearing-le ts)

any_unfinished :
    (ts : List TaskRun)
    → worst_bearing ts ≤ 1
    → any (λ t. not (is_finished t.status)) ts ≡ (worst_bearing ts == 1)
unfolding is_finished
any_unfinished [] h = refl
any_unfinished (t ∷ ts) h = ground (arith, any_unfinished ts (ground arith))

every_succeeded :
    (ts : List TaskRun) → all (λ t. t.status == succeeded) ts ≡ (worst_bearing ts == 0)
unfolding TaskRunStatus-discrete
every_succeeded [] = refl
every_succeeded (t ∷ ts) = ground (arith, every_succeeded ts)

pub verdict_bearing :
    (stopped : Bool) (ts : List TaskRun)
    → verdict (stopped || any (λ t. has_not_succeeded t.status) ts) ts
      ≡ some (if stopped then skipped else status_of_bearing (worst_bearing ts))
unfolding verdict
verdict_bearing stopped ts =
    rw (any_not_succeeded ts, every_succeeded ts)
      (ground (arith, any_unfinished ts, worst_bearing-le ts))

pub is_running :
    (stopped : Bool) (ts : List TaskRun)
    → verdict (stopped || any (λ t. has_not_succeeded t.status) ts) ts ≡ some running
    → (stopped ≡ false) × (worst_bearing ts ≡ 0)
is_running stopped ts h = ground (arith, verdict_bearing stopped ts, worst_bearing-le ts)
