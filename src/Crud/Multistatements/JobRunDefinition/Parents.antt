-- ===== src/Crud/Multistatements/JobRunDefinition/Parents.antt =====
-- The parent that a submission from inside a task is linked to.
use flowlite.Base.{
  ℕ, ◌≡◌, refl, sym, ap, ◌∙◌, Bool, true, false, not, ◌&&◌, ◌⊎◌, inl, inr, Option, none, some,
  head?, filter, ◌==◌, In, if◌then◌else◌, arith, Bool-cases, nat_Column, head-filter,
}
use flowlite.Crud.TaskRunAttempt
use flowlite.Crud.TaskRunAttempt.{
  TaskRunAttempt, TaskRunAttemptStatus_Column, any_attempt, select_task_run_attempts,
  attempt_filter, order_attempts,
}
use flowlite.Crud.World.{Db, World, JobRunStop, Action, ok, ◌>>=◌, pure, throw, refused}
use flowlite.Crud.World.Inversion.{>>=-eq-ok, query-eq-ok, pure-eq-ok}
use flowlite.Crud.Statements
use flowlite.Crud.Statements.{is_some, select_job_run_stop}
use flowlite.Crud.Multistatements.JobRunDefinition.{
  check_parent, check_parent_row, resolve_parent_task_run_attempt,
}

-- The row of an attempt whose command may submit runs: it has not ended, or succeeded, and nobody stops
-- its job run.
pub record MaySubmit (db : Db) (id : ℕ) (attempt : TaskRunAttempt) : Type 0 where
  pub row : In attempt db.task_run_attempts
  pub found : attempt.id ≡ id
  pub ended_well :
      (TaskRunAttempt.is_finished attempt.status ≡ false)
      ⊎ (attempt.status ≡ TaskRunAttempt.succeeded)
  pub free :
      head? (filter (λ (s : JobRunStop). s.job_run_id == attempt.job_run_id) db.job_run_stops)
      ≡ none

-- The stop of a job run.
abbrev stop_of : Db → ℕ → Option JobRunStop
stop_of db job_run_id =
    head? (filter (λ (s : JobRunStop). s.job_run_id == job_run_id) db.job_run_stops)

abbrev unless_stopped : ℕ → Option JobRunStop → Action (Option ℕ)
unless_stopped id stop = if is_some stop then throw refused else pure (some id)

unless_stopped-eq-ok :
    (id : ℕ) (stop : Option JobRunStop) (w : World) {answer : Option ℕ} {v : World}
    → unless_stopped id stop w ≡ (ok answer, v)
    → (stop ≡ none) × (answer ≡ some id) × (v ≡ w)
unless_stopped-eq-ok id none w h =
    let (same, rest) = pure-eq-ok (some id) w h in (refl, sym same, sym rest)
unless_stopped-eq-ok id (some stop) w h = cc

stop-free :
    (id job_run_id : ℕ) (w : World) {answer : Option ℕ} {v : World}
    → (select_job_run_stop job_run_id >>= unless_stopped id) w ≡ (ok answer, v)
    → (stop_of w.db job_run_id ≡ none) × (answer ≡ some id) × (v.db ≡ w.db)
unfolding select_job_run_stop
stop-free id job_run_id w h =
    let (stop, middle, first, last) =
      >>=-eq-ok (select_job_run_stop job_run_id) (unless_stopped id) w h in
    let (is, same) = query-eq-ok (λ db. stop_of db job_run_id) w first in
    let (free, answer, rest) = unless_stopped-eq-ok id stop middle last in
    (sym is ∙ free, answer, ap (λ (x : World). x.db) rest ∙ same)

unless-eq-ok :
    (test : Bool) (m : Action (Option ℕ)) (w : World) {answer : Option ℕ} {v : World}
    → (if test then throw refused else m) w ≡ (ok answer, v)
    → (test ≡ false) × (m w ≡ (ok answer, v))
unless-eq-ok true m w h = cc
unless-eq-ok false m w h = (refl, h)

ended_well :
    (attempt : TaskRunAttempt)
    → (TaskRunAttempt.is_finished attempt.status
        && not (attempt.status == TaskRunAttempt.succeeded))
      ≡ false
    → (TaskRunAttempt.is_finished attempt.status ≡ false)
      ⊎ (attempt.status ≡ TaskRunAttempt.succeeded)
ended_well attempt h = elim (Bool-cases (attempt.status == TaskRunAttempt.succeeded)) [
  | inl good ↦
      inr ((TaskRunAttemptStatus_Column.equals_iff attempt.status TaskRunAttempt.succeeded).0 good)
  | inr bad ↦ inl (ground arith)
]

check_parent-free :
    (id : ℕ) (attempt : TaskRunAttempt) (w : World) {answer : Option ℕ} {v : World}
    → check_parent id attempt w ≡ (ok answer, v)
    → ((TaskRunAttempt.is_finished attempt.status ≡ false)
        ⊎ (attempt.status ≡ TaskRunAttempt.succeeded))
      × (stop_of w.db attempt.job_run_id ≡ none)
      × (answer ≡ some id)
      × (v.db ≡ w.db)
unfolding check_parent
check_parent-free id attempt w h =
    let (good, rest) =
      unless-eq-ok
        (TaskRunAttempt.is_finished attempt.status
          && not (attempt.status == TaskRunAttempt.succeeded))
        (select_job_run_stop attempt.job_run_id >>= unless_stopped id) w h in
    let (free, answer, same) = stop-free id attempt.job_run_id w rest in
    (ended_well attempt good, free, answer, same)

check_parent_row-MaySubmit :
    (id : ℕ) (db : Db) (found : Option TaskRunAttempt) (w : World) {parent : ℕ} {v : World}
    → w.db ≡ db
    → ((attempt : TaskRunAttempt)
        → found ≡ some attempt
        → In attempt db.task_run_attempts × (attempt.id ≡ id))
    → check_parent_row id found w ≡ (ok (some parent), v)
    → (parent ≡ id) × (v.db ≡ db) × ((attempt : TaskRunAttempt) × MaySubmit db id attempt)
check_parent_row-MaySubmit id db none w same row h = cc
check_parent_row-MaySubmit id db (some attempt) w {parent} same row h =
    let (good, free, answer, rest) = check_parent-free id attempt w h in
    let (is_in, is) = row attempt refl in
    (
      cc answer,
      rest ∙ same,
      (
        attempt,
        record {
          row = is_in;
          found = is;
          ended_well = good;
          free = ap (λ (d : Db). stop_of d attempt.job_run_id) (sym same) ∙ free;
        },
      ),
    )

attempt_filter-id :
    (id : ℕ) (attempt : TaskRunAttempt)
    → attempt_filter (record any_attempt { id = some id }) attempt ≡ true
    → attempt.id ≡ id
unfolding attempt_filter
attempt_filter-id id attempt h = ground arith

-- Where resolve_parent_task_run_attempt links a submission to a parent, it is the attempt that asked, whose
-- row is there, which has not ended or has succeeded, and whose job run has no stop; and nothing was
-- written.
pub resolve_parent_task_run_attempt-MaySubmit :
    (id : ℕ) (w : World) {parent : ℕ} {v : World}
    → resolve_parent_task_run_attempt (some id) w ≡ (ok (some parent), v)
    → (parent ≡ id) × (v.db ≡ w.db) × ((attempt : TaskRunAttempt) × MaySubmit w.db id attempt)
unfolding resolve_parent_task_run_attempt Statements.select_task_run_attempts
    select_task_run_attempts order_attempts attempt_filter
resolve_parent_task_run_attempt-MaySubmit id w h =
    let f = record any_attempt { id = some id } in
    let (attempts, middle, first, last) =
      >>=-eq-ok (Statements.select_task_run_attempts f none)
        (λ rows. check_parent_row id (head? rows)) w h in
    let (is, same) =
      query-eq-ok (λ db. select_task_run_attempts f none db.task_run_attempts) w first in
    check_parent_row-MaySubmit id w.db (head? attempts) middle same
      (λ attempt e.
        let (m, test) =
          head-filter (attempt_filter f) w.db.task_run_attempts
            (ap (λ rows. head? rows) (sym is) ∙ e) in
        (m, attempt_filter-id id attempt test))
      last
