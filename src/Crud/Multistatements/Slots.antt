-- ===== src/Crud/Multistatements/Slots.antt =====
-- The tally of `claimed_limit_slots` against a count (src/crud/multistatements/limits.rs).
use flowlite.Base.{
  ℕ, ◌+◌, ◌≡◌, sym, ◌∙◌, ap, subst, String, true, false, Option, none, some, List, [], ◌∷◌, ◌==◌,
  string_Column, nat_Column, Bool-cases, inl, inr, arith, if◌then◌else◌, filter, length,
}
use flowlite.Crud.TaskRun
use flowlite.Crud.TaskRun.{TaskRun, any_task_run}
use flowlite.Crud.TaskRunAttempt
use flowlite.Crud.TaskRunAttempt.{
  TaskRunAttempt, TaskRunAttemptStatus_Column, any_attempt, attempt_filter,
}
use flowlite.Crud.World.{Db}
use flowlite.Crud.World.Answers.{Says, SaysOf, bind-Says, pure-Says, query-Says, required-Says}
use flowlite.Crud.Statements
use flowlite.Crud.Statements.{required}
use flowlite.Crud.Multistatements.{
  is_working, claim, claim_all, claimed, tally_slots, claimed_limit_slots, select_running_attempts,
  count_running_attempts,
}

-- The attempts that hold a slot, and the task run of an attempt.
abbrev running : Db → List TaskRunAttempt
running d = filter (λ a. a.status == TaskRunAttempt.running) d.task_run_attempts

abbrev pub working : Db → List TaskRunAttempt
working d = filter is_working (running d)

abbrev pub task_run_of : Db → TaskRunAttempt → Option TaskRun
task_run_of d a =
    TaskRun.select_task_run (record any_task_run { id = some a.task_run_id }) d.task_runs

-- How often a list names a limit, and how often the task runs of some attempts do.
abbrev pub count : String → List String → ℕ
count limit [] = 0
count limit (l ∷ ls) = if l == limit then count limit ls + 1 else count limit ls

abbrev pub limits_of : Option TaskRun → List String
limits_of none = []
limits_of (some t) = t.limits

abbrev pub claims : Db → String → List TaskRunAttempt → ℕ
claims d limit [] = 0
claims d limit (a ∷ attempts) = count limit (limits_of (task_run_of d a)) + claims d limit attempts

other_name :
    (name l limit : String) → (name == l) ≡ false → (name == limit) ≡ true → (l == limit) ≡ false
other_name name l limit e f = elim (Bool-cases (l == limit)) [
  | inl h ↦ absurd (
      cc (
        e,
        (string_Column.equals_iff name l).1 (
            (string_Column.equals_iff name limit).0 f
            ∙ sym ((string_Column.equals_iff l limit).0 h)),
      ))
  | inr h ↦ h
]

claimed-claim :
    (limit l : String) (slots : List (String × ℕ))
    → claimed limit (claim l slots)
      ≡ (if l == limit then claimed limit slots + 1 else claimed limit slots)
unfolding claimed claim
claimed-claim limit l [] = ground arith
claimed-claim limit l ((name, n) ∷ slots) = elim (Bool-cases (name == l)) [
  | inl e ↦ ground (arith, (string_Column.equals_iff name l).0 e)
  | inr e ↦ elim (Bool-cases (name == limit)) [
    | inl f ↦ ground (arith, other_name name l limit e f)
    | inr f ↦ ground (arith, claimed-claim limit l slots)
  ]
]

claimed-claim_all :
    (limit : String) (ls : List String) (slots : List (String × ℕ))
    → claimed limit (claim_all ls slots) ≡ claimed limit slots + count limit ls
unfolding claim_all
claimed-claim_all limit [] slots = ground arith
claimed-claim_all limit (l ∷ ls) slots =
    ground (arith, claimed-claim_all limit ls (claim l slots), claimed-claim limit l slots)

running-Says :
    (d : Db) (t : ℕ) → Says d t select_running_attempts (λ attempts. attempts ≡ running d)
unfolding select_running_attempts Statements.select_task_run_attempts attempt_filter
    TaskRunAttempt.select_task_run_attempts TaskRunAttempt.order_attempts
running-Says d t = query-Says d t running

-- Where `count_running_attempts` answers, it counts the attempts that hold a slot.
pub count_running_attempts-Says :
    (d : Db) (t : ℕ) → Says d t count_running_attempts (λ n. n ≡ length (working d))
unfolding count_running_attempts
count_running_attempts-Says d t =
    bind-Says d t (λ attempts. attempts ≡ running d) (λ n. n ≡ length (working d))
      select_running_attempts _ (running-Says d t)
      (λ attempts e.
        pure-Says d t (λ n. n ≡ length (working d)) _
          (ap (λ rows. length (filter is_working rows)) e))

module _ (d : Db) (t : ℕ) (limit : String) where
  -- So many slots of the limit.
  abbrev Tallies : ℕ → List (String × ℕ) → Type 0
  Tallies n slots = claimed limit slots ≡ n

  tally_slots-Says :
      (attempts : List TaskRunAttempt) (slots : List (String × ℕ))
      → Says d t
          (tally_slots attempts slots)
          (Tallies (claimed limit slots + claims d limit attempts))
  unfolding tally_slots Statements.select_task_run
  tally_slots-Says [] slots = pure-Says d t (Tallies (claimed limit slots + 0)) slots (omega arith)
  tally_slots-Says (a ∷ attempts) slots =
      let total = claimed limit slots + claims d limit (a ∷ attempts) in
      bind-Says d t (λ found. found ≡ task_run_of d a) (Tallies total)
        (Statements.select_task_run (record any_task_run { id = some a.task_run_id })) _
        (query-Says d t (λ db. task_run_of db a))
        (λ found answer.
          bind-Says d t (λ r. found ≡ some r) (Tallies total) (required found) _
            (required-Says d t found)
            (λ r there w shows.
              subst
                (λ n. SaysOf d t (Tallies n) (tally_slots attempts (claim_all r.limits slots) w))
                (tally_step a attempts slots found r answer there)
                (tally_slots-Says attempts (claim_all r.limits slots) w shows)))
    where
      tally_step :
          (a : TaskRunAttempt) (attempts : List TaskRunAttempt) (slots : List (String × ℕ))
          (found : Option TaskRun) (r : TaskRun)
          → found ≡ task_run_of d a
          → found ≡ some r
          → claimed limit (claim_all r.limits slots) + claims d limit attempts
            ≡ claimed limit slots + claims d limit (a ∷ attempts)
      tally_step a attempts slots found r answer there =
          rw (sym answer, there, claimed-claim_all limit r.limits slots) (omega arith)

  -- Where `claimed_limit_slots` answers, it counts for each limit how often the task runs of the
  -- attempts that hold a slot claim it.
  pub claimed_limit_slots-Says : Says d t claimed_limit_slots (Tallies (claims d limit (working d)))
  unfolding claimed_limit_slots claimed
  claimed_limit_slots-Says =
      bind-Says d t (λ attempts. attempts ≡ running d) (Tallies (claims d limit (working d)))
        select_running_attempts _ (running-Says d t)
        (λ attempts e w shows.
          subst
            (λ rows.
              SaysOf d t (Tallies (claims d limit (working d)))
                (tally_slots (filter is_working rows) [] w))
            (sym e)
            (subst (λ n. SaysOf d t (Tallies n) (tally_slots (working d) [] w)) none_before
              (tally_slots-Says (working d) [] w shows)))
    where
      none_before : claimed limit [] + claims d limit (working d) ≡ claims d limit (working d)
      none_before = omega arith
