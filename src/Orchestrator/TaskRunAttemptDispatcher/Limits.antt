-- ===== src/Orchestrator/TaskRunAttemptDispatcher/Limits.antt =====
-- The three reasons to leave an attempt queued, and what it says when one does not hold.
use flowlite.Base.{
  ℕ, ◌+◌, ◌*◌, ◌<◌, ◌≤◌, ◌≡◌, subst, ◌⊎◌, inl, inr, String, Bool, false, Option, none, some, List,
  [], ◌∷◌, All, length, head?, filter, ltb, leb, ◌==◌, string_Column, nat_Column, arith,
}
use flowlite.Crud.TaskRun.{TaskRun, any_task_run}
use flowlite.Crud.TaskRunAttempt.{TaskRunAttempt}
use flowlite.Crud.World.{Db, pure, current_ts}
use flowlite.Crud.World.Answers.{
  Says, pure-Says, bind-Says, query-Says, required-Says, now-Says, if-Says, all-Says, imp-Says,
}
use flowlite.Crud.Statements
use flowlite.Crud.Statements.{is_some, required, is_job_run_stopped, select_job_run_stop}
use flowlite.Crud.Multistatements.{claimed, claimed_limit_slots, count_running_attempts}
use flowlite.Crud.Multistatements.Slots.{
  working, task_run_of, claims, claimed_limit_slots-Says, count_running_attempts-Says,
}
use flowlite.Orchestrator.TaskRunAttemptDispatcher.{
  AppConfig, get_task_run, is_full, any_full, full_of, a_claimed_limit_is_full, is_waiting_to_retry,
  is_at_cap,
}

-- A limit of that name has room for one attempt more: it is not configured, it is no limit, or fewer
-- slots than it has are taken.
abbrev pub HasRoom : Option (String × ℕ) → ℕ → Type 0
HasRoom none taken = Unit
HasRoom (some (_, configured_max)) taken = (configured_max ≡ 0) ⊎ (taken < configured_max)

abbrev pub configured : AppConfig → String → Option (String × ℕ)
configured config limit = head? (filter (λ l. l.0 == limit) config.concurrency_limits)

-- The task run of the attempt, and each limit that it claims has room.
abbrev pub HasLimits : AppConfig → TaskRunAttempt → Db → Type 0
HasLimits config attempt d =
    (t : TaskRun) × (task_run_of d attempt ≡ some t)
    × All (λ limit. HasRoom (configured config limit) (claims d limit (working d))) t.limits

abbrev pub IsUnderCap : AppConfig → Db → Type 0
IsUnderCap config d =
    (config.max_running_attempts ≡ 0) ⊎ (length (working d) < config.max_running_attempts)

-- A first attempt, or the delay since the attempt was created has passed.
abbrev pub IsDue : TaskRunAttempt → Db → ℕ → Type 0
IsDue attempt d now =
    (attempt.attempt ≤ 1)
    ⊎ ((t : TaskRun) × (task_run_of d attempt ≡ some t)
        × (attempt.created_at + t.retry_delay * 1000 ≤ now))

module _ (d : Db) (now : ℕ) where
  pub get_task_run-Says :
      (attempt : TaskRunAttempt)
      → Says d now (get_task_run attempt) (λ t. task_run_of d attempt ≡ some t)
  unfolding get_task_run Statements.select_task_run
  get_task_run-Says attempt =
      bind-Says d now (λ found. found ≡ task_run_of d attempt) (λ t. task_run_of d attempt ≡ some t)
        (Statements.select_task_run (record any_task_run { id = some attempt.task_run_id }))
        required (query-Says d now (λ db. task_run_of db attempt))
        (λ found e.
          subst (λ o. Says d now (required found) (λ t. o ≡ some t)) e (required-Says d now found))

  pub is_waiting_to_retry-Says :
      (attempt : TaskRunAttempt)
      → Says d now (is_waiting_to_retry attempt) (λ b. b ≡ false → IsDue attempt d now)
  unfolding is_waiting_to_retry
  is_waiting_to_retry-Says attempt =
      if-Says d now (λ b. b ≡ false → IsDue attempt d now) (ltb 1 attempt.attempt) _ _
        (λ retry.
          bind-Says d now (λ t. task_run_of d attempt ≡ some t)
            (λ b. b ≡ false → IsDue attempt d now) (get_task_run attempt) _
            (get_task_run-Says attempt)
            (λ t there.
              bind-Says d now (λ n. n ≡ now) (λ b. b ≡ false → IsDue attempt d now) current_ts
                (λ n. pure (ltb n (attempt.created_at + t.retry_delay * 1000))) (now-Says d now)
                (λ n e.
                  pure-Says d now (λ b. b ≡ false → IsDue attempt d now)
                    (ltb n (attempt.created_at + t.retry_delay * 1000))
                    (λ over. inr (t, there, ground (arith, e, over))))))
        (λ first.
          pure-Says d now (λ b. b ≡ false → IsDue attempt d now) false (λ _. inl (ground arith)))

  pub is_at_cap-Says :
      (config : AppConfig) → Says d now (is_at_cap config) (λ b. b ≡ false → IsUnderCap config d)
  unfolding is_at_cap
  is_at_cap-Says config =
      if-Says d now (λ b. b ≡ false → IsUnderCap config d) (ltb 0 config.max_running_attempts) _ _
        (λ capped.
          bind-Says d now (λ n. n ≡ length (working d)) (λ b. b ≡ false → IsUnderCap config d)
            count_running_attempts (λ n. pure (leb config.max_running_attempts n))
            (count_running_attempts-Says d now)
            (λ n e.
              pure-Says d now (λ b. b ≡ false → IsUnderCap config d)
                (leb config.max_running_attempts n) (λ room. inr (ground (arith, e, room)))))
        (λ free.
          pure-Says d now (λ b. b ≡ false → IsUnderCap config d) false (λ _. inl (ground arith)))

  room :
      (o : Option (String × ℕ)) (slots : List (String × ℕ)) (limit : String) (taken : ℕ)
      → claimed limit slots ≡ taken
      → is_full slots o limit ≡ false
      → HasRoom o taken
  room none slots limit taken e h = tt
  room (some (name, configured_max)) slots limit taken e h = ground (arith, e, h)

  any_full-HasRoom :
      (config : AppConfig) (limits : List String) (slots : List (String × ℕ))
      → ((limit : String) → claimed limit slots ≡ claims d limit (working d))
      → any_full config limits slots ≡ false
      → All (λ limit. HasRoom (configured config limit) (claims d limit (working d))) limits
  any_full-HasRoom config [] slots e h = tt
  any_full-HasRoom config (limit ∷ limits) slots e h = (
    room (configured config limit) slots limit _ (e limit) (ground arith),
    any_full-HasRoom config limits slots e (ground arith),
  )

  pub full_of-Says :
      (config : AppConfig) (limits : List String)
      → Says d now (full_of config limits) (λ b.
        b ≡ false
        → All (λ limit. HasRoom (configured config limit) (claims d limit (working d))) limits)
  full_of-Says config [] = pure-Says d now (λ b. b ≡ false → Unit) false (λ _. tt)
  full_of-Says config (l ∷ limits) =
      let Q = λ (b : Bool).
        b ≡ false
        → All (λ limit. HasRoom (configured config limit) (claims d limit (working d)))
            (l ∷ limits) in
      bind-Says d now (λ slots. (limit : String) → claimed limit slots ≡ claims d limit (working d))
        Q claimed_limit_slots (λ slots. pure (any_full config (l ∷ limits) slots))
        (all-Says d now (λ limit slots. claimed limit slots ≡ claims d limit (working d))
          claimed_limit_slots l (claimed_limit_slots-Says d now))
        (λ slots e.
          pure-Says d now Q (any_full config (l ∷ limits) slots)
            (any_full-HasRoom config (l ∷ limits) slots e))

  pub a_claimed_limit_is_full-Says :
      (config : AppConfig) (attempt : TaskRunAttempt)
      → Says d now
          (a_claimed_limit_is_full config attempt)
          (λ b. b ≡ false → HasLimits config attempt d)
  unfolding a_claimed_limit_is_full
  a_claimed_limit_is_full-Says config attempt =
      bind-Says d now (λ t. task_run_of d attempt ≡ some t)
        (λ b. b ≡ false → HasLimits config attempt d) (get_task_run attempt)
        (λ t. full_of config t.limits) (get_task_run-Says attempt)
        (λ t there.
          imp-Says d now
            (λ b.
              b ≡ false
              → All (λ limit. HasRoom (configured config limit) (claims d limit (working d)))
                  t.limits)
            (λ b. b ≡ false → HasLimits config attempt d) (full_of config t.limits)
            (λ b room e. (t, there, room e)) (full_of-Says config t.limits))
