-- ===== src/Orchestrator/TaskRunAttemptDispatcher/Gates.antt =====
-- What holds when TaskRunAttemptDispatcher decides to start an attempt.
use flowlite.Base.{
  ℕ, ◌≡◌, refl, sym, ◌∙◌, Bool, true, false, Option, none, some, string_Column, nat_Column,
}
use flowlite.Crud.TaskRunAttempt
use flowlite.Crud.TaskRunAttempt.{TaskRunAttempt, TaskRunAttemptStatus}
use flowlite.Crud.World.{Db, World, ok, pure, JobRunStop}
use flowlite.Crud.World.Answers.{
  Says, pure-Says, bind-Says, query-Says, imp-Says, return_early-Says, Says-eq-ok,
}
use flowlite.Crud.Statements.{is_some, is_job_run_stopped, select_job_run_stop}
use flowlite.Orchestrator.TaskRunDispatcher.Verdict.{stop_of}
use flowlite.Orchestrator.TaskRunAttemptDispatcher.{
  AppConfig, a_claimed_limit_is_full, is_waiting_to_retry, is_at_cap, should_stay_queued,
  derive_next_status,
}
use flowlite.Orchestrator.TaskRunAttemptDispatcher.Limits.{
  HasLimits, IsUnderCap, IsDue, is_waiting_to_retry-Says, is_at_cap-Says,
  a_claimed_limit_is_full-Says,
}

module _ (d : Db) (now : ℕ) where
  -- None of the three reasons to stay queued.
  abbrev IsFree : AppConfig → TaskRunAttempt → Type 0
  IsFree config attempt = IsDue attempt d now × IsUnderCap config d × HasLimits config attempt d

  module _ (config : AppConfig) (attempt : TaskRunAttempt) where
    should_stay_queued-Says :
        Says d now (should_stay_queued config attempt) (λ b. b ≡ false → IsFree config attempt)
    unfolding should_stay_queued
    should_stay_queued-Says =
        let Q = λ (b : Bool). b ≡ false → IsFree config attempt in
        bind-Says d now (λ b. b ≡ false → IsDue attempt d now) Q (is_waiting_to_retry attempt) _
          (is_waiting_to_retry-Says d now attempt)
          (λ waiting due.
            return_early-Says d now Q waiting true _ (λ _ e. absurd (cc))
              (λ ready.
                bind-Says d now (λ b. b ≡ false → IsUnderCap config d) Q (is_at_cap config) _
                  (is_at_cap-Says d now config)
                  (λ capped under.
                    return_early-Says d now Q capped true _ (λ _ e. absurd (cc))
                      (λ open_cap.
                        imp-Says d now (λ b. b ≡ false → HasLimits config attempt d) Q
                          (a_claimed_limit_is_full config attempt)
                          (λ full limits e. (due ready, under open_cap, limits e))
                          (a_claimed_limit_is_full-Says d now config attempt)))))

    is_job_run_stopped-Says :
        Says d now
          (is_job_run_stopped attempt.job_run_id)
          (λ b. b ≡ false → stop_of d attempt.job_run_id ≡ none)
    unfolding is_job_run_stopped select_job_run_stop
    is_job_run_stopped-Says =
        let Q = λ (b : Bool). b ≡ false → stop_of d attempt.job_run_id ≡ none in
        bind-Says d now (λ stop. stop ≡ stop_of d attempt.job_run_id) Q
          (select_job_run_stop attempt.job_run_id) (λ stop. pure (is_some stop))
          (query-Says d now (λ db. stop_of db attempt.job_run_id))
          (λ stop e. pure-Says d now Q (is_some stop) (λ h. sym e ∙ not_some stop h))
      where
        not_some : (o : Option JobRunStop) → is_some o ≡ false → o ≡ none
        not_some none e = refl
        not_some (some s) e = absurd (cc)

    -- What is known of an attempt that is to be started.
    abbrev pub MayStart : Type 0
    MayStart =
        (attempt.started_at ≡ none)
        × (stop_of d attempt.job_run_id ≡ none)
        × IsDue attempt d now
        × IsUnderCap config d
        × HasLimits config attempt d

    derive_next_status-Says :
        Says d now (derive_next_status config attempt) (λ s. s ≡ TaskRunAttempt.running → MayStart)
    unfolding derive_next_status
    derive_next_status-Says =
        let Q = λ (s : TaskRunAttemptStatus). s ≡ TaskRunAttempt.running → MayStart in
        return_early-Says d now Q (is_some attempt.started_at) TaskRunAttempt.invalid _
          (λ _ e. absurd (cc))
          (λ fresh.
            bind-Says d now (λ b. b ≡ false → stop_of d attempt.job_run_id ≡ none) Q
              (is_job_run_stopped attempt.job_run_id) _ is_job_run_stopped-Says
              (λ stopped no_stop.
                return_early-Says d now Q stopped TaskRunAttempt.skipped _ (λ _ e. absurd (cc))
                  (λ on.
                    bind-Says d now (λ b. b ≡ false → IsFree config attempt) Q
                      (should_stay_queued config attempt) _ should_stay_queued-Says
                      (λ stays free.
                        return_early-Says d now Q stays TaskRunAttempt.queued _ (λ _ e. absurd (cc))
                          (λ go. pure-Says d now Q TaskRunAttempt.running (λ _. (
                            never attempt.started_at fresh,
                            no_stop on,
                            (free go).0,
                            (free go).1,
                            (free go).2,
                          )))))))
      where
        never : (o : Option ℕ) → is_some o ≡ false → o ≡ none
        never none e = refl
        never (some s) e = absurd (cc)

-- Where deciding on an attempt gives running: it was never begun, its job run has no stop, its retry
-- delay has passed, the attempts that hold a slot are fewer than the cap, and each limit that its task
-- run claims has room; a cap of 0, a limit of 0 and a limit that is not configured hold nothing back.
pub starts_within_limits :
    (config : AppConfig) (attempt : TaskRunAttempt) (w w' : World)
    → derive_next_status config attempt w ≡ (ok TaskRunAttempt.running, w')
    → MayStart w.db w.now config attempt
starts_within_limits config attempt w w' h =
    Says-eq-ok (derive_next_status config attempt)
      (λ s. s ≡ TaskRunAttempt.running → MayStart w.db w.now config attempt) w
      (derive_next_status-Says w.db w.now config attempt) h refl
