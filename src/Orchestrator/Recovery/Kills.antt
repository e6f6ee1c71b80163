-- ===== src/Orchestrator/Recovery/Kills.antt =====
-- Which process groups a start kills.
use flowlite.Base.{
  ℕ, ◌≤◌, ltb, Bool, false, Option, none, some, List, [], ◌∷◌, ◌++◌, ◌≡◌, refl, sym, ap, subst, ◌∙◌,
  append_assoc, All, Any, All-imp, All-append, Bool-cases, inl, inr, arith,
}
use flowlite.Crud.TaskRunAttempt
use flowlite.Crud.TaskRunAttempt.{TaskRunAttempt, by_id, any_attempt}
use flowlite.Crud.World.{
  Db, World, Signalled, pure, to_group, sigkill, Action, Result, ◌>>=◌, operation, query, ask,
  signal,
}
use flowlite.Crud.World.Inversion.{query-eq-ok}
use flowlite.Crud.World.Preserved.{
  Preserves, bind-cases, operation-Preserves, execute-Preserves, query-Preserves,
}
use flowlite.Crud.Statements.{select_task_run_attempts, update_task_run_attempts}
use flowlite.Crud.Multistatements.{stop_child_job_runs}
use flowlite.Orchestrator.TaskRunAttemptChildren.{System}
use flowlite.Orchestrator.TaskRunAttemptMonitor.Untouched.{stop_child_job_runs-Preserves}
use flowlite.Orchestrator.Recovery.{
  kill_group_started, kill_group_of, kill_orphan_process_group, recover_attempt, recover_each,
  recover_orphaned_task_run_attempts,
}

abbrev signals : World → List Signalled
signals w = w.signalled

module _ (system_boot_time : Option ℕ) where
  -- SIGKILL to the group of an attempt of the list that was started at the boot of the machine or later.
  pub record IsOwn (rows : List TaskRunAttempt) (s : Signalled) : Type 0 where
    pub owner : TaskRunAttempt
    pub listed : Any (λ a. a ≡ owner) rows
    pub group : ℕ
    pub has_group : owner.process_group_id ≡ some group
    pub started_at : ℕ
    pub has_started : owner.started_at ≡ some started_at
    pub boot : ℕ
    pub has_booted : system_boot_time ≡ some boot
    pub since_boot : boot ≤ started_at
    pub kill : s ≡ to_group group sigkill

  -- Only such signals have come.
  abbrev pub OnlyOwn : List TaskRunAttempt → World → World → Type 0
  OnlyOwn rows w v =
      (news : List Signalled) × (v.signalled ≡ news ++ w.signalled) × All (IsOwn rows) news

  none_new :
      (rows : List TaskRunAttempt) (w v : World) → v.signalled ≡ w.signalled → OnlyOwn rows w v
  none_new rows w v e = ([], e, tt)

  OnlyOwn-trans :
      (rows : List TaskRunAttempt) (u v w : World)
      → OnlyOwn rows u v
      → OnlyOwn rows v w
      → OnlyOwn rows u w
  OnlyOwn-trans rows u v w (xs, e, a) (ys, f, b) = (
    ys ++ xs,
    f ∙ ap (λ l. ys ++ l) e ∙ sym (append_assoc ys xs u.signalled),
    All-append (IsOwn rows) ys xs b a,
  )

  module _ (system : System) (rows : List TaskRunAttempt) where
    abbrev killed : (group started_at boot : Option ℕ) → Action Bool
    killed none started_at boot = pure false
    killed (some group) started_at boot = kill_group_started system group started_at boot

    killed_eq :
        (attempt : TaskRunAttempt) (group boot : Option ℕ)
        → kill_group_of system attempt group boot ≡ killed group attempt.started_at boot
    killed_eq attempt none boot = refl
    killed_eq attempt (some group) boot = refl

    kill-OnlyOwn :
        (attempt : TaskRunAttempt)
        → Any (λ a. a ≡ attempt) rows
        → (w : World)
        → OnlyOwn rows w (kill_orphan_process_group system attempt system_boot_time w).1
    unfolding kill_orphan_process_group signal ask
    kill-OnlyOwn attempt listed w =
        rw (killed_eq attempt attempt.process_group_id system_boot_time)
          (by_columns attempt.process_group_id attempt.started_at system_boot_time refl refl refl)
      where
        by_columns :
            (group started_at boot : Option ℕ)
            → attempt.process_group_id ≡ group
            → attempt.started_at ≡ started_at
            → system_boot_time ≡ boot
            → OnlyOwn rows w (killed group started_at boot w).1
        by_columns none started_at boot e f g = none_new rows w w refl
        by_columns (some group) none boot e f g = none_new rows w w refl
        by_columns (some group) (some at) none e f g = none_new rows w w refl
        by_columns (some group) (some at) (some boot) e f g = elim (Bool-cases (ltb at boot)) [
          | inl h ↦ rw h (none_new rows w w refl)
          | inr h ↦ rw h (
            to_group group sigkill ∷ [],
            refl,
            (
              record {
                owner = attempt;
                listed = listed;
                group = group;
                has_group = e;
                started_at = at;
                has_started = f;
                boot = boot;
                has_booted = g;
                since_boot = ground (arith, h);
                kill = refl;
              },
              tt,
            ),
          )
        ]

    after :
        {A B : Type 0} (m : Action A) (f : A → Action B)
        → ((w : World) → OnlyOwn rows w (m w).1)
        → ((a : A) (w : World) → OnlyOwn rows w (f a w).1)
        → (w : World) → OnlyOwn rows w ((m >>= f) w).1
    after {A} {B} m f first next w =
        bind-cases (λ (x : Result B × World). OnlyOwn rows w x.1) m f w
          (λ a v e.
            OnlyOwn-trans rows w v (f a v).1
              (subst (λ (x : Result A × World). OnlyOwn rows w x.1) e (first w)) (next a v))
          (λ v _ e. subst (λ (x : Result A × World). OnlyOwn rows w x.1) e (first w))

    quiet : {A : Type 0} (m : Action A) → Preserves signals m → (w : World) → OnlyOwn rows w (m w).1
    quiet m keeps w = none_new rows w (m w).1 (keeps w)

    recover_attempt-OnlyOwn :
        (attempt : TaskRunAttempt)
        → Any (λ a. a ≡ attempt) rows
        → (w : World) → OnlyOwn rows w (recover_attempt system system_boot_time attempt w).1
    unfolding recover_attempt update_task_run_attempts
    recover_attempt-OnlyOwn attempt listed =
        after (kill_orphan_process_group system attempt system_boot_time) _
          (kill-OnlyOwn attempt listed)
          (λ _.
            after operation _ (quiet operation (operation-Preserves signals (λ w fs. refl))) (λ _.
              after (stop_child_job_runs attempt) _
                (quiet (stop_child_job_runs attempt)
                  (λ w. ap (λ t. t.3) (stop_child_job_runs-Preserves attempt w)))
                (λ _ w.
                  quiet (update_task_run_attempts _ _)
                    (execute-Preserves signals (λ v fs. refl) _ (λ v. refl)) w)))

    recover_each-OnlyOwn :
        (attempts : List TaskRunAttempt)
        → All (λ attempt. Any (λ a. a ≡ attempt) rows) attempts
        → (w : World) → OnlyOwn rows w (recover_each system system_boot_time attempts w).1
    unfolding recover_each
    recover_each-OnlyOwn [] listed w = none_new rows w w refl
    recover_each-OnlyOwn (attempt ∷ attempts) listed w =
        after (recover_attempt system system_boot_time attempt) _
          (recover_attempt-OnlyOwn attempt listed.0) (λ _. recover_each-OnlyOwn attempts listed.1) w

own_row_is_there : (rows : List TaskRunAttempt) → All (λ attempt. Any (λ a. a ≡ attempt) rows) rows
own_row_is_there [] = tt
own_row_is_there (row ∷ rows) = (inl refl, All-imp (λ a h. inr h) rows (own_row_is_there rows))

abbrev pub running_attempts : World → List TaskRunAttempt
running_attempts w =
    TaskRunAttempt.select_task_run_attempts
      (record any_attempt { status = some TaskRunAttempt.running }) (some by_id)
      w.db.task_run_attempts

-- A start of the orchestrator sends no signals but SIGKILL to the process groups of attempts that the
-- table has as running, and to these only where the machine was booted at a known instant and the attempt
-- was started then or later, whichever operations fail.
pub recover-OnlyOwn :
    (system : System) (system_boot_time : Option ℕ) (w : World)
    → OnlyOwn system_boot_time
        (running_attempts w)
        w
        (recover_orphaned_task_run_attempts system system_boot_time w).1
unfolding recover_orphaned_task_run_attempts select_task_run_attempts
recover-OnlyOwn system system_boot_time w =
    let rows = running_attempts w in
    let selects : Db → List TaskRunAttempt = λ db.
      TaskRunAttempt.select_task_run_attempts
        (record any_attempt { status = some TaskRunAttempt.running }) (some by_id)
        db.task_run_attempts in
    let same = query-Preserves signals (λ v fs. refl) selects w in
    bind-cases (λ (x : Result Unit × World). OnlyOwn system_boot_time rows w x.1) (query selects)
      (recover_each system system_boot_time) w
      (λ found v e.
        OnlyOwn-trans system_boot_time rows w v (recover_each system system_boot_time found v).1
          (none_new system_boot_time rows w v
            (sym (ap (λ (x : Result (List TaskRunAttempt) × World). x.1.signalled) e) ∙ same))
          (recover_each-OnlyOwn system_boot_time system rows found
            (subst (λ l. All (λ attempt. Any (λ a. a ≡ attempt) rows) l)
              (sym (query-eq-ok selects w e).0) (own_row_is_there rows))
            v))
      (λ v _ e.
        none_new system_boot_time rows w v
          (sym (ap (λ (x : Result (List TaskRunAttempt) × World). x.1.signalled) e) ∙ same))
