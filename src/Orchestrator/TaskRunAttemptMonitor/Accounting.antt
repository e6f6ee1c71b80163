-- ===== src/Orchestrator/TaskRunAttemptMonitor/Accounting.antt =====
-- What becomes of the child of an attempt.
use flowlite.Base.{
  ℕ, suc, String, Bool, true, false, not, Option, none, some, List, [], ◌∷◌, ◌++◌, ◌≡◌, refl, sym,
  ap, ◌∙◌, ◌==◌, head?, filter, any, nat_Column, if◌then◌else◌, arith,
}
use flowlite.Crud.TaskRunAttempt
use flowlite.Crud.TaskRunAttempt.{
  TaskRunAttempt, TaskRunAttemptStatus, TaskRunAttemptStatus_Column, TaskRunAttemptStatus-discrete,
}
use flowlite.Crud.TaskRunAttemptOutput.{Piece}
use flowlite.Crud.World.{
  World, Child, Signalled, sigkill, to_group, to_child, Error, Action, Result, ok, err, and_then,
  ◌>>◌, pure, done, operation, query, ask, signal, publish, insert_child, remove_child,
}
use flowlite.Crud.World.Preserved.{
  Preserves, bind-Preserves, bind-cases, if-Preserves, operation-Preserves, execute-Preserves,
}
use flowlite.Crud.Statements.{update_task_run_attempts, is_job_run_stopped, select_job_run_stop}
use flowlite.Crud.Multistatements.{stop_child_job_runs}
use flowlite.Orchestrator.TaskRunAttemptReader.{stdout, stderr, Chunk}
use flowlite.Orchestrator.TaskRunAttemptChildren.{
  System, signal_group, signal_process_group, kill_process_group, terminate_process_group,
  process_group_is_gone, try_wait, is_idle,
}
use flowlite.Orchestrator.TaskRunAttemptMonitor.{
  pieces_of, insert_chunks, insert_output, finish_task_run_attempt, finish_reading,
  finish_termination, set_to_invalid, record_and_keep, begin_termination, handle_terminating,
  is_past_grace, derive_next_status, settle, settle_derived, handle_child, handle, timeout_note,
  terminating_status, unless_exited,
}
use flowlite.Orchestrator.TaskRunAttemptMonitor.Untouched.{
  stop_child_job_runs-Preserves, insert_output-Preserves,
}
use flowlite.Orchestrator.TaskRunAttemptMonitor.Quiet.{gone-still, derive-still}
use flowlite.Orchestrator.TaskRunAttemptDispatcher.{AppConfig}

abbrev pub signals : World → List Signalled
signals w = w.signalled

pub insert_output-signals :
    (attempt : TaskRunAttempt) (out errors : List Piece)
    → Preserves signals (insert_output attempt out errors)
insert_output-signals attempt out errors w =
    ap (λ t. t.2) (insert_output-Preserves attempt out errors w)

pub insert_chunks-signals :
    (attempt : TaskRunAttempt) (chunks : List Chunk)
    → Preserves signals (insert_chunks attempt chunks)
unfolding insert_chunks
insert_chunks-signals attempt chunks =
    insert_output-signals attempt (pieces_of stdout chunks) (pieces_of stderr chunks)

pub finish-signals :
    (attempt : TaskRunAttempt) (status : TaskRunAttemptStatus) (output : Option String)
    → Preserves signals (finish_task_run_attempt attempt status output)
unfolding finish_task_run_attempt update_task_run_attempts publish
finish-signals attempt status output =
    bind-Preserves signals _ _
      (if-Preserves signals (status == TaskRunAttempt.succeeded) done
        (operation >> stop_child_job_runs attempt) (λ w. refl)
        (bind-Preserves signals operation _ (operation-Preserves signals (λ w fs. refl))
          (λ _ w. ap (λ t. t.3) (stop_child_job_runs-Preserves attempt w))))
      (λ _ w.
        bind-Preserves signals (update_task_run_attempts _ _) _
          (execute-Preserves signals (λ v fs. refl) _ (λ v. refl)) (λ _ v. refl) w)

abbrev kill_of_group : Option ℕ → List Signalled
kill_of_group none = []
kill_of_group (some group) = to_group group sigkill ∷ []

module _ (system : System) (from_utf8 : List ℕ → Option String) (config : AppConfig)
    (attempt : TaskRunAttempt) (child : Child) where
  -- SIGKILL to the group, and then to the child, the latest signal first.
  abbrev pub kills : List Signalled
  kills = to_child child.task_run_attempt_id ∷ kill_of_group child.process_group_id

  -- The child is in the map.
  abbrev pub IsHeld : World → Type 0
  IsHeld v = any (λ c. c.task_run_attempt_id == child.task_run_attempt_id) v.children ≡ true

  -- The kill of the child is what was signalled from `w` to `v`.
  abbrev pub IsKilled : World → World → Type 0
  IsKilled w v = v.signalled ≡ kills ++ w.signalled

  -- Asked in `u`, the system tells that it exited.
  abbrev pub HasExited : World → Type 0
  HasExited u = (success : Bool) × (system.try_wait u child ≡ ok (some success))

  -- Deriving the status in `u` gave timed_out, and the INSERT of the timeout's sentence, in the world that
  -- this left, is what failed and ended the handler.
  abbrev pub NoteFailed : World → Result Unit × World → Type 0
  NoteFailed u x =
      (v : World) × (e : Error) × (derive_next_status system from_utf8 config attempt child u
        ≡ (ok TaskRunAttempt.timed_out, v))
      × (x.0 ≡ err e)
      × (insert_output attempt [] (timeout_note v.now child ∷ []) v ≡ x)

  -- What became of the child, by the world that it was handled in and by what the handler left.
  pub data Accounted (u : World) (x : Result Unit × World) : Type 0 where
    in_map : IsHeld x.1 → Accounted u x
    ended : x.1.signalled ≡ kills ++ u.signalled → Accounted u x
    exited : HasExited u → Accounted u x
    not_noted : NoteFailed u x → Accounted u x

  finish_reading-signals : Preserves signals (finish_reading system from_utf8 config attempt child)
  unfolding finish_reading insert_chunks ask
  finish_reading-signals w =
      insert_output-signals attempt (pieces_of stdout (system.drained w child))
        (pieces_of stderr (system.drained w child)) (record w { asked = suc w.asked })

  kill_group-signals :
      (group : Option ℕ) (w : World)
      → (signal_group group sigkill >> signal (to_child child.task_run_attempt_id)) w ≡ (
        ok tt,
        record w {
          signalled = to_child child.task_run_attempt_id ∷ (kill_of_group group ++ w.signalled);
        },
      )
  unfolding signal
  kill_group-signals none w = refl
  kill_group-signals (some group) w = refl

  kill_then :
      (k : Action Unit)
      → Preserves signals k
      → (w : World) → IsKilled w ((kill_process_group child >> k) w).1
  unfolding kill_process_group signal_process_group
  kill_then k keeps w = rw (kill_group-signals child.process_group_id w) (keeps _)

  finish_termination-IsKilled :
      (status : TaskRunAttemptStatus) (w : World)
      → IsKilled w (finish_termination system from_utf8 config attempt child status w).1
  unfolding finish_termination
  finish_termination-IsKilled status = kill_then _ (
      bind-Preserves signals (finish_reading system from_utf8 config attempt child) _
        finish_reading-signals (λ _. finish-signals attempt status none))

  set_to_invalid-IsKilled :
      (w : World) → IsKilled w (set_to_invalid system from_utf8 config attempt (some child) w).1
  unfolding set_to_invalid
  set_to_invalid-IsKilled = kill_then _ (
      bind-Preserves signals (finish_reading system from_utf8 config attempt child) _
        finish_reading-signals (λ _. finish-signals attempt TaskRunAttempt.invalid none))

  record_and_keep-IsHeld :
      (c : Child)
      → c.task_run_attempt_id ≡ child.task_run_attempt_id
      → (w : World) → IsHeld (record_and_keep system from_utf8 config attempt c w).1
  unfolding record_and_keep insert_child
  record_and_keep-IsHeld c e w = ground (arith, e)

  one_of :
      (b : Bool) (m n : Action Unit) (u w : World)
      → Accounted u (m w)
      → Accounted u (n w)
      → Accounted u ((if b then m else n) w)
  one_of true m n u w h k = h
  one_of false m n u w h k = k

  abbrev goes_well : {A : Type 0} → Result A × World → Bool
  goes_well (ok a, v) = true
  goes_well (err e, v) = false

  never_fails :
      {A : Type 0} (Q : Type 0) (x : Result A × World) (v : World) (e : Error)
      → goes_well x ≡ true
      → x ≡ (err e, v)
      → Q
  never_fails Q x v e well bad =
      let no : false ≡ true = sym (ap goes_well bad) ∙ well in absurd (ground (arith, no))

  terminate_goes_well : (w : World) → goes_well (terminate_process_group child w) ≡ true
  unfolding terminate_process_group signal_process_group signal
  terminate_goes_well w = ground arith

  gone_goes_well : (w : World) → goes_well (process_group_is_gone system child w) ≡ true
  unfolding process_group_is_gone try_wait ask
  gone_goes_well w = ground arith

  -- The signals are as they were at the start.
  killed_from :
      (u w : World) (status : TaskRunAttemptStatus)
      → w.signalled ≡ u.signalled
      → Accounted u (finish_termination system from_utf8 config attempt child status w)
  killed_from u w status same =
      ended (finish_termination-IsKilled status w ∙ ap (λ l. kills ++ l) same)

  note_then :
      (b : Bool) (k : Action Unit) (u w : World)
      → (b ≡ true
          → derive_next_status system from_utf8 config attempt child u
            ≡ (ok TaskRunAttempt.timed_out, w))
      → ((v : World) → v.signalled ≡ w.signalled → Accounted u (k v))
      → Accounted u
          (((if b then insert_output attempt [] (timeout_note w.now child ∷ []) else done) >> k) w)
  note_then false k u w late next = next w refl
  note_then true k u w late next =
      let note = insert_output attempt [] (timeout_note w.now child ∷ []) in
      bind-cases (Accounted u) note (λ _. k) w
        (λ _ v e. next v (
          ap (λ (x : Result Unit × World). x.1.signalled) (sym e)
          ∙ insert_output-signals attempt [] (timeout_note w.now child ∷ []) w))
        (λ v error e. not_noted (w, error, late refl, refl, e))

  begin_termination-Accounted :
      (status : TaskRunAttemptStatus) (u w : World)
      → ((status == TaskRunAttempt.timed_out) ≡ true
          → derive_next_status system from_utf8 config attempt child u
            ≡ (ok TaskRunAttempt.timed_out, w))
      → w.signalled ≡ u.signalled
      → Accounted u (begin_termination system from_utf8 config attempt child status w)
  unfolding begin_termination
  begin_termination-Accounted status u w late same =
      note_then (status == TaskRunAttempt.timed_out) _ u w late (λ v kept.
        one_of (config.kill_grace == 0) _ _ u v (killed_from u v status (kept ∙ same)) (
          bind-cases (Accounted u) (terminate_process_group child) _ v
            (λ _ v' e. in_map (record_and_keep-IsHeld _ refl v'))
            (λ v' e bad. never_fails _ _ v' e (terminate_goes_well v) bad)))

  handle_terminating-Accounted :
      (status : TaskRunAttemptStatus) (w : World)
      → Accounted w (handle_terminating system from_utf8 config attempt child status w)
  unfolding handle_terminating
  handle_terminating-Accounted status w =
      let gone =
        if is_past_grace w.now child then pure true else process_group_is_gone system child in
      bind-cases (Accounted w) gone _ w
        (λ over v e.
          one_of over _ _ w v
            (killed_from w v status (
              ap (λ (x : Result Bool × World). x.1.signalled) (sym e)
              ∙ if-Preserves signals (is_past_grace w.now child) (pure true)
                  (process_group_is_gone system child) (λ u. refl)
                  (λ u. ap (λ t. t.2) (gone-still system from_utf8 config attempt child u)) w))
            (in_map (record_and_keep-IsHeld child refl v)))
        (λ v e bad. never_fails _ _ v e (by_grace (is_past_grace w.now child) w) bad)
    where
      by_grace :
          (b : Bool) (w : World)
          → goes_well ((if b then pure true else process_group_is_gone system child) w) ≡ true
      by_grace true w = refl
      by_grace false w = gone_goes_well w

  -- Whether the answer is that the process exited.
  abbrev is_exit : Result TaskRunAttemptStatus → Bool
  is_exit (ok TaskRunAttempt.succeeded) = true
  is_exit (ok TaskRunAttempt.failed) = true
  is_exit _ = false

  running_answers :
      (w : World) → is_exit (unless_exited system from_utf8 config attempt child none w).0 ≡ false
  unfolding is_idle ask is_job_run_stopped select_job_run_stop query operation
  running_answers w = ground arith

  settle_derived-Accounted :
      (u : World) (x : Result TaskRunAttemptStatus × World)
      → derive_next_status system from_utf8 config attempt child u ≡ x
      → (is_exit x.0 ≡ true → HasExited u)
      → x.1.signalled ≡ u.signalled
      → Accounted u (settle_derived system from_utf8 config attempt child x)
  unfolding settle insert_child TaskRunAttemptStatus-discrete
  settle_derived-Accounted u (ok TaskRunAttempt.succeeded, v) e exits same = exited (exits refl)
  settle_derived-Accounted u (ok TaskRunAttempt.failed, v) e exits same = exited (exits refl)
  settle_derived-Accounted u (ok TaskRunAttempt.timed_out, v) e exits same =
      begin_termination-Accounted TaskRunAttempt.timed_out u v (λ _. e) same
  settle_derived-Accounted u (ok TaskRunAttempt.aborted, v) e exits same =
      begin_termination-Accounted TaskRunAttempt.aborted u v (λ h. cc) same
  settle_derived-Accounted u (ok TaskRunAttempt.running, v) e exits same =
      in_map (record_and_keep-IsHeld child refl v)
  settle_derived-Accounted u (ok TaskRunAttempt.queued, v) e exits same =
      ended (set_to_invalid-IsKilled v ∙ ap (λ l. kills ++ l) same)
  settle_derived-Accounted u (ok TaskRunAttempt.skipped, v) e exits same =
      ended (set_to_invalid-IsKilled v ∙ ap (λ l. kills ++ l) same)
  settle_derived-Accounted u (ok TaskRunAttempt.invalid, v) e exits same =
      ended (set_to_invalid-IsKilled v ∙ ap (λ l. kills ++ l) same)
  settle_derived-Accounted u (err error, v) e exits same = in_map (ground arith)

  -- What `try_wait` said decides.
  derived-exits :
      (w : World)
      → is_exit (derive_next_status system from_utf8 config attempt child w).0 ≡ true
      → HasExited w
  unfolding derive_next_status try_wait ask
  derived-exits w = by_answer (system.try_wait w child) refl
    where
      by_answer :
          (x : Result (Option Bool))
          → system.try_wait w child ≡ x
          → is_exit
              (and_then {A = Option Bool} {B = TaskRunAttemptStatus}
                (x, record w { asked = suc w.asked })
                (unless_exited system from_utf8 config attempt child)).0
            ≡ true
          → HasExited w
      by_answer (ok (some b)) e h = (b, e)
      by_answer (ok none) e h =
          let no : false ≡ true = sym (running_answers (record w { asked = suc w.asked })) ∙ h in
          absurd (ground (arith, no))
      by_answer (err error) e h = absurd (ground (arith, h))

  handle_child-Accounted :
      (terminating : Option TaskRunAttemptStatus)
      → terminating_status child ≡ terminating
      → (w : World) → Accounted w (handle_child system from_utf8 config attempt (some child) w)
  handle_child-Accounted none e w =
      rw (e, handle_child)
        (settle_derived-Accounted w (derive_next_status system from_utf8 config attempt child w)
          refl (derived-exits w)
          (ap (λ t. t.2) (derive-still system from_utf8 config attempt child w)))
  handle_child-Accounted (some status) e w =
      rw (e, handle_child) (handle_terminating-Accounted status w)

  -- TaskRunAttemptMonitor handles an attempt that it has a child of, whichever operations fail and
  -- whatever the system answers. Then the child is in the map again, or it was killed with its group and
  -- nothing else was signalled, or the system, asked in the world without the child in the map, says that
  -- it exited, or deriving the status in that world gave timed_out and the handler ended, with that
  -- error, on the INSERT of the sentence on the timeout, which was its next operation.
  pub handle-Accounted :
      (w : World)
      → head? (filter (λ c. c.task_run_attempt_id == attempt.id) w.children) ≡ some child
      → Accounted
          (record w {
            children = filter (λ c. not (c.task_run_attempt_id == attempt.id)) w.children;
          })
          (handle system from_utf8 config attempt w)
  unfolding handle remove_child
  handle-Accounted w held = rw held (handle_child-Accounted (terminating_status child) refl _)
