-- ===== src/Orchestrator/TaskRunAttemptMonitor/Leak.antt =====
-- A command that is lost: past its timeout, with an INSERT that fails.
use flowlite.Base.{
  ℕ, suc, String, Bool, true, false, not, arith, Option, none, some, List, ◌∷◌, ◌≡◌, refl, ◌==◌,
  head?, filter, ltb, nat_Column,
}
use flowlite.Crud.TaskRunAttempt.{TaskRunAttempt, TaskRunAttemptStatus-discrete}
use flowlite.Crud.TaskRunAttemptOutput.{is_blank_piece}
use flowlite.Crud.World.{
  World, Child, operation_failed, ok, err, operation, insert, ask, remove_child,
}
use flowlite.Crud.Statements.{insert_task_run_attempt_output}
use flowlite.Orchestrator.TaskRunAttemptChildren.{System, try_wait}
use flowlite.Orchestrator.TaskRunAttemptMonitor.{
  insert_stream, insert_output, begin_termination, derive_next_status, settle, handle_child, handle,
  timeout_note, note_of,
}
use flowlite.Orchestrator.TaskRunAttemptDispatcher.{AppConfig}

note_is_shown : (now : ℕ) (child : Child) → is_blank_piece (timeout_note now child) ≡ false
unfolding timeout_note
note_is_shown now child = by_idle child.idle_timeout
  where
    by_idle : (idle : Option ℕ) → is_blank_piece (note_of now child idle) ≡ false
    by_idle none = refl
    by_idle (some idle_timeout) = ground arith

module _ (system : System) (from_utf8 : List ℕ → Option String) (config : AppConfig)
    (attempt : TaskRunAttempt) (child : Child) (w : World) (faults : List Bool) where
  -- The children without the attempt's.
  abbrev pub others : List Child
  others = filter (λ c. not (c.task_run_attempt_id == attempt.id)) w.children

  -- TaskRunAttemptMonitor has a child that has not been asked to exit, that has not exited and is past its
  -- timeout, and the next operation fails: the child is then in no map, it was sent no signal, and the
  -- attempt is as it was.
  pub handle-loses_child :
      head? (filter (λ c. c.task_run_attempt_id == attempt.id) w.children) ≡ some child
      → child.terminating ≡ none
      → system.try_wait (record w { children = others }) child ≡ ok none
      → ltb child.times_out_at w.now ≡ true
      → w.faults ≡ true ∷ faults
      → handle system from_utf8 config attempt w ≡ (
        err operation_failed,
        record w { children = others; asked = suc w.asked; faults = faults },
      )
  unfolding handle remove_child derive_next_status settle begin_termination insert_output
      insert_stream insert_task_run_attempt_output insert operation try_wait ask
      TaskRunAttemptStatus-discrete
  handle-loses_child held going alive late fault =
      rw (held, handle_child, going, alive, late, fault, note_is_shown w.now child) refl
