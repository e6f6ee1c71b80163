-- ===== src/Tests/Attempts.antt =====
-- The theorems on running attempts, their output and their processes at small inputs.
use flowlite.Base.{
  ℕ, Option, String, true, false, none, some, List, [], ◌∷◌, ◌≡◌, refl, arith, nat_Column,
}
use flowlite.Crud.TaskRunAttempt
use flowlite.Crud.TaskRunAttempt.{TaskRunAttempt}
use flowlite.Crud.World.{World, Child, ok, err, operation_failed}
use flowlite.Orchestrator.TaskRunAttemptReader.{stdout, text}
use flowlite.Orchestrator.TaskRunAttemptChildren.{System}
use flowlite.Orchestrator.TaskRunAttemptMonitor.{handle}
use flowlite.Orchestrator.TaskRunAttemptMonitor.Accounting.{Accounted, handle-Accounted}
use flowlite.Orchestrator.TaskRunAttemptMonitor.Leak.{handle-loses_child}
use flowlite.Orchestrator.Recovery.{recover_orphaned_task_run_attempts}
use flowlite.Orchestrator.Recovery.Kills.{OnlyOwn, running_attempts, recover-OnlyOwn}
use flowlite.Samples.{attempt, holding, busy, config}

-- A command that runs on and has printed two bytes.
abbrev chatty : System
chatty = record {
  try_wait = λ w child. ok none;
  no_such_group = λ w group. false;
  group_killed = λ w group. true;
  last_read = λ w child. none;
  received = λ w child. record { stream = stdout; content = text (104 ∷ 105 ∷ []) } ∷ [];
  drained = λ w child. record { stream = stdout; content = text (104 ∷ 105 ∷ []) } ∷ [];
  resolves = λ w. true;
  metadata = λ w a. ok none;
  read = λ w a. ok [];
}

abbrev to_text : List ℕ → Option String
to_text bytes = none

abbrev held : TaskRunAttempt
held = attempt 2 holding 1 TaskRunAttempt.running

abbrev child : Child
child = record {
  task_run_attempt_id = 2;
  process_group_id = some 100;
  times_out_at = 5_000;
  idle_timeout = none;
  last_output_at = 1_000;
  terminating = none;
}

abbrev watched : World
watched = record busy { children = child ∷ [] }

handle-Accounted_example :
    Accounted chatty to_text config held child
      (record watched { children = [] })
      (handle chatty to_text config held watched)
handle-Accounted_example = handle-Accounted chatty to_text config held child watched refl

abbrev faulty : World
faulty = record watched { faults = true ∷ [] }

handle-loses_child_example :
    handle chatty to_text config held faulty
    ≡ (err operation_failed, record faulty { children = []; asked = 1; faults = [] })
handle-loses_child_example =
    handle-loses_child chatty to_text config held child faulty [] refl refl refl (ground arith) refl

recover-OnlyOwn_example :
    OnlyOwn
      (some 1)
      (running_attempts busy)
      busy
      (recover_orphaned_task_run_attempts chatty (some 1) busy).1
recover-OnlyOwn_example = recover-OnlyOwn chatty (some 1) busy
