-- ===== src/Orchestrator/TaskRunAttemptMonitor/Completion.antt =====
-- An attempt that is settled has its whole output.
use flowlite.Base.{ℕ, String, Option, List, ◌++◌, ◌≡◌, ◌⊎◌, nat_Column, All}
use flowlite.Crud.TaskRunAttempt
use flowlite.Crud.TaskRunAttempt.{TaskRunAttempt, TaskRunAttemptStatus_Column}
use flowlite.Crud.TaskRunAttemptOutput.{
  Piece, TaskRunAttemptOutput, of_command, no_output_for, past_timeout, rejected,
}
use flowlite.Crud.World.{World, Child, Result}
use flowlite.Orchestrator.TaskRunAttemptReader.{stdout, stderr}
use flowlite.Orchestrator.TaskRunAttemptChildren.{System}
use flowlite.Orchestrator.TaskRunAttemptMonitor.{pieces_of}
use flowlite.Orchestrator.TaskRunAttemptMonitor.Quiet.{attempts, outputs}
use flowlite.Orchestrator.TaskRunAttemptMonitor.Accounting.{signals}
use flowlite.Orchestrator.TaskRunAttemptMonitor.Outputs.{shown, log}
use flowlite.Orchestrator.TaskRunAttemptDispatcher.{AppConfig}

-- A sentence of the monitor's, and no piece of what a command wrote.
abbrev pub IsSentence : Piece → Type 0
IsSentence (of_command content) = ⊥
IsSentence (no_output_for seconds) = Unit
IsSentence past_timeout = Unit
IsSentence (rejected why) = Unit

-- The tables that the signals leave as they are.
abbrev tables : World → List TaskRunAttempt × List TaskRunAttemptOutput
tables w = (attempts w, outputs w)

module _ (system : System) (from_utf8 : List ℕ → Option String) (config : AppConfig)
    (attempt : TaskRunAttempt) (child : Child) where
  -- In the world `at` the readers were waited for, and no signal was sent from then on. All that they had
  -- sent since the last time is recorded, and besides it there are only sentences of the monitor's,
  -- before and after it on stderr.
  pub record HasAll (w v : World) : Type 0 where
    pub at : World
    pub before : List Piece
    pub after : List Piece
    pub first : All IsSentence before
    pub last : All IsSentence after
    pub settled : signals v ≡ signals at
    pub out :
        log stdout attempt.id v
        ≡ log stdout attempt.id w ++ shown (pieces_of stdout (system.drained at child))
    pub errors :
        log stderr attempt.id v
        ≡ log stderr attempt.id w
          ++ (before ++ (shown (pieces_of stderr (system.drained at child)) ++ after))

  -- The attempts are as they were, or all is recorded.
  abbrev pub Complete : World → Result Unit × World → Type 0
  Complete w (r, v) = (attempts v ≡ attempts w) ⊎ HasAll w v

  -- What comes after the readers: sentences, and then the status, but no signal.
  abbrev Trails : World → Result Unit × World → Type 0
  Trails w (r, v) =
      (attempts v ≡ attempts w)
      ⊎ ((after : List Piece) × All IsSentence after
          × (signals v ≡ signals w)
          × (log stdout attempt.id v ≡ log stdout attempt.id w)
          × (log stderr attempt.id v ≡ log stderr attempt.id w ++ after))
