-- ===== src/Orchestrator/TaskRunAttemptMonitor.antt =====
-- src/orchestrator/task_run_attempt_monitor.rs
pub mod Untouched
pub mod Outputs
pub mod Quiet
pub mod Completion
pub mod Accounting
pub mod Leak
use flowlite.Base.{
  ℕ, ◌+◌, ◌/◌, ltb, leb, String, Bool, true, false, not, ◌||◌, Option, none, some, List, [], ◌∷◌,
  ◌++◌, ◌==◌, nat_Column, if◌then◌else◌,
}
use flowlite.Crud.TaskRunAttempt
use flowlite.Crud.TaskRunAttempt.{
  TaskRunAttempt, TaskRunAttemptStatus, TaskRunAttemptStatus_Column, any_attempt, by_id,
}
use flowlite.Crud.TaskRunAttemptOutput.{
  Piece, of_command, no_output_for, past_timeout, rejected, Rejection, unknown_directory,
  could_not_read, too_large, not_utf8, is_blank, is_of, NewOutput,
}
use flowlite.Crud.World.{
  World, Child, Action, Result, ok, err, ◌>>=◌, ◌>>◌, pure, throw, done, current_ts, operation,
  publish, ask, insert_child, remove_child,
}
use flowlite.Crud.Statements.{
  select_task_run_attempts, update_task_run_attempts, insert_task_run_attempt_output,
  is_job_run_stopped,
}
use flowlite.Crud.Multistatements.{stop_child_job_runs}
use flowlite.Orchestrator.TaskRunAttemptReader.{Stream, stdout, stderr, Chunk}
use flowlite.Orchestrator.TaskRunAttemptChildren.{
  System, try_wait, is_idle, process_group_is_gone, terminate_process_group, kill_process_group,
}
use flowlite.Orchestrator.TaskRunAttemptDispatcher.{AppConfig}
use flowlite.Poller.{pass}

abbrev pub new_output : TaskRunAttempt → Stream → List Piece → NewOutput
new_output attempt stream content = record {
  task_run_attempt_id = attempt.id;
  task_run_id = attempt.task_run_id;
  job_run_id = attempt.job_run_id;
  job_id = attempt.job_id;
  task_id = attempt.task_id;
  stream = stream;
  content = content;
}

unfoldable pub insert_stream : TaskRunAttempt → Stream → List Piece → Action Unit
insert_stream attempt stream content =
    if is_blank content
    then done
    else insert_task_run_attempt_output (new_output attempt stream content)

unfoldable pub insert_output : TaskRunAttempt → (out errors : List Piece) → Action Unit
unfolding insert_stream
insert_output attempt out errors =
    insert_stream attempt stdout out >> insert_stream attempt stderr errors

-- What the chunks have of one stream.
unfoldable pub pieces_of : Stream → List Chunk → List Piece
pieces_of stream [] = []
pieces_of stream (c ∷ chunks) =
    let rest = pieces_of stream chunks in
    if is_of stream c.stream then of_command c.content ∷ rest else rest

unfoldable pub insert_chunks : TaskRunAttempt → List Chunk → Action Unit
unfolding insert_output pieces_of
insert_chunks attempt chunks =
    insert_output attempt (pieces_of stdout chunks) (pieces_of stderr chunks)

-- `Termination.status`
abbrev pub terminating_status : Child → Option TaskRunAttemptStatus
terminating_status child = elim child.terminating [
  | none ↦ none
  | some (status, kill_at) ↦ some status
]

abbrev pub is_past_grace : ℕ → Child → Bool
is_past_grace now child = elim child.terminating [
  | none ↦ false
  | some (status, kill_at) ↦ leb kill_at now
]

-- Whichever way `m` ends, the child goes back in the map.
abbrev pub put_back : Child → Result Unit × World → Result Unit × World
put_back child (r, w) = (r, (insert_child child w).1)

abbrev pub note_of : ℕ → Child → Option ℕ → Piece
note_of now child none = past_timeout
note_of now child (some idle_timeout) =
    if leb now child.times_out_at then no_output_for (idle_timeout / 1000) else past_timeout

-- `timeout_note`
unfoldable pub timeout_note : ℕ → Child → Piece
timeout_note now child = note_of now child child.idle_timeout

unfoldable pub finish_task_run_attempt :
    TaskRunAttempt → TaskRunAttemptStatus → Option String → Action Unit
finish_task_run_attempt attempt status output = do
  if status == TaskRunAttempt.succeeded then done else (operation >> stop_child_job_runs attempt)
  now ← current_ts
  update_task_run_attempts (record { id = some attempt.id; task_run_id = none; status = none })
      (record {
        status = some status;
        started_at = none;
        finished_at = some (some now);
        process_group_id = none;
        output = output;
        waiting_since = none;
      })
  publish

pub data TaskOutput : Type 0 where
  recorded : String → TaskOutput
  refused : Rejection → TaskOutput

unfoldable pub select : Action (List TaskRunAttempt)
select =
    select_task_run_attempts (record any_attempt { status = some TaskRunAttempt.running })
      (some by_id)

-- `from_utf8` is `String::from_utf8`.
module _ (system : System) (from_utf8 : List ℕ → Option String) (config : AppConfig) where
  unfoldable pub record_output : TaskRunAttempt → Child → Action Unit
  unfolding insert_chunks
  record_output attempt child = ask (λ w. system.received w child) >>= insert_chunks attempt

  unfoldable pub finish_reading : TaskRunAttempt → Child → Action Unit
  unfolding insert_chunks
  finish_reading attempt child = ask (λ w. system.drained w child) >>= insert_chunks attempt

  abbrev pub text_of : Option String → TaskOutput
  text_of none = refused not_utf8
  text_of (some output) = recorded output

  abbrev pub read_bytes : TaskRunAttempt → Result (Option ℕ) → Action TaskOutput
  read_bytes attempt (err e) = pure (refused could_not_read)
  read_bytes attempt (ok none) = pure (recorded "")
  read_bytes attempt (ok (some size)) =
      if ltb config.max_task_output_bytes size
      then pure (refused (too_large size config.max_task_output_bytes))
      else (ask (λ w. system.read w attempt) >>= λ read. elim read [
        | ok bytes ↦ pure (text_of (from_utf8 bytes))
        | err e ↦ pure (refused could_not_read)
      ])

  unfoldable pub read_task_output : TaskRunAttempt → Action TaskOutput
  read_task_output attempt = ask system.resolves >>= λ resolved.
      if resolved
      then ask (λ w. system.metadata w attempt) >>= read_bytes attempt
      else pure (refused unknown_directory)

  abbrev pub unless_idle : TaskRunAttempt → Bool → Action TaskRunAttemptStatus
  unless_idle attempt true = pure TaskRunAttempt.timed_out
  unless_idle attempt false = do
    stopped ← is_job_run_stopped attempt.job_run_id
    pure (if stopped then TaskRunAttempt.aborted else TaskRunAttempt.running)

  abbrev pub past_deadline : TaskRunAttempt → ℕ → Child → Action TaskRunAttemptStatus
  past_deadline attempt now child =
      if ltb child.times_out_at now
      then pure TaskRunAttempt.timed_out
      else (is_idle system now child >>= unless_idle attempt)

  abbrev pub unless_exited : TaskRunAttempt → Child → Option Bool → Action TaskRunAttemptStatus
  unless_exited attempt child (some true) = pure TaskRunAttempt.succeeded
  unless_exited attempt child (some false) = pure TaskRunAttempt.failed
  unless_exited attempt child none = current_ts >>= λ now. past_deadline attempt now child

  unfoldable pub derive_next_status : TaskRunAttempt → Child → Action TaskRunAttemptStatus
  derive_next_status attempt child = try_wait system child >>= unless_exited attempt child

  unfoldable pub set_to_invalid : TaskRunAttempt → Option Child → Action Unit
  unfolding finish_task_run_attempt
  set_to_invalid attempt none = finish_task_run_attempt attempt TaskRunAttempt.invalid none
  set_to_invalid attempt (some child) = do
    kill_process_group child
    finish_reading attempt child
    finish_task_run_attempt attempt TaskRunAttempt.invalid none

  abbrev pub record_result : TaskRunAttempt → TaskOutput → Action Unit
  record_result attempt (recorded output) =
      finish_task_run_attempt attempt TaskRunAttempt.succeeded (some output)
  record_result attempt (refused why) =
      insert_output attempt [] (rejected why ∷ [])
      >> finish_task_run_attempt attempt TaskRunAttempt.failed none

  unfoldable pub set_to_succeeded : TaskRunAttempt → Child → Action Unit
  set_to_succeeded attempt child = do
    finish_reading attempt child
    output ← read_task_output attempt
    record_result attempt output

  unfoldable pub set_to_failed : TaskRunAttempt → Child → Action Unit
  set_to_failed attempt child =
      finish_reading attempt child >> finish_task_run_attempt attempt TaskRunAttempt.failed none

  unfoldable pub finish_termination : TaskRunAttempt → Child → TaskRunAttemptStatus → Action Unit
  finish_termination attempt child status = do
    kill_process_group child
    finish_reading attempt child
    finish_task_run_attempt attempt status none

  unfoldable pub record_and_keep : TaskRunAttempt → Child → Action Unit
  record_and_keep attempt child w = put_back child (record_output attempt child w)

  abbrev pub asked_to_exit : Child → TaskRunAttemptStatus → ℕ → Child
  asked_to_exit child status now = record child {
    terminating = some (status, now + config.kill_grace);
  }

  unfoldable pub begin_termination : TaskRunAttempt → Child → TaskRunAttemptStatus → Action Unit
  begin_termination attempt child status = do
    now ← current_ts
    if status == TaskRunAttempt.timed_out
        then insert_output attempt [] (timeout_note now child ∷ [])
        else done
    if config.kill_grace == 0
        then finish_termination attempt child status
        else (terminate_process_group child
            >> record_and_keep attempt (asked_to_exit child status now))

  unfoldable pub handle_terminating : TaskRunAttempt → Child → TaskRunAttemptStatus → Action Unit
  handle_terminating attempt child status = do
    now ← current_ts
    over ← if is_past_grace now child then pure true else process_group_is_gone system child
    if over then finish_termination attempt child status else record_and_keep attempt child

  unfoldable pub settle : TaskRunAttempt → Child → TaskRunAttemptStatus → Action Unit
  settle attempt child TaskRunAttempt.succeeded = set_to_succeeded attempt child
  settle attempt child TaskRunAttempt.failed = set_to_failed attempt child
  settle attempt child TaskRunAttempt.timed_out =
      begin_termination attempt child TaskRunAttempt.timed_out
  settle attempt child TaskRunAttempt.aborted =
      begin_termination attempt child TaskRunAttempt.aborted
  settle attempt child TaskRunAttempt.running = record_and_keep attempt child
  settle attempt child _ = set_to_invalid attempt (some child)

  -- A failure to derive puts the child back.
  abbrev pub settle_derived :
      TaskRunAttempt → Child → Result TaskRunAttemptStatus × World → Result Unit × World
  settle_derived attempt child (ok status, w) = settle attempt child status w
  settle_derived attempt child (err e, w) = (err e, (insert_child child w).1)

  abbrev pub handle_child : TaskRunAttempt → Option Child → Action Unit
  handle_child attempt none = set_to_invalid attempt none
  handle_child attempt (some child) = elim (terminating_status child) [
    | some status ↦ handle_terminating attempt child status
    | none ↦ λ w. settle_derived attempt child (derive_next_status attempt child w)
  ]

  unfoldable pub handle : TaskRunAttempt → Action Unit
  handle attempt = remove_child attempt.id >>= handle_child attempt

  unfoldable pub run_pass : Action Unit
  run_pass = pass select handle
