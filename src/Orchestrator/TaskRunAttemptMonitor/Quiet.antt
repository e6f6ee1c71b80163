-- ===== src/Orchestrator/TaskRunAttemptMonitor/Quiet.antt =====
-- What the questions of TaskRunAttemptMonitor leave as it is, and what the end of an attempt does.
use flowlite.Base.{
  ℕ, suc, String, Bool, true, false, Option, none, some, List, ◌≡◌, refl, ap, ◌==◌, ltb, nat_Column,
  arith,
}
use flowlite.Crud.TaskRunAttempt
use flowlite.Crud.TaskRunAttempt.{TaskRunAttempt, TaskRunAttemptStatus, TaskRunAttemptStatus_Column}
use flowlite.Crud.TaskRunAttemptOutput.{TaskRunAttemptOutput, unknown_directory}
use flowlite.Crud.World.{
  World, Child, Signalled, Result, ok, err, ◌>>=◌, ◌>>◌, pure, done, operation, ask, publish,
}
use flowlite.Crud.World.Preserved.{
  Preserves, bind-Preserves, if-Preserves, operation-Preserves, execute-Preserves, query-Preserves,
}
use flowlite.Crud.Statements.{update_task_run_attempts, is_job_run_stopped, select_job_run_stop}
use flowlite.Crud.Multistatements.{stop_child_job_runs}
use flowlite.Orchestrator.TaskRunAttemptReader.{stdout, stderr, Chunk}
use flowlite.Orchestrator.TaskRunAttemptChildren.{
  System, has_exited, nothing_left, try_wait, is_idle, is_silent, process_group_is_gone,
}
use flowlite.Orchestrator.TaskRunAttemptMonitor.{
  pieces_of, insert_chunks, finish_task_run_attempt, read_task_output, read_bytes, refused,
  unless_idle, unless_exited, derive_next_status,
}
use flowlite.Orchestrator.TaskRunAttemptMonitor.Untouched.{
  stop_child_job_runs-Preserves, insert_output-Preserves,
}
use flowlite.Orchestrator.TaskRunAttemptDispatcher.{AppConfig}

abbrev pub attempts : World → List TaskRunAttempt
attempts w = w.db.task_run_attempts

abbrev pub outputs : World → List TaskRunAttemptOutput
outputs w = w.db.task_run_attempt_outputs

pub finish-outputs :
    (attempt : TaskRunAttempt) (status : TaskRunAttemptStatus) (output : Option String)
    → Preserves outputs (finish_task_run_attempt attempt status output)
unfolding finish_task_run_attempt update_task_run_attempts publish
finish-outputs attempt status output =
    bind-Preserves outputs _ _
      (if-Preserves outputs (status == TaskRunAttempt.succeeded) done
        (operation >> stop_child_job_runs attempt) (λ w. refl)
        (bind-Preserves outputs operation _ (operation-Preserves outputs (λ w fs. refl))
          (λ _ w. ap (λ t. t.0) (stop_child_job_runs-Preserves attempt w))))
      (λ _ w.
        bind-Preserves outputs (update_task_run_attempts _ _) _
          (execute-Preserves outputs (λ v fs. refl) _ (λ v. refl)) (λ _ v. refl) w)

pub insert_chunks-attempts :
    (attempt : TaskRunAttempt) (chunks : List Chunk)
    → Preserves attempts (insert_chunks attempt chunks)
unfolding insert_chunks
insert_chunks-attempts attempt chunks w =
    ap (λ t. t.0)
      (insert_output-Preserves attempt (pieces_of stdout chunks) (pieces_of stderr chunks) w)

-- The attempts, the outputs and the signals.
abbrev pub still : World → List TaskRunAttempt × List TaskRunAttemptOutput × List Signalled
still w = (attempts w, outputs w, w.signalled)

module _ (system : System) (from_utf8 : List ℕ → Option String) (config : AppConfig)
    (attempt : TaskRunAttempt) (child : Child) where
  read_bytes-still :
      (size : Result (Option ℕ)) → Preserves still (read_bytes system from_utf8 config attempt size)
  unfolding ask
  read_bytes-still size w = ground arith

  pub read_task_output-still : Preserves still (read_task_output system from_utf8 config attempt)
  unfolding read_task_output ask
  read_task_output-still w =
      if-Preserves still (system.resolves w)
        (ask (λ v. system.metadata v attempt) >>= read_bytes system from_utf8 config attempt)
        (pure (refused unknown_directory))
        (λ v. read_bytes-still (system.metadata v attempt) (record v { asked = suc v.asked }))
        (λ v. refl) (record w { asked = suc w.asked })

  has_exited-world : (x : Result (Option Bool) × World) → (has_exited system x).1 ≡ x.1
  has_exited-world (ok (some success), w) = refl
  has_exited-world (ok none, w) = refl
  has_exited-world (err e, w) = refl

  nothing_left-still :
      (group : Option ℕ) (leader_exited : Bool)
      → Preserves still (nothing_left system group leader_exited)
  unfolding ask
  nothing_left-still none leader_exited w = refl
  nothing_left-still (some group) leader_exited w = refl

  pub gone-still : Preserves still (process_group_is_gone system child)
  unfolding process_group_is_gone try_wait ask
  gone-still =
      bind-Preserves still (λ w. has_exited system (try_wait system child w))
        (nothing_left system child.process_group_id)
        (λ w. ap still (has_exited-world (try_wait system child w)))
        (nothing_left-still child.process_group_id)

  unless_idle-still :
      (idle : Bool) → Preserves still (unless_idle system from_utf8 config attempt idle)
  unfolding is_job_run_stopped select_job_run_stop
  unless_idle-still true w = refl
  unless_idle-still false w =
      bind-Preserves still (is_job_run_stopped attempt.job_run_id) _
        (bind-Preserves still (select_job_run_stop attempt.job_run_id) _
          (query-Preserves still (λ w fs. refl) _) (λ stop v. refl))
        (λ stopped v. refl) w

  is_silent-still : (now : ℕ) (idle : Option ℕ) → Preserves still (is_silent system now child idle)
  unfolding ask
  is_silent-still now none w = refl
  is_silent-still now (some idle_timeout) w = refl

  unless_exited-still :
      (answer : Option Bool)
      → Preserves still (unless_exited system from_utf8 config attempt child answer)
  unfolding is_idle
  unless_exited-still (some true) w = refl
  unless_exited-still (some false) w = refl
  unless_exited-still none w =
      if-Preserves still (ltb child.times_out_at w.now) (pure TaskRunAttempt.timed_out) _
        (λ v. refl)
        (bind-Preserves still (is_silent system w.now child child.idle_timeout) _
          (is_silent-still w.now child.idle_timeout) unless_idle-still)
        w

  pub derive-still : Preserves still (derive_next_status system from_utf8 config attempt child)
  unfolding derive_next_status try_wait ask
  derive-still = bind-Preserves still (try_wait system child) _ (λ w. refl) unless_exited-still
