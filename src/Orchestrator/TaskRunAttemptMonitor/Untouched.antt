-- ===== src/Orchestrator/TaskRunAttemptMonitor/Untouched.antt =====
-- What the steps of TaskRunAttemptMonitor leave as it is.
use flowlite.Base.{none, some, List, [], ◌∷◌, refl}
use flowlite.Crud.JobRun.{JobRun, by_id}
use flowlite.Crud.TaskRunAttempt.{TaskRunAttempt}
use flowlite.Crud.TaskRunAttemptOutput.{TaskRunAttemptOutput, Piece, is_blank}
use flowlite.Crud.World.{World, Child, Signalled, done}
use flowlite.Crud.World.Preserved.{
  Preserves, bind-Preserves, if-Preserves, query-Preserves, insert-Preserves,
}
use flowlite.Crud.Statements.{
  is_some, select_job_run_stop, insert_job_run_stop, select_job_runs,
  insert_task_run_attempt_output,
}
use flowlite.Crud.Multistatements.{stop_each, stop_child_job_runs, unfinished_children}
use flowlite.Orchestrator.TaskRunAttemptReader.{Stream, stdout, stderr}
use flowlite.Orchestrator.TaskRunAttemptMonitor.{insert_stream, insert_output, new_output}

-- The attempts, the children and the signals.
abbrev pub outside : World → List TaskRunAttempt × List Child × List Signalled
outside w = (w.db.task_run_attempts, w.children, w.signalled)

-- These, and the output.
abbrev pub inside :
    World → List TaskRunAttemptOutput × List TaskRunAttempt × List Child × List Signalled
inside w = (w.db.task_run_attempt_outputs, w.db.task_run_attempts, w.children, w.signalled)

stop_each-Preserves : (children : List JobRun) → Preserves inside (stop_each children)
unfolding stop_each select_job_run_stop insert_job_run_stop
stop_each-Preserves [] = λ w. refl
stop_each-Preserves (child ∷ children) =
    bind-Preserves inside (select_job_run_stop child.id) _ (query-Preserves inside (λ w fs. refl) _)
      (λ stop.
        bind-Preserves inside _ _
          (if-Preserves inside (is_some stop) done (insert_job_run_stop child.id) (λ w. refl)
            (λ w. insert-Preserves inside (λ v fs. refl) _ (λ v. refl) _ w))
          (λ _. stop_each-Preserves children))

pub stop_child_job_runs-Preserves :
    (attempt : TaskRunAttempt) → Preserves inside (stop_child_job_runs attempt)
unfolding stop_child_job_runs select_job_runs
stop_child_job_runs-Preserves attempt =
    bind-Preserves inside (select_job_runs _ (some by_id) none none) _
      (query-Preserves inside (λ w fs. refl) _)
      (λ children. stop_each-Preserves (unfinished_children attempt.id children))

insert_stream-Preserves :
    (attempt : TaskRunAttempt) (stream : Stream) (content : List Piece)
    → Preserves outside (insert_stream attempt stream content)
unfolding insert_stream insert_task_run_attempt_output
insert_stream-Preserves attempt stream content =
    if-Preserves outside (is_blank content) done
      (insert_task_run_attempt_output (new_output attempt stream content)) (λ w. refl)
      (λ w. insert-Preserves outside (λ v fs. refl) _ (λ v. refl) _ w)

pub insert_output-Preserves :
    (attempt : TaskRunAttempt) (out errors : List Piece)
    → Preserves outside (insert_output attempt out errors)
unfolding insert_output
insert_output-Preserves attempt out errors =
    bind-Preserves outside (insert_stream attempt stdout out) _
      (insert_stream-Preserves attempt stdout out)
      (λ _. insert_stream-Preserves attempt stderr errors)
