-- ===== src/Crud/Multistatements/JobRunDefinition/Submitted.antt =====
-- What a submission leaves in the tables, whichever statement of it fails.
use flowlite.Base.{
  ℕ, ◌<◌, ◌≡◌, refl, sym, ap, ◌∙◌, subst, List, [], ◌∷◌, ◌++◌, take, length, append-nil,
}
use flowlite.Crud.JobRun.{JobRun}
use flowlite.Crud.TaskRun.{TaskRun}
use flowlite.Crud.World.{World, Db, JobRunNotification, Error, Result, ok, err, ◌>>◌, pure}
use flowlite.Crud.World.Preserved.{bind-cases}
use flowlite.Crud.Statements.{insert_job_run}
use flowlite.Crud.Multistatements.JobRunDefinition.{
  JobRunDefinition, JobRunTaskDefinition, JobRunNotificationDefinition, job_run_input, insert_tasks,
  insert_notifications, insert_job_run_definition,
}
use flowlite.Crud.Multistatements.JobRunDefinition.Rows.{
  scheduled_row, planned_rows, TasksInserted, ap2, with_job_run, insert_tasks-TasksInserted,
  insert_job_run-eq-ok, insert_job_run-eq-err,
}
use flowlite.Crud.Multistatements.JobRunDefinition.Notifications.{
  pending_rows, NotificationsInserted, insert_notifications-NotificationsInserted,
}

-- The rows that a definition stands for behind those that there were: a job run that is scheduled,
-- planned task runs for some of its tasks, and pending notifications for some of those it asks for.
pub record Added (definition : JobRunDefinition) (db : Db) (now : ℕ)
    (tasks : List JobRunTaskDefinition) (notifications : List JobRunNotificationDefinition)
    (after : Db) : Type 0 where
  pub job_runs :
      after.job_runs ≡ db.job_runs ++ scheduled_row definition db.next_job_run_id now ∷ []
  pub task_runs :
      after.task_runs
      ≡ db.task_runs
        ++ planned_rows db.next_job_run_id definition.job_id now db.next_task_run_id tasks
  pub job_run_notifications :
      after.job_run_notifications
      ≡ db.job_run_notifications
        ++ pending_rows db.next_job_run_id definition.job_id now db.next_notification_id
            notifications

-- What a submission leaves, by its answer.
pub data Submitted (definition : JobRunDefinition) (w : World) : Result ℕ × World → Type 0 where
  -- Nothing at all.
  nothing : {e : Error} {after : World} → after.db ≡ w.db → Submitted definition w (err e, after)
  -- The job run, with the task runs of fewer tasks than it has, and no notification.
  tasks_cut :
      {e : Error} {after : World} (written : ℕ)
      → written < length definition.tasks
      → Added definition w.db w.now (take written definition.tasks) [] after.db
      → Submitted definition w (err e, after)
  -- The job run with all its task runs, and fewer notifications than it asks for.
  notifications_cut :
      {e : Error} {after : World} (written : ℕ)
      → written < length definition.notifications
      → Added definition w.db w.now definition.tasks
          (take written definition.notifications)
          after.db
      → Submitted definition w (err e, after)
  -- Everything.
  whole :
      {id : ℕ} {after : World}
      → id ≡ w.db.next_job_run_id
      → Added definition w.db w.now definition.tasks definition.notifications after.db
      → Submitted definition w (ok id, after)

-- What the two loops leave behind the new job run.
abbrev TasksTold : JobRunDefinition → World → Result Unit × World → Type 0
TasksTold definition w x =
    TasksInserted w.db.next_job_run_id definition.job_id definition.tasks
      (with_job_run definition w.now w.db) w.now x.0 x.1

abbrev NotificationsTold : JobRunDefinition → ℕ → World → Result Unit × World → Type 0
NotificationsTold definition id v x =
    NotificationsInserted id definition.job_id definition.notifications v.db v.now x.0 x.1

-- After all the task runs, some of the notifications.
added :
    (definition : JobRunDefinition) (w v : World) (id : ℕ) (x : Result Unit × World)
    → id ≡ w.db.next_job_run_id
    → TasksTold definition w (ok tt, v)
    → (told : NotificationsTold definition id v x)
    → Added definition w.db w.now definition.tasks
        (take told.written definition.notifications)
        x.1.db
added definition w v id x same tasks told =
    let box = tasks.untouched in
    let kept = told.untouched in
    let ns = take told.written definition.notifications in
    record {
      job_runs = ap (λ (r : List JobRun × List TaskRun). r.0) kept ∙ tasks.job_runs;
      task_runs =
          ap (λ (r : List JobRun × List TaskRun). r.1) kept
          ∙ tasks.task_runs
          ∙ ap
              (λ ts.
                w.db.task_runs
                ++ planned_rows w.db.next_job_run_id definition.job_id w.now w.db.next_task_run_id
                    ts)
              (tasks.complete refl);
      job_run_notifications =
          told.job_run_notifications
          ∙ ap
              (λ now.
                v.db.job_run_notifications
                ++ pending_rows id definition.job_id now v.db.next_notification_id ns)
              tasks.clock
          ∙ ap
              (λ n.
                v.db.job_run_notifications
                ++ pending_rows n definition.job_id w.now v.db.next_notification_id ns)
              same
          ∙ ap
              (λ (b : List JobRunNotification × ℕ).
                b.0 ++ pending_rows w.db.next_job_run_id definition.job_id w.now b.1 ns)
              box;
    }

-- What follows the insert of the job run.
insert_rest-Submitted :
    (definition : JobRunDefinition) (w v : World) (id : ℕ)
    → id ≡ w.db.next_job_run_id
    → v.db ≡ with_job_run definition w.now w.db
    → v.now ≡ w.now
    → Submitted definition w (
        (insert_tasks id definition.job_id definition.tasks
            >> (insert_notifications id definition.job_id definition.notifications >> pure id))
          v)
insert_rest-Submitted definition w v id same db clock =
    let x = insert_tasks id definition.job_id definition.tasks v in
    let inserted =
      subst
        (λ n.
          TasksInserted n definition.job_id definition.tasks (with_job_run definition w.now w.db)
            w.now x.0 x.1)
        same
        (subst (λ (s : Db × ℕ). TasksInserted id definition.job_id definition.tasks s.0 s.1 x.0 x.1)
          (ap2 db clock) (insert_tasks-TasksInserted id definition.job_id definition.tasks v)) in
    bind-cases (Submitted definition w) (insert_tasks id definition.job_id definition.tasks)
      (λ _. insert_notifications id definition.job_id definition.notifications >> pure id) v
      (λ u v2 e.
        let tasks = subst (TasksTold definition w) e inserted in
        let loop = insert_notifications id definition.job_id definition.notifications in
        let all_told =
          insert_notifications-NotificationsInserted id definition.job_id definition.notifications
            v2 in
        bind-cases (Submitted definition w) loop (λ _. pure id) v2
          (λ u v3 f.
            let told = subst (NotificationsTold definition id v2) f all_told in
            whole same (
              subst (λ ns. Added definition w.db w.now definition.tasks ns v3.db)
                (told.complete refl) (added definition w v2 id (ok tt, v3) same tasks told)))
          (λ v3 e f.
            let told = subst (NotificationsTold definition id v2) f all_told in
            notifications_cut told.written (told.partial refl)
              (added definition w v2 id (err e, v3) same tasks told)))
      (λ v2 e f.
        let tasks = subst (TasksTold definition w) f inserted in
        tasks_cut tasks.written (tasks.partial refl) (record {
          job_runs = tasks.job_runs;
          task_runs = tasks.task_runs;
          job_run_notifications =
              ap (λ (b : List JobRunNotification × ℕ). b.0) tasks.untouched
              ∙ sym (append-nil w.db.job_run_notifications);
        }))

-- insert_job_run_definition, whichever statement fails: an answer is the id of a new job run, and means that
-- behind the rows that there were stand the job run, scheduled, a planned task run for each task and a
-- pending notification for each that it asks for, in their order, with all that the definition
-- says. A failure leaves the tables as they were, or the scheduled job run with the planned task runs of
-- fewer than its tasks, the first ones, and no notification, or with all its task runs and fewer than
-- its notifications, the first ones: the statements are in no transaction.
pub insert_job_run_definition-Submitted :
    (definition : JobRunDefinition) (w : World)
    → Submitted definition w (insert_job_run_definition definition w)
unfolding insert_job_run_definition
insert_job_run_definition-Submitted definition w =
    bind-cases (Submitted definition w) (insert_job_run (job_run_input definition))
      (λ job_run_id.
        insert_tasks job_run_id definition.job_id definition.tasks
        >> (insert_notifications job_run_id definition.job_id definition.notifications
            >> pure job_run_id))
      w
      (λ id v e.
        let (same, db, clock) = insert_job_run-eq-ok definition w e in
        insert_rest-Submitted definition w v id same db clock)
      (λ v e h. nothing (insert_job_run-eq-err (job_run_input definition) w h).0)
