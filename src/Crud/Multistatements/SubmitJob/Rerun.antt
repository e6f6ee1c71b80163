-- ===== src/Crud/Multistatements/SubmitJob/Rerun.antt =====
-- A rerun executes what the run that it repeats was submitted with.
use flowlite.Base.{
  ℕ, suc, ◌≡◌, refl, sym, ap, subst, String, Option, none, List, [], ◌∷◌, ◌++◌, map,
}
use flowlite.Crud.JobRun.{JobRun}
use flowlite.Crud.TaskRun.{TaskRun}
use flowlite.Crud.World.{World, Db, JobRunNotification, Result, ok, err}
use flowlite.Crud.Multistatements.JobRunDefinition.{
  JobRunDefinition, JobRunTaskDefinition, JobRunNotificationDefinition, insert_job_run_definition,
}
use flowlite.Crud.Multistatements.JobRunDefinition.Rows.{scheduled_row, planned_rows}
use flowlite.Crud.Multistatements.JobRunDefinition.Notifications.{pending_rows}
use flowlite.Crud.Multistatements.JobRunDefinition.Submitted.{
  Submitted, nothing, tasks_cut, notifications_cut, whole, Added,
  insert_job_run_definition-Submitted,
}
use flowlite.Crud.Multistatements.SubmitJob.{
  definition_of, task_definition_of, notification_definition_of,
}

-- The definition without what is new in each submission: the schedule and the parent.
abbrev pub resubmitted : JobRunDefinition → Option ℕ → JobRunDefinition
resubmitted definition parent = record definition {
  schedule_id = none;
  parent_task_run_attempt_id = parent;
}

definitions-planned_rows :
    (job_run_id : ℕ) (job_id : String) (now id : ℕ) (tasks : List JobRunTaskDefinition)
    → map task_definition_of (planned_rows job_run_id job_id now id tasks) ≡ tasks
unfolding task_definition_of
definitions-planned_rows job_run_id job_id now id [] = refl
definitions-planned_rows job_run_id job_id now id (task ∷ tasks) =
    ap (λ rest. task ∷ rest) (definitions-planned_rows job_run_id job_id now (suc id) tasks)

definitions-pending_rows :
    (job_run_id : ℕ) (job_id : String) (now id : ℕ)
    (notifications : List JobRunNotificationDefinition)
    → map notification_definition_of (pending_rows job_run_id job_id now id notifications)
      ≡ notifications
unfolding notification_definition_of
definitions-pending_rows job_run_id job_id now id [] = refl
definitions-pending_rows job_run_id job_id now id (n ∷ ns) =
    ap (λ rest. n ∷ rest) (definitions-pending_rows job_run_id job_id now (suc id) ns)

definition_of-rows :
    (definition : JobRunDefinition) (id now first told : ℕ) (parent : Option ℕ)
    → definition_of
        (scheduled_row definition id now)
        (planned_rows id definition.job_id now first definition.tasks)
        (pending_rows id definition.job_id now told definition.notifications)
        parent
      ≡ resubmitted definition parent
unfolding definition_of
definition_of-rows definition id now first told parent =
    let tasks = definitions-planned_rows id definition.job_id now first definition.tasks in
    let notifications =
      definitions-pending_rows id definition.job_id now told definition.notifications in
    λ i. record definition {
      schedule_id = none;
      parent_task_run_attempt_id = parent;
      tasks = tasks i;
      notifications = notifications i;
    }

-- The rows that a submission put behind those that there were, and what they read back as.
pub record ReadsBack (definition : JobRunDefinition) (db : Db) (id : ℕ) (parent : Option ℕ)
    (after : Db) : Type 0 where
  pub job_run : JobRun
  pub tasks : List TaskRun
  pub notifications : List JobRunNotification
  pub numbered : job_run.id ≡ id
  pub job_runs : after.job_runs ≡ db.job_runs ++ job_run ∷ []
  pub task_runs : after.task_runs ≡ db.task_runs ++ tasks
  pub job_run_notifications :
      after.job_run_notifications ≡ db.job_run_notifications ++ notifications
  pub same : definition_of job_run tasks notifications parent ≡ resubmitted definition parent

-- What an answer means.
abbrev AddedBy : JobRunDefinition → World → Result ℕ × World → Type 0
AddedBy definition w (err e, after) = Unit
AddedBy definition w (ok id, after) =
    (id ≡ w.db.next_job_run_id)
    × Added definition w.db w.now definition.tasks definition.notifications after.db

Submitted-AddedBy :
    (definition : JobRunDefinition) (w : World) {x : Result ℕ × World}
    → Submitted definition w x
    → AddedBy definition w x
Submitted-AddedBy definition w (nothing _) = tt
Submitted-AddedBy definition w (tasks_cut _ _ _) = tt
Submitted-AddedBy definition w (notifications_cut _ _ _) = tt
Submitted-AddedBy definition w (whole same rows) = (same, rows)

-- Where insert_job_run_definition answers with an id, it has put behind the rows that there were a job run
-- of that id, some task runs and some notifications, from which definition_of reads the definition that
-- was submitted, its notifications included, but for the schedule, which is dropped, and the parent,
-- which is the new one's.
pub insert_job_run_definition-ReadsBack :
    (definition : JobRunDefinition) (w : World) (parent : Option ℕ) {id : ℕ} {after : World}
    → insert_job_run_definition definition w ≡ (ok id, after)
    → ReadsBack definition w.db id parent after.db
insert_job_run_definition-ReadsBack definition w parent h =
    let (same, rows) =
      subst (AddedBy definition w) h
        (Submitted-AddedBy definition w (insert_job_run_definition-Submitted definition w)) in
    record {
      job_run = scheduled_row definition w.db.next_job_run_id w.now;
      tasks = _;
      notifications = _;
      numbered = sym same;
      job_runs = rows.job_runs;
      task_runs = rows.task_runs;
      job_run_notifications = rows.job_run_notifications;
      same =
          definition_of-rows definition w.db.next_job_run_id w.now w.db.next_task_run_id
            w.db.next_notification_id parent;
    }
