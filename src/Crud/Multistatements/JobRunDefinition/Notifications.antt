-- ===== src/Crud/Multistatements/JobRunDefinition/Notifications.antt =====
-- The notifications that a submission leaves, all of them or cut short by a statement that failed.
use flowlite.Base.{
  ℕ, suc, ◌<◌, ◌≡◌, refl, sym, ap, ◌∙◌, subst, String, Bool, none, List, [], ◌∷◌, ◌++◌, any, take,
  length, append_assoc, append-nil, ◌==◌, nat_Column, arith,
}
use flowlite.Crud.JobRun.{JobRun}
use flowlite.Crud.TaskRun.{TaskRun}
use flowlite.Crud.World.{World, Db, JobRunNotification, pending, Error, Result, ok, err}
use flowlite.Crud.World.Preserved.{bind-cases}
use flowlite.Crud.World.Inversion.{insert-eq-ok, insert-eq-err}
use flowlite.Crud.Statements.{insert_job_run_notification}
use flowlite.Crud.Multistatements.JobRunDefinition.{
  JobRunNotificationDefinition, insert_notifications,
}
use flowlite.Crud.Multistatements.JobRunDefinition.Rows.{ap2}

-- The row of a notification that is still to be sent.
abbrev pub pending_row :
    (job_run_id : ℕ) → String → JobRunNotificationDefinition → (id now : ℕ) → JobRunNotification
pending_row job_run_id job_id notification id now = record {
  id = id;
  job_run_id = job_run_id;
  job_id = job_id;
  notify_on = notification.notify_on;
  channel = notification.channel;
  recipients = notification.recipients;
  status = pending;
  error = "";
  created_at = now;
  sent_at = none;
}

abbrev pub pending_rows :
    ℕ → String → ℕ → ℕ → List JobRunNotificationDefinition → List JobRunNotification
pending_rows job_run_id job_id now id [] = []
pending_rows job_run_id job_id now id (notification ∷ notifications) =
    pending_row job_run_id job_id notification id now
    ∷ pending_rows job_run_id job_id now (suc id) notifications

-- The two tables that the notifications leave alone.
abbrev pub runs : Db → List JobRun × List TaskRun
runs db = (db.job_runs, db.task_runs)

-- Rows were added to the notifications: one for each where the loop came to its end, and else for fewer of
-- the first ones than there are.
pub record NotificationsInserted (job_run_id : ℕ) (job_id : String)
    (notifications : List JobRunNotificationDefinition) (db : Db) (now : ℕ) (answer : Result Unit)
    (after : World) : Type 0 where
  pub written : ℕ
  pub job_run_notifications :
      after.db.job_run_notifications
      ≡ db.job_run_notifications
        ++ pending_rows job_run_id job_id now db.next_notification_id (take written notifications)
  pub complete : answer ≡ ok tt → take written notifications ≡ notifications
  pub partial : {e : Error} → answer ≡ err e → written < length notifications
  pub untouched : runs after.db ≡ runs db

-- The tables with one more notification.
abbrev with_notification : ℕ → String → JobRunNotificationDefinition → ℕ → Db → Db
with_notification job_run_id job_id notification now db = record db {
  job_run_notifications =
      db.job_run_notifications
      ++ pending_row job_run_id job_id notification db.next_notification_id now ∷ [];
  next_notification_id = suc db.next_notification_id;
}

abbrev is_there : ℕ → Db → Bool
is_there job_run_id db = any (λ j. j.id == job_run_id) db.job_runs

pub insert_notifications-NotificationsInserted :
    (job_run_id : ℕ) (job_id : String) (notifications : List JobRunNotificationDefinition)
    (w : World)
    → let x = insert_notifications job_run_id job_id notifications w in
      NotificationsInserted job_run_id job_id notifications w.db w.now x.0 x.1
unfolding insert_notifications insert_job_run_notification
insert_notifications-NotificationsInserted job_run_id job_id [] w = record {
  written = 0;
  job_run_notifications = sym (append-nil w.db.job_run_notifications);
  complete = λ _. refl;
  partial = λ h. cc;
  untouched = refl;
}
insert_notifications-NotificationsInserted job_run_id job_id (n ∷ ns) w =
    bind-cases
      (λ (x : Result Unit × World).
        NotificationsInserted job_run_id job_id (n ∷ ns) w.db w.now x.0 x.1)
      (insert_job_run_notification _) (λ _. insert_notifications job_run_id job_id ns) w
      (λ u v e.
        let (db, clock) =
          insert-eq-ok (is_there job_run_id) (with_notification job_run_id job_id n w.now) w e in
        let x = insert_notifications job_run_id job_id ns v in
        let rest =
          subst (λ (s : Db × ℕ). NotificationsInserted job_run_id job_id ns s.0 s.1 x.0 x.1)
            (ap2 db clock) (insert_notifications-NotificationsInserted job_run_id job_id ns v) in
        record {
          written = suc rest.written;
          job_run_notifications =
              rest.job_run_notifications ∙ append_assoc w.db.job_run_notifications _ _;
          complete = λ h. ap (λ others. n ∷ others) (rest.complete h);
          partial = λ h. let l = rest.partial h in omega (arith, l);
          untouched = rest.untouched;
        })
      (λ v e h.
        let (db, _) =
          insert-eq-err (is_there job_run_id) (with_notification job_run_id job_id n w.now) w h in
        record {
          written = 0;
          job_run_notifications =
              ap (λ (d : Db). d.job_run_notifications) db
              ∙ sym (append-nil w.db.job_run_notifications);
          complete = λ h. cc;
          partial = λ _. omega arith;
          untouched = ap runs db;
        })
