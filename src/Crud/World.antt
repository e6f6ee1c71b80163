-- ===== src/Crud/World.antt =====
-- What the services share (src/crud/crud.rs, src/signals.rs, src/run_dir.rs): the database, the
-- clock, the run directories and the wake-up signal, with the statements that may fail.
pub mod Triples
pub mod Inversion
pub mod Frames
pub mod Answers
pub mod Preserved
use flowlite.Base.{
  ℕ, suc, ◌+◌, String, Bool, true, false, ◌||◌, ◌&&◌, not, Option, none, some, List, [], ◌∷◌, ◌++◌,
  map, any, filter, head?, ◌==◌, nat_Column, string_Column, if◌then◌else◌,
}
use flowlite.Crud.JobRun
use flowlite.Crud.JobRun.{JobRun, JobRunFilter, JobRunSort, JobRunInput}
use flowlite.Crud.TaskRun
use flowlite.Crud.TaskRun.{TaskRun, TaskRunFilter, TaskRunKey, TaskRunInput}
use flowlite.Crud.TaskRunAttempt
use flowlite.Crud.TaskRunAttempt.{
  TaskRunAttempt, TaskRunAttemptStatus, AttemptFilter, AttemptSort, AttemptKey, AttemptInput,
}
use flowlite.Crud.TaskRunAttemptOutput.{TaskRunAttemptOutput}

-- src/crud/job_run_stop.rs
pub record JobRunStop : Type 0 where
  pub id : ℕ
  pub job_run_id : ℕ
  pub created_at : ℕ

-- src/crud/job_run_notification.rs
pub data JobRunNotificationStatus : Type 0 where
  pending sent failed skipped : JobRunNotificationStatus

pub data NotifyOn : Type 0 where
  failure success : NotifyOn

pub data NotificationChannel : Type 0 where
  email slack : NotificationChannel

pub record JobRunNotification : Type 0 where
  pub id : ℕ
  pub job_run_id : ℕ
  pub job_id : String
  pub notify_on : NotifyOn
  pub channel : NotificationChannel
  pub recipients : List String
  pub status : JobRunNotificationStatus
  pub error : String
  pub created_at : ℕ
  pub sent_at : Option ℕ

-- A `BTreeMap` from channels to the recipients.
abbrev pub Recipients : Type 0
Recipients = List (NotificationChannel × List String)

-- The row of mem.job (src/crud/job.rs).
pub record Job : Type 0 where
  pub job_id : String
  pub name : String
  pub description : String
  pub max_parallel_runs : ℕ
  pub keep_runs : ℕ
  pub parameters : List (String × String)
  pub env : List (String × String)
  pub secret_env : List (String × String)
  pub on_failure_recipients : Recipients
  pub on_success_recipients : Recipients
  pub limits : List String

-- The row of mem.task (src/crud/task.rs).
pub record Task : Type 0 where
  pub task_id : String
  pub job_id : String
  pub description : String
  pub command : String
  pub stdin : String
  pub depends_on : List String
  pub limits : List String
  pub timeout : ℕ
  pub idle_timeout : ℕ
  pub max_retries : ℕ
  pub retry_delay : ℕ
  pub env : List (String × String)
  pub secret_env : List (String × String)
  pub working_dir : String

abbrev pub is_pending : JobRunNotification → Bool
is_pending n = elim n.status [ pending ↦ true | sent ↦ false | failed ↦ false | skipped ↦ false ]

-- The tables, and for those with inserts the id that AUTOINCREMENT gives next.
pub record Db : Type 0 where
  pub job_runs : List JobRun
  pub task_runs : List TaskRun
  pub task_run_attempts : List TaskRunAttempt
  pub task_run_attempt_outputs : List TaskRunAttemptOutput
  pub job_run_stops : List JobRunStop
  pub job_run_notifications : List JobRunNotification
  pub jobs : List Job
  pub tasks : List Task
  pub next_job_run_id : ℕ
  pub next_task_run_id : ℕ
  pub next_attempt_id : ℕ
  pub next_output_id : ℕ
  pub next_stop_id : ℕ
  pub next_notification_id : ℕ

-- `TaskRunAttemptChild` and `Termination` (src/orchestrator/task_run_attempt_children.rs), under the
-- attempt that the map has it for, less the handles of its process and of its readers.
pub record Child : Type 0 where
  pub task_run_attempt_id : ℕ
  pub process_group_id : Option ℕ
  pub times_out_at : ℕ
  pub idle_timeout : Option ℕ
  pub last_output_at : ℕ
  pub terminating : Option (TaskRunAttemptStatus × ℕ)

pub data Signal : Type 0 where
  sigterm sigkill : Signal

-- A signal to a process group (`killpg`), or SIGKILL to the child of an attempt (`Child::kill`).
pub data Signalled : Type 0 where
  to_group : ℕ → Signal → Signalled
  to_child : ℕ → Signalled

-- `spawned` has the attempts that a command has been started for, the latest first, and `next_pid`
-- is the process id that the system gives next. `signalled` has the signals, the latest first, and `asked`
-- counts the questions to the system. `faults` says of each coming statement or file operation whether
-- it fails.
pub record World : Type 0 where
  pub db : Db
  pub now : ℕ
  pub faults : List Bool
  pub dirs : List ℕ
  pub published : ℕ
  pub children : List Child
  pub spawned : List ℕ
  pub next_pid : ℕ
  pub signalled : List Signalled
  pub asked : ℕ

pub data Error : Type 0 where
  operation_failed constraint_failed missing_row refused : Error

pub data Result (A : Type 0) : Type 0 where
  ok : A → Result A
  err : Error → Result A

abbrev pub Action : Type 0 → Type 0
Action A = World → Result A × World

abbrev pub and_then : {A B : Type 0} → Result A × World → (A → Action B) → Result B × World
and_then (ok a, w) f = f a w
and_then (err e, w) f = (err e, w)

infixl 5 ◌>>=◌ ◌>>◌
abbrev pub ◌>>=◌ : {A B : Type 0} → Action A → (A → Action B) → Action B
◌>>=◌ m f w = and_then (m w) f

abbrev pub ◌>>◌ : {A B : Type 0} → Action A → Action B → Action B
m >> n = m >>= λ _. n

abbrev pub pure : {A : Type 0} → A → Action A
pure a w = (ok a, w)

-- `if test { return Ok(answer); }`, and what comes after it.
abbrev pub return_early : {A : Type 0} → Bool → A → Action A → Action A
return_early true answer rest = pure answer
return_early false answer rest = rest

abbrev pub throw : {A : Type 0} → Error → Action A
throw e w = (err e, w)

abbrev pub done : Action Unit
done = pure tt

abbrev pub current_ts : Action ℕ
current_ts w = (ok w.now, w)

-- The outcome of the next operation on the database or the disk.
abbrev pub attempt_next : List Bool → World → Result Unit × World
attempt_next [] w = (ok tt, w)
attempt_next (true ∷ fs) w = (err operation_failed, record w { faults = fs })
attempt_next (false ∷ fs) w = (ok tt, record w { faults = fs })

unfoldable pub operation : Action Unit
operation w = attempt_next w.faults w

-- A SELECT, and a statement that writes. Neither leaves anything behind when it fails.
unfoldable pub query : {A : Type 0} → (Db → A) → Action A
unfolding operation
query f = operation >> λ w. (ok (f w.db), w)

unfoldable pub execute : (Db → Db) → Action Unit
unfolding operation
execute g = operation >> λ w. (ok tt, record w { db = g w.db })

-- An INSERT that the database refuses where it breaks a constraint.
unfoldable pub insert : (Db → Bool) → (Db → Db) → Action Unit
unfolding operation
insert allowed g = operation >> λ w.
    if allowed w.db then (ok tt, record w { db = g w.db }) else (err constraint_failed, w)

abbrev roll_back : {A : Type 0} → Db → Result A × World → Result A × World
roll_back old (ok a, w) = (ok a, w)
roll_back old (err e, w) = (err e, record w { db = old })

-- `conn.begin()`: what fails before the `commit` of the body leaves the database as it was.
unfoldable pub transaction : {A : Type 0} → Action A → Action A
unfolding operation
transaction body w = roll_back w.db ((operation >> body) w)

-- `tx.commit()`
unfoldable pub commit : Action Unit
unfolding operation
commit = operation

-- `Signals::publish`
unfoldable pub publish : Action Unit
publish w = (ok tt, record w { published = suc w.published })

-- `create_job_run_dir`: making a directory that is there already is no error.
unfoldable pub create_job_run_dir : ℕ → Action Unit
unfolding operation
create_job_run_dir id = operation >> λ w.
    (ok tt, record w { dirs = if any (λ d. d == id) w.dirs then w.dirs else id ∷ w.dirs })

-- `TaskRunAttemptChildren::insert`
unfoldable pub insert_child : Child → Action Unit
insert_child child w = (
  ok tt,
  record w {
    children =
        child ∷ filter (λ c. not (c.task_run_attempt_id == child.task_run_attempt_id)) w.children;
  },
)

-- `TaskRunAttemptChildren::remove`
unfoldable pub remove_child : ℕ → Action (Option Child)
remove_child id w = (
  ok (head? (filter (λ c. c.task_run_attempt_id == id) w.children)),
  record w { children = filter (λ c. not (c.task_run_attempt_id == id)) w.children },
)

-- A question to the system. Two of them may get different answers: each has its number.
unfoldable pub ask : {A : Type 0} → (World → A) → Action A
ask answer w = (ok (answer w), record w { asked = suc w.asked })

unfoldable pub signal : Signalled → Action Unit
signal s w = (ok tt, record w { signalled = s ∷ w.signalled })

abbrev pub started : ℕ → Result Unit × World → Result (Option ℕ) × World
started id (ok tt, w) =
    (ok (some w.next_pid), record w { spawned = id ∷ w.spawned; next_pid = suc w.next_pid })
started id (err e, w) = (ok none, w)

-- `Command::spawn` for an attempt: the process id, or none where the system starts nothing.
unfoldable pub spawn : ℕ → Action (Option ℕ)
unfolding operation
spawn id w = started id (operation w)
