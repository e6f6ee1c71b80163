-- ===== src/Lib.antt =====
-- flowlite runs jobs: a job run has task runs, a task run has attempts, and an attempt is a command.
-- Services that share nothing but a SQLite database carry these rows from one status to the next. Each
-- has a poller that selects the rows of one status and hands them to the service's handler.
--
--   JobRunReleaser       scheduled job runs   to queued or skipped
--   JobRunDispatcher     queued job runs      to running or skipped, and releases their task runs
--   JobRunMonitor        running job runs     to the status that their task runs call for
--   TaskRunDispatcher    waiting task runs    to running or skipped, by their dependencies
--   TaskRunMonitor       running task runs    inserts attempts, and settles by the last one
--   TaskRunAttemptDispatcher  queued attempts to running by starting their command, or skipped
--   TaskRunAttemptMonitor  running attempts  to the status that their command, its timeout or a stop
--                        calls for, with what the command printed
--
-- Files, beside the sources of the repository:
--   Base                 numbers, Boolean tests, equality, lists, and relations between lists
--   Crud.JobRun, Crud.TaskRun, Crud.TaskRunAttempt
--                        src/crud/job_run.rs, task_run.rs, task_run_attempt.rs: the rows, their statuses,
--                        and SELECT and UPDATE as functions on lists of rows
--   Crud.TaskRunAttemptOutput
--                        src/crud/task_run_attempt_output.rs: what attempts printed, and its grouping
--   Crud.World           the tables, the clock, the run directories (src/run_dir.rs) and the wake-ups
--                        (src/signals.rs), and the actions on them, which may fail
--   Crud.Statements      src/crud: each method of CRUD as an action
--   Crud.Multistatements src/crud/multistatements: skip_job_run, invalidate_job_run, delete_job_run,
--                        stop_child_job_runs, limits and, in child modules, what follows
--   Crud.Multistatements.RetentionCandidates
--                        retention_candidates.rs: the runs that may be deleted
--   Crud.Multistatements.DeleteJobRunsWithChildren
--                        delete_job_runs_with_children.rs: the rows of one run, deleted
--   Crud.World.*         rules for actions: what they leave behind, and what an answer says
--   Poller               src/poller.rs: one pass of a service
--   Orchestrator.*       src/orchestrator: a module for each service, with `handle`, `select` and
--                        `run_pass`, a function for each method, and child modules with the proofs
--   Orchestrator.TaskRunAttemptReader, with Utf8, Decoding, Whole, SingleBytes, Budget, Recorded and
--                        Overtaking: src/orchestrator/task_run_attempt_reader.rs, the reader of one
--                        stream of a command, on bytes
--   Orchestrator.TaskRunAttemptChildren, Orchestrator.TaskRunAttemptMonitor, Orchestrator.Recovery
--                        src/orchestrator/task_run_attempt_children.rs, task_run_attempt_monitor.rs and
--                        recovery.rs: the processes, who watches them, and a start after a crash
--   Crud.Multistatements.JobRunDefinition, Crud.Multistatements.SubmitJob
--                        job_run_definition.rs, submit_job.rs and rerun_job.rs: what a run is submitted
--                        with, and its rows
--   JobYaml              src/yaml_models/job_yaml.rs: a job file after parsing, and its checks
--   Seeding              src/crud/crud.rs: the check of a job's task graph
--   Orchestrator.TaskRunAttemptEnv
--                        src/orchestrator/task_run_attempt_env.rs: the variables that flowlite lays over
--                        the inherited ones, and, from task_run_attempt_dispatcher.rs, what of
--                        both a command sees
--   Retention            src/retention/service.rs: what a pass of the retention service selects
--   Limits               src/shared/limits.rs: what the front ends show of the limits
--   Samples, Tests       small tables, and the theorems at them
--
-- An action is a function from a world to a result and a world. The world carries a list that says which
-- of the coming statements and file operations fail, so a theorem about every world is one about every
-- pattern of failures. A statement that fails writes nothing, and a transaction that does not commit
-- leaves nothing behind: that much is assumed of SQLite. The world also has the attempts that a command
-- has been started for: starting one is an operation that may fail, and that gives some process id.
-- Ids and instants are natural numbers, an instant in milliseconds; a table is the list of its rows in
-- the order of their ids, and a u32 is taken modulo 2 ^ 32 where the code computes one.
--
-- What the system says of a process, of a pipe and of the file of a result is a parameter, the record
-- System of TaskRunAttemptChildren: its answers are functions of the world, and the world counts the
-- questions, so that each may get another answer. Signals are kept in a list. A `send` of the reader asks
-- whether the receiver is gone. UTF-8 is written after the documentation of the standard library.
--
-- A BTreeMap is the list of its entries in the order of their keys, a BTreeSet the keys of one, and a
-- HashSet a list. Characters and upper case are ASCII's, by codes. How chrono prints an instant is a
-- parameter of the environment.
--
-- Loops are over lists, but for three. The walk over the dependencies of tasks has fuel for one call
-- more than there are tasks; Seeding.Walk shows that this is enough, since each call but the last puts
-- another task on the path. The loop of take_valid_utf8 has one round more than there are bytes, and
-- each round but the last consumes one: Decoding shows that this is enough. The wait of terminate_all
-- has the rounds that the clock allows before the deadline.
--
-- Not modelled: the waiting of the pollers between passes, log lines, the front ends (command line,
-- web pages, MCP), the sending of notifications, authentication, the reading of configuration and
-- schedule files, the parsing of job files (serde_yaml), the scheduler, the descendants of a run that
-- is deleted, and the files that a command gets.
pub mod Base
pub mod Crud
pub mod Poller
pub mod Orchestrator
pub mod JobYaml
pub mod Seeding
pub mod Limits
pub mod Retention
pub mod Samples
pub mod Tests
