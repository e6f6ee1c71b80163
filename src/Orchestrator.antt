-- ===== src/Orchestrator.antt =====
-- src/orchestrator: the services that move job runs, task runs and attempts on, each by the
-- statuses that it finds in the database.
pub mod JobRunReleaser
pub mod JobRunDispatcher
pub mod JobRunMonitor
pub mod TaskRunDispatcher
pub mod TaskRunMonitor
pub mod JobRuns
pub mod TaskRuns
pub mod TaskRunAttemptDispatcher
pub mod TaskRunAttemptEnv
pub mod TaskRunAttemptReader
pub mod TaskRunAttemptChildren
pub mod TaskRunAttemptMonitor
pub mod Recovery
