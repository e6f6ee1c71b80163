-- ===== src/Crud.antt =====
-- The tables of flowlite.db (src/crud) and the statements on them.
pub mod JobRun
pub mod TaskRun
pub mod TaskRunAttempt
pub mod TaskRunAttemptOutput
pub mod World
pub mod Statements
pub mod Multistatements
