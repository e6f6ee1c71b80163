-- ===== src/Crud/TaskRunAttemptOutput.antt =====
-- src/crud/task_run_attempt_output.rs: the `task_run_attempt_output` table.
pub mod Contents
use flowlite.Base.{
  ℕ, String, Bool, true, false, ◌&&◌, Option, List, [], ◌∷◌, ◌++◌, filter, matches, ◌==◌,
  nat_Column, string_Column, if◌then◌else◌, Column, discrete_Column,
}
use flowlite.Orchestrator.TaskRunAttemptReader.{
  Stream, stdout, stderr, Content, text, over_budget, bytes_dropped,
}

pub Stream-discrete : Discrete Stream
Stream-discrete = hlevel

-- Why a result is not recorded.
pub data Rejection : Type 0 where
  unknown_directory could_not_read not_utf8 : Rejection
  too_large : (size max_bytes : ℕ) → Rejection

-- A content is the strings that were pushed to it: what a reader sent, or a sentence of the monitor's.
pub data Piece : Type 0 where
  of_command : Content → Piece
  no_output_for : ℕ → Piece
  past_timeout : Piece
  rejected : Rejection → Piece

abbrev pub is_blank_piece : Piece → Bool
is_blank_piece (of_command (text [])) = true
is_blank_piece (of_command (text (b ∷ bytes))) = false
is_blank_piece (of_command (over_budget m t)) = false
is_blank_piece (of_command (bytes_dropped n)) = false
is_blank_piece (no_output_for n) = false
is_blank_piece past_timeout = false
is_blank_piece (rejected why) = false

-- `content.is_empty()`
abbrev pub is_blank : List Piece → Bool
is_blank [] = true
is_blank (p ∷ pieces) = is_blank_piece p && is_blank pieces

abbrev pub is_of : Stream → Stream → Bool
is_of stdout stdout = true
is_of stdout stderr = false
is_of stderr stdout = false
is_of stderr stderr = true

pub record TaskRunAttemptOutput : Type 0 where
  pub id : ℕ
  pub task_run_attempt_id : ℕ
  pub task_run_id : ℕ
  pub job_run_id : ℕ
  pub job_id : String
  pub task_id : String
  pub stream : Stream
  pub created_at : ℕ
  pub content : List Piece

-- `InsertTaskRunAttemptOutputDataInput`
pub record NewOutput : Type 0 where
  pub task_run_attempt_id : ℕ
  pub task_run_id : ℕ
  pub job_run_id : ℕ
  pub job_id : String
  pub task_id : String
  pub stream : Stream
  pub content : List Piece

unfoldable pub new_output_row : NewOutput → (id now : ℕ) → TaskRunAttemptOutput
new_output_row n id now = record {
  id = id;
  task_run_attempt_id = n.task_run_attempt_id;
  task_run_id = n.task_run_id;
  job_run_id = n.job_run_id;
  job_id = n.job_id;
  task_id = n.task_id;
  stream = n.stream;
  created_at = now;
  content = n.content;
}

pub record TaskRunAttemptOutputStreams : Type 0 where
  pub stdout_content : List Piece
  pub stderr_content : List Piece

abbrev pub no_streams : TaskRunAttemptOutputStreams
no_streams = record { stdout_content = []; stderr_content = [] }

abbrev pub push_content :
    Stream → List Piece → TaskRunAttemptOutputStreams → TaskRunAttemptOutputStreams
push_content stdout content s = record s { stdout_content = s.stdout_content ++ content }
push_content stderr content s = record s { stderr_content = s.stderr_content ++ content }

-- `entry(…).or_default()` and the push. The HashMap is an association list, read by its keys only.
unfoldable pub push_row :
    TaskRunAttemptOutput
    → List (ℕ × TaskRunAttemptOutputStreams)
    → List (ℕ × TaskRunAttemptOutputStreams)
push_row row [] = (row.task_run_attempt_id, push_content row.stream row.content no_streams) ∷ []
push_row row ((id, s) ∷ grouped) =
    let rest = push_row row grouped in
    if id == row.task_run_attempt_id
    then (id, push_content row.stream row.content s) ∷ grouped
    else (id, s) ∷ rest

unfoldable pub group_task_run_attempt_output :
    List TaskRunAttemptOutput
    → List (ℕ × TaskRunAttemptOutputStreams)
    → List (ℕ × TaskRunAttemptOutputStreams)
unfolding push_row
group_task_run_attempt_output [] grouped = grouped
group_task_run_attempt_output (row ∷ rows) grouped =
    group_task_run_attempt_output rows (push_row row grouped)
