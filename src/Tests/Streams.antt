-- ===== src/Tests/Streams.antt =====
-- The theorems on the stream reader and on the table of its output at small inputs.
use flowlite.Base.{ℕ, List, [], ◌∷◌, ◌≡◌, ◌≤◌, ◌/◌, length, All, arith, refl}
use flowlite.Orchestrator.TaskRunAttemptReader.{read_task_run_attempt_stream, stdout, stderr}
use flowlite.Orchestrator.TaskRunAttemptReader.Utf8.{sequence}
use flowlite.Orchestrator.TaskRunAttemptReader.Decoding.{decode}
use flowlite.Crud.TaskRunAttemptOutput.{
  TaskRunAttemptOutput, past_timeout, group_task_run_attempt_output,
}
use flowlite.Crud.TaskRunAttemptOutput.Contents.{
  contents, streams_of, group_task_run_attempt_output-eq-contents,
}
use flowlite.Orchestrator.TaskRunAttemptReader.Whole.{
  never, concat, lossy, texts, AreTexts, read-eq-lossy,
}
use flowlite.Orchestrator.TaskRunAttemptReader.SingleBytes.{AreSingle}
use flowlite.Orchestrator.TaskRunAttemptReader.Budget.{
  items, byte, over_budget_item, bytes_dropped_item,
}
use flowlite.Orchestrator.TaskRunAttemptReader.Recorded.{recorded, read-recorded}
use flowlite.Orchestrator.TaskRunAttemptReader.Overtaking.{read-overtakes}

-- A character of two bytes over two reads.
abbrev split_reads : List (List ℕ)
split_reads = (72 ∷ 195 ∷ []) ∷ (169 ∷ 33 ∷ []) ∷ []

split_is_short : length (lossy (concat split_reads)) ≤ 16 / 2
unfolding lossy decode sequence
split_is_short = ground arith

read-eq-lossy_example :
    (texts (read_task_run_attempt_stream never stdout 16 split_reads) ≡ lossy (concat split_reads))
    × AreTexts (read_task_run_attempt_stream never stdout 16 split_reads)
read-eq-lossy_example = read-eq-lossy stdout 16 split_reads split_is_short

abbrev plain_reads : List (List ℕ)
plain_reads = (1 ∷ 2 ∷ 3 ∷ []) ∷ (4 ∷ 5 ∷ 6 ∷ []) ∷ []

plain_reads-AreSingle : All AreSingle plain_reads
plain_reads-AreSingle = ground arith

read-recorded_example :
    items (read_task_run_attempt_stream never stdout 4 plain_reads)
    ≡ recorded 4 (concat plain_reads)
read-recorded_example = read-recorded stdout 4 plain_reads plain_reads-AreSingle

recorded_ends :
    recorded 4 (concat plain_reads)
    ≡ byte 1 ∷ byte 2 ∷ over_budget_item 4 2 ∷ bytes_dropped_item 2 ∷ byte 5 ∷ byte 6 ∷ []
unfolding recorded
recorded_ends = refl

line_is_single : AreSingle (72 ∷ [])
line_is_single = ground arith

read-overtakes_example :
    items (read_task_run_attempt_stream never stdout 4 ((72 ∷ 195 ∷ 169 ∷ []) ∷ (33 ∷ []) ∷ []))
    ≡ byte 72 ∷ byte 33 ∷ byte 195 ∷ byte 169 ∷ []
read-overtakes_example =
    read-overtakes stdout 72 [] 195 169 33 4
      (ground arith, ground arith, ground arith, ground arith) line_is_single (ground arith) refl

abbrev row : TaskRunAttemptOutput
row = record {
  id = 1;
  task_run_attempt_id = 7;
  task_run_id = 1;
  job_run_id = 1;
  job_id = "nightly";
  task_id = "load";
  stream = stderr;
  created_at = 1;
  content = past_timeout ∷ [];
}

group_task_run_attempt_output-eq-contents_example :
    streams_of 7 (group_task_run_attempt_output (row ∷ []) []) ≡ record {
      stdout_content = contents stdout 7 (row ∷ []);
      stderr_content = contents stderr 7 (row ∷ []);
    }
group_task_run_attempt_output-eq-contents_example =
    group_task_run_attempt_output-eq-contents (row ∷ []) 7
