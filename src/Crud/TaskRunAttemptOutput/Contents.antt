-- ===== src/Crud/TaskRunAttemptOutput/Contents.antt =====
-- What the rows of the table say of one attempt, against what the readers of the table get.
use flowlite.Base.{
  ℕ, Bool, true, false, ◌&&◌, List, [], ◌∷◌, ◌++◌, ◌≡◌, refl, sym, ap, ◌∙◌, append-nil,
  append_assoc, ◌==◌, nat_Column, if◌then◌else◌, Bool-cases, inl, inr, arith,
}
use flowlite.Crud.TaskRunAttemptOutput.{
  Piece, TaskRunAttemptOutput, TaskRunAttemptOutputStreams, no_streams, push_content, push_row,
  group_task_run_attempt_output, is_of,
}
use flowlite.Orchestrator.TaskRunAttemptReader.{Stream, stdout, stderr}

-- The contents of an attempt's rows of one stream, in the order of the rows.
abbrev pub contents : Stream → ℕ → List TaskRunAttemptOutput → List Piece
contents stream id [] = []
contents stream id (row ∷ rows) =
    (if row.task_run_attempt_id == id && is_of stream row.stream then row.content else [])
    ++ contents stream id rows

pub contents-append :
    (stream : Stream) (id : ℕ) (xs ys : List TaskRunAttemptOutput)
    → contents stream id (xs ++ ys) ≡ contents stream id xs ++ contents stream id ys
contents-append stream id [] ys = refl
contents-append stream id (row ∷ xs) ys =
    ap
      (λ t.
        (if row.task_run_attempt_id == id && is_of stream row.stream then row.content else []) ++ t)
      (contents-append stream id xs ys)
    ∙ sym (append_assoc _ (contents stream id xs) (contents stream id ys))

-- What the map has for an attempt: nothing where it has no entry.
abbrev pub streams_of : ℕ → List (ℕ × TaskRunAttemptOutputStreams) → TaskRunAttemptOutputStreams
streams_of id [] = no_streams
streams_of id ((key, s) ∷ grouped) =
    let rest = streams_of id grouped in if key == id then s else rest

abbrev with_row :
    ℕ → TaskRunAttemptOutput → TaskRunAttemptOutputStreams → TaskRunAttemptOutputStreams
with_row id row s =
    if row.task_run_attempt_id == id then push_content row.stream row.content s else s

streams_of-push_row :
    (id : ℕ) (row : TaskRunAttemptOutput) (grouped : List (ℕ × TaskRunAttemptOutputStreams))
    → streams_of id (push_row row grouped) ≡ with_row id row (streams_of id grouped)
unfolding push_row
streams_of-push_row id row [] = refl
streams_of-push_row id row ((key, s) ∷ grouped) =
    let ih = streams_of-push_row id row grouped in
    elim (Bool-cases (key == row.task_run_attempt_id)) [
      | inl e ↦
          let same : (row.task_run_attempt_id == id) ≡ (key == id) = ground (arith, e) in
          elim (Bool-cases (key == id)) [
            | inl f ↦ rw (e, same, f) refl
            | inr f ↦ rw (e, same, f) refl
          ]
      | inr e ↦ elim (Bool-cases (key == id)) [
        | inl f ↦
            let other : (row.task_run_attempt_id == id) ≡ false = ground (arith, e, f) in
            rw (e, other, f) refl
        | inr f ↦ rw (e, f) ih
      ]
    ]

abbrev followed_by :
    TaskRunAttemptOutputStreams → (out errors : List Piece) → TaskRunAttemptOutputStreams
followed_by s out errors = record {
  stdout_content = s.stdout_content ++ out;
  stderr_content = s.stderr_content ++ errors;
}

abbrev both : (out errors : List Piece) → TaskRunAttemptOutputStreams
both out errors = record { stdout_content = out; stderr_content = errors }

-- A row of this attempt or of another one, and then the rest.
one_more :
    (stream : Stream) (mine : Bool) (content out errors : List Piece)
    (s : TaskRunAttemptOutputStreams)
    → followed_by (if mine then push_content stream content s else s) out errors
      ≡ followed_by s
          ((if mine && is_of stdout stream then content else []) ++ out)
          ((if mine && is_of stderr stream then content else []) ++ errors)
one_more stream false content out errors s = refl
one_more stdout true content out errors s =
    ap (λ (t : List Piece). both t (s.stderr_content ++ errors))
      (append_assoc s.stdout_content content out)
one_more stderr true content out errors s =
    ap (λ (t : List Piece). both (s.stdout_content ++ out) t)
      (append_assoc s.stderr_content content errors)

group_more :
    (id : ℕ) (rows : List TaskRunAttemptOutput) (grouped : List (ℕ × TaskRunAttemptOutputStreams))
    → streams_of id (group_task_run_attempt_output rows grouped)
      ≡ followed_by (streams_of id grouped) (contents stdout id rows) (contents stderr id rows)
unfolding group_task_run_attempt_output
group_more id [] grouped =
    rw
      (
        append-nil (streams_of id grouped).stdout_content,
        append-nil (streams_of id grouped).stderr_content,
      )
      refl
group_more id (row ∷ rows) grouped =
    group_more id rows (push_row row grouped)
    ∙ rw (streams_of-push_row id row grouped) (
        one_more row.stream (row.task_run_attempt_id == id) row.content (contents stdout id rows)
          (contents stderr id rows) (streams_of id grouped))

-- The map that the rows are grouped into has for every attempt the contents of its rows, each stream by
-- itself, in the order of the rows; for an attempt without rows, empty streams.
pub group_task_run_attempt_output-eq-contents :
    (rows : List TaskRunAttemptOutput) (id : ℕ)
    → streams_of id (group_task_run_attempt_output rows []) ≡ record {
      stdout_content = contents stdout id rows;
      stderr_content = contents stderr id rows;
    }
group_task_run_attempt_output-eq-contents rows id = group_more id rows []
