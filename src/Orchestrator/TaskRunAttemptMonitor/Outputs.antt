-- ===== src/Orchestrator/TaskRunAttemptMonitor/Outputs.antt =====
-- What the steps of TaskRunAttemptMonitor add to the output of an attempt.
use flowlite.Base.{
  ℕ, Bool, true, false, not, List, [], ◌∷◌, ◌++◌, ◌≡◌, refl, sym, ap, ◌∙◌, append-nil, append_assoc,
  filter, ◌==◌, nat_Column, if◌then◌else◌, Bool-cases, inl, inr, arith,
}
use flowlite.Crud.TaskRunAttempt.{TaskRunAttempt}
use flowlite.Crud.TaskRunAttemptOutput.{
  Piece, is_blank_piece, is_blank, is_of, TaskRunAttemptOutput, new_output_row,
}
use flowlite.Crud.TaskRunAttemptOutput.Contents.{contents, contents-append}
use flowlite.Crud.World.{Db, World, Result, ok, insert, operation, done}
use flowlite.Crud.World.Inversion.{>>=-eq-ok}
use flowlite.Crud.Statements.{insert_task_run_attempt_output, output_allowed}
use flowlite.Orchestrator.TaskRunAttemptReader.{Stream, stdout, stderr, Chunk}
use flowlite.Orchestrator.TaskRunAttemptMonitor.{
  insert_stream, insert_output, new_output, insert_chunks, pieces_of,
}

-- The pieces that are not empty strings.
abbrev pub shown : List Piece → List Piece
shown = filter (λ p. not (is_blank_piece p))

shown-append : (xs ys : List Piece) → shown (xs ++ ys) ≡ shown xs ++ shown ys
shown-append [] ys = refl
shown-append (p ∷ xs) ys = elim (Bool-cases (is_blank_piece p)) [
  | inl e ↦ rw e (shown-append xs ys)
  | inr e ↦ rw e (ap (λ t. p ∷ t) (shown-append xs ys))
]

shown-is_blank : (content : List Piece) → is_blank content ≡ true → shown content ≡ []
shown-is_blank [] e = refl
shown-is_blank (p ∷ content) e =
    let first : is_blank_piece p ≡ true = ground (arith, e) in
    rw first (shown-is_blank content (ground (arith, e)))

-- What the table has of a stream of an attempt.
abbrev pub log : Stream → ℕ → World → List Piece
log stream id w = shown (contents stream id w.db.task_run_attempt_outputs)

insert-eq-ok :
    (allowed : Db → Bool) (g : Db → Db) (w : World) {v : World}
    → insert allowed g w ≡ (ok tt, v)
    → v.db ≡ g w.db
unfolding insert operation
insert-eq-ok allowed g w e = ground (arith, e)

-- What a statement on one stream adds to a stream.
abbrev pub added : Stream → Stream → List Piece → List Piece
added stream to content = if is_of stream to then shown content else []

-- A row more in the table.
one_row :
    (stream to : Stream) (attempt : TaskRunAttempt) (content : List Piece) (id now : ℕ)
    (rows : List TaskRunAttemptOutput)
    → shown (
        contents stream attempt.id
          (rows ++ new_output_row (new_output attempt to content) id now ∷ []))
      ≡ shown (contents stream attempt.id rows) ++ added stream to content
unfolding new_output_row
one_row stream to attempt content id now rows =
    let mine : (attempt.id == attempt.id) ≡ true = ground arith in
    let row = new_output_row (new_output attempt to content) id now in
    ap shown (contents-append stream attempt.id rows (row ∷ []))
    ∙ shown-append (contents stream attempt.id rows) (contents stream attempt.id (row ∷ []))
    ∙ rw mine (elim (Bool-cases (is_of stream to)) [
      | inl e ↦ rw (e, append-nil content) refl
      | inr e ↦ rw e refl
    ])

insert_stream-log :
    (stream to : Stream) (attempt : TaskRunAttempt) (content : List Piece) (w : World) {v : World}
    → insert_stream attempt to content w ≡ (ok tt, v)
    → log stream attempt.id v ≡ log stream attempt.id w ++ added stream to content
unfolding insert_stream insert_task_run_attempt_output
insert_stream-log stream to attempt content w {v = v} e = by_test (is_blank content) refl e
  where
    nothing : (b : Bool) → shown content ≡ [] → (if b then shown content else []) ≡ []
    nothing true z = z
    nothing false z = refl

    by_test :
        (b : Bool)
        → is_blank content ≡ b
        → (if b then done else insert_task_run_attempt_output (new_output attempt to content)) w
          ≡ (ok tt, v)
        → log stream attempt.id v ≡ log stream attempt.id w ++ added stream to content
    by_test true blank e =
        rw
          (
            nothing (is_of stream to) (shown-is_blank content blank),
            append-nil (log stream attempt.id w),
          )
          (ap (λ (x : Result Unit × World). log stream attempt.id x.1) (sym e))
    by_test false blank e =
        let written = insert-eq-ok (output_allowed (new_output attempt to content)) _ w e in
        ap (λ (d : Db). shown (contents stream attempt.id d.task_run_attempt_outputs)) written
        ∙ one_row stream to attempt content w.db.next_output_id w.now w.db.task_run_attempt_outputs

insert_output-log :
    (stream : Stream) (attempt : TaskRunAttempt) (out errors : List Piece) (w : World) {v : World}
    → insert_output attempt out errors w ≡ (ok tt, v)
    → log stream attempt.id v
      ≡ log stream attempt.id w ++ (added stream stdout out ++ added stream stderr errors)
unfolding insert_output
insert_output-log stream attempt out errors w e =
    let (u, between, first, second) = >>=-eq-ok (insert_stream attempt stdout out) _ w e in
    insert_stream-log stream stderr attempt errors between second
    ∙ ap (λ t. t ++ added stream stderr errors)
        (insert_stream-log stream stdout attempt out w first)
    ∙ append_assoc (log stream attempt.id w) (added stream stdout out) (added stream stderr errors)

-- The chunks go where they belong.
pub insert_chunks-log :
    (stream : Stream) (attempt : TaskRunAttempt) (chunks : List Chunk) (w : World) {v : World}
    → insert_chunks attempt chunks w ≡ (ok tt, v)
    → log stream attempt.id v ≡ log stream attempt.id w ++ shown (pieces_of stream chunks)
unfolding insert_chunks
insert_chunks-log stdout attempt chunks w e =
    insert_output-log stdout attempt (pieces_of stdout chunks) (pieces_of stderr chunks) w e
    ∙ ap (λ t. log stdout attempt.id w ++ t) (append-nil (shown (pieces_of stdout chunks)))
insert_chunks-log stderr attempt chunks w e =
    insert_output-log stderr attempt (pieces_of stdout chunks) (pieces_of stderr chunks) w e

-- A sentence of the monitor's goes to stderr.
pub note-log :
    (stream : Stream) (attempt : TaskRunAttempt) (note : Piece) (w : World) {v : World}
    → insert_output attempt [] (note ∷ []) w ≡ (ok tt, v)
    → log stream attempt.id v ≡ log stream attempt.id w ++ added stream stderr (note ∷ [])
note-log stdout attempt note w e = insert_output-log stdout attempt [] (note ∷ []) w e
note-log stderr attempt note w e = insert_output-log stderr attempt [] (note ∷ []) w e
