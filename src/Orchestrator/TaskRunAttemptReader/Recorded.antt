-- ===== src/Orchestrator/TaskRunAttemptReader/Recorded.antt =====
-- What is recorded of a whole stream of single-byte text.
use flowlite.Base.{
  ℕ, suc, ◌+◌, ◌-◌, ◌/◌, ◌<◌, ◌≡◌, refl, sym, ap, ◌∙◌, Bool, true, false, List, [], ◌∷◌, ◌++◌,
  append-nil, append_assoc, All, All-append, map, length, take, drop, take_all, drop_all,
  length-drop, drop-drop, take-append-drop, arith, ltb, leb, Bool-cases, inl, inr, if◌then◌else◌,
}
use flowlite.Orchestrator.TaskRunAttemptReader.{
  Stream, text, bytes_dropped, Chunk, StreamCapture, Reading, record_content, flush_tail, read_from,
  read_task_run_attempt_stream,
}
use flowlite.Orchestrator.TaskRunAttemptReader.Whole.{never, concat}
use flowlite.Orchestrator.TaskRunAttemptReader.SingleBytes.{AreSingle, take_valid_utf8_single}
use flowlite.Orchestrator.TaskRunAttemptReader.Budget.{
  Item, byte, over_budget_item, bytes_dropped_item, items, items-append, map_bytes-append,
  head_bytes, rest_bytes, last_bytes, Holds, record_content-Leaves,
}

-- All of a text within the budget; else its head, the two sentences, and its tail.
unfoldable pub recorded : ℕ → List ℕ → List Item
recorded max bytes =
    if leb (length bytes) max
    then map byte bytes
    else map byte (take (max / 2) bytes)
      ++ over_budget_item max (max - max / 2)
        ∷ bytes_dropped_item (length bytes - max)
        ∷ map byte (drop (length bytes - (max - max / 2)) bytes)

abbrev dropped : StreamCapture → List Item
dropped c = if c.capped then bytes_dropped_item (c.held - length c.tail) ∷ [] else []

items-flush_tail :
    (stream : Stream) (r : Reading)
    → items (flush_tail never stream r).sent
      ≡ items r.sent ++ (dropped r.capture ++ map byte r.capture.tail)
unfolding flush_tail
items-flush_tail stream r =
    by_cases r.sent r.capture.max_bytes r.capture.head_room r.capture.tail_bytes r.capture.held
      r.capture.tail r.capture.capped
  where
    by_cases :
        (sent : List Chunk) (m h t held : ℕ) (tail : List ℕ) (capped : Bool)
        → let r : Reading = record {
          sent = sent;
          capture = record {
            max_bytes = m;
            head_room = h;
            tail_bytes = t;
            tail = tail;
            held = held;
            capped = capped;
          };
        } in
          items (flush_tail never stream r).sent
          ≡ items sent ++ (dropped r.capture ++ map byte tail)
    by_cases sent m h t held [] false = sym (append-nil (items sent))
    by_cases sent m h t held [] true =
        items-append sent (record { stream = stream; content = bytes_dropped (held - 0) } ∷ [])
    by_cases sent m h t held (x ∷ tail) false =
        items-append sent (record { stream = stream; content = text (x ∷ tail) } ∷ [])
        ∙ ap (λ l. items sent ++ l) (append-nil (map byte (x ∷ tail)))
    by_cases sent m h t held (x ∷ tail) true =
        let note : Chunk = record {
          stream = stream;
          content = bytes_dropped (held - suc (length tail));
        } in
        items-append (sent ++ note ∷ [])
          (record { stream = stream; content = text (x ∷ tail) } ∷ [])
        ∙ rw (items-append sent (note ∷ []), append-nil (map byte (x ∷ tail)))
            (append_assoc (items sent) (items (note ∷ [])) (map byte (x ∷ tail)))

flush_tail-recorded :
    (stream : Stream) (max : ℕ) (t : List ℕ) (r : Reading)
    → Holds max t r
    → items (flush_tail never stream r).sent ≡ recorded max t
unfolding recorded
flush_tail-recorded stream max t r h =
    let head = map byte (take (head_bytes max) t) in
    let kept = last_bytes (rest_bytes max) (drop (head_bytes max) t) in
    let behind_head = length-drop (head_bytes max) t in
    let kept_len =
      length-drop (length (drop (head_bytes max) t) - rest_bytes max) (drop (head_bytes max) t) in
    let kept_eq =
      drop-drop (length (drop (head_bytes max) t) - rest_bytes max) (head_bytes max) t in
    items-flush_tail stream r
    ∙ rw (h.sent_items, h.over, h.counted, h.behind)
        (elim (Bool-cases (ltb max (length t))) [
          | inl e ↦
              let big : leb (length t) max ≡ false = ground (arith, e) in
              let n : length (drop (head_bytes max) t) - length kept ≡ length t - max =
                ground (arith, behind_head, kept_len, e) in
              let k : head_bytes max + (length (drop (head_bytes max) t) - rest_bytes max)
                  ≡ length t - rest_bytes max =
                ground (arith, behind_head, e) in
              rw (e, big, n)
                (append_assoc head (over_budget_item max (rest_bytes max) ∷ []) _
                  ∙ ap
                      (λ l.
                        head
                        ++ over_budget_item max (rest_bytes max)
                          ∷ bytes_dropped_item (length t - max)
                          ∷ map byte l)
                      (kept_eq ∙ ap (λ m. drop m t) k))
          | inr e ↦
              let small : leb (length t) max ≡ true = ground (arith, e) in
              let z : length (drop (head_bytes max) t) - rest_bytes max ≡ 0 =
                ground (arith, behind_head, e) in
              rw (e, small, z, append-nil head)
                (sym (map_bytes-append (take (head_bytes max) t) (drop (head_bytes max) t))
                  ∙ ap (map byte) (take-append-drop (head_bytes max) t))
        ])

-- A read that decodes to no text is as good as one that records it.
read_from-recorded :
    (stream : Stream) (max : ℕ) (reads : List (List ℕ)) (t : List ℕ) (r : Reading)
    → AreSingle t
    → All AreSingle reads
    → Holds max t r
    → items (read_from never stream reads [] r).sent ≡ recorded max (t ++ concat reads)
unfolding read_from
read_from-recorded stream max [] t r a b h =
    rw (append-nil t) (flush_tail-recorded stream max t r h)
read_from-recorded stream max ([] ∷ reads) t r a b h =
    read_from-recorded stream max reads t r a b.1 h
read_from-recorded stream max ((x ∷ bytes) ∷ reads) t r a b h =
    let now = x ∷ bytes in
    let step = record_content-Leaves stream max t now a b.0 r h in
    rw (take_valid_utf8_single now b.0, step.0)
      (read_from-recorded stream max reads (t ++ now) (record_content never stream now r).1
          (All-append (λ c. c < 128) t now a b.0) b.1 step.1
        ∙ ap (recorded max) (append_assoc t now (concat reads)))

-- While the monitor listens, what is recorded of a stream of single-byte text depends on its bytes and
-- not on how the reads split them: all of it where it is within the budget, and else its first half of
-- the budget, the two sentences with the numbers of bytes, and its last rest of the budget.
pub read-recorded :
    (stream : Stream) (max : ℕ) (reads : List (List ℕ))
    → All AreSingle reads
    → items (read_task_run_attempt_stream never stream max reads) ≡ recorded max (concat reads)
unfolding read_task_run_attempt_stream
read-recorded stream max reads b =
    let no_rest : drop {A = ℕ} (head_bytes max) [] ≡ [] =
      drop_all (head_bytes max) [] (omega arith) in
    let no_head : take {A = ℕ} (head_bytes max) [] ≡ [] =
      take_all (head_bytes max) [] (omega arith) in
    let none_over : ltb max 0 ≡ false = ground arith in
    read_from-recorded stream max reads [] _ tt b (record {
      budget = refl;
      half = refl;
      room = omega arith;
      behind = rw no_rest (sym (drop_all _ [] (omega arith)));
      counted = rw no_rest refl;
      over = ground arith;
      sent_items = rw (no_head, none_over) refl;
    })
