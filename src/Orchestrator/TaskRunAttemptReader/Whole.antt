-- ===== src/Orchestrator/TaskRunAttemptReader/Whole.antt =====
-- A stream within half of its budget is recorded whole, however the reads split it.
use flowlite.Base.{
  ℕ, ◌+◌, ◌-◌, ◌/◌, ◌≤◌, ◌≡◌, refl, sym, ap, ◌∙◌, subst, Bool, true, false, List, [], ◌∷◌, ◌++◌,
  append-nil, append_assoc, All, All-append, length, length-append, arith, leb,
}
use flowlite.Orchestrator.TaskRunAttemptReader.{
  take_valid_utf8, Stream, Content, text, Chunk, Reading, new_capture, record_content, flush_tail,
  finish, read_from, read_task_run_attempt_stream,
}
use flowlite.Orchestrator.TaskRunAttemptReader.Utf8.{replacement}
use flowlite.Orchestrator.TaskRunAttemptReader.Decoding.{
  put, decode, decode-append, take_valid_utf8-eq-decode,
}

-- A receiver that stays.
abbrev pub never : ℕ → Bool
never n = false

-- The text of the command in what was sent, and that there is nothing else in it.
abbrev pub words : Content → List ℕ
words (text bytes) = bytes
words _ = []

abbrev pub IsText : Content → Type 0
IsText (text bytes) = Unit
IsText _ = ⊥

abbrev pub texts : List Chunk → List ℕ
texts [] = []
texts (c ∷ chunks) = words c.content ++ texts chunks

abbrev pub AreTexts : List Chunk → Type 0
AreTexts = All (λ c. IsText c.content)

abbrev pub concat : List (List ℕ) → List ℕ
concat [] = []
concat (bytes ∷ reads) = bytes ++ concat reads

-- The end of the stream cuts a character off.
abbrev pub closed : List ℕ × List ℕ → List ℕ
closed (t, []) = t
closed (t, b ∷ carry) = t ++ replacement

-- The lossy reading of a whole stream.
unfoldable pub lossy : List ℕ → List ℕ
unfolding decode
lossy bytes = closed (decode true 0 bytes)

texts-append : (xs ys : List Chunk) → texts (xs ++ ys) ≡ texts xs ++ texts ys
texts-append [] ys = refl
texts-append (c ∷ xs) ys =
    ap (λ t. words c.content ++ t) (texts-append xs ys)
    ∙ sym (append_assoc (words c.content) (texts xs) (texts ys))

closed-put : (t : List ℕ) (p : List ℕ × List ℕ) → closed (put t p) ≡ t ++ closed p
closed-put t (u, []) = refl
closed-put t (u, b ∷ carry) = append_assoc t u replacement

-- What is carried stays what is carried.
abbrev IsCarry : List ℕ → Type 0
IsCarry carry = decode true 0 carry ≡ ([], carry)

no_more : (xs ys : List ℕ) → xs ≡ xs ++ ys → ys ≡ []
no_more xs [] e = refl
no_more xs (y ∷ ys) e = absurd (omega (arith, ap length e, length-append xs (y ∷ ys)))

decode-IsCarry : (bytes : List ℕ) → IsCarry (decode true 0 bytes).1
decode-IsCarry bytes =
    let p = decode true 0 bytes in
    let q = decode true 0 p.1 in
    let whole : p ≡ put p.0 q =
      subst (λ xs. decode true 0 bytes ≡ put p.0 (decode true 0 xs)) (append-nil p.1)
        (subst (λ xs. decode true 0 xs ≡ put p.0 (decode true 0 (p.1 ++ []))) (append-nil bytes)
          (decode-append true 0 bytes [] (omega arith))) in
    λ i. (
      no_more p.0 q.0 (ap (λ (x : List ℕ × List ℕ). x.0) whole) i,
      ap (λ (x : List ℕ × List ℕ). x.1) (sym whole) i,
    )

-- The capture of a stream that has stayed within its head.
record IsWithin (r : Reading) (n : ℕ) : Type 0 where
  no_tail : r.capture.tail ≡ []
  uncapped : r.capture.capped ≡ false
  fits : n ≤ r.capture.head_room
  plain : AreTexts r.sent

-- What is sent at last is what was sent so far, and `t`.
abbrev Sends : List ℕ → Reading → Reading → Type 0
Sends t r r' = (texts r'.sent ≡ texts r.sent ++ t) × AreTexts r'.sent

module _ (stream : Stream) where
  text_chunk : List ℕ → List Chunk
  text_chunk content = record { stream = stream; content = text content } ∷ []

  abbrev after : List ℕ → Reading → Reading
  after content r = record {
    sent = r.sent ++ text_chunk content;
    capture = record r.capture { head_room = r.capture.head_room - length content };
  }

  record_head :
      (content : List ℕ) (r : Reading)
      → leb (length content) r.capture.head_room ≡ true
      → record_content never stream content r ≡ (true, after content r)
  unfolding record_content text_chunk
  record_head content r e = rw e refl

  record-IsWithin :
      (content : List ℕ) (r : Reading) (n : ℕ)
      → IsWithin r (length content + n)
      → (record_content never stream content r ≡ (true, after content r))
        × IsWithin (after content r) n
        × Sends content r (after content r)
  unfolding text_chunk
  record-IsWithin content r n w = (
    record_head content r (ground (arith, w.fits)),
    record {
      no_tail = w.no_tail;
      uncapped = w.uncapped;
      fits = omega (arith, w.fits);
      plain = All-append _ r.sent _ w.plain (tt, tt);
    },
    (
      texts-append r.sent (text_chunk content) ∙ ap (λ t. texts r.sent ++ t) (append-nil content),
      All-append _ r.sent _ w.plain (tt, tt),
    ),
  )

  flush_within : (r : Reading) (n : ℕ) → IsWithin r n → flush_tail never stream r ≡ r
  unfolding flush_tail
  flush_within r n w = rw (w.uncapped, w.no_tail) refl

  finish_within :
      (carry : List ℕ) (r : Reading)
      → IsWithin r (length (closed ([], carry)))
      → Sends (closed ([], carry)) r (finish never stream carry r)
  unfolding finish
  finish_within [] r w = rw (flush_within r _ w) (sym (append-nil (texts r.sent)), w.plain)
  finish_within (b ∷ carry) r w =
      let (e, v, sends) = record-IsWithin replacement r 0 w in
      rw (e, flush_within (after replacement r) 0 v) sends

  -- The text of what is carried and what is still to be read.
  abbrev coming : List ℕ → List (List ℕ) → List ℕ
  coming carry reads = closed (decode true 0 (carry ++ concat reads))

  coming-cons :
      (carry bytes : List ℕ) (reads : List (List ℕ))
      → coming carry (bytes ∷ reads)
        ≡ (decode true 0 (carry ++ bytes)).0 ++ coming (decode true 0 (carry ++ bytes)).1 reads
  coming-cons carry bytes reads =
      ap (λ xs. closed (decode true 0 xs)) (sym (append_assoc carry bytes (concat reads)))
      ∙ ap closed (decode-append true 0 (carry ++ bytes) (concat reads) (omega arith))
      ∙ closed-put (decode true 0 (carry ++ bytes)).0
          (decode true 0 ((decode true 0 (carry ++ bytes)).1 ++ concat reads))

  Sends-then :
      (t u : List ℕ) (r r' r'' : Reading) → Sends t r r' → Sends u r' r'' → Sends (t ++ u) r r''
  Sends-then t u r r' r'' h k = (k.0 ∙ ap (λ x. x ++ u) h.0 ∙ append_assoc (texts r.sent) t u, k.1)

  -- One round, whatever it reads.
  round_within :
      (reads : List (List ℕ)) (carry bytes content carried : List ℕ) (r : Reading)
      → take_valid_utf8 (carry ++ bytes) ≡ (content, carried)
      → ((r' : Reading)
          → IsWithin r' (length (coming carried reads))
          → Sends (coming carried reads) r' (read_from never stream reads carried r'))
      → IsWithin r (length (content ++ coming carried reads))
      → Sends (content ++ coming carried reads) r (read_from never stream (bytes ∷ reads) carry r)
  unfolding read_from
  round_within reads carry bytes [] carried r e ih w = rw e (ih r w)
  round_within reads carry bytes (b ∷ content) carried r e ih w =
      let rest = coming carried reads in
      let room : IsWithin r (length (b ∷ content) + length rest) = record {
        no_tail = w.no_tail;
        uncapped = w.uncapped;
        fits = omega (arith, length-append (b ∷ content) rest, w.fits);
        plain = w.plain;
      } in
      let (sent, v, sends) = record-IsWithin (b ∷ content) r (length rest) room in
      rw (e, sent)
        (Sends-then (b ∷ content) rest r (after (b ∷ content) r)
          (read_from never stream reads carried (after (b ∷ content) r)) sends
          (ih (after (b ∷ content) r) v))

  last_round :
      (carry : List ℕ) (r : Reading)
      → coming carry [] ≡ closed ([], carry)
      → IsWithin r (length (coming carry []))
      → Sends (coming carry []) r (read_from never stream [] carry r)
  unfolding read_from
  last_round carry r same w =
      subst (λ t. Sends t r (finish never stream carry r)) (sym same)
        (finish_within carry r (subst (λ t. IsWithin r (length t)) same w))

  read_within :
      (reads : List (List ℕ)) (carry : List ℕ) (r : Reading)
      → IsCarry carry
      → IsWithin r (length (coming carry reads))
      → Sends (coming carry reads) r (read_from never stream reads carry r)
  read_within [] carry r c w =
      let same : coming carry [] ≡ closed ([], carry) =
        ap (λ xs. closed (decode true 0 xs)) (append-nil carry) ∙ ap closed c in
      last_round carry r same w
  read_within (bytes ∷ reads) carry r c w =
      let p = decode true 0 (carry ++ bytes) in
      let same = coming-cons carry bytes reads in
      subst (λ t. Sends t r (read_from never stream (bytes ∷ reads) carry r)) (sym same)
        (round_within reads carry bytes p.0 p.1 r (take_valid_utf8-eq-decode (carry ++ bytes))
          (λ r' w'. read_within reads p.1 r' (decode-IsCarry (carry ++ bytes)) w')
          (subst (λ t. IsWithin r (length t)) same w))

-- A command whose lossily read output is at most half of the budget has it recorded whole and with
-- nothing else, while the monitor listens, however the reads split its bytes, also inside a character.
pub read-eq-lossy :
    (stream : Stream) (max_stream_bytes : ℕ) (reads : List (List ℕ))
    → length (lossy (concat reads)) ≤ max_stream_bytes / 2
    → (texts (read_task_run_attempt_stream never stream max_stream_bytes reads)
        ≡ lossy (concat reads))
      × AreTexts (read_task_run_attempt_stream never stream max_stream_bytes reads)
unfolding read_task_run_attempt_stream lossy new_capture
read-eq-lossy stream max_stream_bytes reads h =
    read_within stream reads [] (record { sent = []; capture = new_capture max_stream_bytes })
      (nothing) (record { no_tail = refl; uncapped = refl; fits = h; plain = tt })
  where
    nothing : IsCarry []
    nothing = unfold decode in refl
