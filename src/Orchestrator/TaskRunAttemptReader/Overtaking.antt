-- ===== src/Orchestrator/TaskRunAttemptReader/Overtaking.antt =====
-- A character of several bytes at the end of the head room, and what comes after it.
use flowlite.Base.{
  ℕ, suc, ◌-◌, ◌/◌, ◌≤◌, ◌<◌, ◌≡◌, refl, sym, ap, ◌∙◌, true, false, List, [], ◌∷◌, ◌++◌, map,
  length, take, drop, length-append, arith, leb, ◌==◌, nat_Column,
}
use flowlite.Orchestrator.TaskRunAttemptReader.{
  Stream, text, Chunk, Reading, new_capture, hold, record_content, trim_to_tail,
  truncate_at_char_boundary, flush_tail, read_task_run_attempt_stream, take_valid_utf8,
}
use flowlite.Orchestrator.TaskRunAttemptReader.Utf8.{sequence, character, is_continuation}
use flowlite.Orchestrator.TaskRunAttemptReader.Decoding.{
  put, decode, decode_character, take_valid_utf8-eq-decode,
}
use flowlite.Orchestrator.TaskRunAttemptReader.Whole.{never}
use flowlite.Orchestrator.TaskRunAttemptReader.SingleBytes.{
  AreSingle, decode_single, take_valid_utf8_single,
}
use flowlite.Orchestrator.TaskRunAttemptReader.Budget.{byte, items, map_bytes-append}

-- The two bytes of a character from U+0080 to U+07FF.
abbrev pub AreTwoBytes : ℕ → ℕ → Type 0
AreTwoBytes c d = (194 ≤ c) × (c ≤ 223) × (128 ≤ d) × (d ≤ 191)

leads : (c d : ℕ) → AreTwoBytes c d → is_continuation c ≡ false
leads c d (l, h, l', h') = ground arith

continues : (c d : ℕ) → AreTwoBytes c d → is_continuation d ≡ true
continues c d (l, h, l', h') = ground arith

two-sequence : (c d : ℕ) → AreTwoBytes c d → sequence (c ∷ d ∷ []) ≡ character 2
unfolding sequence
two-sequence c d (l, h, l', h') = ground arith

drop-length : (p q : List ℕ) → drop (length p) (p ++ q) ≡ q
drop-length [] q = refl
drop-length (x ∷ p) q = drop-length p q

drop_more : (p : List ℕ) (x : ℕ) (q : List ℕ) → drop (suc (length p)) (p ++ x ∷ q) ≡ q
drop_more [] x q = refl
drop_more (y ∷ p) x q = drop_more p x q

take-length : (p q : List ℕ) → take (length p) (p ++ q) ≡ p
take-length [] q = refl
take-length (x ∷ p) q = ap (λ t. x ∷ t) (take-length p q)

cut_before :
    (c d : ℕ) (p : List ℕ)
    → AreTwoBytes c d
    → truncate_at_char_boundary (p ++ c ∷ d ∷ []) (suc (length p)) ≡ p
unfolding truncate_at_char_boundary
cut_before c d [] two = rw (continues c d two) refl
cut_before c d (x ∷ p) two =
    let l = length-append p (c ∷ d ∷ []) in
    let long : leb (suc (length (p ++ c ∷ d ∷ []))) (suc (suc (length p))) ≡ false =
      ground (arith, l) in
    let z : (suc (length p) == 0) ≡ false = ground arith in
    let z' : (suc (suc (length p)) == 0) ≡ false = ground arith in
    rw
      (
        long,
        z,
        z',
        drop_more p c (d ∷ []),
        drop-length p (c ∷ d ∷ []),
        continues c d two,
        leads c d two,
      )
      (ap (λ t. x ∷ t) (take-length p (c ∷ d ∷ [])))

whole :
    (c d : ℕ) (p : List ℕ)
    → AreTwoBytes c d
    → AreSingle p
    → take_valid_utf8 (p ++ c ∷ d ∷ []) ≡ (p ++ c ∷ d ∷ [], [])
unfolding decode
whole c d p two a =
    take_valid_utf8-eq-decode (p ++ c ∷ d ∷ [])
    ∙ decode_single p (c ∷ d ∷ []) a
    ∙ ap (put p) (decode_character true c (d ∷ []) 2 (two-sequence c d two))

fits : (c d max : ℕ) → 2 ≤ max → trim_to_tail (c ∷ d ∷ []) max ≡ c ∷ d ∷ []
unfolding trim_to_tail
fits c d max h = let e : leb 2 max ≡ true = ground arith in rw e refl

module _ (stream : Stream) (y : ℕ) (q : List ℕ) (c d x max : ℕ) (two : AreTwoBytes c d)
    (a : AreSingle (y ∷ q)) (b : x < 128) (e : max / 2 ≡ suc (length (y ∷ q))) where
  abbrev character_bytes : List ℕ
  character_bytes = c ∷ d ∷ []

  abbrev says : List ℕ → Chunk
  says bytes = record { stream = stream; content = text bytes }

  -- One byte of the head room is left over, and the character is held.
  abbrev with_one_left : Reading
  with_one_left = record {
    sent = says (y ∷ q) ∷ [];
    capture = record {
      max_bytes = max;
      head_room = 1;
      tail_bytes = max - max / 2;
      tail = character_bytes;
      held = 2;
      capped = false;
    };
  }

  record_first :
      record_content never stream
        ((y ∷ q) ++ character_bytes)
        (record { sent = []; capture = new_capture max })
      ≡ (true, with_one_left)
  unfolding record_content new_capture hold
  record_first =
      let l = length-append q character_bytes in
      let long : leb (suc (length (q ++ character_bytes))) (suc (suc (length q))) ≡ false =
        ground (arith, l) in
      let one : suc (suc (length q)) - suc (length q) ≡ 1 = omega arith in
      let cut = cut_before c d (y ∷ q) two in
      let kept = fits c d (max - suc (suc (length q))) (omega (arith, e)) in
      rw (e, long, cut, drop-length q character_bytes, one, kept) refl

  -- A line of single-byte text that leaves one byte of the head room, then the two bytes of any character
  -- from U+0080 to U+07FF, and in the next read one byte below 128: while the monitor listens, that byte
  -- is recorded before the character.
  pub read-overtakes :
      items
        (read_task_run_attempt_stream never stream max (((y ∷ q) ++ c ∷ d ∷ []) ∷ (x ∷ []) ∷ []))
      ≡ map byte ((y ∷ q) ++ x ∷ c ∷ d ∷ [])
  unfolding read_task_run_attempt_stream flush_tail
  read-overtakes =
      rw (items, whole c d (y ∷ q) two a, record_first, take_valid_utf8_single (x ∷ []) (b, tt))
        (sym (map_bytes-append (y ∷ q) (x ∷ character_bytes)))
