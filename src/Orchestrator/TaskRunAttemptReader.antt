-- ===== src/Orchestrator/TaskRunAttemptReader.antt =====
-- src/orchestrator/task_run_attempt_reader.rs. A string is the list of its bytes.
pub mod Utf8
pub mod Decoding
pub mod Whole
pub mod SingleBytes
pub mod Budget
pub mod Recorded
pub mod Overtaking
use flowlite.Base.{
  ℕ, zero, suc, ◌+◌, ◌-◌, ◌/◌, Bool, true, false, not, ◌&&◌, Option, none, some, List, [], ◌∷◌,
  ◌++◌, length, take, drop, ltb, leb, if◌then◌else◌,
}
use flowlite.Orchestrator.TaskRunAttemptReader.Utf8.{
  Utf8Result, valid, broken, from_utf8, is_char_boundary, replacement,
}

-- The loop of `take_valid_utf8` over what is not consumed yet: the text so far and what is carried.
-- Each round but the last consumes a byte, so the fuel is one more than the bytes.
unfoldable pub take_valid_from : ℕ → List ℕ → List ℕ → List ℕ × List ℕ
unfolding from_utf8
take_valid_from zero content rest = (content, rest)
take_valid_from (suc fuel) content rest = elim (from_utf8 rest) [
  | valid ↦ (content ++ rest, [])
  | broken up_to error_len ↦ elim error_len [
    | none ↦ (content ++ take up_to rest, drop up_to rest)
    | some invalid_len ↦
        take_valid_from fuel (content ++ (take up_to rest ++ replacement))
          (drop (up_to + invalid_len) rest)
  ]
]

unfoldable pub take_valid_utf8 : List ℕ → List ℕ × List ℕ
unfolding take_valid_from
take_valid_utf8 carry = take_valid_from (suc (length carry)) [] carry

pub data Stream : Type 0 where
  stdout stderr : Stream

-- What is sent: text of the command, or one of the two sentences, by the numbers that it tells.
pub data Content : Type 0 where
  text : List ℕ → Content
  over_budget : (max_bytes tail_bytes : ℕ) → Content
  bytes_dropped : ℕ → Content

pub record Chunk : Type 0 where
  pub stream : Stream
  pub content : Content

pub record StreamCapture : Type 0 where
  pub max_bytes : ℕ
  pub head_room : ℕ
  pub tail_bytes : ℕ
  pub tail : List ℕ
  pub held : ℕ
  pub capped : Bool

-- `StreamCapture::new`
unfoldable pub new_capture : ℕ → StreamCapture
new_capture max_stream_bytes = record {
  max_bytes = max_stream_bytes;
  head_room = max_stream_bytes / 2;
  tail_bytes = max_stream_bytes - max_stream_bytes / 2;
  tail = [];
  held = 0;
  capped = false;
}

-- `for i in cut_at..=len, the first boundary`
unfoldable pub boundary_from : ℕ → ℕ → List ℕ → ℕ
unfolding is_char_boundary
boundary_from zero i tail = length tail
boundary_from (suc n) i tail =
    let next = boundary_from n (i + 1) tail in if is_char_boundary i tail then i else next

unfoldable pub trim_to_tail : List ℕ → ℕ → List ℕ
unfolding boundary_from
trim_to_tail tail max =
    if leb (length tail) max
    then tail
    else let cut_at = length tail - max in
      drop (boundary_from (length tail + 1 - cut_at) cut_at tail) tail

-- `while end > 0 && !is_char_boundary(end) { end -= 1 }`
unfoldable pub boundary_before : ℕ → List ℕ → ℕ
unfolding is_char_boundary
boundary_before zero content = 0
boundary_before (suc i) content =
    let next = boundary_before i content in
    if not (is_char_boundary (suc i) content) then next else suc i

unfoldable pub truncate_at_char_boundary : List ℕ → ℕ → List ℕ
unfolding boundary_before
truncate_at_char_boundary content max =
    if leb (length content) max then content else take (boundary_before max content) content

-- What has gone through the channel, and the capture.
pub record Reading : Type 0 where
  pub sent : List Chunk
  pub capture : StreamCapture

abbrev pub is_empty : List ℕ → Bool
is_empty [] = true
is_empty (b ∷ bytes) = false

-- `gone n` says whether the receiver is gone when `n` chunks have been sent. A Boolean result is
-- whether the call is `Ok`.
module _ (gone : ℕ → Bool) (stream : Stream) where
  abbrev pub send : Content → Reading → Bool × Reading
  send c r =
      if gone (length r.sent)
      then (false, r)
      else (true, record r { sent = r.sent ++ record { stream = stream; content = c } ∷ [] })

  abbrev pub and_then : Bool × Reading → (Reading → Bool × Reading) → Bool × Reading
  and_then (true, r) next = next r
  and_then (false, r) next = (false, r)

  -- The last part of `record`, from `rest` on.
  unfoldable pub hold : List ℕ → Reading → Bool × Reading
  hold rest r =
      let c = r.capture in
      let held = c.held + length rest in
      let tail = trim_to_tail (c.tail ++ rest) c.tail_bytes in
      if not c.capped && ltb (length tail) held
      then send (over_budget c.max_bytes c.tail_bytes)
          (record r { capture = record c { held = held; tail = tail; capped = true } })
      else (true, record r { capture = record c { held = held; tail = tail } })

  -- `record`
  unfoldable pub record_content : List ℕ → Reading → Bool × Reading
  record_content content r =
      let c = r.capture in
      let head = truncate_at_char_boundary content c.head_room in
      let spent = record r { capture = record c { head_room = c.head_room - length head } } in
      if leb (length content) c.head_room
      then send (text content)
          (record r { capture = record c { head_room = c.head_room - length content } })
      else and_then (if is_empty head then (true, r) else send (text head) spent)
          (hold (drop (length head) content))

  unfoldable pub flush_tail : Reading → Reading
  flush_tail r =
      let c = r.capture in
      let marked =
        (if c.capped then send (bytes_dropped (c.held - length c.tail)) r else (true, r)).1 in
      if not (is_empty c.tail) then (send (text c.tail) marked).1 else marked

  -- What comes after the loop.
  unfoldable pub finish : List ℕ → Reading → Reading
  unfolding record_content flush_tail
  finish [] r = flush_tail r
  finish (b ∷ carry) r =
      let (alive, r') = record_content replacement r in if alive then flush_tail r' else r'

  -- The loop, over what each `read` gives, up to the one that gives nothing or fails.
  unfoldable pub read_from : List (List ℕ) → List ℕ → Reading → Reading
  unfolding take_valid_utf8 record_content finish
  read_from [] carry r = finish carry r
  read_from (bytes ∷ reads) carry r =
      let (content, carried) = take_valid_utf8 (carry ++ bytes) in
      let (alive, r') = if is_empty content then (true, r) else record_content content r in
      let rest = read_from reads carried r' in if alive then rest else r'

  -- `read_task_run_attempt_stream`: what it sends.
  unfoldable pub read_task_run_attempt_stream : ℕ → List (List ℕ) → List Chunk
  unfolding read_from new_capture
  read_task_run_attempt_stream max_stream_bytes reads =
      (read_from reads [] (record { sent = []; capture = new_capture max_stream_bytes })).sent
