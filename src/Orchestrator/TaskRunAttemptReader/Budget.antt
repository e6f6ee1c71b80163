-- ===== src/Orchestrator/TaskRunAttemptReader/Budget.antt =====
-- What a capture of single-byte text holds and has sent, and so what is recorded of any stream of it.
use flowlite.Base.{
  ℕ, zero, suc, ◌+◌, ◌-◌, ◌/◌, ◌≤◌, ◌<◌, ◌≡◌, refl, sym, ap, ◌∙◌, Bool, true, not, ◌&&◌, List, [],
  ◌∷◌, ◌++◌, append-nil, append_assoc, All-append, map, length, take, drop, length-append,
  length-take, length-drop, take-append, drop-append, drop-drop, take_all, drop_all, arith, ltb,
  leb, Bool-cases, inl, inr, if◌then◌else◌,
}
use flowlite.Orchestrator.TaskRunAttemptReader.{
  Stream, Content, text, over_budget, bytes_dropped, Chunk, StreamCapture, Reading, is_empty, send,
  and_then, hold, record_content, trim_to_tail, truncate_at_char_boundary,
}
use flowlite.Orchestrator.TaskRunAttemptReader.Whole.{never}
use flowlite.Orchestrator.TaskRunAttemptReader.SingleBytes.{
  AreSingle, truncate-eq-take, trim-eq-drop,
}

-- What is recorded, byte by byte, with the two sentences in their places.
pub data Item : Type 0 where
  byte : ℕ → Item
  over_budget_item : (max_bytes tail_bytes : ℕ) → Item
  bytes_dropped_item : ℕ → Item

abbrev pub items_of : Content → List Item
items_of (text bytes) = map byte bytes
items_of (over_budget m t) = over_budget_item m t ∷ []
items_of (bytes_dropped n) = bytes_dropped_item n ∷ []

abbrev pub items : List Chunk → List Item
items [] = []
items (c ∷ chunks) = items_of c.content ++ items chunks

pub items-append : (xs ys : List Chunk) → items (xs ++ ys) ≡ items xs ++ items ys
items-append [] ys = refl
items-append (c ∷ xs) ys =
    ap (λ t. items_of c.content ++ t) (items-append xs ys)
    ∙ sym (append_assoc (items_of c.content) (items xs) (items ys))

pub map_bytes-append : (xs ys : List ℕ) → map byte (xs ++ ys) ≡ map byte xs ++ map byte ys
map_bytes-append [] ys = refl
map_bytes-append (x ∷ xs) ys = ap (λ t. byte x ∷ t) (map_bytes-append xs ys)

abbrev pub head_bytes : ℕ → ℕ
head_bytes max = max / 2

abbrev pub rest_bytes : ℕ → ℕ
rest_bytes max = max - max / 2

-- The last bytes of a list.
abbrev pub last_bytes : ℕ → List ℕ → List ℕ
last_bytes n bytes = drop (length bytes - n) bytes

abbrev pub marker : ℕ → List ℕ → List Item
marker max t = if ltb max (length t) then over_budget_item max (rest_bytes max) ∷ [] else []

-- The reading when the text `t` has come.
pub record Holds (max : ℕ) (t : List ℕ) (r : Reading) : Type 0 where
  pub budget : r.capture.max_bytes ≡ max
  pub half : r.capture.tail_bytes ≡ rest_bytes max
  pub room : r.capture.head_room ≡ head_bytes max - length t
  pub behind : r.capture.tail ≡ last_bytes (rest_bytes max) (drop (head_bytes max) t)
  pub counted : r.capture.held ≡ length (drop (head_bytes max) t)
  pub over : r.capture.capped ≡ ltb max (length t)
  pub sent_items : items r.sent ≡ map byte (take (head_bytes max) t) ++ marker max t

-- The end of a list that has been cut before is the end of the whole list.
last_of_last :
    (n : ℕ) (xs ys : List ℕ) → last_bytes n (last_bytes n xs ++ ys) ≡ last_bytes n (xs ++ ys)
last_of_last n xs ys =
    let k = length xs - n in
    let z : k - length xs ≡ 0 = omega arith in
    let cut : drop k xs ++ ys ≡ drop k (xs ++ ys) =
      sym (drop-append k xs ys ∙ ap (λ m. drop k xs ++ drop m ys) z) in
    let l1 = length-append xs ys in
    let l2 = length-drop k (xs ++ ys) in
    let total : k + (length (drop k (xs ++ ys)) - n) ≡ length (xs ++ ys) - n =
      omega (arith, l1, l2) in
    ap (last_bytes n) cut
    ∙ drop-drop (length (drop k (xs ++ ys)) - n) k (xs ++ ys)
    ∙ ap (λ m. drop m (xs ++ ys)) total

All-drop : (n : ℕ) (xs : List ℕ) → AreSingle xs → AreSingle (drop n xs)
All-drop zero xs a = a
All-drop (suc n) [] a = a
All-drop (suc n) (x ∷ xs) a = All-drop n xs a.1

-- A part of the list that the cut `n` falls into or behind.
drop_more :
    (n : ℕ) (t content : List ℕ) → drop n (t ++ content) ≡ drop n t ++ drop (n - length t) content
drop_more n t content = drop-append n t content

module _ (stream : Stream) where
  -- `hold` in one equation.
  abbrev told : StreamCapture → Bool → List Chunk
  told c now =
      if now
      then record { stream = stream; content = over_budget c.max_bytes c.tail_bytes } ∷ []
      else []

  abbrev new_tail : List ℕ → StreamCapture → List ℕ
  new_tail rest c = trim_to_tail (c.tail ++ rest) c.tail_bytes

  abbrev now_over : List ℕ → StreamCapture → Bool
  now_over rest c = not c.capped && ltb (length (new_tail rest c)) (c.held + length rest)

  abbrev held_reading : List ℕ → Reading → Reading
  held_reading rest r = record {
    sent = r.sent ++ told r.capture (now_over rest r.capture);
    capture = record r.capture {
      held = r.capture.held + length rest;
      tail = new_tail rest r.capture;
      capped = if now_over rest r.capture then true else r.capture.capped;
    };
  }

  hold_lem : (rest : List ℕ) (r : Reading) → hold never stream rest r ≡ (true, held_reading rest r)
  unfolding hold
  hold_lem rest r = elim (Bool-cases (now_over rest r.capture)) [
    | inl e ↦ rw e refl
    | inr e ↦ rw (e, append-nil r.sent) refl
  ]

  -- The reading with the whole head sent, before `hold`.
  record HoldsHead (max : ℕ) (t content : List ℕ) (r : Reading) : Type 0 where
    budget : r.capture.max_bytes ≡ max
    half : r.capture.tail_bytes ≡ rest_bytes max
    room : r.capture.head_room ≡ head_bytes max - length (t ++ content)
    behind : r.capture.tail ≡ last_bytes (rest_bytes max) (drop (head_bytes max) t)
    counted : r.capture.held ≡ length (drop (head_bytes max) t)
    over : r.capture.capped ≡ ltb max (length t)
    sent_items : items r.sent ≡ map byte (take (head_bytes max) (t ++ content)) ++ marker max t

  module _ (max : ℕ) (t content : List ℕ) (a : AreSingle t) (b : AreSingle content) (r : Reading)
      (h : HoldsHead max t content r) where
    abbrev rest : List ℕ
    rest = drop (head_bytes max - length t) content

    new_tail_lem :
        new_tail rest r.capture ≡ last_bytes (rest_bytes max) (drop (head_bytes max) (t ++ content))
    new_tail_lem =
        let old = last_bytes (rest_bytes max) (drop (head_bytes max) t) in
        let single : AreSingle (old ++ rest) =
          All-append (λ x. x < 128) old rest
            (All-drop _ (drop (head_bytes max) t) (All-drop (head_bytes max) t a))
            (All-drop (head_bytes max - length t) content b) in
        rw (h.behind, h.half)
          (trim-eq-drop (old ++ rest) (rest_bytes max) single
            ∙ last_of_last (rest_bytes max) (drop (head_bytes max) t) rest
            ∙ ap (last_bytes (rest_bytes max)) (sym (drop_more (head_bytes max) t content)))

    held_lem : r.capture.held + length rest ≡ length (drop (head_bytes max) (t ++ content))
    held_lem =
        ap (λ n. n + length rest) h.counted
        ∙ sym (length-append (drop (head_bytes max) t) rest)
        ∙ ap length (sym (drop_more (head_bytes max) t content))

    over_lem :
        now_over rest r.capture ≡ (not (ltb max (length t)) && ltb max (length (t ++ content)))
    over_lem =
        let l1 = length-drop (head_bytes max) (t ++ content) in
        let l2 =
          length-drop (length (drop (head_bytes max) (t ++ content)) - rest_bytes max)
            (drop (head_bytes max) (t ++ content)) in
        rw (h.over, new_tail_lem, held_lem) (ground (arith, l1, l2))

    marker_step :
        marker max t ++ items (told r.capture (now_over rest r.capture)) ≡ marker max (t ++ content)
    marker_step =
        let l = length-append t content in
        rw over_lem (elim (Bool-cases (ltb max (length t))) [
          | inl e ↦
              let f : ltb max (length (t ++ content)) ≡ true = ground (arith, l, e) in
              rw (e, f) refl
          | inr e ↦ elim (Bool-cases (ltb max (length (t ++ content)))) [
            | inl f ↦ rw (e, f, h.budget, h.half) refl
            | inr f ↦ rw (e, f) refl
          ]
        ])

    hold-Holds : Holds max (t ++ content) (held_reading rest r)
    hold-Holds = record {
      budget = h.budget;
      half = h.half;
      room = h.room;
      behind = new_tail_lem;
      counted = held_lem;
      over = rw (over_lem, h.over) (ground (arith, length-append t content));
      sent_items =
          items-append r.sent (told r.capture (now_over rest r.capture))
          ∙ ap (λ x. x ++ items (told r.capture (now_over rest r.capture))) h.sent_items
          ∙ append_assoc (map byte (take (head_bytes max) (t ++ content))) (marker max t) _
          ∙ ap (λ x. map byte (take (head_bytes max) (t ++ content)) ++ x) marker_step;
    }

  module _ (max : ℕ) (t content : List ℕ) (a : AreSingle t) (b : AreSingle content) (r : Reading)
      (h : Holds max t r) where
    abbrev head_text : List ℕ
    head_text = take (head_bytes max - length t) content

    sent_head :
        (chunks : List Chunk)
        → items chunks ≡ map byte head_text
        → items (r.sent ++ chunks) ≡ map byte (take (head_bytes max) (t ++ content)) ++ marker max t
    sent_head chunks e =
        let before = take (head_bytes max) t in
        items-append r.sent chunks
        ∙ ap (λ x. x ++ items chunks) h.sent_items
        ∙ rw (e, take-append (head_bytes max) t content, map_bytes-append before head_text)
            (elim (Bool-cases (ltb max (length t))) [
              | inl f ↦
                  let none_left : head_bytes max - length t ≡ 0 = ground arith in
                  rw (f, none_left, append-nil (map byte before)) (append-nil _)
              | inr f ↦
                  rw (f, append-nil (map byte before))
                    (sym (append-nil (map byte before ++ map byte head_text)))
            ])

    -- The whole text is within the head.
    all_sent-Holds :
        length content ≤ r.capture.head_room
        → Holds max (t ++ content) (record {
          sent = r.sent ++ record { stream = stream; content = text content } ∷ [];
          capture = record r.capture { head_room = r.capture.head_room - length content };
        })
    all_sent-Holds fits =
        let whole : head_text ≡ content = take_all _ content (omega (arith, h.room, fits)) in
        let nothing : drop (head_bytes max - length t) content ≡ [] =
          drop_all _ content (omega (arith, h.room, fits)) in
        let same : drop (head_bytes max) (t ++ content) ≡ drop (head_bytes max) t =
          drop_more (head_bytes max) t content
          ∙ ap (λ x. drop (head_bytes max) t ++ x) nothing
          ∙ append-nil (drop (head_bytes max) t) in
        let over_same : ltb max (length t) ≡ ltb max (length (t ++ content)) =
          ground (arith, h.room, length-append t content) in
        record {
          budget = h.budget;
          half = h.half;
          room = omega (arith, h.room, length-append t content);
          behind = rw same h.behind;
          counted = rw same h.counted;
          over = h.over ∙ over_same;
          sent_items =
              sent_head (record { stream = stream; content = text content } ∷ [])
                (append-nil (map byte content) ∙ ap (map byte) (sym whole))
              ∙ rw over_same refl;
        }

    head_sent-HoldsHead :
        (chunks : List Chunk) (n : ℕ)
        → items chunks ≡ map byte head_text
        → n ≡ head_bytes max - length t
        → n ≤ length content
        → HoldsHead max t content (record {
          sent = r.sent ++ chunks;
          capture = record r.capture { head_room = r.capture.head_room - n };
        })
    head_sent-HoldsHead chunks n e size long = record {
      budget = h.budget;
      half = h.half;
      room = omega (arith, h.room, length-append t content, size);
      behind = h.behind;
      counted = h.counted;
      over = h.over;
      sent_items = sent_head chunks e;
    }

  -- What a call leaves: it went well, and the text is held.
  abbrev pub Leaves : (max : ℕ) → List ℕ → Bool × Reading → Type 0
  Leaves max t (alive, r) = (alive ≡ true) × Holds max t r

  module _ (max : ℕ) (t content : List ℕ) (a : AreSingle t) (b : AreSingle content) (r : Reading)
      (h : Holds max t r) where
    hold-Leaves :
        (n : ℕ) (r' : Reading)
        → n ≡ head_bytes max - length t
        → HoldsHead max t content r'
        → Leaves max (t ++ content) (hold never stream (drop n content) r')
    hold-Leaves n r' e g =
        rw (e, hold_lem (drop (head_bytes max - length t) content) r')
          (refl, hold-Holds max t content a b r' g)

    -- The head is full with this content, or was full before.
    beyond-Leaves :
        (head : List ℕ)
        → head ≡ take (head_bytes max - length t) content
        → length head ≡ head_bytes max - length t
        → head_bytes max - length t ≤ length content
        → Leaves max (t ++ content) (
            and_then never stream
              (if is_empty head
                then (true, r)
                else send never stream (text head) (record r {
                  capture = record r.capture { head_room = r.capture.head_room - length head };
                }))
              (hold never stream (drop (length head) content)))
    beyond-Leaves [] e size long = hold-Leaves 0 r size (record {
      budget = h.budget;
      half = h.half;
      room = omega (arith, h.room, length-append t content, size);
      behind = h.behind;
      counted = h.counted;
      over = h.over;
      sent_items =
          ap items (sym (append-nil r.sent)) ∙ sent_head max t content a b r h [] (ap (map byte) e);
    })
    beyond-Leaves (x ∷ head) e size long = hold-Leaves (length (x ∷ head)) _ size (
        head_sent-HoldsHead max t content a b r h
          (record { stream = stream; content = text (x ∷ head) } ∷ []) (length (x ∷ head))
          (append-nil (map byte (x ∷ head)) ∙ ap (map byte) e) size (omega (arith, long, size)))

    pub record_content-Leaves : Leaves max (t ++ content) (record_content never stream content r)
    unfolding record_content
    record_content-Leaves = elim (Bool-cases (leb (length content) r.capture.head_room)) [
      | inl e ↦ rw e (refl, all_sent-Holds max t content a b r h (ground arith))
      | inr e ↦
          let n = head_bytes max - length t in
          let long : n ≤ length content = ground (arith, e, h.room) in
          let cut : truncate_at_char_boundary content r.capture.head_room ≡ take n content =
            truncate-eq-take content r.capture.head_room b ∙ ap (λ m. take m content) h.room in
          rw (e, cut)
            (beyond-Leaves (take n content) refl (length-take n content ∙ omega (arith, long)) long)
    ]
