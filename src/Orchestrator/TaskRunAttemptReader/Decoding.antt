-- ===== src/Orchestrator/TaskRunAttemptReader/Decoding.antt =====
-- How the reads split the stream makes no difference to the text.
use flowlite.Base.{
  ℕ, zero, suc, ◌+◌, ◌-◌, ◌≤◌, ◌<◌, ◌≡◌, refl, sym, ap, ◌∙◌, subst, Bool, true, false, none, some,
  List, [], ◌∷◌, ◌++◌, append_assoc, length, take, drop, length-drop, arith, Bool-cases, inl, inr,
}
use flowlite.Orchestrator.TaskRunAttemptReader.{take_valid_from, take_valid_utf8}
use flowlite.Orchestrator.TaskRunAttemptReader.Utf8.{
  Sequence, character, invalid, incomplete, width, second_fits, is_continuation, continued, second,
  announced, sequence, Utf8Result, valid, broken, later, from_utf8, from_utf8_at, replacement,
}

-- Text in front of what has been read.
abbrev pub put : List ℕ → List ℕ × List ℕ → List ℕ × List ℕ
put text (more, carry) = (text ++ more, carry)

abbrev kept : Bool → ℕ → List ℕ
kept true b = b ∷ []
kept false b = []

-- The lossy reading of bytes, one byte at a time: the text, and the bytes of a character that the end
-- cuts off. `n` bytes are left of a character, or of bytes that are replaced already.
unfoldable pub decode : Bool → ℕ → List ℕ → List ℕ × List ℕ
decode keep n [] = ([], [])
decode keep (suc n) (b ∷ bytes) = put (kept keep b) (decode keep n bytes)
decode keep zero (b ∷ bytes) = elim (sequence (b ∷ bytes)) [
  | character k ↦ put (b ∷ []) (decode true (k - 1) bytes)
  | invalid k ↦ put replacement (decode false (k - 1) bytes)
  | incomplete ↦ ([], b ∷ bytes)
]

-- How many bytes a sequence takes.
abbrev size : Sequence → ℕ
size (character n) = n
size (invalid n) = n
size incomplete = 1

continued-size :
    (wanted taken : ℕ) (bytes : List ℕ)
    → 1 ≤ taken
    → (1 ≤ size (continued wanted taken bytes))
      × (size (continued wanted taken bytes) ≤ taken + length bytes)
unfolding continued
continued-size zero taken bytes h = (h, omega arith)
continued-size (suc n) taken [] h = (omega arith, omega arith)
continued-size (suc n) taken (b ∷ bytes) h = ground (arith, continued-size n (suc taken) bytes)

sequence-size :
    (b : ℕ) (bytes : List ℕ)
    → (1 ≤ size (sequence (b ∷ bytes))) × (size (sequence (b ∷ bytes)) ≤ suc (length bytes))
unfolding sequence
sequence-size b bytes = announced_size (width b) bytes
  where
    second_size :
        (more : ℕ) (bytes : List ℕ)
        → (1 ≤ size (second b more bytes)) × (size (second b more bytes) ≤ suc (length bytes))
    second_size more [] = (omega arith, omega arith)
    second_size more (b1 ∷ bytes) = ground (arith, continued-size more 2 bytes)

    announced_size :
        (w : ℕ) (bytes : List ℕ)
        → (1 ≤ size (announced w b bytes)) × (size (announced w b bytes) ≤ suc (length bytes))
    announced_size zero bytes = (omega arith, omega arith)
    announced_size (suc zero) bytes = (omega arith, omega arith)
    announced_size (suc (suc more)) bytes = second_size more bytes

-- What is decided is decided, whatever bytes follow.
abbrev StaysDecided : Sequence → Sequence → Type 0
StaysDecided incomplete t = Unit
StaysDecided s t = t ≡ s

continued-append :
    (wanted taken : ℕ) (bytes more : List ℕ)
    → StaysDecided (continued wanted taken bytes) (continued wanted taken (bytes ++ more))
unfolding continued
continued-append zero taken bytes more = refl
continued-append (suc n) taken [] more = tt
continued-append (suc n) taken (b ∷ bytes) more = elim (Bool-cases (is_continuation b)) [
  | inl e ↦ rw e (continued-append n (suc taken) bytes more)
  | inr e ↦ rw e refl
]

sequence-append :
    (b : ℕ) (bytes more : List ℕ)
    → StaysDecided (sequence (b ∷ bytes)) (sequence (b ∷ bytes ++ more))
unfolding sequence
sequence-append b bytes more = by_width (width b) bytes
  where
    by_second :
        (n : ℕ) (bytes : List ℕ) → StaysDecided (second b n bytes) (second b n (bytes ++ more))
    by_second n [] = tt
    by_second n (b1 ∷ bytes) = elim (Bool-cases (second_fits b b1)) [
      | inl e ↦ rw e (continued-append n 2 bytes more)
      | inr e ↦ rw e refl
    ]

    by_width :
        (w : ℕ) (bytes : List ℕ)
        → StaysDecided (announced w b bytes) (announced w b (bytes ++ more))
    by_width zero bytes = refl
    by_width (suc zero) bytes = refl
    by_width (suc (suc n)) bytes = by_second n bytes

put-put : (xs ys : List ℕ) (p : List ℕ × List ℕ) → put xs (put ys p) ≡ put (xs ++ ys) p
put-put xs ys (t, c) = ap (λ (z : List ℕ). (z, c)) (sym (append_assoc xs ys t))

any_keep : (keep : Bool) (bytes : List ℕ) → decode keep 0 bytes ≡ decode true 0 bytes
unfolding decode
any_keep keep [] = refl
any_keep keep (b ∷ bytes) = refl

module _ (keep : Bool) (b : ℕ) (bytes : List ℕ) where
  pub decode_character :
      (k : ℕ)
      → sequence (b ∷ bytes) ≡ character k
      → decode keep 0 (b ∷ bytes) ≡ put (b ∷ []) (decode true (k - 1) bytes)
  unfolding decode
  decode_character k e = rw (e, decode) refl

  decode_invalid :
      (k : ℕ)
      → sequence (b ∷ bytes) ≡ invalid k
      → decode keep 0 (b ∷ bytes) ≡ put replacement (decode false (k - 1) bytes)
  unfolding decode
  decode_invalid k e = rw (e, decode) refl

  decode_incomplete :
      sequence (b ∷ bytes) ≡ incomplete → decode keep 0 (b ∷ bytes) ≡ ([], b ∷ bytes)
  unfolding decode
  decode_incomplete e = rw (e, decode) refl

size_of :
    (b : ℕ) (bytes : List ℕ) (s : Sequence) → sequence (b ∷ bytes) ≡ s → size s - 1 ≤ length bytes
size_of b bytes s e =
    let h : size (sequence (b ∷ bytes)) ≤ suc (length bytes) = (sequence-size b bytes).1 in
    omega (arith, ap size e)

stays :
    (b : ℕ) (bytes more : List ℕ) (s : Sequence)
    → sequence (b ∷ bytes) ≡ s
    → StaysDecided s (sequence (b ∷ bytes ++ more))
stays b bytes more s e =
    subst (λ x. StaysDecided x (sequence (b ∷ bytes ++ more))) e (sequence-append b bytes more)

-- Decoding goes on where it stopped, from what was carried.
abbrev Resumes : Bool → ℕ → List ℕ → List ℕ → Type 0
Resumes keep n bytes more =
    decode keep n (bytes ++ more)
    ≡ put (decode keep n bytes).0 (decode true 0 ((decode keep n bytes).1 ++ more))

module _ (keep : Bool) (b : ℕ) (bytes more : List ℕ) where
  Resumes-at :
      (s : Sequence)
      → sequence (b ∷ bytes) ≡ s
      → ((keep : Bool) (n : ℕ) → n ≤ length bytes → Resumes keep n bytes more)
      → Resumes keep 0 (b ∷ bytes) more
  Resumes-at (character k) e ih =
      rw
        (
          decode_character keep b bytes k e,
          decode_character keep b (bytes ++ more) k (stays b bytes more _ e),
        )
        (ap (put (b ∷ [])) (ih true (k - 1) (size_of b bytes _ e))
          ∙ put-put (b ∷ []) (decode true (k - 1) bytes).0 _)
  Resumes-at (invalid k) e ih =
      rw
        (
          decode_invalid keep b bytes k e,
          decode_invalid keep b (bytes ++ more) k (stays b bytes more _ e),
        )
        (ap (put replacement) (ih false (k - 1) (size_of b bytes _ e))
          ∙ put-put replacement (decode false (k - 1) bytes).0 _)
  Resumes-at incomplete e ih =
      rw (decode_incomplete keep b bytes e) (any_keep keep (b ∷ bytes ++ more))

Resumes-empty : (keep : Bool) (more : List ℕ) → Resumes keep 0 [] more
unfolding decode
Resumes-empty keep more = any_keep keep more

Resumes-inside :
    (keep : Bool) (n b : ℕ) (bytes more : List ℕ)
    → Resumes keep n bytes more
    → Resumes keep (suc n) (b ∷ bytes) more
unfolding decode
Resumes-inside keep n b bytes more ih =
    ap (put (kept keep b)) ih
    ∙ put-put (kept keep b) (decode keep n bytes).0
        (decode true 0 ((decode keep n bytes).1 ++ more))

pub decode-append :
    (keep : Bool) (n : ℕ) (bytes more : List ℕ) → n ≤ length bytes → Resumes keep n bytes more
decode-append keep zero [] more h = Resumes-empty keep more
decode-append keep (suc n) [] more h = absurd (omega arith)
decode-append keep (suc n) (b ∷ bytes) more h =
    Resumes-inside keep n b bytes more (decode-append keep n bytes more (omega arith))
decode-append keep zero (b ∷ bytes) more h =
    Resumes-at keep b bytes more (sequence (b ∷ bytes)) refl
      (λ keep' n fits. decode-append keep' n bytes more fits)

decode-false : (n : ℕ) (bytes : List ℕ) → decode false n bytes ≡ decode true 0 (drop n bytes)
unfolding decode
decode-false zero bytes = any_keep false bytes
decode-false (suc n) [] = refl
decode-false (suc n) (b ∷ bytes) = decode-false n bytes

-- What an answer of `from_utf8` tells of the lossy reading.
abbrev told : Utf8Result → List ℕ → List ℕ × List ℕ
told valid bytes = (bytes, [])
told (broken up_to none) bytes = (take up_to bytes, drop up_to bytes)
told (broken up_to (some k)) bytes =
    put (take up_to bytes ++ replacement) (decode true 0 (drop (up_to + k) bytes))

told-later :
    (b : ℕ) (bytes : List ℕ) (r : Utf8Result)
    → told (later r) (b ∷ bytes) ≡ put (b ∷ []) (told r bytes)
told-later b bytes valid = refl
told-later b bytes (broken u none) = refl
told-later b bytes (broken u (some k)) = let e : suc u + k ≡ suc (u + k) = omega arith in rw e refl

-- An error has at least one byte, and a text with an error is not empty.
abbrev HasLength : Utf8Result → Type 0
HasLength valid = Unit
HasLength (broken u none) = Unit
HasLength (broken u (some k)) = 1 ≤ k

later-HasLength : (r : Utf8Result) → HasLength r → HasLength (later r)
later-HasLength valid h = tt
later-HasLength (broken u none) h = tt
later-HasLength (broken u (some k)) h = h

invalid_length : (b : ℕ) (bytes : List ℕ) (k : ℕ) → sequence (b ∷ bytes) ≡ invalid k → 1 ≤ k
invalid_length b bytes k e =
    let h : 1 ≤ size (sequence (b ∷ bytes)) = (sequence-size b bytes).0 in omega (arith, ap size e)

abbrev IsTold : ℕ → List ℕ → Type 0
IsTold n bytes =
    (decode true n bytes ≡ told (from_utf8_at n bytes) bytes) × HasLength (from_utf8_at n bytes)

module _ (b : ℕ) (bytes : List ℕ) where
  IsTold-next :
      (s : Sequence)
      → sequence (b ∷ bytes) ≡ s
      → ((n : ℕ) → n ≤ length bytes → IsTold n bytes)
      → IsTold 0 (b ∷ bytes)
  unfolding from_utf8_at
  IsTold-next (character k) e ih =
      let (same, long) = ih (k - 1) (size_of b bytes _ e) in
      rw (e, from_utf8_at)
        (
          decode_character true b bytes k e
              ∙ ap (put (b ∷ [])) same
              ∙ sym (told-later b bytes (from_utf8_at (k - 1) bytes)),
          later-HasLength (from_utf8_at (k - 1) bytes) long,
        )
  IsTold-next (invalid k) e ih =
      rw (e, from_utf8_at)
        (
          decode_invalid true b bytes k e
              ∙ ap (put replacement) (replaced k (invalid_length b bytes k e)),
          invalid_length b bytes k e,
        )
    where
      replaced :
          (k : ℕ) → 1 ≤ k → decode false (k - 1) bytes ≡ decode true 0 (drop (0 + k) (b ∷ bytes))
      replaced zero h = absurd (omega arith)
      replaced (suc k) h =
          let e : suc k - 1 ≡ k = omega arith in
          let f : 0 + suc k ≡ suc k = omega arith in rw (e, f) (decode-false k bytes)
  IsTold-next incomplete e ih = rw (e, from_utf8_at) (decode_incomplete true b bytes e, tt)

IsTold-inside : (n b : ℕ) (bytes : List ℕ) → IsTold n bytes → IsTold (suc n) (b ∷ bytes)
unfolding decode from_utf8_at
IsTold-inside n b bytes ih = (
  ap (put (b ∷ [])) ih.0 ∙ sym (told-later b bytes (from_utf8_at n bytes)),
  later-HasLength (from_utf8_at n bytes) ih.1,
)

from_utf8_at-IsTold : (n : ℕ) (bytes : List ℕ) → n ≤ length bytes → IsTold n bytes
from_utf8_at-IsTold zero [] h = told_empty
  where
    told_empty : IsTold 0 []
    told_empty = unfold decode from_utf8_at in (refl, tt)
from_utf8_at-IsTold (suc n) [] h = absurd (omega arith)
from_utf8_at-IsTold (suc n) (b ∷ bytes) h =
    IsTold-inside n b bytes (from_utf8_at-IsTold n bytes (omega arith))
from_utf8_at-IsTold zero (b ∷ bytes) h =
    IsTold-next b bytes (sequence (b ∷ bytes)) refl (λ n fits. from_utf8_at-IsTold n bytes fits)

-- What `from_utf8` answers tells of the lossy reading.
from_utf8-told :
    (rest : List ℕ) (r : Utf8Result)
    → from_utf8 rest ≡ r
    → (decode true 0 rest ≡ told r rest) × HasLength r
unfolding from_utf8
from_utf8-told rest r e =
    subst (λ x. (decode true 0 rest ≡ told x rest) × HasLength x) e
      (from_utf8_at-IsTold 0 rest (omega arith))

-- An error leaves fewer bytes.
shorter :
    (rest : List ℕ) (u k : ℕ)
    → from_utf8 rest ≡ broken u (some k)
    → 1 ≤ k
    → length (drop (u + k) rest) < length rest
unfolding from_utf8 from_utf8_at
shorter [] u k e h = absurd (cc)
shorter (b ∷ rest) u k e h = omega (arith, length-drop (u + k) (b ∷ rest))

round :
    (fuel : ℕ) (content rest : List ℕ) (r : Utf8Result)
    → from_utf8 rest ≡ r
    → ((more next : List ℕ)
        → length next < fuel
        → take_valid_from fuel more next ≡ put more (decode true 0 next))
    → length rest < suc fuel
    → take_valid_from (suc fuel) content rest ≡ put content (decode true 0 rest)
unfolding take_valid_from
round fuel content rest valid e ih h =
    rw (e, take_valid_from) (ap (put content) (sym (from_utf8-told rest valid e).0))
round fuel content rest (broken u none) e ih h =
    rw (e, take_valid_from) (ap (put content) (sym (from_utf8-told rest (broken u none) e).0))
round fuel content rest (broken u (some k)) e ih h =
    let (same, long) = from_utf8-told rest (broken u (some k)) e in
    let fewer : length (drop (u + k) rest) < length rest = shorter rest u k e long in
    rw (e, take_valid_from)
      (ih (content ++ (take u rest ++ replacement)) (drop (u + k) rest) (omega arith)
        ∙ sym (put-put content (take u rest ++ replacement) (decode true 0 (drop (u + k) rest)))
        ∙ ap (put content) (sym same))

-- The loop of `take_valid_utf8` reads its bytes lossily, and the fuel is enough.
take_valid_from-eq-decode :
    (fuel : ℕ) (content rest : List ℕ)
    → length rest < fuel
    → take_valid_from fuel content rest ≡ put content (decode true 0 rest)
take_valid_from-eq-decode zero content rest h = absurd (omega arith)
take_valid_from-eq-decode (suc fuel) content rest h =
    round fuel content rest (from_utf8 rest) refl
      (λ more next shorter. take_valid_from-eq-decode fuel more next shorter) h

-- `take_valid_utf8` is the lossy reading of what it is given.
pub take_valid_utf8-eq-decode : (carry : List ℕ) → take_valid_utf8 carry ≡ decode true 0 carry
unfolding take_valid_utf8
take_valid_utf8-eq-decode carry =
    take_valid_from-eq-decode (suc (length carry)) [] carry (omega arith)
