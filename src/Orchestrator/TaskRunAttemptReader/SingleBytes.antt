-- ===== src/Orchestrator/TaskRunAttemptReader/SingleBytes.antt =====
-- Text whose characters are single bytes: it is cut at any byte.
use flowlite.Base.{
  ℕ, zero, suc, ◌+◌, ◌-◌, ◌≤◌, ◌<◌, ◌≡◌, refl, sym, ap, ◌∙◌, true, List, [], ◌∷◌, ◌++◌, append-nil,
  All, length, take, drop, take_all, arith, leb, ◌==◌, nat_Column, Bool-cases, inl, inr,
}
use flowlite.Orchestrator.TaskRunAttemptReader.{
  boundary_from, boundary_before, trim_to_tail, truncate_at_char_boundary, take_valid_utf8,
}
use flowlite.Orchestrator.TaskRunAttemptReader.Utf8.{character, sequence, is_char_boundary, begins}
use flowlite.Orchestrator.TaskRunAttemptReader.Decoding.{
  put, decode, decode_character, take_valid_utf8-eq-decode,
}

abbrev pub AreSingle : List ℕ → Type 0
AreSingle = All (λ b. b < 128)

single-boundary :
    (i : ℕ) (bytes : List ℕ) → AreSingle bytes → i ≤ length bytes → is_char_boundary i bytes ≡ true
unfolding is_char_boundary
single-boundary i bytes a h = elim (Bool-cases (i == 0)) [
  | inl e ↦ rw e refl
  | inr e ↦ rw e (at_byte i bytes (length bytes) a h (omega arith))
]
  where
    at_byte :
        (j : ℕ) (rest : List ℕ) (size : ℕ)
        → AreSingle rest
        → j ≤ length rest
        → i + length rest ≡ size + j
        → begins i size (drop j rest) ≡ true
    at_byte zero [] size s g e = ground (arith, e)
    at_byte (suc j) [] size s g e = absurd (omega arith)
    at_byte zero (b ∷ rest) size s g e = ground (arith, s.0)
    at_byte (suc j) (b ∷ rest) size s g e = at_byte j rest size s.1 (omega arith) (omega (arith, e))

pub truncate-eq-take :
    (content : List ℕ) (max : ℕ)
    → AreSingle content
    → truncate_at_char_boundary content max ≡ take max content
unfolding truncate_at_char_boundary
truncate-eq-take content max a = elim (Bool-cases (leb (length content) max)) [
  | inl e ↦ rw e (sym (take_all max content (ground arith)))
  | inr e ↦ rw e (ap (λ n. take n content) (stays max (ground arith)))
]
  where
    stays : (n : ℕ) → n ≤ length content → boundary_before n content ≡ n
    stays zero h = refl
    stays (suc n) h = rw (single-boundary (suc n) content a h) refl

pub trim-eq-drop :
    (tail : List ℕ) (max : ℕ)
    → AreSingle tail
    → trim_to_tail tail max ≡ drop (length tail - max) tail
unfolding trim_to_tail
trim-eq-drop tail max a = elim (Bool-cases (leb (length tail) max)) [
  | inl e ↦ let z : length tail - max ≡ 0 = ground arith in rw (e, z) refl
  | inr e ↦ rw e (
      ap (λ n. drop n tail)
        (at_once (length tail + 1 - (length tail - max)) (length tail - max) (omega arith)
          (omega arith)))
]
  where
    at_once : (n i : ℕ) → 1 ≤ n → i ≤ length tail → boundary_from n i tail ≡ i
    at_once zero i h g = absurd (omega arith)
    at_once (suc n) i h g = rw (single-boundary i tail a g) refl

sequence_single : (b : ℕ) (bytes : List ℕ) → b < 128 → sequence (b ∷ bytes) ≡ character 1
unfolding sequence
sequence_single b bytes h = ground arith

pub decode_single :
    (bytes more : List ℕ)
    → AreSingle bytes
    → decode true 0 (bytes ++ more) ≡ put bytes (decode true 0 more)
decode_single [] more a = refl
decode_single (b ∷ bytes) more a =
    decode_character true b (bytes ++ more) 1 (sequence_single b (bytes ++ more) a.0)
    ∙ ap (put (b ∷ [])) (decode_single bytes more a.1)

pub take_valid_utf8_single :
    (bytes : List ℕ) → AreSingle bytes → take_valid_utf8 bytes ≡ (bytes, [])
unfolding decode
take_valid_utf8_single bytes a =
    take_valid_utf8-eq-decode bytes
    ∙ ap (decode true 0) (sym (append-nil bytes))
    ∙ decode_single bytes [] a
    ∙ ap (λ t. (t, [])) (append-nil bytes)
