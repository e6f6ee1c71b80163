-- ===== src/Orchestrator/TaskRunAttemptReader/Utf8.antt =====
-- `std::str::from_utf8` and `str::is_char_boundary` on lists of bytes: a string is its bytes.
use flowlite.Base.{
  ℕ, zero, suc, ◌-◌, Bool, true, not, ◌&&◌, Option, none, some, List, [], ◌∷◌, ltb, leb, length,
  drop, ◌==◌, nat_Column, if◌then◌else◌,
}

-- What the next character of a list of bytes is: so many bytes that are one, so many that are none, or
-- the list ends inside it.
pub data Sequence : Type 0 where
  character invalid : ℕ → Sequence
  incomplete : Sequence

-- A byte 10xxxxxx.
abbrev pub is_continuation : ℕ → Bool
is_continuation b = leb 128 b && ltb b 192

-- How many bytes the first byte announces, 0 if it announces none.
abbrev pub width : ℕ → ℕ
width b =
    if ltb b 128
    then 1
    else if ltb b 194
    then 0
    else if ltb b 224
    then 2
    else if ltb b 240
    then 3
    else if ltb b 245
    then 4
    else 0

-- No overlong form, no surrogate, and nothing above U+10FFFF.
abbrev pub second_fits : ℕ → ℕ → Bool
second_fits b0 b1 =
    if b0 == 224
    then leb 160 b1 && ltb b1 192
    else if b0 == 237
    then leb 128 b1 && ltb b1 160
    else if b0 == 240
    then leb 144 b1 && ltb b1 192
    else if b0 == 244
    then leb 128 b1 && ltb b1 144
    else is_continuation b1

-- The bytes behind the second one.
unfoldable pub continued : (wanted taken : ℕ) → List ℕ → Sequence
continued zero taken bytes = character taken
continued (suc n) taken [] = incomplete
continued (suc n) taken (b ∷ bytes) =
    let rest = continued n (suc taken) bytes in if is_continuation b then rest else invalid taken

unfoldable pub second : ℕ → ℕ → List ℕ → Sequence
unfolding continued
second b0 more [] = incomplete
second b0 more (b1 ∷ bytes) = if second_fits b0 b1 then continued more 2 bytes else invalid 1

unfoldable pub announced : ℕ → ℕ → List ℕ → Sequence
unfolding second
announced zero b0 bytes = invalid 1
announced (suc zero) b0 bytes = character 1
announced (suc (suc more)) b0 bytes = second b0 more bytes

unfoldable pub sequence : List ℕ → Sequence
unfolding announced
sequence [] = incomplete
sequence (b ∷ bytes) = announced (width b) b bytes

-- `Err` carries `valid_up_to` and `error_len`.
pub data Utf8Result : Type 0 where
  valid : Utf8Result
  broken : ℕ → Option ℕ → Utf8Result

abbrev pub later : Utf8Result → Utf8Result
later valid = valid
later (broken up_to error_len) = broken (suc up_to) error_len

-- `inside` counts the bytes that are left of a character.
unfoldable pub from_utf8_at : ℕ → List ℕ → Utf8Result
from_utf8_at inside [] = valid
from_utf8_at (suc inside) (b ∷ bytes) = later (from_utf8_at inside bytes)
from_utf8_at zero (b ∷ bytes) = elim (sequence (b ∷ bytes)) [
  | character n ↦ later (from_utf8_at (n - 1) bytes)
  | invalid n ↦ broken 0 (some n)
  | incomplete ↦ broken 0 none
]

unfoldable pub from_utf8 : List ℕ → Utf8Result
unfolding from_utf8_at
from_utf8 bytes = from_utf8_at 0 bytes

-- The start and the end of a string are boundaries, and so is each byte that continues no character.
abbrev pub begins : ℕ → ℕ → List ℕ → Bool
begins i size [] = i == size
begins i size (b ∷ bytes) = not (is_continuation b)

unfoldable pub is_char_boundary : ℕ → List ℕ → Bool
is_char_boundary i bytes = if i == 0 then true else begins i (length bytes) (drop i bytes)

-- U+FFFD
abbrev pub replacement : List ℕ
replacement = 239 ∷ 191 ∷ 189 ∷ []
