-- ===== src/Base/Text.antt =====
-- What the source uses of Rust's strings: ASCII classes of characters, upper case, replacement, prefixes
-- and decimal numbers.
use Prim.Native.Char.{Char, code, char, IsScalar}
use Prim.Native.Nat.{ℕ, zero, suc, ◌+◌, ◌-◌, ◌/◌, ◌%◌, ◌<◌, compare, Ordering}
use Prim.Native.String.{String, ◌++◌ as string_append}
use Prim.Native.String as Str
use text.Mathlib.Text.{starts_with as text_starts_with}
use text.Mathlib.TextEquality.{starts_with_iff}
use mathlib.Core.Path.{◌≡◌, refl}
use mathlib.Core.Bool.{Bool, true, false, ◌&&◌, ◌||◌}
use native.Mathlib.Omega.{arith}
use flowlite.Base.Tests.{leb, ◌==◌, if◌then◌else◌}

infixr 65 ◌+++◌
abbrev pub ◌+++◌ : String → String → String
s +++ t = string_append s t

abbrev pub is_ascii_lowercase : Char → Bool
is_ascii_lowercase c = leb 97 (code c) && leb (code c) 122

abbrev pub is_ascii_uppercase : Char → Bool
is_ascii_uppercase c = leb 65 (code c) && leb (code c) 90

abbrev pub is_ascii_alphabetic : Char → Bool
is_ascii_alphabetic c = is_ascii_lowercase c || is_ascii_uppercase c

abbrev pub is_ascii_digit : Char → Bool
is_ascii_digit c = leb 48 (code c) && leb (code c) 57

abbrev pub is_ascii_alphanumeric : Char → Bool
is_ascii_alphanumeric c = is_ascii_alphabetic c || is_ascii_digit c

abbrev pub is_char : ℕ → Char → Bool
is_char n c = code c == n

pub ascii-IsScalar : (n : ℕ) → n < 128 → IsScalar n
ascii-IsScalar n h = let small : compare n 55296 ≡ Ordering.lt = ground arith in rw small tt

-- The character of an ASCII code.
abbrev pub ascii : ℕ → Char
ascii n = char (n % 128) (ascii-IsScalar (n % 128) (omega arith))

abbrev pub to_upper : Char → Char
to_upper c = if is_ascii_lowercase c then ascii (code c - 32) else c

unfoldable pub to_ascii_uppercase : String → String
to_ascii_uppercase Str.[] = ""
to_ascii_uppercase (Str.◌∷◌ c s) = Str.◌∷◌ (to_upper c) (to_ascii_uppercase s)

-- `replace`, of one character by another.
unfoldable pub replace : ℕ → Char → String → String
replace from to Str.[] = ""
replace from to (Str.◌∷◌ c s) = Str.◌∷◌ (if is_char from c then to else c) (replace from to s)

unfoldable pub all_chars : (Char → Bool) → String → Bool
all_chars p Str.[] = true
all_chars p (Str.◌∷◌ c s) = p c && all_chars p s

-- `contains` of a character twice in a row.
unfoldable pub has_double : ℕ → String → Bool
has_double n Str.[] = false
has_double n (Str.◌∷◌ c Str.[]) = false
has_double n (Str.◌∷◌ c (Str.◌∷◌ d s)) = is_char n c && is_char n d || has_double n (Str.◌∷◌ d s)

unfoldable pub starts_with : String → String → Bool
starts_with s prefix = text_starts_with s prefix

-- `to_string` of a number, on fuel that a digit takes one of.
unfoldable digits : ℕ → ℕ → String → String
digits zero n rest = rest
digits (suc fuel) n rest =
    let longer = Str.◌∷◌ (ascii (48 + n % 10)) rest in
    elim (n / 10 == 0) [ true ↦ longer | false ↦ digits fuel (n / 10) longer ]

unfoldable pub to_string : ℕ → String
unfolding digits
to_string n = digits (suc n) n ""

pub starts_with-append : (prefix s : String) → starts_with (prefix +++ s) prefix ≡ true
unfolding starts_with
starts_with-append prefix s = (starts_with_iff (prefix +++ s) prefix).1 (s, refl)

shouting : to_ascii_uppercase "load-raw_2z" ≡ "LOAD-RAW_2Z"
unfolding to_ascii_uppercase
shouting = refl

counting : to_string 4096 ≡ "4096"
unfolding to_string digits
counting = refl
