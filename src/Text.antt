-- ===== src/Text.antt =====
-- The methods of `str` that the program uses. A text is the list of its characters' code points.
pub mod Split
pub mod Trim
pub mod Digits
use Prim.Native.Char.{code}
use Prim.Native.String.{String}
use cql_stress.Common.{
  zero, suc, ◌-◌, ℕ, ◌+◌, Bool, true, false, ◌&&◌, ◌||◌, List, [], ◌∷◌, Option, none, some, leb,
  ◌==◌, if◌then◌else◌,
}

abbrev pub Text : Type 0
Text = List ℕ

-- the code points of a literal
abbrev pub codes : String → Text
codes String.[] = []
codes (String.◌∷◌ c s) = code c ∷ codes s

infix 50 ◌is◌
abbrev pub ◌is◌ : Text → Text → Bool
[] is [] = true
[] is (d ∷ t) = false
(c ∷ s) is [] = false
(c ∷ s) is (d ∷ t) = c == d && s is t

abbrev pub is_empty : Text → Bool
is_empty [] = true
is_empty (c ∷ s) = false

-- `char::is_whitespace`
unfoldable pub is_whitespace : ℕ → Bool
is_whitespace c =
    (leb 9 c && leb c 13)
    || c == 32
    || c == 0x85
    || c == 0xa0
    || c == 0x1680
    || (leb 0x2000 c && leb c 0x200a)
    || c == 0x2028
    || c == 0x2029
    || c == 0x202f
    || c == 0x205f
    || c == 0x3000

abbrev pub is_ascii_digit : ℕ → Bool
is_ascii_digit c = leb b'0' c && leb c b'9'

-- `char::to_ascii_lowercase`
abbrev pub to_ascii_lowercase : ℕ → ℕ
to_ascii_lowercase c = if leb b'A' c && leb c b'Z' then c + 32 else c

abbrev pub strip_prefix : ℕ → Text → Option Text
strip_prefix p [] = none
strip_prefix p (c ∷ s) = if c == p then some s else none

abbrev pub starts_with : ℕ → Text → Bool
starts_with p [] = false
starts_with p (c ∷ s) = c == p

abbrev pub contains : ℕ → Text → Bool
contains p [] = false
contains p (c ∷ s) = c == p || contains p s

-- `char::len_utf8`
abbrev pub len_utf8 : ℕ → ℕ
len_utf8 c = if leb c 0x7f then 1 else if leb c 0x7ff then 2 else if leb c 0xffff then 3 else 4

-- `str::len`, in bytes
abbrev pub byte_length : Text → ℕ
byte_length [] = 0
byte_length (c ∷ s) = len_utf8 c + byte_length s

-- `&s[n..]`: `none` is the panic of a slice that begins within a character or behind the end
abbrev pub slice_from : ℕ → Text → Option Text
slice_from zero s = some s
slice_from (suc n) [] = none
slice_from (suc n) (c ∷ s) =
    if leb (len_utf8 c) (suc n) then slice_from (suc n - len_utf8 c) s else none
