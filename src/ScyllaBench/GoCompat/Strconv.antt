-- ===== src/ScyllaBench/GoCompat/Strconv.antt =====
-- gocompat/strconv.rs: values in the syntax of Go.
pub mod Numbers
use cql_stress.Common.{
  ℕ, zero, suc, ◌/◌, ◌+◌, ◌-◌, ◌*◌, ◌%◌, ◌^◌, Bool, true, false, not, ◌&&◌, ◌||◌, List, [], ◌∷◌,
  ◌++◌, Option, none, some, Result, ok, err, ensure, ◌>>=◌, ◌>>◌, ltb, leb, ◌==◌, if◌then◌else◌,
  any, all, ℤ,
}
use cql_stress.Common.Int.{as_i64, neg_i64, u64_mod}
use cql_stress.Text.{Text, codes, ◌is◌, is_empty, is_ascii_digit, to_ascii_lowercase}
use cql_stress.Text.Split.{split}

pub data ConvError : Type 0 where
  bad_bool bad_bit_size bad_underscores bad_digit out_of_range : ConvError

unfoldable pub parse_bool : Text → Result ConvError Bool
parse_bool s =
    if any (λ t. s is t)
      (codes "1" ∷ codes "t" ∷ codes "T" ∷ codes "true" ∷ codes "TRUE" ∷ codes "True" ∷ [])
    then ok true
    else if any (λ t. s is t)
        (codes "0" ∷ codes "f" ∷ codes "F" ∷ codes "false" ∷ codes "FALSE" ∷ codes "False" ∷ [])
    then ok false
    else err bad_bool

-- the base and what stands behind its prefix
unfoldable pub detect_base : Text → ℕ × Text
detect_base [] = (10, [])
detect_base (c ∷ []) = (10, c ∷ [])
detect_base (c ∷ d ∷ s) =
    if c == b'0' && d == b'x'
    then (16, s)
    else if c == b'0' && d == b'o'
    then (8, s)
    else if c == b'0' && d == b'b'
    then (2, s)
    else (10, c ∷ d ∷ s)

-- The value of a digit, or `base` for what is no digit. The u32 difference is taken of `c` itself,
-- and not of its lower case, so it wraps around for an upper case letter.
unfoldable pub digit : ℕ → ℕ → ℕ
digit base c =
    let l = to_ascii_lowercase c in
    if leb b'0' l && leb l b'9'
    then c - b'0'
    else if leb b'a' l && leb l b'f'
    then (c + 2 ^ 32 - b'a' + 10) % 2 ^ 32
    else base

-- the loop over the characters
unfoldable pub scan_literal : ℕ → ℕ → Text → ℕ → Result ConvError ℕ
unfolding digit
scan_literal base max_value [] ret = ok ret
scan_literal base max_value (c ∷ s) ret =
    let ret' = ret * base + digit base c in
    let skipped = scan_literal base max_value s ret in
    let rest = scan_literal base max_value s ret' in
    if c == b'_'
    then skipped
    else if ltb (digit base c) base
    then (if leb ret' max_value then rest else err out_of_range)
    else err bad_digit

unfoldable pub parse_int_inner : Text → ℕ → Result ConvError ℕ
unfolding detect_base scan_literal
parse_int_inner s max_value = do
  ensure (all (λ part. not (is_empty part)) (split b'_' s)) bad_underscores
  let (base, literal) = detect_base s
  scan_literal base max_value literal 0

-- the sign, and the text without it
unfoldable pub detect_sign : Text → Bool × Text
detect_sign [] = (false, [])
detect_sign (c ∷ s) =
    if c == b'-' then (true, s) else if c == b'+' then (false, s) else (false, c ∷ s)

unfoldable pub parse_signed : ℕ → Bool × Text → Result ConvError ℤ
unfolding parse_int_inner
parse_signed bit_size (true, s) = do
  v ← parse_int_inner s (2 ^ (bit_size - 1))
  ok (neg_i64 (as_i64 v))
parse_signed bit_size (false, s) = do v ← parse_int_inner s (2 ^ (bit_size - 1) - 1); ok (as_i64 v)

unfoldable pub parse_int : Text → ℕ → Result ConvError ℤ
unfolding parse_signed detect_sign
parse_int s bit_size = do
  ensure (not (bit_size == 0) && leb bit_size 64) bad_bit_size
  parse_signed bit_size (detect_sign s)

unfoldable pub parse_uint : Text → ℕ → Result ConvError ℕ
unfolding parse_int_inner
parse_uint s bit_size = do
  ensure (not (bit_size == 0) && leb bit_size 64) bad_bit_size
  v ← parse_int_inner s (2 ^ bit_size - 1)
  ok (v % u64_mod)

-- a digit of `{:x}`
abbrev pub hex_digit : ℕ → ℕ
hex_digit d = if ltb d 10 then b'0' + d else b'a' + (d - 10)

-- `{:0width$x}` of a number that has no more digits
unfoldable pub hex : ℕ → ℕ → Text
hex zero n = []
hex (suc width) n = hex width (n / 16) ++ (hex_digit (n % 16) ∷ [])

unfoldable pub special_escape : ℕ → Option ℕ
special_escape c =
    if c == 7
    then some b'a'
    else if c == 8
    then some b'b'
    else if c == 0xc
    then some b'd'
    else if c == 0xa
    then some b'n'
    else if c == 0xd
    then some b'r'
    else if c == 9
    then some b't'
    else if c == 0xb
    then some b'v'
    else none

unfoldable pub escape_unicode : ℕ → Text
unfolding hex
escape_unicode c =
    if ltb c b' '
    then b'\\' ∷ b'x' ∷ hex 2 c
    else if ltb c 0x10000
    then b'\\' ∷ b'u' ∷ hex 4 c
    else b'\\' ∷ b'U' ∷ hex 8 c

unfoldable pub escape_special : ℕ → Option ℕ → Text
unfolding escape_unicode
escape_special c none = escape_unicode c
escape_special c (some e) = b'\\' ∷ e ∷ []

-- `char::is_alphanumeric` of the standard library is an argument.
module _ (is_alphanumeric : ℕ → Bool) where
  abbrev pub is_printable : ℕ → Bool
  is_printable c = (leb 33 c && leb c 126) || c == b' ' || is_alphanumeric c

  -- what the loop adds for one character
  unfoldable pub quote_char : ℕ → Text
  unfolding escape_special special_escape
  quote_char c =
      if c == b'\\' || c == b'"'
      then b'\\' ∷ c ∷ []
      else if is_printable c
      then c ∷ []
      else escape_special c (special_escape c)

  unfoldable pub quote_chars : Text → Text
  unfolding quote_char
  quote_chars [] = []
  quote_chars (c ∷ s) = quote_char c ++ quote_chars s

  unfoldable pub quote_string : Text → Text
  unfolding quote_chars
  quote_string s = b'"' ∷ (quote_chars s ++ (b'"' ∷ []))
