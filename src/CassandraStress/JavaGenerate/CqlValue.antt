-- ===== src/CassandraStress/JavaGenerate/CqlValue.antt =====
-- What java_generate/values uses of the driver and of the standard library: values, casts, bytes and
-- UTF-8.
use cql_stress.Common.{
  ℕ, zero, suc, ◌+◌, ◌-◌, ◌%◌, ◌^◌, Bool, true, false, ◌&&◌, [], ◌∷◌, ◌++◌, Option, none, some, ltb,
  leb, ◌==◌, if◌then◌else◌, ℤ, pos, negsuc,
}
use cql_stress.Common.Int.{as_u64}
use cql_stress.Common.Bytes.{Bytes, to_le_bytes}

-- the values of the driver that are generated
pub data CqlValue : Type 0 where
  blob_value text_value varint_value : Bytes → CqlValue
  bigint_value int_value smallint_value tinyint_value : ℤ → CqlValue
  boolean_value : Bool → CqlValue
  inet_value : Bytes → CqlValue
  uuid_value : ℕ → ℕ → CqlValue
  decimal_value : Bytes → ℤ → CqlValue

-- `as` from i64 to a signed integer of `w` bits
unfoldable pub as_signed : ℕ → ℤ → ℤ
as_signed w a =
    let n = as_u64 a % 2 ^ w in if ltb n (2 ^ (w - 1)) then pos n else negsuc (2 ^ w - 1 - n)

unfoldable pub reversed : Bytes → Bytes
reversed [] = []
reversed (b ∷ bs) = reversed bs ++ (b ∷ [])

-- `to_be_bytes` of an i64
unfoldable pub to_be_bytes : ℕ → ℤ → Bytes
unfolding reversed
to_be_bytes k a = reversed (to_le_bytes k (as_u64 a))

-- `Vec::with_capacity`, for bytes
abbrev pub fits_capacity : ℕ → Bool
fits_capacity size = ltb size (2 ^ 63)

-- `((byte & 127) + 32) & 127`
abbrev pub to_text_byte : ℕ → ℕ
to_text_byte byte = (byte % 128 + 32) % 128

-- one hexadecimal digit, as the code computes it
abbrev pub hex_digit : ℕ → ℕ
hex_digit v = (if ltb v 10 then b'0' else b'A') + v

-- How many bytes follow a first byte in well-formed UTF-8, and the bounds of the next one.
unfoldable pub utf8_lead : ℕ → Option (ℕ × ℕ × ℕ)
utf8_lead b =
    if ltb b 0x80
    then some (0, 0x80, 0xbf)
    else if ltb b 0xc2
    then none
    else if ltb b 0xe0
    then some (1, 0x80, 0xbf)
    else if b == 0xe0
    then some (2, 0xa0, 0xbf)
    else if b == 0xed
    then some (2, 0x80, 0x9f)
    else if ltb b 0xf0
    then some (2, 0x80, 0xbf)
    else if b == 0xf0
    then some (3, 0x90, 0xbf)
    else if ltb b 0xf4
    then some (3, 0x80, 0xbf)
    else if b == 0xf4
    then some (3, 0x80, 0x8f)
    else none

-- `String::from_utf8` accepts well-formed UTF-8: `need` bytes must follow, the next one from `low`
-- to `high`.
unfoldable pub is_utf8_from : ℕ → ℕ → ℕ → Bytes → Bool
unfolding utf8_lead
is_utf8_from zero low high [] = true
is_utf8_from (suc need) low high [] = false
is_utf8_from (suc need) low high (b ∷ bs) =
    leb low b && leb b high && is_utf8_from need 0x80 0xbf bs
is_utf8_from zero low high (b ∷ bs) = elim (utf8_lead b) [
  | none ↦ false
  | some (need, first, last) ↦ is_utf8_from need first last bs
]

unfoldable pub from_utf8 : Bytes → Option Bytes
unfolding is_utf8_from
from_utf8 bs = if is_utf8_from 0 0x80 0xbf bs then some bs else none
