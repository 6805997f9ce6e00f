-- ===== src/ScyllaBench/Operation/RowData.antt =====
-- `generate_row_data` and `validate_row_data` of operation/mod.rs. `sha256` and the random bytes
-- come from other crates; `payload n` is the `n` bytes that `fill_bytes` draws.
pub mod Shape
pub mod RoundTrip
pub mod Sound
use Prim.Native.Nat.{bit_xor}
use cql_stress.Common.{
  ℕ, ◌+◌, ◌-◌, ◌%◌, [], ◌∷◌, ◌++◌, Result, ok, err, ensure, ◌>>=◌, ◌>>◌, ltb, leb, ◌==◌,
  if◌then◌else◌, length, take, drop, ℤ,
}
use cql_stress.Common.Int.{u64_mod, as_i64, as_u64, eqb_ℤ}
use cql_stress.Common.Bytes.{Bytes, eq_bytes, to_le_bytes, from_le_bytes, resize}

abbrev pub header_size : ℕ
header_size = 24

-- GENERATED_DATA_HEADER_SIZE + 33
abbrev pub min_size : ℕ
min_size = 57

pub data Corruption : Type 0 where
  wrong_size wrong_value wrong_pk wrong_ck wrong_checksum : Corruption

-- `data[0]`
unfoldable pub head_byte : Bytes → ℕ
head_byte [] = 0
head_byte (b ∷ bs) = b

-- the size, the partition key and the clustering key
unfoldable pub header : ℤ → ℤ → ℕ → Bytes
header pk ck size =
    to_le_bytes 8 (size % u64_mod) ++ (to_le_bytes 8 (as_u64 pk) ++ to_le_bytes 8 (as_u64 ck))

-- the size that the value holds, and the rest of the value
unfoldable pub decode_size : Bytes → ℕ × Bytes
unfolding head_byte
decode_size value =
    if ltb (length value) header_size
    then (head_byte value, drop 1 value)
    else (from_le_bytes (take 8 value), drop 8 value)

module _ (sha256 : Bytes → Bytes) where
  unfoldable pub generate_row_data : (ℕ → Bytes) → ℤ → ℤ → ℕ → Bytes
  generate_row_data payload pk ck size =
      if size == 0
      then []
      else if ltb size header_size
      then resize (size % 256 ∷ to_le_bytes 8 (bit_xor (as_u64 pk) (as_u64 ck))) size 0
      else if ltb size min_size
      then resize (header pk ck size) size 0
      else (let p = payload (size - 32 - header_size) in header pk ck size ++ (p ++ sha256 p))

  -- the checks of a value with a payload, on what stands behind its size
  unfoldable pub validate_long : ℤ → ℤ → Bytes → Result Corruption (Unit {0})
  validate_long pk ck rest =
      let payload = drop 16 (take (length rest - 32) rest) in
      do
        ensure (eqb_ℤ (as_i64 (from_le_bytes (take 8 rest))) pk) wrong_pk
        ensure (eqb_ℤ (as_i64 (from_le_bytes (take 8 (drop 8 rest)))) ck) wrong_ck
        ensure (eq_bytes (drop (length rest - 32) rest) (sha256 payload)) wrong_checksum

  -- The expected value of a short one has no random bytes.
  unfoldable pub validate_short : ℤ → ℤ → Bytes → Result Corruption (Unit {0})
  unfolding generate_row_data
  validate_short pk ck value =
      ensure (eq_bytes value (generate_row_data (λ n. []) pk ck (length value))) wrong_value

  -- the checks behind the one for an empty value
  unfoldable pub validate_sized : ℤ → ℤ → Bytes → ℕ × Bytes → Result Corruption (Unit {0})
  validate_sized pk ck value (encoded_size, rest) = do
    ensure (length value == encoded_size) wrong_size
    if ltb (length value) min_size then validate_short pk ck value else validate_long pk ck rest

  unfoldable pub validate_row_data : ℤ → ℤ → Bytes → Result Corruption (Unit {0})
  unfolding validate_sized
  validate_row_data pk ck value =
      if length value == 0 then ok tt else validate_sized pk ck value (decode_size value)
