-- ===== src/ScyllaBench/Operation/RowData/Shape.antt =====
-- The parts of a generated value.
use Prim.Native.Nat.{bit_xor}
use cql_stress.Common.{
  ℕ, zero, suc, ◌-◌, ◌%◌, ◌≤◌, ◌<◌, ◌≡◌, refl, ap, [], ◌∷◌, ◌++◌, arith, length, take, replicate,
  length-append, length-take, length-replicate, ℤ,
}
use cql_stress.Common.Int.{u64_mod, as_u64}
use cql_stress.Common.Bytes.{Bytes, to_le_bytes, resize, length-to_le_bytes}
use cql_stress.ScyllaBench.Operation.RowData.{
  header, header_size, min_size, generate_row_data, head_byte,
}

pub length-header : (pk ck : ℤ) (size : ℕ) → length (header pk ck size) ≡ 24
unfolding header
length-header pk ck size = omega (
  arith,
  length-append {0} (to_le_bytes 8 (size % u64_mod))
      (to_le_bytes 8 (as_u64 pk) ++ to_le_bytes 8 (as_u64 ck)),
  length-append {0} (to_le_bytes 8 (as_u64 pk)) (to_le_bytes 8 (as_u64 ck)),
  length-to_le_bytes 8 (size % u64_mod),
  length-to_le_bytes 8 (as_u64 pk),
  length-to_le_bytes 8 (as_u64 ck),
)

pub length-resize : (xs : Bytes) (n v : ℕ) → length (resize xs n v) ≡ n
length-resize xs n v = omega (
  arith,
  length-append {0} (take n xs) (replicate (n - length xs) v),
  length-take {0} n xs,
  length-replicate {0} (n - length xs) v,
)

take-all : (n : ℕ) (xs : Bytes) → length xs ≤ n → take n xs ≡ xs
take-all zero [] h = refl
take-all zero (x ∷ xs) h = absurd (omega arith)
take-all (suc n) [] h = refl
take-all (suc n) (x ∷ xs) h = ap (λ t. x ∷ t) (take-all n xs (omega arith))

-- growing keeps what is there
pub resize-grow :
    (xs : Bytes) (n v : ℕ) → length xs ≤ n → resize xs n v ≡ xs ++ replicate (n - length xs) v
resize-grow xs n v h = rw (take-all n xs h)

pub head_byte-resize : (b : ℕ) (bs : Bytes) (n v : ℕ) → 0 < n → head_byte (resize (b ∷ bs) n v) ≡ b
unfolding head_byte
head_byte-resize b bs zero v h = absurd (omega arith)
head_byte-resize b bs (suc n) v h = refl

module _ (sha256 : Bytes → Bytes) (payload : ℕ → Bytes) (pk ck : ℤ) (size : ℕ) where
  -- a value with a payload
  pub generate_long :
      min_size ≤ size
      → generate_row_data sha256 payload pk ck size
        ≡ header pk ck size ++ (payload (size - 32 - 24) ++ sha256 (payload (size - 32 - 24)))
  unfolding generate_row_data
  generate_long h = ground arith

  -- a value with a header and no payload
  pub generate_middle :
      header_size ≤ size
      → size < min_size
      → generate_row_data sha256 payload pk ck size
        ≡ header pk ck size ++ replicate (size - length (header pk ck size)) 0
  unfolding generate_row_data
  generate_middle h k =
      rw (← resize-grow (header pk ck size) size 0 (omega (arith, length-header pk ck size)))
        (ground arith)

  pub generate_small :
      0 < size
      → size < header_size
      → generate_row_data sha256 payload pk ck size
        ≡ resize (size % 256 ∷ to_le_bytes 8 (bit_xor (as_u64 pk) (as_u64 ck))) size 0
  unfolding generate_row_data
  generate_small h k = ground arith

  pub length-generate_row_data :
      ((n : ℕ) → length (payload n) ≡ n)
      → ((bs : Bytes) → length (sha256 bs) ≡ 32)
      → length (generate_row_data sha256 payload pk ck size) ≡ size
  unfolding generate_row_data
  length-generate_row_data drawn hashed =
      let p = payload (size - 32 - header_size) in
      ground (
        arith,
        length-resize (size % 256 ∷ to_le_bytes 8 (bit_xor (as_u64 pk) (as_u64 ck))) size 0,
        length-resize (header pk ck size) size 0,
        length-append (header pk ck size) (p ++ sha256 p),
        length-append p (sha256 p),
        length-header pk ck size,
        drawn (size - 32 - header_size),
        hashed p,
      )
