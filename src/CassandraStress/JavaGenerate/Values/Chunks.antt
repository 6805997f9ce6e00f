-- ===== src/CassandraStress/JavaGenerate/Values/Chunks.antt =====
-- The bytes that `Blob` and `Text` take from the random numbers, eight at a time.
use cql_stress.Common.{
  ℕ, zero, suc, ◌+◌, ◌-◌, ◌*◌, ◌^◌, ◌≤◌, ◌<◌, min, ◌≡◌, refl, sym, ap, ◌∙◌, true, false, Bool-cases,
  inl, inr, List, [], ◌∷◌, ◌++◌, none, some, ltb, length, length-append, length-take, take,
  append_assoc, append-nil, ℤ, arith,
}
use cql_stress.Common.Bytes.{Bytes}
use cql_stress.CassandraStress.JavaGenerate.{JavaRandom, not_i64}
use cql_stress.CassandraStress.JavaGenerate.FasterRandom.{FasterRandom, set_seed, next_i64}
use cql_stress.CassandraStress.JavaGenerate.Values.{Distribution, fill, filled, filled_from, sized}

-- a part of a list, cut within its first part or behind it
pub take-append_min :
    {A : Type 0} (m : ℕ) (c r : List A)
    → take m (c ++ r) ≡ take (min m (length c)) c ++ take (m - min m (length c)) r
take-append_min zero c r = let e : min 0 (length c) ≡ 0 = omega arith in rw e refl
take-append_min (suc m) [] r =
    let e : min (suc m) 0 ≡ 0 = omega arith in
    let f : suc m - 0 ≡ suc m = omega arith in rw (e, f) refl
take-append_min (suc m) (x ∷ c) r =
    let e : min (suc m) (suc (length c)) ≡ suc (min m (length c)) = omega arith in
    let f : suc m - suc (min m (length c)) ≡ m - min m (length c) = omega arith in
    rw (e, f) (ap (λ l. x ∷ l) (take-append_min m c r))

module _ {R F D : Type 0} (java : JavaRandom R F) (dist : Distribution D) where
  -- the generator of bytes, seeded, and the size, as the two distributions give them
  abbrev pub started : FasterRandom R F → D → D → FasterRandom R F
  started rng identity size = set_seed java rng (not_i64 (sized dist identity size).0)

module _ {R F : Type 0} (java : JavaRandom R F) (bytes_of : ℤ → Bytes) where
  -- the bytes of the next `k` numbers
  abbrev pub stream : ℕ → FasterRandom R F → Bytes
  stream zero rng = []
  stream (suc k) rng = bytes_of (next_i64 java rng).0 ++ stream k (next_i64 java rng).1

  module _ (eight : (v : ℤ) → length (bytes_of v) ≡ 8) where
    pub fill_lem :
        (fuel size i : ℕ) (rng : FasterRandom R F) (result : Bytes)
        → i ≤ size
        → size ≤ i + 8 * fuel
        → (rng' : FasterRandom R F) × (fill java bytes_of fuel size i rng result
            ≡ some (result ++ take (size - i) (stream fuel rng), rng'))
    unfolding fill
    fill_lem zero size i rng result le enough =
        let over : ltb i size ≡ false = ground arith in
        let e : size - i ≡ 0 = omega arith in (rng, rw (over, e, append-nil result) refl)
    fill_lem (suc fuel) size i rng result le enough = elim (Bool-cases (ltb i size)) [
      | inl more ↦
          let v = bytes_of (next_i64 java rng).0 in
          let after = (next_i64 java rng).1 in
          let n = min (size - i) (length v) in
          let lt : i < size = ground arith in
          let (rng', filled) =
            fill_lem fuel size (i + n) after (result ++ take n v) (omega arith)
              (omega (arith, eight (next_i64 java rng).0)) in
          let left : size - (i + n) ≡ size - i - n = omega arith in
          let parts =
            append_assoc result (take n v) (take (size - (i + n)) (stream fuel after))
            ∙ ap (λ l. result ++ (take n v ++ take l (stream fuel after))) left
            ∙ ap (λ l. result ++ l) (sym (take-append_min (size - i) v (stream fuel after))) in
          (rng', rw more (filled ∙ ap (λ l. some (l, rng')) parts))
      | inr over ↦
          let e : size - i ≡ 0 = ground arith in (rng, rw (over, e, append-nil result) refl)
    ]

    stream-length : (k : ℕ) (rng : FasterRandom R F) → length (stream k rng) ≡ 8 * k
    stream-length zero rng = omega arith
    stream-length (suc k) rng = omega (
      arith,
      length-append (bytes_of (next_i64 java rng).0) (stream k (next_i64 java rng).1),
      eight (next_i64 java rng).0,
      stream-length k (next_i64 java rng).1,
    )

    pub take-stream-length : (n : ℕ) (rng : FasterRandom R F) → length (take n (stream n rng)) ≡ n
    take-stream-length n rng = omega (arith, length-take n (stream n rng), stream-length n rng)

    module _ {D : Type 0} (dist : Distribution D) where
      pub filled_lem :
          (rng : FasterRandom R F) (identity size : D)
          → let s = sized dist identity size in
            s.1 < 2 ^ 63
            → (rng' : FasterRandom R F) × (filled java dist bytes_of rng identity size
                ≡ some
                    (take s.1 (stream s.1 (started java dist rng identity size)), rng', s.2, s.3))
      unfolding filled filled_from
      filled_lem rng identity size small =
          let n = (sized dist identity size).1 in
          let start = started java dist rng identity size in
          let fits : ltb n (2 ^ 63) ≡ true = ground arith in
          let (rng', e) = fill_lem n n 0 start [] (omega arith) (omega arith) in
          let whole : n - 0 ≡ n = omega arith in
          let f : fill java bytes_of n n 0 start [] ≡ some (take n (stream n start), rng') =
            rw whole at e in
          (rng', rw (fits, f) refl)

      pub filled_panics :
          (rng : FasterRandom R F) (identity size : D)
          → 2 ^ 63 ≤ (sized dist identity size).1
          → filled java dist bytes_of rng identity size ≡ none
      unfolding filled filled_from
      filled_panics rng identity size large =
          let n = (sized dist identity size).1 in
          let fits : ltb n (2 ^ 63) ≡ false = ground arith in rw fits refl
