-- ===== src/CassandraStress/JavaGenerate/FasterRandom/Stream.antt =====
-- The numbers that follow a seed.
use cql_stress.Common.{
  ℕ, zero, suc, ◌*◌, ◌<◌, pos, true, false, ◌+◌, ◌≡◌, refl, ap, ◌∙◌, sym, ◌==◌, ℤ, arith,
}
use cql_stress.Common.Int.{as_u64, mul_i64}
use cql_stress.CassandraStress.JavaGenerate.{
  JavaRandom, ForgetsOnSeed, set_random_seed_lem, set_random_seed, random_long, xor_i64, shl_i64,
  shr_i64,
}
use cql_stress.CassandraStress.JavaGenerate.FasterRandom.{
  FasterRandom, reseed, set_seed, count_up, scramble, next_i64,
}

-- a step of xorshift64*, with the shifts 12, 25 and 27
abbrev pub xorshift : ℤ → ℤ
xorshift s =
    let a = xor_i64 s (shr_i64 s 12) in let b = xor_i64 a (shl_i64 a 25) in xor_i64 b (shr_i64 b 27)

abbrev pub xorshifts : ℕ → ℤ → ℤ
xorshifts zero s = s
xorshifts (suc j) s = xorshift (xorshifts j s)

module _ {R F : Type 0} (java : JavaRandom R F) where
  -- the generator after `n` numbers
  abbrev pub steps : ℕ → FasterRandom R F → FasterRandom R F
  steps zero g = g
  steps (suc n) g = (next_i64 java (steps n g)).1

  -- the number behind `n` others
  abbrev pub number : ℕ → FasterRandom R F → ℤ
  number n g = (next_i64 java (steps n g)).0

  pub set_seed_lem :
      ForgetsOnSeed java
      → (g g' : FasterRandom R F) (seed : ℤ) → set_seed java g seed ≡ set_seed java g' seed
  unfolding set_seed reseed
  set_seed_lem law g g' seed =
      let e = set_random_seed_lem java law g.random (as_u64 seed) in
      let e' = set_random_seed_lem java law g'.random (as_u64 seed) in
      ap
        (λ random.
          let r = random_long java random in
          record { seed = r.0; reseed_counter = 0; random = r.1 })
        (e ∙ sym e')

  -- the first long of a new java.util.Random
  abbrev pub fresh_long : ℤ → ℤ
  fresh_long seed = (java.next_long (java.with_seed (as_u64 seed))).0

  -- The seed that block `b` of 32 numbers begins with: the seed at the end of the block before it
  -- is that of a new java.util.Random.
  pub block : ℕ → ℤ → ℤ
  block zero seed = fresh_long seed
  block (suc b) seed = xorshift (fresh_long (xorshifts 31 (block b seed)))

  record IsAt (b j : ℕ) (seed : ℤ) (g : FasterRandom R F) : Type 0 where
    counter : g.reseed_counter ≡ j
    seeded : g.seed ≡ xorshifts j (block b seed)

  reseed_seed :
      ForgetsOnSeed java → (g : FasterRandom R F) → (reseed java g).seed ≡ fresh_long g.seed
  unfolding reseed set_random_seed random_long
  reseed_seed law g = ap (λ r. (java.next_long r).0) (law g.random.delegate (as_u64 g.seed))

  reseed_counter_lem : (g : FasterRandom R F) → (reseed java g).reseed_counter ≡ 0
  unfolding reseed
  reseed_counter_lem g = refl

  set_seed-IsAt :
      ForgetsOnSeed java → (g : FasterRandom R F) (seed : ℤ) → IsAt 0 0 seed (set_seed java g seed)
  unfolding set_seed block
  set_seed-IsAt law g seed = record {
    counter = reseed_counter_lem (record g { seed = seed });
    seeded = reseed_seed law (record g { seed = seed });
  }

  next_i64-inside :
      (b j : ℕ) (seed : ℤ) (g : FasterRandom R F)
      → j < 31
      → IsAt b j seed g
      → ((next_i64 java g).0 ≡ mul_i64 (xorshifts (suc j) (block b seed)) (pos 2685821657736338717))
        × IsAt b (suc j) seed (next_i64 java g).1
  unfolding next_i64 count_up scramble
  next_i64-inside b j seed g h v =
      let goes_on : (g.reseed_counter + 1 == 32) ≡ false = ground (arith, h, v.counter) in
      let e = ap xorshift v.seeded in
      rw goes_on (
        ap (λ s. mul_i64 s (pos 2685821657736338717)) e,
        record { counter = omega (arith, v.counter); seeded = e },
      )

  next_i64-last :
      ForgetsOnSeed java
      → (b : ℕ) (seed : ℤ) (g : FasterRandom R F) → IsAt b 31 seed g
      → ((next_i64 java g).0 ≡ mul_i64 (block (suc b) seed) (pos 2685821657736338717))
        × IsAt (suc b) 0 seed (next_i64 java g).1
  unfolding next_i64 count_up scramble block
  next_i64-last law b seed g v =
      let over : (g.reseed_counter + 1 == 32) ≡ true = ground (arith, v.counter) in
      let g' = record g { reseed_counter = g.reseed_counter + 1 } in
      let e = ap xorshift (reseed_seed law g' ∙ ap fresh_long v.seeded) in
      rw over (
        ap (λ s. mul_i64 s (pos 2685821657736338717)) e,
        record { counter = reseed_counter_lem g'; seeded = e },
      )

  steps-IsAt :
      ForgetsOnSeed java
      → (g : FasterRandom R F) (seed : ℤ) (b j : ℕ) → j < 32
      → IsAt b j seed (steps (32 * b + j) (set_seed java g seed))
  steps-IsAt law g seed zero zero h = set_seed-IsAt law g seed
  steps-IsAt law g seed (suc b) zero h =
      let h0 = set_seed java g seed in
      let e : 32 * suc b + 0 ≡ suc (32 * b + 31) = omega arith in
      rw (e)
        (next_i64-last law b seed (steps (32 * b + 31) h0)
          (steps-IsAt law g seed b 31 (omega arith))).1
  steps-IsAt law g seed b (suc j) h =
      let h0 = set_seed java g seed in
      let e : 32 * b + suc j ≡ suc (32 * b + j) = omega arith in
      rw (e)
        (next_i64-inside b j seed (steps (32 * b + j) h0) (omega (arith, h))
          (steps-IsAt law g seed b j (omega (arith, h)))).1

  -- The numbers behind a seed are those of xorshift64* in blocks: the first block begins with the
  -- first long of a java.util.Random with that seed, and each later one, at every 32nd number, with
  -- a step from the first long of a java.util.Random that has the seed at the end of the block
  -- before. Setting a seed makes java.util.Random forget what was drawn before.
  pub steps-set_seed :
      ForgetsOnSeed java
      → (g : FasterRandom R F) (seed : ℤ) (b j : ℕ) → j < 31
      → let h = set_seed java g seed in
        (number (32 * b + j) h
          ≡ mul_i64 (xorshifts (suc j) (block b seed)) (pos 2685821657736338717))
        × (number (32 * b + 31) h ≡ mul_i64 (block (suc b) seed) (pos 2685821657736338717))
  steps-set_seed law g seed b j h =
      let h0 = set_seed java g seed in
      (
        (next_i64-inside b j seed (steps (32 * b + j) h0) h
            (steps-IsAt law g seed b j (omega (arith, h)))).0,
        (next_i64-last law b seed (steps (32 * b + 31) h0)
            (steps-IsAt law g seed b 31 (omega arith))).0,
      )
