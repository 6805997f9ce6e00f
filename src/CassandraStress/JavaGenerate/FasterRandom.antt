-- ===== src/CassandraStress/JavaGenerate/FasterRandom.antt =====
-- java_generate/faster_random.rs
pub mod Stream
use cql_stress.Common.{ℕ, suc, ◌+◌, ◌==◌, if◌then◌else◌, ℤ, pos}
use cql_stress.Common.Int.{as_u64, mul_i64}
use cql_stress.CassandraStress.JavaGenerate.{
  JavaRandom, Random, random_with_seed, set_random_seed, random_long, xor_i64, shl_i64, shr_i64,
}

pub record FasterRandom (R F : Type 0) : Type 0 where
  pub seed : ℤ
  pub reseed_counter : ℕ
  pub random : Random R F

module _ {R F : Type 0} (java : JavaRandom R F) where
  unfoldable pub default_faster : FasterRandom R F
  unfolding random_with_seed
  default_faster = record { seed = pos 0; reseed_counter = 0; random = random_with_seed java 0 }

  unfoldable pub reseed : FasterRandom R F → FasterRandom R F
  unfolding set_random_seed random_long
  reseed g =
      let (seed, random) = random_long java (set_random_seed java g.random (as_u64 g.seed)) in
      record { seed = seed; reseed_counter = 0; random = random }

  unfoldable pub set_seed : FasterRandom R F → ℤ → FasterRandom R F
  unfolding reseed
  set_seed g seed = reseed (record g { seed = seed })

  -- the counter goes up, and every 32nd time the seed is renewed
  unfoldable pub count_up : FasterRandom R F → FasterRandom R F
  unfolding reseed
  count_up g =
      let g' = record g { reseed_counter = g.reseed_counter + 1 } in
      if g'.reseed_counter == 32 then reseed g' else g'

  unfoldable pub scramble : ℤ → ℤ
  unfolding xor_i64 shl_i64 shr_i64
  scramble seed0 =
      let seed1 = xor_i64 seed0 (shr_i64 seed0 12) in
      let seed2 = xor_i64 seed1 (shl_i64 seed1 25) in xor_i64 seed2 (shr_i64 seed2 27)

  unfoldable pub next_i64 : FasterRandom R F → ℤ × FasterRandom R F
  unfolding count_up scramble
  next_i64 g =
      let g' = count_up g in
      let seed = scramble g'.seed in
      (mul_i64 seed (pos 2685821657736338717), record g' { seed = seed })
