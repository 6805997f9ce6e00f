-- ===== src/CassandraStress/JavaGenerate/Distributions.antt =====
-- java_generate/distribution/mod.rs, uniform.rs and normal.rs: distributions that draw from a random
-- number generator. The state of ThreadLocalRandom is that of one thread; `now` is the time in
-- milliseconds, which seeds a thread's generator when it is first used.

pub mod Laws
pub mod Bounds
pub mod Creates
pub mod Factories
use cql_stress.Common.{
  ℕ, Bool, Option, none, some, Result, ok, err, ensure, ◌>>◌, ◌>>=◌, if◌then◌else◌, ◌&&◌, not, ℤ,
  pos,
}
use cql_stress.Common.Int.{as_u64, leb_ℤ}
use cql_stress.CassandraStress.Sequence.{
  SeqDistribution, FixedDistribution, next_i64, set_seed, next_fixed, lt_ℤ,
}
use cql_stress.CassandraStress.JavaGenerate.{
  JavaRandom, Floats, Random, random_with_seed, set_random_seed, random_double, next_gaussian,
}
use cql_stress.CassandraStress.JavaGenerate.Values.{Distribution}

pub data DistributionError : Type 0 where
  bounds_not_in_order deviation_not_positive : DistributionError

-- `Ord::clamp`, and the assertion that it begins with
unfoldable pub clamp : ℤ → ℤ → ℤ → ℤ
clamp n low high = if lt_ℤ n low then low else if lt_ℤ high n then high else n

abbrev pub clamp_asserts : ℤ → ℤ → Bool
clamp_asserts low high = leb_ℤ low high

pub record UniformDistribution (R F : Type 0) : Type 0 where
  pub lower : F
  pub upper : F
  pub rng : Option (Random R F)

pub record NormalDistribution (R F : Type 0) : Type 0 where
  pub min : ℤ
  pub max : ℤ
  pub mean : F
  pub standard_deviation : F
  pub normal_rng : Option (Random R F)

unfoldable pub verify_args :
    {F : Type 0} → Floats F → ℤ → ℤ → F → Result DistributionError (Unit {0})
verify_args float min max standard_deviation = do
  ensure (lt_ℤ min max) bounds_not_in_order
  ensure (float.lt (float.of_i64 (pos 0)) standard_deviation) deviation_not_positive
  ok tt

module _ {R F : Type 0} (java : JavaRandom R F) (float : Floats F) (now : ℕ) where
  -- `ThreadLocalRandom::get`
  unfoldable pub thread_rng : Option (Random R F) → Random R F
  unfolding random_with_seed
  thread_rng none = random_with_seed java now
  thread_rng (some r) = r

  unfoldable pub new_uniform : F → F → Result DistributionError (UniformDistribution R F)
  new_uniform lower upper = do
    ensure (float.lt lower upper) bounds_not_in_order
    ok (record { lower = lower; upper = upper; rng = none })

  unfoldable pub uniform_f64 : UniformDistribution R F → F × UniformDistribution R F
  unfolding thread_rng random_double
  uniform_f64 u =
      let one = float.of_i64 (pos 1) in
      let (sample, r) = random_double java (thread_rng u.rng) in
      (
        float.add (float.mul sample (float.add u.upper one))
            (float.mul (float.sub one sample) u.lower),
        record u { rng = some r },
      )

  unfoldable pub uniform_i64 : UniformDistribution R F → ℤ × UniformDistribution R F
  unfolding uniform_f64 clamp
  uniform_i64 u =
      let (x, u') = uniform_f64 u in
      (clamp (float.to_i64 x) (float.to_i64 u.lower) (float.to_i64 u.upper), u')

  unfoldable pub set_uniform_seed : UniformDistribution R F → ℤ → UniformDistribution R F
  unfolding thread_rng set_random_seed
  set_uniform_seed u seed = record u {
    rng = some (set_random_seed java (thread_rng u.rng) (as_u64 seed));
  }

  unfoldable pub new_normal : ℤ → ℤ → F → F → Result DistributionError (NormalDistribution R F)
  unfolding verify_args
  new_normal min max mean standard_deviation = do
    verify_args float min max standard_deviation
    ok (record {
      min = min;
      max = max;
      mean = mean;
      standard_deviation = standard_deviation;
      normal_rng = none;
    })

  -- `sample`, with fuel for the loop of `next_gaussian`
  unfoldable pub normal_sample : ℕ → NormalDistribution R F → Option (F × NormalDistribution R F)
  unfolding thread_rng next_gaussian
  normal_sample fuel d = elim (next_gaussian java float fuel (thread_rng d.normal_rng)) [
    | none ↦ none
    | some (x, r) ↦
        some (float.add (float.mul d.standard_deviation x) d.mean, record d { normal_rng = some r })
  ]

  unfoldable pub normal_i64 : ℕ → NormalDistribution R F → Option (ℤ × NormalDistribution R F)
  unfolding normal_sample clamp
  normal_i64 fuel d = elim (normal_sample fuel d) [
    | none ↦ none
    | some (x, d') ↦ some (clamp (float.to_i64 x) d.min d.max, d')
  ]

  unfoldable pub set_normal_seed : NormalDistribution R F → ℤ → NormalDistribution R F
  unfolding thread_rng set_random_seed
  set_normal_seed d seed = record d {
    normal_rng = some (set_random_seed java (thread_rng d.normal_rng) (as_u64 seed));
  }

-- The distributions that the generators of values draw from, in one type.
pub data Source (R F : Type 0) : Type 0 where
  fixed : FixedDistribution → Source R F
  sequence : SeqDistribution → Source R F
  uniform : UniformDistribution R F → Source R F

module _ {R F : Type 0} (java : JavaRandom R F) (float : Floats F) (now : ℕ) where
  unfoldable pub sample_source : Source R F → ℤ × Source R F
  unfolding next_fixed next_i64 uniform_i64
  sample_source (fixed d) = let (n, d') = next_fixed d in (n, fixed d')
  sample_source (sequence d) = let (n, d') = next_i64 d in (n, sequence d')
  sample_source (uniform d) = let (n, d') = uniform_i64 java float now d in (n, uniform d')

  unfoldable pub seed_source : Source R F → ℤ → Source R F
  unfolding set_seed set_uniform_seed
  seed_source (fixed d) seed = fixed d
  seed_source (sequence d) seed = sequence (set_seed d seed)
  seed_source (uniform d) seed = uniform (set_uniform_seed java float now d seed)

  abbrev pub sources : Distribution (Source R F)
  sources = record { sample = sample_source; seeded = seed_source }
