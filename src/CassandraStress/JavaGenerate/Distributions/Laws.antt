-- ===== src/CassandraStress/JavaGenerate/Distributions/Laws.antt =====
-- The distributions that a seed makes afresh.
use cql_stress.Common.{ℕ, ◌≡◌, refl, ap, ◌∙◌, sym, some, ℤ}
use cql_stress.Common.Int.{as_u64}
use cql_stress.CassandraStress.JavaGenerate.{
  JavaRandom, Floats, Random, ForgetsOnSeed, set_random_seed, set_random_seed_lem,
}
use cql_stress.CassandraStress.JavaGenerate.Values.Kin.{SeedsAfresh}
use cql_stress.CassandraStress.JavaGenerate.Distributions.{
  Source, fixed, sequence, uniform, UniformDistribution, thread_rng, sample_source, seed_source,
  sources,
}
use cql_stress.CassandraStress.Sequence.{next_i64, next_fixed, set_seed}
use cql_stress.CassandraStress.JavaGenerate.Distributions.{
  uniform_f64, uniform_i64, set_uniform_seed,
}

module _ {R F : Type 0} (java : JavaRandom R F) (float : Floats F) (now : ℕ) where
  -- whatever the generator has drawn, a seed gives the same one
  reseeded :
      ForgetsOnSeed java
      → (u : UniformDistribution R F) (r r' : Random R F) (seed : ℕ)
      → record u { rng = some (set_random_seed java r seed) }
        ≡ record u { rng = some (set_random_seed java r' seed) }
  reseeded law u r r' seed =
      ap (λ r. record u { rng = some r })
        (set_random_seed_lem java law r seed ∙ sym (set_random_seed_lem java law r' seed))

  seed-sample :
      ForgetsOnSeed java
      → (d : Source R F) (s : ℤ)
      → seed_source java float now (sample_source java float now d).1 s
        ≡ seed_source java float now d s
  unfolding sample_source seed_source next_fixed next_i64 set_seed uniform_i64 uniform_f64
      set_uniform_seed thread_rng
  seed-sample law (fixed d) s = refl
  seed-sample law (sequence d) s = refl
  seed-sample law (uniform u) s = ap uniform (
      reseeded law u (thread_rng java float now (uniform_f64 java float now u).1.rng)
        (thread_rng java float now u.rng) (as_u64 s))

  seed-seed :
      ForgetsOnSeed java
      → (d : Source R F) (s t : ℤ)
      → seed_source java float now (seed_source java float now d s) t
        ≡ seed_source java float now d t
  unfolding seed_source set_seed set_uniform_seed thread_rng
  seed-seed law (fixed d) s t = refl
  seed-seed law (sequence d) s t = refl
  seed-seed law (uniform u) s t = ap uniform (
      reseeded law u (set_random_seed java (thread_rng java float now u.rng) (as_u64 s))
        (thread_rng java float now u.rng) (as_u64 t))

  -- placeholder
  pub sources-SeedsAfresh : ForgetsOnSeed java → SeedsAfresh (sources java float now)
  sources-SeedsAfresh law = record { after_sample = seed-sample law; after_seed = seed-seed law }
