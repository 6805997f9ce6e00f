-- ===== src/CassandraStress/JavaGenerate/Values/Kin.antt =====
-- Two states of one generator: they differ in what was drawn, and after the same seed they give the
-- same value.
use cql_stress.Common.{ℕ, ◌≡◌, refl, ap, Option, none, some, if◌then◌else◌, [], ℤ}
use cql_stress.Common.Int.{as_u64}
use cql_stress.Common.Bytes.{Bytes}
use cql_stress.CassandraStress.JavaGenerate.{JavaRandom, ForgetsOnSeed, not_i64}
use cql_stress.CassandraStress.JavaGenerate.FasterRandom.{FasterRandom, default_faster}
use cql_stress.CassandraStress.JavaGenerate.FasterRandom.Stream.{set_seed_lem}
use cql_stress.CassandraStress.JavaGenerate.Values.{
  Distribution, Generator, ValueGenerator, sized, fill, filled, hex_filled, filled_from,
  hex_filled_from, blob_bytes, text_bytes, hex_of, blob_of, text_of, generate_value, blob, text,
  hex_blob, big_int, int, small_int, tiny_int, boolean, inet, var_int, uuid, decimal,
}
use cql_stress.CassandraStress.JavaGenerate.CqlValue.{CqlValue, fits_capacity}

-- What a distribution keeps to: a seed makes it forget the seeds and the samples before.
pub record SeedsAfresh {D : Type 0} (dist : Distribution D) : Type 0 where
  pub after_sample : (d : D) (s : ℤ) → dist.seeded (dist.sample d).1 s ≡ dist.seeded d s
  pub after_seed : (d : D) (s t : ℤ) → dist.seeded (dist.seeded d s) t ≡ dist.seeded d t

module _ {R F D : Type 0} (java : JavaRandom R F) (dist : Distribution D) where
  -- the value, without the state
  abbrev pub value_of : Option (CqlValue × ValueGenerator R F × D × D) → Option CqlValue
  value_of none = none
  value_of (some (value, gen, identity, size)) = some value

  -- The same distribution, up to its seed.
  abbrev pub SameSource : D → D → Type 0
  SameSource d d' = (s : ℤ) → dist.seeded d s ≡ dist.seeded d' s

  -- the generator as it was when it was new
  abbrev pub renewed : ValueGenerator R F → ValueGenerator R F
  renewed (blob rng) = blob (default_faster java)
  renewed (text rng) = text (default_faster java)
  renewed hex_blob = hex_blob
  renewed big_int = big_int
  renewed int = int
  renewed small_int = small_int
  renewed tiny_int = tiny_int
  renewed boolean = boolean
  renewed inet = inet
  renewed var_int = var_int
  renewed uuid = uuid
  renewed decimal = decimal

  pub record Kin (g g' : Generator R F D) : Type 0 where
    pub salts : g.salt ≡ g'.salt
    pub generators : renewed g.gen ≡ renewed g'.gen
    pub identities : SameSource g.identity_distribution g'.identity_distribution
    pub sizes : SameSource g.size_distribution g'.size_distribution

  abbrev seeded_fill :
      (ℤ → Bytes) → ℤ × ℕ × D × D → FasterRandom R F → Option (Bytes × FasterRandom R F × D × D)
  seeded_fill bytes_of (seed, n, identity, size) rng =
      if fits_capacity n
      then elim (fill java bytes_of n n 0 rng []) [
        | none ↦ none
        | some (bytes, rng') ↦ some (bytes, rng', identity, size)
      ]
      else none

  sized-size :
      (identity size size' : D)
      → SameSource size size'
      → sized dist identity size ≡ sized dist identity size'
  sized-size identity size size' h =
      ap
        (λ d. (
          (dist.sample identity).0,
          as_u64 (dist.sample d).0,
          (dist.sample identity).1,
          (dist.sample d).1,
        ))
        (h (dist.sample identity).0)

  filled-renewed :
      ForgetsOnSeed java
      → (bytes_of : ℤ → Bytes) (rng : FasterRandom R F) (identity size : D)
      → filled java dist bytes_of rng identity size
        ≡ filled java dist bytes_of (default_faster java) identity size
  unfolding filled filled_from
  filled-renewed law bytes_of rng identity size =
      ap (seeded_fill bytes_of (sized dist identity size))
        (set_seed_lem java law rng (default_faster java) (not_i64 (dist.sample identity).0))

  pub generate_value-renewed :
      ForgetsOnSeed java
      → (gen : ValueGenerator R F) (identity size : D)
      → generate_value java dist gen identity size
        ≡ generate_value java dist (renewed gen) identity size
  unfolding generate_value
  generate_value-renewed law (blob rng) identity size =
      ap (blob_of java dist) (filled-renewed law blob_bytes rng identity size)
  generate_value-renewed law (text rng) identity size =
      ap (text_of java dist) (filled-renewed law text_bytes rng identity size)
  generate_value-renewed law hex_blob identity size = refl
  generate_value-renewed law big_int identity size = refl
  generate_value-renewed law int identity size = refl
  generate_value-renewed law small_int identity size = refl
  generate_value-renewed law tiny_int identity size = refl
  generate_value-renewed law boolean identity size = refl
  generate_value-renewed law inet identity size = refl
  generate_value-renewed law var_int identity size = refl
  generate_value-renewed law uuid identity size = refl
  generate_value-renewed law decimal identity size = refl

  -- The size is sampled after a seed.
  filled-size :
      (bytes_of : ℤ → Bytes) (rng : FasterRandom R F) (identity size size' : D)
      → SameSource size size'
      → filled java dist bytes_of rng identity size ≡ filled java dist bytes_of rng identity size'
  unfolding filled
  filled-size bytes_of rng identity size size' h =
      ap (filled_from java dist bytes_of rng) (sized-size identity size size' h)

  hex_filled-size :
      (identity size size' : D)
      → SameSource size size'
      → hex_filled dist identity size ≡ hex_filled dist identity size'
  unfolding hex_filled
  hex_filled-size identity size size' h =
      ap (hex_filled_from dist) (sized-size identity size size' h)

  pub generate_value-size :
      (gen : ValueGenerator R F) (identity size size' : D)
      → SameSource size size'
      → value_of (generate_value java dist gen identity size)
        ≡ value_of (generate_value java dist gen identity size')
  unfolding generate_value
  generate_value-size (blob rng) identity size size' h =
      ap (λ m. value_of (blob_of java dist m)) (filled-size blob_bytes rng identity size size' h)
  generate_value-size (text rng) identity size size' h =
      ap (λ m. value_of (text_of java dist m)) (filled-size text_bytes rng identity size size' h)
  generate_value-size hex_blob identity size size' h =
      ap (λ m. value_of (hex_of java dist m)) (hex_filled-size identity size size' h)
  generate_value-size big_int identity size size' h = refl
  generate_value-size int identity size size' h = refl
  generate_value-size small_int identity size size' h = refl
  generate_value-size tiny_int identity size size' h = refl
  generate_value-size boolean identity size size' h = refl
  generate_value-size inet identity size size' h = refl
  generate_value-size var_int identity size size' h = refl
  generate_value-size uuid identity size size' h = refl
  generate_value-size decimal identity size size' h = refl
