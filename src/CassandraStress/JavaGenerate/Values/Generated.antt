-- ===== src/CassandraStress/JavaGenerate/Values/Generated.antt =====
-- The value that a generator gives after a seed, whatever it has given before.
use cql_stress.Common.{◌≡◌, refl, sym, ap, ◌∙◌, Option, none, some, ℤ}
use cql_stress.CassandraStress.JavaGenerate.{JavaRandom, ForgetsOnSeed, xor_i64}
use cql_stress.CassandraStress.JavaGenerate.Values.{
  Distribution, Generator, ValueGenerator, generate_value, generate, end_generate,
  set_generator_seed,
}
use cql_stress.CassandraStress.JavaGenerate.CqlValue.{CqlValue}
use cql_stress.CassandraStress.JavaGenerate.Values.Kin.{
  SeedsAfresh, Kin, renewed, value_of, generate_value-renewed, generate_value-size,
}
use cql_stress.CassandraStress.JavaGenerate.Values.Kept.{IsKept, generate_value-IsKept}

module _ {R F D : Type 0} (java : JavaRandom R F) (dist : Distribution D) where
  abbrev pub value_generated : Option (CqlValue × Generator R F D) → Option CqlValue
  value_generated none = none
  value_generated (some (value, g)) = some value

  -- the value after a seed
  unfoldable pub value_at : Generator R F D → ℤ → Option CqlValue
  unfolding generate set_generator_seed
  value_at g seed = value_generated (generate java dist (set_generator_seed java dist g seed))

  module _ (law : ForgetsOnSeed java) (afresh : SeedsAfresh dist) where
    end_generate-value :
        (g : Generator R F D) (m : Option (CqlValue × ValueGenerator R F × D × D))
        → value_generated (end_generate java dist g m) ≡ value_of java dist m
    unfolding end_generate
    end_generate-value g none = refl
    end_generate-value g (some (value, gen, identity, size)) = refl

    pub value_at-Kin :
        (g g' : Generator R F D) (seed : ℤ)
        → Kin java dist g g'
        → value_at g seed ≡ value_at g' seed
    unfolding value_at generate set_generator_seed
    value_at-Kin g g' seed kin =
        let start =
          λ (h : Generator R F D). dist.seeded h.identity_distribution (xor_i64 seed h.salt) in
        let same_start : start g ≡ start g' =
          kin.identities (xor_i64 seed g.salt)
          ∙ ap (λ salt. dist.seeded g'.identity_distribution (xor_i64 seed salt)) kin.salts in
        end_generate-value (set_generator_seed java dist g seed) _
        ∙ ap (value_of java dist)
            (generate_value-renewed java dist law g.gen (start g) g.size_distribution)
        ∙ generate_value-size java dist (renewed java dist g.gen) (start g) g.size_distribution
            g'.size_distribution kin.sizes
        ∙ ap
            (λ gen.
              value_of java dist (generate_value java dist gen (start g) g'.size_distribution))
            kin.generators
        ∙ ap
            (λ d.
              value_of java dist
                (generate_value java dist (renewed java dist g'.gen) d g'.size_distribution))
            same_start
        ∙ ap (value_of java dist)
            (sym (generate_value-renewed java dist law g'.gen (start g') g'.size_distribution))
        ∙ sym (end_generate-value (set_generator_seed java dist g' seed) _)

    -- the generator after a value is of its kin
    abbrev pub GivesKin : Generator R F D → Option (CqlValue × Generator R F D) → Type 0
    GivesKin g none = Unit
    GivesKin g (some (value, g')) = Kin java dist g' g

    end_generate-Kin :
        (g : Generator R F D) (seed : ℤ) (m : Option (CqlValue × ValueGenerator R F × D × D))
        → IsKept java dist g.gen
            (dist.seeded g.identity_distribution (xor_i64 seed g.salt))
            g.size_distribution
            m
        → GivesKin g (end_generate java dist (set_generator_seed java dist g seed) m)
    unfolding end_generate set_generator_seed
    end_generate-Kin g seed none h = tt
    end_generate-Kin g seed (some (value, gen, identity, size)) h = record {
      salts = refl;
      generators = h.0;
      identities = λ s. h.1 s ∙ afresh.after_seed g.identity_distribution (xor_i64 seed g.salt) s;
      sizes = h.2;
    }

    pub generate-Kin :
        (g : Generator R F D) (seed : ℤ)
        → GivesKin g (generate java dist (set_generator_seed java dist g seed))
    unfolding generate set_generator_seed
    generate-Kin g seed = end_generate-Kin g seed _ (
        generate_value-IsKept java dist afresh g.gen
          (dist.seeded g.identity_distribution (xor_i64 seed g.salt)) g.size_distribution)
