-- ===== src/CassandraStress/Operation/RowGenerator/Refines.antt =====
-- The rows that a worker generates are those of the seeds that it draws.
use cql_stress.Common.{
  ℕ, zero, suc, ◌≡◌, refl, sym, ap, subst, ◌∙◌, inl, inr, ◌⊎◌, List, [], ◌∷◌, Option, none, some,
  Option-cases, and_then, ℤ, pos,
}
use cql_stress.CassandraStress.JavaGenerate.{JavaRandom, ForgetsOnSeed}
use cql_stress.CassandraStress.JavaGenerate.Values.{
  Distribution, Generator, generate, set_generator_seed,
}
use cql_stress.CassandraStress.JavaGenerate.CqlValue.{CqlValue}
use cql_stress.CassandraStress.JavaGenerate.Values.Kin.{SeedsAfresh, Kin}
use cql_stress.CassandraStress.JavaGenerate.Values.Generated.{
  value_at, value_generated, GivesKin, generate-Kin,
}
use cql_stress.CassandraStress.Operation.RowGenerator.{
  RowGenerator, recompute_seed, generate_pk, generate_columns, complete_row, generate_row,
}
use cql_stress.CassandraStress.Operation.RowGenerator.Rows.{
  columns_at, completed, row_of, rows_of, rows_of-Kin, draws, generate_rows, AllKin, RowKin,
}

module _ {R F D : Type 0} (java : JavaRandom R F) (dist : Distribution D) where
  -- A step that fails where its specification does, or gives what the specification says and a
  -- state that is as good as the one before.
  abbrev Follows : {A S : Type 0} → (S → Type 0) → Option (A × S) → Option A → Type 0
  Follows {A} {S} IsGood step spec =
      ((step ≡ none) × (spec ≡ none))
      ⊎ ((a : A) × (s : S) × (step ≡ some (a, s)) × (spec ≡ some a) × IsGood s)

  module _ (law : ForgetsOnSeed java) (afresh : SeedsAfresh dist) where
    value_at-Follows :
        (g : Generator R F D) (seed : ℤ)
        → Follows
            (λ g'. Kin java dist g' g)
            (generate java dist (set_generator_seed java dist g seed))
            (value_at java dist g seed)
    unfolding value_at
    value_at-Follows g seed =
        let m = generate java dist (set_generator_seed java dist g seed) in
        elim (Option-cases m) [
          | inl e ↦ inl (e, ap (value_generated java dist) e)
          | inr (p, e) ↦ inr (
            p.0,
            p.1,
            e,
            ap (value_generated java dist) e,
            subst (GivesKin java dist law afresh g) e (generate-Kin java dist law afresh g seed),
          )
        ]

    columns_at-Follows :
        (seed : ℤ) (gs : List (Generator R F D))
        → Follows
            (λ gs'. AllKin java dist gs' gs)
            (generate_columns java dist seed gs)
            (columns_at java dist seed gs)
    unfolding generate_columns columns_at
    columns_at-Follows seed [] = inr ([], [], refl, refl, tt)
    columns_at-Follows seed (g ∷ gs) = elim (value_at-Follows g seed) [
      | inl (e, f) ↦ inl (rw (generate_columns, e) refl, rw (columns_at, f) refl)
      | inr (value, g', e, f, kin) ↦ elim (columns_at-Follows seed gs) [
        | inl (e', f') ↦ inl (rw (generate_columns, e, e') refl, rw (columns_at, f, f') refl)
        | inr (values, gs', e', f', kins) ↦ inr (
          value ∷ values,
          g' ∷ gs',
          rw (generate_columns, e, e') refl,
          rw (columns_at, f, f') refl,
          (kin, kins),
        )
      ]
    ]

    complete_row-Follows :
        (w : RowGenerator R F D) (key : CqlValue)
        → Follows
            (λ w'.
              (w'.pk_generator ≡ w.pk_generator)
              × AllKin java dist w'.column_generators w.column_generators)
            (complete_row java dist key w)
            (completed java dist w.column_generators key)
    unfolding complete_row completed
    complete_row-Follows w key = elim (Option-cases (recompute_seed (pos 0) key)) [
      | inl e ↦ inl (rw (complete_row, e) refl, rw (completed, e) refl)
      | inr (seed, e) ↦ elim (columns_at-Follows seed w.column_generators) [
        | inl (e', f') ↦ inl (rw (complete_row, e, e') refl, rw (completed, e, f') refl)
        | inr (values, gs, e', f', kins) ↦ inr (
          key ∷ values,
          record w { column_generators = gs },
          rw (complete_row, e, e') refl,
          rw (completed, e, f') refl,
          (refl, kins),
        )
      ]
    ]

    -- one row; the distribution of the seeds goes one sample on
    RowFollows : RowGenerator R F D → D → Type 0
    RowFollows w d =
        ((generate_row java dist w d ≡ none) × (row_of java dist w (dist.sample d).0 ≡ none))
        ⊎ ((row : List CqlValue) × (w' : RowGenerator R F D) × (generate_row java dist w d
              ≡ some (row, w', (dist.sample d).1))
            × (row_of java dist w (dist.sample d).0 ≡ some row)
            × RowKin java dist w' w)

    generate_row-Follows : (w : RowGenerator R F D) (d : D) → RowFollows w d
    unfolding generate_row generate_pk row_of RowFollows
    generate_row-Follows w d = elim (value_at-Follows w.pk_generator (dist.sample d).0) [
      | inl (e, f) ↦ inl (rw (generate_row, generate_pk, e) refl, rw (row_of, f) refl)
      | inr (key, g, e, f, kin) ↦ elim (complete_row-Follows (record w { pk_generator = g }) key) [
        | inl (e', f') ↦ inl (rw (generate_row, generate_pk, e, e') refl, rw (row_of, f) f')
        | inr (row, w', e', f', (same, kins)) ↦ inr (
          row,
          w',
          rw (generate_row, generate_pk, e, e') refl,
          rw (row_of, f) f',
          record {
            keys = subst (λ h. Kin java dist h w.pk_generator) (sym same) kin;
            columns = kins;
          },
        )
      ]
    ]

    -- Whatever a worker has generated before, its next k rows are those that a function of the seed
    -- alone gives for the k seeds that it draws, and it panics exactly where that function has no
    -- row. A seed makes java.util.Random and the distributions forget what was drawn before.
    pub generate_rows-rows_of :
        (k : ℕ) (w : RowGenerator R F D) (d : D)
        → generate_rows java dist k w d ≡ rows_of java dist w (draws java dist k d)
    unfolding generate_rows rows_of RowFollows
    generate_rows-rows_of zero w d = refl
    generate_rows-rows_of (suc k) w d = elim (generate_row-Follows w d) [
      | inl (e, f) ↦ rw (generate_rows, e, f) refl
      | inr (row, w', e, f, kin) ↦
          rw (generate_rows, e, f)
            (ap (λ m. and_then m (λ rows. some (row ∷ rows)))
              (generate_rows-rows_of k w' (dist.sample d).1
                ∙ rows_of-Kin java dist law afresh w' w (draws java dist k (dist.sample d).1) kin))
    ]
