-- ===== src/CassandraStress/Operation/RowGenerator/Rows.antt =====
-- The rows of a workload: each depends on its seed only.
use cql_stress.Common.{
  ℕ, zero, suc, ◌≡◌, refl, ap, List, [], ◌∷◌, Option, none, some, and_then, and_then-cong, ℤ, pos,
}
use cql_stress.CassandraStress.JavaGenerate.{JavaRandom, ForgetsOnSeed}
use cql_stress.CassandraStress.JavaGenerate.Values.{Distribution, Generator}
use cql_stress.CassandraStress.JavaGenerate.CqlValue.{CqlValue}
use cql_stress.CassandraStress.JavaGenerate.Values.Kin.{SeedsAfresh, Kin}
use cql_stress.CassandraStress.JavaGenerate.Values.Generated.{value_at, value_at-Kin}
use cql_stress.CassandraStress.Operation.RowGenerator.{RowGenerator, recompute_seed, generate_row}

module _ {R F D : Type 0} (java : JavaRandom R F) (dist : Distribution D) where
  -- The row of a seed: its key is that of the seed, and its columns are those of the key's hash.
  unfoldable pub columns_at : ℤ → List (Generator R F D) → Option (List CqlValue)
  columns_at seed [] = some []
  columns_at seed (g ∷ gs) =
      and_then (value_at java dist g seed)
        (λ value. and_then (columns_at seed gs) (λ values. some (value ∷ values)))

  unfoldable pub completed : List (Generator R F D) → CqlValue → Option (List CqlValue)
  unfolding columns_at
  completed gs key =
      and_then (recompute_seed (pos 0) key)
        (λ seed. and_then (columns_at seed gs) (λ values. some (key ∷ values)))

  unfoldable pub row_of : RowGenerator R F D → ℤ → Option (List CqlValue)
  unfolding completed
  row_of w seed = and_then (value_at java dist w.pk_generator seed) (completed w.column_generators)

  unfoldable pub rows_of : RowGenerator R F D → List ℤ → Option (List (List CqlValue))
  unfolding row_of
  rows_of w [] = some []
  rows_of w (seed ∷ seeds) =
      and_then (row_of w seed) (λ row. and_then (rows_of w seeds) (λ rows. some (row ∷ rows)))

  -- the first `k` seeds of the distribution that the workers share
  abbrev pub draws : ℕ → D → List ℤ
  draws zero d = []
  draws (suc k) d = (dist.sample d).0 ∷ draws k (dist.sample d).1

  -- a worker's first `k` rows
  unfoldable pub generate_rows : ℕ → RowGenerator R F D → D → Option (List (List CqlValue))
  generate_rows zero w d = some []
  generate_rows (suc k) w d = elim (generate_row java dist w d) [
    | none ↦ none
    | some (row, w', d') ↦ and_then (generate_rows k w' d') (λ rows. some (row ∷ rows))
  ]

  abbrev pub AllKin : List (Generator R F D) → List (Generator R F D) → Type 0
  AllKin [] [] = Unit
  AllKin [] (h ∷ hs) = ⊥
  AllKin (g ∷ gs) [] = ⊥
  AllKin (g ∷ gs) (h ∷ hs) = Kin java dist g h × AllKin gs hs

  pub record RowKin (w w' : RowGenerator R F D) : Type 0 where
    pub keys : Kin java dist w.pk_generator w'.pk_generator
    pub columns : AllKin w.column_generators w'.column_generators

  module _ (law : ForgetsOnSeed java) (afresh : SeedsAfresh dist) where
    columns_at-Kin :
        (seed : ℤ) (gs hs : List (Generator R F D))
        → AllKin gs hs
        → columns_at seed gs ≡ columns_at seed hs
    unfolding columns_at
    columns_at-Kin seed [] [] h = refl
    columns_at-Kin seed [] (g ∷ gs) h = absurd h
    columns_at-Kin seed (g ∷ gs) [] h = absurd h
    columns_at-Kin seed (g ∷ gs) (g' ∷ hs) h =
        and_then-cong _ _ _ _ (value_at-Kin java dist law afresh g g' seed h.0) (λ value.
          ap (λ m. and_then m (λ values. some (value ∷ values))) (columns_at-Kin seed gs hs h.1))

    completed-Kin :
        (key : CqlValue) (gs hs : List (Generator R F D))
        → AllKin gs hs
        → completed gs key ≡ completed hs key
    unfolding completed
    completed-Kin key gs hs h =
        and_then-cong (recompute_seed (pos 0) key) _ _ _ refl (λ seed.
          ap (λ m. and_then m (λ values. some (key ∷ values))) (columns_at-Kin seed gs hs h))

    row_of-Kin :
        (w w' : RowGenerator R F D) (seed : ℤ) → RowKin w w' → row_of w seed ≡ row_of w' seed
    unfolding row_of
    row_of-Kin w w' seed h =
        and_then-cong _ _ _ _
          (value_at-Kin java dist law afresh w.pk_generator w'.pk_generator seed h.keys)
          (λ key. completed-Kin key w.column_generators w'.column_generators h.columns)

    pub rows_of-Kin :
        (w w' : RowGenerator R F D) (seeds : List ℤ)
        → RowKin w w'
        → rows_of w seeds ≡ rows_of w' seeds
    unfolding rows_of
    rows_of-Kin w w' [] h = refl
    rows_of-Kin w w' (seed ∷ seeds) h =
        and_then-cong _ _ _ _ (row_of-Kin w w' seed h)
          (λ row. ap (λ m. and_then m (λ rows. some (row ∷ rows))) (rows_of-Kin w w' seeds h))
