-- ===== src/CassandraStress/Operation/RowGenerator.antt =====
-- operation/row_generator.rs, and the seed of the columns of operation/mod.rs. `none` is a panic. The
-- distribution of the seeds, which the workers share, is an argument.
pub mod Rows
pub mod Refines
use cql_stress.Common.{ℕ, ◌+◌, List, [], ◌∷◌, ◌++◌, map, Option, none, some, if◌then◌else◌, ℤ, pos}
use cql_stress.Common.Int.{add_i64, mul_i64}
use cql_stress.Common.Bytes.{Bytes}
use cql_stress.Text.{Text, codes, ◌is◌}
use cql_stress.CassandraStress.JavaGenerate.{JavaRandom}
use cql_stress.CassandraStress.JavaGenerate.FasterRandom.{default_faster}
use cql_stress.CassandraStress.JavaGenerate.Values.{
  Distribution, Generator, set_generator_seed, generate, new_generator, new_config, hex_blob, blob,
}
use cql_stress.CassandraStress.JavaGenerate.CqlValue.{CqlValue, blob_value, as_signed}

-- one step of the hash of a key: the byte is signed
unfoldable pub hash_bytes : ℤ → Bytes → ℤ
unfolding as_signed
hash_bytes seed [] = seed
hash_bytes seed (byte ∷ key) =
    hash_bytes (add_i64 (mul_i64 seed (pos 31)) (as_signed 8 (pos byte))) key

-- The other values are not implemented.
unfoldable pub recompute_seed : ℤ → CqlValue → Option ℤ
unfolding hash_bytes
recompute_seed seed (blob_value key) = some (hash_bytes seed key)
recompute_seed seed _ = none

pub record RowGenerator (R F D : Type 0) : Type 0 where
  pub pk_generator : Generator R F D
  pub column_generators : List (Generator R F D)
  pub index_map : List (Text × ℕ)

-- `HashMap::from_iter` of the names and their indices: a later name takes the place of an equal one.
unfoldable pub number_names : ℕ → List Text → List (Text × ℕ)
number_names i [] = []
number_names i (name ∷ names) = (name, i) ∷ number_names (i + 1) names

unfoldable pub lookup_last : List (Text × ℕ) → Text → Option ℕ
lookup_last [] name = none
lookup_last (entry ∷ entries) name = elim (lookup_last entries name) [
  | some i ↦ some i
  | none ↦ if entry.0 is name then some entry.1 else none
]

abbrev pub col_name_of : {R F D : Type 0} → Generator R F D → Text
col_name_of g = g.col_name

unfoldable pub new_row_generator :
    {R F D : Type 0} → Generator R F D → List (Generator R F D) → RowGenerator R F D
unfolding number_names
new_row_generator pk columns = record {
  pk_generator = pk;
  column_generators = columns;
  index_map = number_names 0 (map col_name_of (pk ∷ columns));
}

unfoldable pub row_index_of_column_with_name :
    {R F D : Type 0} → RowGenerator R F D → Text → Option ℕ
unfolding lookup_last
row_index_of_column_with_name w name = lookup_last w.index_map name

-- `RowGeneratorFactory::create`: the distributions of the key's size and of the columns' sizes, and
-- those that a generator falls back on, are created by `fixed`, `column_size` and the two others.
unfoldable pub create_row_generator :
    {R F D : Type 0}
    → JavaRandom R F
    → (Text → ℤ)
    → D
    → D
    → (ℤ → D)
    → D
    → ℕ
    → List Text
    → RowGenerator R F D
unfolding new_row_generator new_generator new_config default_faster
create_row_generator java hash_one identity size fixed column_size keysize columns =
    new_row_generator
      (new_generator identity size hex_blob
        (new_config hash_one (codes "randomstrkey") none (some (fixed (pos keysize))))
        (codes "key"))
      (map
        (λ column.
          new_generator identity size (blob (default_faster java))
            (new_config hash_one (codes "randomstr" ++ column) none (some column_size)) column)
        columns)

module _ {R F D : Type 0} (java : JavaRandom R F) (dist : Distribution D) where
  unfoldable pub generate_pk : RowGenerator R F D → D → Option (CqlValue × RowGenerator R F D × D)
  unfolding set_generator_seed generate
  generate_pk w seeds =
      let (pk_seed, seeds') = dist.sample seeds in
      elim (generate java dist (set_generator_seed java dist w.pk_generator pk_seed)) [
        | none ↦ none
        | some (key, g) ↦ some (key, record w { pk_generator = g }, seeds')
      ]

  -- the loop over the columns
  unfoldable pub generate_columns :
      ℤ → List (Generator R F D) → Option (List CqlValue × List (Generator R F D))
  unfolding set_generator_seed generate
  generate_columns seed [] = some ([], [])
  generate_columns seed (g ∷ gs) = elim (generate java dist (set_generator_seed java dist g seed)) [
    | none ↦ none
    | some (value, g') ↦ elim (generate_columns seed gs) [
      | none ↦ none
      | some (values, gs') ↦ some (value ∷ values, g' ∷ gs')
    ]
  ]

  -- the part of `generate_row` behind the key
  unfoldable pub complete_row :
      CqlValue → RowGenerator R F D → Option (List CqlValue × RowGenerator R F D)
  unfolding recompute_seed generate_columns
  complete_row key w = elim (recompute_seed (pos 0) key) [
    | none ↦ none
    | some columns_seed ↦ elim (generate_columns columns_seed w.column_generators) [
      | none ↦ none
      | some (values, gs) ↦ some (key ∷ values, record w { column_generators = gs })
    ]
  ]

  unfoldable pub generate_row :
      RowGenerator R F D → D → Option (List CqlValue × RowGenerator R F D × D)
  unfolding generate_pk complete_row
  generate_row w seeds = elim (generate_pk w seeds) [
    | none ↦ none
    | some (key, w', seeds') ↦ elim (complete_row key w') [
      | none ↦ none
      | some (row, w2) ↦ some (row, w2, seeds')
    ]
  ]
