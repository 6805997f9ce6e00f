-- ===== src/Examples/Generators.antt =====
-- Random numbers, values, distributions and rows of src/bin/cql-stress-cassandra-stress.
use cql_stress.Common.{
  ℕ, ◌+◌, ◌-◌, ◌*◌, ◌/◌, ◌^◌, ◌≤◌, ◌<◌, ◌≡◌, refl, true, [], ◌∷◌, none, some, ok, ltb, ◌==◌, length,
  take, All, ℤ, pos, negsuc, arith, Option,
}
use cql_stress.Common.Int.{mul_i64, ◌≤ℤ◌, pos_part}
use cql_stress.Text.{Text, codes, is_whitespace}
use cql_stress.CassandraStress.JavaGenerate.{JavaRandom, Floats, ForgetsOnSeed}
use cql_stress.CassandraStress.JavaGenerate.FasterRandom.{FasterRandom, set_seed}
use cql_stress.CassandraStress.JavaGenerate.FasterRandom.Stream.{
  number, block, xorshifts, steps-set_seed,
}
use cql_stress.CassandraStress.JavaGenerate.CqlValue.{blob_value, text_value}
use cql_stress.CassandraStress.JavaGenerate.Values.{
  Distribution, Generator, blob, text, hex_blob, sized, generate_value, blob_bytes, text_bytes,
}
use cql_stress.CassandraStress.JavaGenerate.Values.Chunks.{stream, started}
use cql_stress.CassandraStress.JavaGenerate.Values.Utf8.{
  AreAscii, generate_value-blob, generate_value-text,
}
use cql_stress.CassandraStress.JavaGenerate.Values.Hex.{
  IsPrinted, hex_stream, generate_value-hex_blob,
}
use cql_stress.CassandraStress.JavaGenerate.Distributions.{
  Source, fixed, sources, UniformDistribution, new_uniform, uniform_i64, clamp_asserts,
}
use cql_stress.CassandraStress.JavaGenerate.Distributions.Laws.{sources-SeedsAfresh}
use cql_stress.CassandraStress.JavaGenerate.Distributions.Bounds.{drawn, uniform_i64-bounds}
use cql_stress.CassandraStress.JavaGenerate.Distributions.Factories.{
  DistributionFactory, seq_factory, parse_distribution, parse_named, parse_seq, seq_of_args,
  new_seq_factory,
}
use cql_stress.Distribution.{
  parse_description, strip_tilde, parse_stripped, decompose_name_and_args, classic_name_and_args,
  decompose_args, args_at_dots, check_argument_count,
}
use cql_stress.Text.Split.{split, split_once, split_once_twice, strip_suffix}
use cql_stress.Text.Trim.{trim}
use cql_stress.Text.Digits.{parse_i64}
use cql_stress.CassandraStress.JavaGenerate.Distributions.Creates.{
  Creates, parse_distribution-Creates,
}
use cql_stress.CassandraStress.Operation.RowGenerator.{RowGenerator}
use cql_stress.CassandraStress.Operation.RowGenerator.Rows.{rows_of, draws, generate_rows}
use cql_stress.CassandraStress.Operation.RowGenerator.Refines.{generate_rows-rows_of}

-- a generator that counts up from its seed, and whole numbers for f64
abbrev counting : JavaRandom ℕ ℕ
counting = record {
  with_seed = λ seed. seed;
  seeded = λ r seed. seed;
  next_long = λ r. (pos r, r + 1);
  next_double = λ r. (r, r + 1);
}

counting_law : ForgetsOnSeed counting
counting_law r seed = refl

abbrev whole : Floats ℕ
whole = record {
  of_i64 = pos_part;
  to_i64 = pos;
  add = ◌+◌;
  sub = ◌-◌;
  mul = ◌*◌;
  div = ◌/◌;
  lt = ltb;
  eq = ◌==◌;
  sqrt = λ x. x;
  log = λ x. x;
}

abbrev seven : ℤ
seven = pos 7

abbrev rng : FasterRandom ℕ ℕ
rng = record {
  seed = seven;
  reseed_counter = 3;
  random = record { delegate = 5; next_next_gaussian = none };
}

steps-set_seed_example :
    let h = set_seed counting rng seven in
    (number counting (32 * 1 + 4) h
      ≡ mul_i64 (xorshifts 5 (block counting 1 seven)) (pos 2685821657736338717))
    × (number counting (32 * 1 + 31) h ≡ mul_i64 (block counting 2 seven) (pos 2685821657736338717))
steps-set_seed_example = steps-set_seed counting counting_law rng seven 1 4 (omega arith)

-- the identity distribution gives 5, and the size distribution 11
abbrev dist : Distribution (Source ℕ ℕ)
dist = sources counting whole 0

abbrev five : Source ℕ ℕ
five = fixed (record { value = pos 5 })

abbrev eleven : Source ℕ ℕ
eleven = fixed (record { value = pos 11 })

generate_value-blob_example :
    let s = sized dist five eleven in
    let bytes = take s.1 (stream counting blob_bytes s.1 (started counting dist rng five eleven)) in
    (s.1 < 2 ^ 63
      → (rng' : FasterRandom ℕ ℕ) × (generate_value counting dist (blob rng) five eleven
          ≡ some (blob_value bytes, blob rng', s.2, s.3))
        × (length bytes ≡ s.1))
    × (2 ^ 63 ≤ s.1 → generate_value counting dist (blob rng) five eleven ≡ none)
generate_value-blob_example = generate_value-blob counting dist rng five eleven

generate_value-text_example :
    let s = sized dist five eleven in
    let bytes = take s.1 (stream counting text_bytes s.1 (started counting dist rng five eleven)) in
    (s.1 < 2 ^ 63
      → (rng' : FasterRandom ℕ ℕ) × (generate_value counting dist (text rng) five eleven
          ≡ some (text_value bytes, text rng', s.2, s.3))
        × (length bytes ≡ s.1)
        × AreAscii bytes)
    × (2 ^ 63 ≤ s.1 → generate_value counting dist (text rng) five eleven ≡ none)
generate_value-text_example = generate_value-text counting dist rng five eleven

generate_value-hex_blob_example :
    let s = sized dist five eleven in
    let bytes = take s.1 (hex_stream dist s.1 s.2) in
    (s.1 < 2 ^ 63
      → (identity' : Source ℕ ℕ) × (generate_value counting dist hex_blob five eleven
          ≡ some (blob_value bytes, hex_blob, identity', s.3))
        × (length bytes ≡ s.1)
        × All IsPrinted bytes)
    × (2 ^ 63 ≤ s.1 → generate_value counting dist hex_blob five eleven ≡ none)
generate_value-hex_blob_example = generate_value-hex_blob dist counting five eleven

-- a uniform distribution from 2 to 9
abbrev two_to_nine : UniformDistribution ℕ ℕ
two_to_nine = record { lower = 2; upper = 9; rng = none }

whole-ordered : (x y : ℕ) → ltb x y ≡ true → pos x ≤ℤ pos y
whole-ordered x y h = ground arith

two_to_nine-new : new_uniform counting whole 0 2 9 ≡ ok two_to_nine
unfolding new_uniform
two_to_nine-new = refl

uniform_i64-bounds_example :
    (clamp_asserts
        (pos (drawn counting whole 0 3 two_to_nine).lower)
        (pos (drawn counting whole 0 3 two_to_nine).upper)
      ≡ true)
    × (pos 2 ≤ℤ (uniform_i64 counting whole 0 (drawn counting whole 0 3 two_to_nine)).0)
    × ((uniform_i64 counting whole 0 (drawn counting whole 0 3 two_to_nine)).0 ≤ℤ pos 9)
uniform_i64-bounds_example =
    uniform_i64-bounds counting whole 0 whole-ordered 2 9 two_to_nine two_to_nine-new 3

abbrev lower_case : Text → Text
lower_case s = s

abbrev no_f64 : Text → Option ℕ
no_f64 s = none

abbrev one_to_ten : DistributionFactory ℕ
one_to_ten = seq_factory (pos 1) (pos 10)

one_to_ten-read : parse_distribution whole no_f64 lower_case (codes "seq(1..10)") ≡ ok one_to_ten
unfolding parse_distribution parse_named parse_seq seq_of_args new_seq_factory parse_description
    strip_tilde parse_stripped decompose_name_and_args classic_name_and_args decompose_args
    args_at_dots split split_once split_once_twice strip_suffix trim parse_i64 check_argument_count
    is_whitespace
one_to_ten-read = refl

parse_distribution-Creates_example : Creates counting whole 0 no_f64 one_to_ten
parse_distribution-Creates_example =
    parse_distribution-Creates counting whole 0 no_f64 lower_case (codes "seq(1..10)") one_to_ten
      one_to_ten-read

-- a key of 11 bytes, and a column
abbrev key_generator : Generator ℕ ℕ (Source ℕ ℕ)
key_generator = record {
  salt = seven;
  identity_distribution = five;
  size_distribution = eleven;
  gen = hex_blob;
  col_name = codes "key";
}

abbrev column_generator : Generator ℕ ℕ (Source ℕ ℕ)
column_generator = record {
  salt = negsuc 3;
  identity_distribution = five;
  size_distribution = eleven;
  gen = blob rng;
  col_name = codes "C0";
}

abbrev rows : RowGenerator ℕ ℕ (Source ℕ ℕ)
rows = record {
  pk_generator = key_generator;
  column_generators = column_generator ∷ [];
  index_map = [];
}

generate_rows-rows_of_example :
    generate_rows counting dist 3 rows five
    ≡ rows_of counting dist rows (draws counting dist 3 five)
generate_rows-rows_of_example =
    generate_rows-rows_of counting dist counting_law
      (sources-SeedsAfresh counting whole 0 counting_law) 3 rows five
