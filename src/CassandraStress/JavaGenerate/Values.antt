-- ===== src/CassandraStress/JavaGenerate/Values.antt =====
-- java_generate/values: the generators of values and what they are built from. The distributions
-- are an argument. `Vec::with_capacity` panics above isize::MAX; `none` is a panic.
pub mod Chunks
pub mod Kin
pub mod Kept
pub mod Generated
pub mod Hex
pub mod Utf8
use cql_stress.Common.{
  ℕ, zero, suc, ◌+◌, ◌-◌, ◌*◌, ◌/◌, ◌%◌, ◌^◌, min, Bool, true, false, ◌&&◌, ◌||◌, List, [], ◌∷◌,
  ◌++◌, Option, none, some, ltb, leb, ◌==◌, if◌then◌else◌, length, take, map, ℤ, pos, negsuc,
}
use cql_stress.Common.Int.{as_i64, as_u64}
use cql_stress.Text.{Text}
use cql_stress.Common.Bytes.{Bytes, to_le_bytes}
use cql_stress.CassandraStress.JavaGenerate.{JavaRandom, not_i64, xor_i64}
use cql_stress.CassandraStress.JavaGenerate.FasterRandom.{
  FasterRandom, default_faster, set_seed, next_i64,
}
use cql_stress.CassandraStress.JavaGenerate.CqlValue.{
  CqlValue, blob_value, text_value, varint_value, bigint_value, int_value, smallint_value,
  tinyint_value, boolean_value, inet_value, uuid_value, decimal_value, as_signed, to_be_bytes,
  fits_capacity, to_text_byte, hex_digit, from_utf8,
}

-- the trait `Distribution`, as far as it is used here
pub record Distribution (D : Type 0) : Type 0 where
  pub sample : D → ℤ × D
  pub seeded : D → ℤ → D

abbrev unwrap_or : {A : Type 0} → Option A → A → A
unwrap_or none a = a
unwrap_or (some x) a = x

-- `n % 2 == 1` on i64: the remainder of a negative number is not positive
abbrev pub is_one_of_two : ℤ → Bool
is_one_of_two (pos n) = n % 2 == 1
is_one_of_two (negsuc n) = false

-- the state of a `dyn ValueGenerator`
pub data ValueGenerator (R F : Type 0) : Type 0 where
  blob : FasterRandom R F → ValueGenerator R F
  text : FasterRandom R F → ValueGenerator R F
  hex_blob big_int int small_int tiny_int boolean inet var_int uuid decimal : ValueGenerator R F

pub record Generator (R F D : Type 0) : Type 0 where
  pub salt : ℤ
  pub identity_distribution : D
  pub size_distribution : D
  pub gen : ValueGenerator R F
  pub col_name : Text

pub record GeneratorConfig (D : Type 0) : Type 0 where
  pub config_salt : ℤ
  pub config_identity : Option D
  pub config_size : Option D

-- `GeneratorConfig::new`: the hash of the driver is an argument
unfoldable pub new_config :
    {D : Type 0} → (Text → ℤ) → Text → Option D → Option D → GeneratorConfig D
new_config hash_one seed_str identity size = record {
  config_salt = hash_one seed_str;
  config_identity = identity;
  config_size = size;
}

-- `Generator::new`, with the distributions that it falls back on
unfoldable pub new_generator :
    {R F D : Type 0} → D → D → ValueGenerator R F → GeneratorConfig D → Text → Generator R F D
new_generator default_identity default_size gen config col_name = record {
  salt = config.config_salt;
  identity_distribution = unwrap_or config.config_identity default_identity;
  size_distribution = unwrap_or config.config_size default_size;
  gen = gen;
  col_name = col_name;
}

abbrev pub blob_bytes : ℤ → Bytes
blob_bytes v = to_le_bytes 8 (as_u64 v)

abbrev pub text_bytes : ℤ → Bytes
text_bytes v = map to_text_byte (to_le_bytes 8 (as_u64 v))

-- what the generators of bytes begin with: the seed, the size, and the distributions after it
module _ {D : Type 0} (dist : Distribution D) where
  abbrev pub sized : D → D → ℤ × ℕ × D × D
  sized identity size =
      let (seed, identity') = dist.sample identity in
      let (n, size') = dist.sample (dist.seeded size seed) in (seed, as_u64 n, identity', size')

  -- the inner loop of `HexBlob`: `left` is 16 - j
  unfoldable pub hex_digits : ℕ → ℕ → ℕ → ℤ → Bytes → Bytes
  hex_digits zero at size value result = result
  hex_digits (suc left) at size value result =
      let v = as_u64 value % 16 in
      let rest =
        hex_digits left (at + 1) size (as_i64 (as_u64 value / 16)) (result ++ (hex_digit v ∷ [])) in
      if ltb at size then rest else result

  unfoldable pub hex_fill : ℕ → ℕ → ℕ → D → Bytes → Option (Bytes × D)
  unfolding hex_digits
  hex_fill zero size i identity result = if ltb i size then none else some (result, identity)
  hex_fill (suc fuel) size i identity result =
      let (value, identity') = dist.sample identity in
      let rest = hex_fill fuel size (i + 16) identity' (hex_digits 16 i size value result) in
      if ltb i size then rest else some (result, identity)

  unfoldable pub hex_filled_from : ℤ × ℕ × D × D → Option (Bytes × D × D)
  unfolding hex_fill
  hex_filled_from (seed, n, identity, size) =
      if fits_capacity n
      then elim (hex_fill n n 0 identity []) [
        | none ↦ none
        | some (bytes, identity') ↦ some (bytes, identity', size)
      ]
      else none

  unfoldable pub hex_filled : D → D → Option (Bytes × D × D)
  unfolding hex_filled_from
  hex_filled identity size = hex_filled_from (sized identity size)

module _ {R F : Type 0} (java : JavaRandom R F) where
  -- the loop of `Blob` and `Text`, which take their bytes from eight at a time
  unfoldable pub fill :
      (ℤ → Bytes) → ℕ → ℕ → ℕ → FasterRandom R F → Bytes → Option (Bytes × FasterRandom R F)
  fill bytes_of zero size i rng result = if ltb i size then none else some (result, rng)
  fill bytes_of (suc fuel) size i rng result =
      let (word, rng') = next_i64 java rng in
      let v = bytes_of word in
      let n = min (size - i) (length v) in
      let rest = fill bytes_of fuel size (i + n) rng' (result ++ take n v) in
      if ltb i size then rest else some (result, rng)

  module _ {D : Type 0} (dist : Distribution D) where
    -- the first lines of `generate` of a generator that samples a size, and its loop
    unfoldable pub filled_from :
        (ℤ → Bytes) → FasterRandom R F → ℤ × ℕ × D × D → Option (Bytes × FasterRandom R F × D × D)
    unfolding fill
    filled_from bytes_of rng (seed, n, identity, size) =
        if fits_capacity n
        then elim (fill bytes_of n n 0 (set_seed java rng (not_i64 seed)) []) [
          | none ↦ none
          | some (bytes, rng') ↦ some (bytes, rng', identity, size)
        ]
        else none

    unfoldable pub filled :
        (ℤ → Bytes) → FasterRandom R F → D → D → Option (Bytes × FasterRandom R F × D × D)
    unfolding filled_from
    filled bytes_of rng identity size = filled_from bytes_of rng (sized dist identity size)

    abbrev pub GeneratedValue : Type 0
    GeneratedValue = Option (CqlValue × ValueGenerator R F × D × D)

    -- the ends of the generators of bytes
    unfoldable pub blob_of : Option (Bytes × FasterRandom R F × D × D) → GeneratedValue
    blob_of none = none
    blob_of (some (bytes, rng, identity, size)) = some (blob_value bytes, blob rng, identity, size)

    unfoldable pub checked_text : FasterRandom R F → D → D → Option Bytes → GeneratedValue
    checked_text rng identity size none = none
    checked_text rng identity size (some s) = some (text_value s, text rng, identity, size)

    unfoldable pub text_of : Option (Bytes × FasterRandom R F × D × D) → GeneratedValue
    unfolding from_utf8 checked_text
    text_of none = none
    text_of (some (bytes, rng, identity, size)) = checked_text rng identity size (from_utf8 bytes)

    unfoldable pub hex_of : Option (Bytes × D × D) → GeneratedValue
    hex_of none = none
    hex_of (some (bytes, identity, size)) = some (blob_value bytes, hex_blob, identity, size)

    -- a generator that needs one number only
    abbrev from_number : (ℤ → CqlValue) → ValueGenerator R F → D → D → GeneratedValue
    from_number value gen identity size =
        let (n, identity') = dist.sample identity in some (value n, gen, identity', size)

    abbrev pub generate_boolean : D → D → GeneratedValue
    generate_boolean = from_number (λ n. boolean_value (is_one_of_two n)) boolean

    abbrev pub generate_inet : D → D → GeneratedValue
    generate_inet = from_number (λ n. inet_value (to_be_bytes 4 (as_signed 32 n))) inet

    abbrev pub generate_var_int : D → D → GeneratedValue
    generate_var_int = from_number (λ n. varint_value (to_be_bytes 8 n)) var_int

    abbrev pub generate_uuid : D → D → GeneratedValue
    generate_uuid = from_number (λ n. uuid_value (as_u64 n) (as_u64 n)) uuid

    abbrev pub generate_decimal : D → D → GeneratedValue
    generate_decimal = from_number (λ n. decimal_value (to_be_bytes 8 n) (pos 0)) decimal

    -- `impl_value_generator_for_fixed_integer!`
    abbrev pub generate_integer : (ℤ → CqlValue) → ℕ → ValueGenerator R F → D → D → GeneratedValue
    generate_integer value width = from_number (λ n. value (as_signed width n))

    -- `ValueGenerator::generate`
    unfoldable pub generate_value : ValueGenerator R F → D → D → GeneratedValue
    unfolding filled hex_filled blob_of text_of hex_of
    generate_value (blob rng) identity size = blob_of (filled blob_bytes rng identity size)
    generate_value (text rng) identity size = text_of (filled text_bytes rng identity size)
    generate_value hex_blob identity size = hex_of (hex_filled dist identity size)
    generate_value big_int identity size = from_number bigint_value big_int identity size
    generate_value int identity size = generate_integer int_value 32 int identity size
    generate_value small_int identity size =
        generate_integer smallint_value 16 small_int identity size
    generate_value tiny_int identity size = generate_integer tinyint_value 8 tiny_int identity size
    generate_value boolean identity size = generate_boolean identity size
    generate_value inet identity size = generate_inet identity size
    generate_value var_int identity size = generate_var_int identity size
    generate_value uuid identity size = generate_uuid identity size
    generate_value decimal identity size = generate_decimal identity size

    unfoldable pub set_generator_seed : Generator R F D → ℤ → Generator R F D
    unfolding xor_i64
    set_generator_seed g seed = record g {
      identity_distribution = dist.seeded g.identity_distribution (xor_i64 seed g.salt);
    }

    unfoldable pub end_generate :
        Generator R F D → GeneratedValue → Option (CqlValue × Generator R F D)
    end_generate g none = none
    end_generate g (some (value, gen, identity, size)) =
        some (
          value,
          record g { gen = gen; identity_distribution = identity; size_distribution = size },
        )

    unfoldable pub generate : Generator R F D → Option (CqlValue × Generator R F D)
    unfolding generate_value end_generate
    generate g = end_generate g (generate_value g.gen g.identity_distribution g.size_distribution)
