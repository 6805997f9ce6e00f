-- ===== src/CassandraStress/Settings/Types.antt =====
-- settings/param/types.rs: the values of parameters that are whole numbers, flags or texts. A regular
-- expression of the source is a function that tests a text.
pub mod Counts
use Prim.Native.Nat.{◌*◌, ◌%◌}
use cql_stress.Common.{
  ℕ, Bool, true, false, not, ◌&&◌, ◌||◌, List, [], ◌∷◌, Option, none, some, and_then, Result, ok,
  err, ensure, ok_or, ◌>>=◌, ◌>>◌, if◌then◌else◌, ◌==◌, all, map,
}
use cql_stress.Common.Int.{u64_mod}
use cql_stress.Text.{Text, is_ascii_digit, is_empty, to_ascii_lowercase, contains}
use cql_stress.Text.Digits.{parse_u64}
use cql_stress.Text.Split.{split, split_once_twice, strip_suffix}
use cql_stress.Distribution.Long.{next_back}

pub data TypeError : Type 0 where
  bad_pattern bad_unit bad_number no_range : TypeError

-- [0-9]+
abbrev pub are_digits : Text → Bool
are_digits s = not (is_empty s) && all is_ascii_digit s

-- `char::to_lowercase` for the characters that get to an ASCII one: the Kelvin sign is one of them.
-- What stays outside ASCII matches no pattern below.
abbrev pub lower : ℕ → ℕ
lower c = if c == 0x212a then b'k' else to_ascii_lowercase c

abbrev pub lowered : Text → Text
lowered s = map lower s

-- `impl Parsable for u64`
unfoldable pub parse_whole : Text → Result TypeError ℕ
parse_whole s = do ensure (are_digits s) bad_pattern; ok_or (parse_u64 s) bad_number

-- `impl Parsable for bool`
unfoldable pub parse_flag : Text → Result TypeError Bool
parse_flag s = do ensure (is_empty s) bad_pattern; ok true

-- `impl Parsable for String`
unfoldable pub parse_string : Text → Result TypeError Text
parse_string s = ok s

-- a number with the multiplier of its unit; the product wraps around
unfoldable pub times : Text → ℕ → Result TypeError ℕ
times s multiplier = do value ← ok_or (parse_u64 s) bad_number; ok (value * multiplier % u64_mod)

abbrev pub duration_unit : ℕ → Option ℕ
duration_unit c =
    if c == b's'
    then some 1
    else if c == b'm'
    then some 60
    else if c == b'h'
    then some 3600
    else none

-- ^[0-9]+[smh]$, and what stands behind the test
unfoldable pub duration_of_last : Option (Text × ℕ) → Result TypeError ℕ
unfolding times
duration_of_last none = err bad_pattern
duration_of_last (some (s, c)) = do
  multiplier ← ok_or (duration_unit c) bad_pattern
  ensure (are_digits s) bad_pattern
  times s multiplier

-- `impl Parsable for Duration`, in seconds
unfoldable pub parse_duration : Text → Result TypeError ℕ
unfolding duration_of_last next_back
parse_duration s = duration_of_last (next_back (lowered s))

abbrev pub count_unit : ℕ → Option ℕ
count_unit c =
    if c == b'k'
    then some 1000
    else if c == b'm'
    then some 1000000
    else if c == b'b'
    then some 1000000000
    else none

unfoldable pub count_with_unit : Text → Text → Option ℕ → Result TypeError ℕ
unfolding times
count_with_unit s whole (some multiplier) = do ensure (are_digits s) bad_pattern; times s multiplier
count_with_unit s whole none = do ensure (are_digits whole) bad_pattern; times whole 1

-- ^[0-9]+[bmk]?$, and what stands behind the test
unfoldable pub count_of_last : Text → Option (Text × ℕ) → Result TypeError ℕ
unfolding count_with_unit
count_of_last whole none = err bad_pattern
count_of_last whole (some (s, c)) = count_with_unit s whole (count_unit c)

-- `impl Parsable for Count`
unfoldable pub parse_count : Text → Result TypeError ℕ
unfolding count_of_last next_back
parse_count s = count_of_last (lowered s) (next_back (lowered s))

-- `impl Parsable for CommaDelimitedList`: ^[^=,]+(,[^=,]+)*$
unfoldable pub parse_list : Text → Result TypeError (List Text)
parse_list s = do
  ensure (all (λ part. not (is_empty part) && not (contains b'=' part)) (split b',' s)) bad_pattern
  ok (split b',' s)

-- ^[0-9]+/s$, and what stands behind the test
unfoldable pub rate_before_unit : Option Text → Result TypeError ℕ
rate_before_unit none = err bad_pattern
rate_before_unit (some value_slice) = do
  ensure (are_digits value_slice) bad_pattern
  ok_or (parse_u64 value_slice) bad_number

-- `impl Parsable for Rate`
unfoldable pub parse_rate : Text → Result TypeError ℕ
unfolding rate_before_unit strip_suffix
parse_rate s = rate_before_unit (and_then (strip_suffix b's' (lowered s)) (strip_suffix b'/'))

-- `impl Parsable for Range<T>`
module _ {A : Type 0} (parse : Text → Result TypeError A) where
  unfoldable pub range_at_dots : Option (Text × Text) → Result TypeError (A × A)
  range_at_dots none = err no_range
  range_at_dots (some (from_str, to_str)) = do
    from ← parse from_str
    to ← parse to_str
    ok (from, to)

  unfoldable pub parse_range : Text → Result TypeError (A × A)
  unfolding range_at_dots
  parse_range s = range_at_dots (split_once_twice b'.' s)
