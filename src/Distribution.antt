-- ===== src/Distribution.antt =====
-- src/distribution.rs: the descriptions of distributions, shared by both frontends.
pub mod RoundTrip
pub mod Long
use cql_stress.Common.{
  ℕ, Bool, true, false, not, List, [], ◌∷◌, map, Option, none, some, Result, ok, err, ◌>>=◌, ◌>>◌,
  ensure, ok_or, length, leb, ◌==◌, if◌then◌else◌,
}
use cql_stress.Text.{Text, is_empty, contains, strip_prefix}
use cql_stress.Text.Split.{split, split_once, split_once_twice, strip_suffix}
use cql_stress.Text.Trim.{trim}

pub data SyntaxFlavor : Type 0 where
  classic classic_or_short : SyntaxFlavor

pub record Description : Type 0 where
  pub name : Text
  pub args : List Text
  pub inverted : Bool

pub data DescriptionError : Type 0 where
  argument_count : DescriptionError
  missing_closing_parenthesis : DescriptionError
  missing_opening_parenthesis : DescriptionError
  missing_opening_parenthesis_or_colon : DescriptionError
  comma_between_first_two : DescriptionError

unfoldable pub check_argument_count : Description → ℕ → Result DescriptionError (Unit {0})
check_argument_count d expected = ensure (length d.args == expected) argument_count

unfoldable pub check_minimum_argument_count : Description → ℕ → Result DescriptionError (Unit {0})
check_minimum_argument_count d minimum = ensure (leb minimum (length d.args)) argument_count

unfoldable pub short_name_and_args :
    SyntaxFlavor → Option (Text × Text) → Result DescriptionError (Text × Text)
short_name_and_args classic _ = err missing_opening_parenthesis
short_name_and_args classic_or_short none = err missing_opening_parenthesis_or_colon
short_name_and_args classic_or_short (some (name, args)) = ok (trim name, args)

unfoldable pub classic_name_and_args :
    Text → SyntaxFlavor → Option (Text × Text) → Result DescriptionError (Text × Text)
unfolding short_name_and_args
classic_name_and_args s flavor (some (name, rest)) = do
  args ← ok_or (strip_suffix b')' rest) missing_closing_parenthesis
  ok (trim name, args)
classic_name_and_args s flavor none = short_name_and_args flavor (split_once b':' s)

unfoldable pub decompose_name_and_args : Text → SyntaxFlavor → Result DescriptionError (Text × Text)
unfolding classic_name_and_args
decompose_name_and_args s flavor = classic_name_and_args s flavor (split_once b'(' s)

unfoldable pub args_at_dots : Text → Option (Text × Text) → Result DescriptionError (List Text)
args_at_dots s (some (first, after_dots)) = ok (trim first ∷ map trim (split b',' after_dots))
args_at_dots s none =
    if not (is_empty s)
    then (do ensure (not (contains b',' s)) comma_between_first_two; ok (trim s ∷ []))
    else ok []

unfoldable pub decompose_args : Text → Result DescriptionError (List Text)
unfolding args_at_dots
decompose_args s = args_at_dots s (split_once_twice b'.' s)

-- whether there is a tilde, and what is behind it
unfoldable pub strip_tilde : Text → Option Text → Text × Bool
strip_tilde s (some stripped) = (stripped, true)
strip_tilde s none = (s, false)

unfoldable pub parse_stripped : SyntaxFlavor → Text × Bool → Result DescriptionError Description
unfolding decompose_name_and_args decompose_args
parse_stripped flavor (s, inverted) = do
  (name, args_subslice) ← decompose_name_and_args s flavor
  args ← decompose_args args_subslice
  ok (record { name = name; args = args; inverted = inverted })

unfoldable pub parse_description : Text → SyntaxFlavor → Result DescriptionError Description
unfolding strip_tilde parse_stripped
parse_description text flavor =
    let s = trim text in parse_stripped flavor (strip_tilde s (strip_prefix b'~' s))
