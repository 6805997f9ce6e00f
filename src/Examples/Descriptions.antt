-- ===== src/Examples/Descriptions.antt =====
-- Descriptions of distributions (src/distribution.rs).
use cql_stress.Common.{inl, inr, ◌≡◌, refl, true, ◌++◌, [], ◌∷◌, ok, arith}
use cql_stress.Text.{codes, is_whitespace}
use cql_stress.Text.Split.{join}
use cql_stress.Text.Trim.{trim}
use cql_stress.Distribution.{Description, classic, classic_or_short, parse_description}
use cql_stress.Distribution.RoundTrip.{
  print_args, print_classic, print_short, parse_description-print_classic,
  parse_description-print_short,
}
use cql_stress.Distribution.Long.{parsable_u64, parse_long, parse_long-u64}

abbrev gaussian : Description
gaussian = record {
  name = codes "gauss";
  args = codes "1" ∷ codes "90" ∷ codes "5" ∷ [];
  inverted = true;
}

parse_description-print_classic_example :
    parse_description (print_classic gaussian) classic ≡ ok gaussian
unfolding is_whitespace trim join print_args
parse_description-print_classic_example =
    parse_description-print_classic gaussian classic (refl, refl, refl)
      (refl, refl, (refl, (refl, tt)), (refl, (refl, tt)))

parse_description-print_short_example :
    parse_description (print_short gaussian) classic_or_short ≡ ok gaussian
unfolding is_whitespace trim join print_args
parse_description-print_short_example =
    parse_description-print_short gaussian (refl, refl, refl) refl refl
      (refl, refl, (refl, (refl, tt)), (refl, (refl, tt)))

parse_long-u64_example : parse_long parsable_u64 (codes "12" ++ b'M' ∷ []) ≡ ok 12000000
parse_long-u64_example =
    parse_long-u64 (codes "12") b'M' 1000000 (λ e. ground arith) (refl, (refl, tt))
      (inr (inl (inr refl, refl)))
