-- ===== src/Examples/Flags.antt =====
-- Numbers and flags of the command line (src/bin/cql-stress-scylla-bench/gocompat).
use cql_stress.Common.{◌-◌, ◌^◌, ◌≡◌, refl, true, false, [], ◌∷◌, some, ok, pos, negsuc, arith}
use cql_stress.Common.Int.{◌≤ℤ◌, neg, as_i64, as_u64, neg_i64}
use cql_stress.Text.{Text, codes}
use cql_stress.Text.Split.{split}
use cql_stress.ScyllaBench.GoCompat.Strconv.{
  parse_int, parse_uint, parse_signed, detect_sign, parse_int_inner, detect_base, scan_literal,
  digit,
}
use cql_stress.ScyllaBench.GoCompat.Strconv.Numbers.{parse_int-bounds, parse_uint-value}
use cql_stress.ScyllaBench.GoCompat.Flags.{Flag, Parsing}
use cql_stress.ScyllaBench.GoCompat.Flags.Assignments.{Assignment}

minus_two : parse_int (codes "-0b1_0") 64 ≡ ok (negsuc 1)
unfolding parse_int parse_signed detect_sign parse_int_inner detect_base scan_literal digit split
    as_i64 as_u64 neg_i64
minus_two = refl

parse_int-bounds_example : (neg (pos (2 ^ 63)) ≤ℤ negsuc 1) × (negsuc 1 ≤ℤ pos (2 ^ 63 - 1))
parse_int-bounds_example = parse_int-bounds (codes "-0b1_0") 64 (negsuc 1) minus_two

parse_uint-value_example : parse_uint (codes "1234") 64 ≡ ok 1234
parse_uint-value_example =
    parse_uint-value (codes "1234") (λ e. ground arith) (refl, (refl, (refl, (refl, tt))))

abbrev mode : Flag Text
mode = record { name = codes "mode"; is_bool_flag = false; read = λ s. some s; value = [] }

abbrev table : Flag Text
table = record { name = codes "table"; is_bool_flag = false; read = λ s. some s; value = codes "t" }

abbrev to_mode : Assignment Text
to_mode = record { flag = mode; text = codes "read"; value = codes "read"; is_separate = true }

abbrev to_table : Assignment Text
to_table = record { flag = table; text = codes "u"; value = codes "u"; is_separate = false }

abbrev defaults : Parsing Text
defaults = record { flags = mode ∷ table ∷ []; parsed = [] }
