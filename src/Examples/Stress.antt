-- ===== src/Examples/Stress.antt =====
-- Values, parameters and operations of the frontend src/bin/cql-stress-cassandra-stress.
use cql_stress.Configuration.{OperationContext, continue_flow}
use cql_stress.Common.{
  inr, List, ℕ, ◌+◌, ◌≡◌, refl, Bool, true, false, [], ◌∷◌, ◌++◌, none, some, ok, err,
  if◌then◌else◌, pos, negsuc, arith,
}
use cql_stress.Common.Int.{◌+ℤ◌, ◌≤ℤ◌}
use cql_stress.Text.{Text, codes}
use cql_stress.CassandraStress.Sequence.{SeqDistribution, next_i64}
use cql_stress.CassandraStress.Sequence.Cycle.{IsNarrow, next_i64_lem}
use cql_stress.CassandraStress.Mixed.{
  Parts, MixedOperation, write, execute, choose, take_row, settle, perform_row,
}
use cql_stress.CassandraStress.Mixed.Retry.{execute-retry}
use cql_stress.CassandraStress.Settings.Params.{Param, consume_all, consume, try_match, parse_param}
use cql_stress.CassandraStress.Settings.Params.Supplied.{all_supplied, consume_all-supplies}
use cql_stress.CassandraStress.Settings.Types.{parse_count}
use cql_stress.CassandraStress.Settings.Types.Counts.{parse_count-suffix}

-- -1, 0, 1, 2, 3, -1, …
abbrev five_values : SeqDistribution
five_values = record { start = negsuc 0; end = pos 3; seed = pos 7 }

five-IsNarrow : IsNarrow five_values
five-IsNarrow = record {
  first = (omega arith, omega arith);
  last = (omega arith, omega arith);
  ordered = omega arith;
  narrow = omega arith;
}

next_i64_lem_example :
    (next_i64 five_values ≡ (negsuc 0 +ℤ pos 2, record five_values { seed = pos 8 }))
    × (negsuc 0 ≤ℤ (next_i64 five_values).0)
    × ((next_i64 five_values).0 ≤ℤ pos 3)
next_i64_lem_example = next_i64_lem five_values 7 five-IsNarrow refl (omega arith)

-- rows are numbers, and the database is up or not
abbrev parts : Parts ℕ ℕ ℕ Bool
parts = record {
  sample = λ w. (write, w);
  next_run = λ w. (pos 2, w);
  generate_row = λ kind w. (w, w + 1);
  perform = λ kind row up. if up then ok continue_flow else err row;
}

abbrev fresh : MixedOperation ℕ ℕ
fresh = record {
  cached_row = none;
  generators = 40;
  max_operations = some 10;
  current_operation = write;
  current_operation_remaining = 0;
}

abbrev context : OperationContext
context = record { operation_id = 3; scheduled_start_time = 0; actual_start_time = 0 }

abbrev later : OperationContext
later = record { operation_id = 3; scheduled_start_time = 5; actual_start_time = 6 }

fails : (execute parts fresh context false).0 ≡ err 40
unfolding execute choose take_row settle perform_row
fails = refl

execute-retry_example :
    (row : ℕ) × (parts.perform (execute parts fresh context false).1.current_operation row false
      ≡ err 40)
    × ((execute parts (execute parts fresh context false).1 later true).0
        ≡ parts.perform (execute parts fresh context false).1.current_operation row true)
    × ((execute parts (execute parts fresh context false).1 later true).1.generators
        ≡ (execute parts fresh context false).1.generators)
execute-retry_example = execute-retry parts fresh context later false true 40 fails refl

abbrev param : Text → Param Text
param prefix = record {
  prefix = prefix;
  read = λ s. some s;
  value = none;
  required = false;
  supplied_by_user = false;
  satisfied = false;
}

abbrev given : Text → Text → Param Text
given prefix value = record (param prefix) { value = some value; supplied_by_user = true }

consumed :
    consume_all
      (λ s. s)
      (codes "cl=ONE" ∷ codes "n=10" ∷ [])
      (param (codes "n=") ∷ param (codes "cl=") ∷ [])
    ≡ ok (given (codes "n=") (codes "10") ∷ given (codes "cl=") (codes "ONE") ∷ [])
unfolding consume_all consume try_match parse_param
consumed = refl

consume_all-supplies_example :
    all_supplied (given (codes "n=") (codes "10") ∷ given (codes "cl=") (codes "ONE") ∷ [])
    ≡ all_supplied (param (codes "n=") ∷ param (codes "cl=") ∷ []) + 2
consume_all-supplies_example =
    consume_all-supplies (λ s. s) (codes "cl=ONE" ∷ codes "n=10" ∷ [])
      (param (codes "n=") ∷ param (codes "cl=") ∷ [])
      (given (codes "n=") (codes "10") ∷ given (codes "cl=") (codes "ONE") ∷ []) consumed

abbrev marked : Param Text → Param Text
marked p = record p { satisfied = true }

abbrev two_params : List (Param Text)
two_params = param (codes "n=") ∷ param (codes "cl=") ∷ []

abbrev after_parse : List (Param Text)
after_parse =
    marked (given (codes "n=") (codes "10")) ∷ marked (given (codes "cl=") (codes "ONE")) ∷ []

abbrev two_args : List Text
two_args = codes "cl=ONE" ∷ codes "n=10" ∷ []

abbrev groups : List (List ℕ)
groups = (1 ∷ 0 ∷ []) ∷ (1 ∷ []) ∷ []

parse_count-suffix_example : parse_count (codes "12" ++ b'B' ∷ []) ≡ ok 12000000000
parse_count-suffix_example =
    parse_count-suffix (codes "12") b'B' 1000000000 (λ e. ground arith) (refl, (refl, tt))
      (inr (inr (inr refl, refl)))
