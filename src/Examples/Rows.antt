-- ===== src/Examples/Rows.antt =====
-- The rows of scylla-bench (src/bin/cql-stress-scylla-bench).
use cql_stress.Common.{
  ℕ, ◌≡◌, refl, ◌⊎◌, List, [], ◌∷◌, some, none, ok, err, arith, ℤ, pos, negsuc, length, replicate,
  length-replicate,
}
use cql_stress.Common.Int.{◌≤ℤ◌, i64_min, add_i64, mul_i64, quot_i64, as_i64, as_u64}
use cql_stress.Common.Bytes.{Bytes, to_le_bytes}
use cql_stress.ScyllaBench.Workload.Sequential.{
  SequentialConfig, Sequential, new_sequential, generate_keys, partition_key, is_past_end,
  next_keys, next_state, advanced, count_up,
}
use cql_stress.ScyllaBench.Workload.Sequential.Rows.{drain, rows_of, all_rows, Fits}
use cql_stress.ScyllaBench.Workload.Sequential.Coverage.{drain-all_rows}
use cql_stress.ScyllaBench.Workload.Sequential.Stuck.{drain-none}
use cql_stress.ScyllaBench.Workload.Sequential.Answers.{sequential_workload}
use cql_stress.ScyllaBench.Workload.{Keys}
use cql_stress.ScyllaBench.Operation.RowData.{
  head_byte, decode_size, validate_short, validate_sized, generate_row_data, validate_row_data,
}
use cql_stress.ScyllaBench.Operation.RowData.RoundTrip.{validate-generate_row_data}
use cql_stress.ScyllaBench.Operation.RowData.Sound.{validate_row_data-Generated}
use cql_stress.ScyllaBench.Operation.CounterData.{
  Counters, corrupt_counter, validate_counter_row_data, update_num, div_i64, is_accepted,
}
use cql_stress.ScyllaBench.Operation.CounterData.Updates.{Answers}
use cql_stress.ScyllaBench.Operation.Scan.{Within, scan_range, scan_range-misses}
use cql_stress.ScyllaBench.Operation.Read.{
  both_bounds, generate_values, generate_values-markers, selector_string, count_markers,
}

abbrev config : SequentialConfig
config = record { iterations = 2; partition_offset = pos 0; pks = 3; cks_per_pk = 5 }

config-Fits : Fits config 2
config-Fits = record {
  repeats = omega arith;
  keys = omega arith;
  rows = omega arith;
  total = omega arith;
  step = omega arith;
}

drain-all_rows_example :
    (ops : List (ℤ × List ℤ)) × (drain 40 2 (new_sequential config) 0 ≡ some ops)
    × (rows_of ops ≡ all_rows config config.iterations)
drain-all_rows_example = drain-all_rows config 2 40 config-Fits (omega arith)

abbrev within : Sequential
within = record { config = config; current_pk = 1; current_ck = 2 }

drain-none_example : drain 100 0 within 2 ≡ none
drain-none_example = drain-none 100 within 2 (omega arith) (omega arith)

abbrev zeros : Bytes → Bytes
zeros bs = replicate 32 0

validate-generate_row_data_example :
    validate_row_data zeros
      (pos 3)
      (negsuc 4)
      (generate_row_data zeros (λ n. replicate n 9) (pos 3) (negsuc 4) 60)
    ≡ ok tt
validate-generate_row_data_example =
    validate-generate_row_data zeros (λ bs. refl) (λ n. replicate n 9) (pos 3) (negsuc 4) 60
      (λ n. length-replicate n 9) (omega arith, omega arith) (omega arith, omega arith)
      (omega arith)

abbrev two_bytes : Bytes
two_bytes = 2 ∷ 3 ∷ []

validate_row_data-Generated_example :
    (p : Bytes) × (two_bytes ≡ generate_row_data zeros (λ n. p) (pos 1) (pos 2) 2)
unfolding validate_row_data validate_sized decode_size head_byte validate_short generate_row_data
    to_le_bytes as_u64
validate_row_data-Generated_example =
    validate_row_data-Generated zeros (pos 1) (pos 2) two_bytes (omega arith, (omega arith, tt))
      (omega arith) accepted
  where
    accepted : validate_row_data zeros (pos 1) (pos 2) two_bytes ≡ ok tt
    accepted = refl

abbrev counters : Counters
counters = record { c1 = pos 6; c2 = pos 9; c3 = pos 12; c4 = pos 15; c5 = pos 18 }

refused : validate_counter_row_data (pos 2) counters ≡ err corrupt_counter
unfolding validate_counter_row_data update_num div_i64 quot_i64 is_accepted mul_i64 add_i64 as_i64
    as_u64
refused = refl

scan_range-misses_example :
    (scan_range 2 1 ≡ (pos 0, i64_min))
    × ((let n : ℕ = 2 in n ≡ 1) ⊎ (¬ Within (pos 5) (scan_range 2 1)))
    × ((pos 5 ≤ℤ pos 0) ⊎ (¬ Within (pos 5) (scan_range 2 7)))
scan_range-misses_example = scan_range-misses 2 7 (pos 5) (omega arith)

generate_values-markers_example :
    (values : Keys) × ((generate_values sequential_workload (both_bounds 10) (within, 2)).0
      ≡ some values)
    × (count_markers (selector_string (both_bounds 10)) ≡ length values.1)
unfolding sequential_workload generate_keys is_past_end next_keys next_state advanced count_up
    partition_key add_i64 as_i64 as_u64
generate_values-markers_example =
    generate_values-markers sequential_workload (both_bounds 10) (within, 2) (pos 1, pos 2 ∷ [])
      (omega arith, omega arith) (omega arith) generated
  where
    generated : (generate_keys within 2 1).0 ≡ some (pos 1, pos 2 ∷ [])
    generated = refl
