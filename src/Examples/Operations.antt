-- ===== src/Examples/Operations.antt =====
-- What the operations of src/bin/cql-stress-cassandra-stress share.
use cql_stress.Configuration.{OperationContext, continue_flow}
use cql_stress.Common.{
  ℕ, ◌+◌, ◌-◌, ◌%◌, ◌≡◌, refl, Bool, List, [], ◌∷◌, some, Result, ok, err, ◌==◌, ==_iff, ◌↔◌,
  length, if◌then◌else◌, pos,
}
use cql_stress.CassandraStress.Operation.Generic.{
  OperationParts, create_operation, execute_generic, perform_and_account, conclude, row_to_use,
}
use cql_stress.CassandraStress.Operation.Generic.InOrder.{
  run_calls, noting, workload_rows, run_calls-create_operation,
}
use cql_stress.CassandraStress.Operation.Validation.{
  QueryResult, ValidationError, validate_equal, read_row,
}
use cql_stress.CassandraStress.Operation.Validation.Exact.{only_row, read_row-only}
use cql_stress.CassandraStress.Operation.Sampler.{
  SamplerParts, new_sampler, sample, previous_sample, draw_item,
}
use cql_stress.CassandraStress.Operation.Sampler.Total.{samples, runs, samples-new_sampler}
use cql_stress.Common.Int.{as_u64}

-- rows are numbers, the statistics count the calls, and the database is down for some calls
abbrev parts : OperationParts ℕ ℕ ℕ ℕ ℕ
parts = record {
  generate_row = λ w. (w, w + 1);
  perform = λ row down. if down == 0 then (ok continue_flow, 0) else (err row, down - 1);
  account_operation = λ stats ctx result. stats + 1;
}

abbrev call : ℕ → OperationContext
call id = record { operation_id = id; scheduled_start_time = 0; actual_start_time = 0 }

-- two failures, two successes, and a call behind the maximum
abbrev calls : List OperationContext
calls = call 0 ∷ call 0 ∷ call 0 ∷ call 1 ∷ call 9 ∷ []

two_rows : (run_calls parts calls (create_operation 40 0 (some 5)) ([], 2)).0 ≡ 40 ∷ 41 ∷ []
unfolding run_calls create_operation execute_generic perform_and_account conclude row_to_use noting
two_rows = refl

run_calls-create_operation_example :
    let performed = (run_calls parts calls (create_operation 40 0 (some 5)) ([], 2)).0 in
    performed ≡ workload_rows parts (length performed) 40
run_calls-create_operation_example = run_calls-create_operation parts calls 40 0 (some 5) 2

abbrev row : List ℕ
row = 4 ∷ 2 ∷ []

abbrev same : ℕ → ℕ → Bool
same a b = a == b

abbrev answer : Result ValidationError (QueryResult ℕ)
answer = ok (record { rows = some ((some 4 ∷ some 2 ∷ []) ∷ []) })

read_row-only_example :
    (read_row same (validate_equal same) row answer ≡ ok continue_flow)
    ↔ (answer ≡ ok (only_row same row))
read_row-only_example = read_row-only same ==_iff row answer

-- one of two items in turn, in runs of two and three
abbrev draws : SamplerParts ℕ
draws = record { sample_index = λ w. (w % 2, w); next_count = λ w. (pos (2 + w % 2), w + 1) }

five_samples : samples draws 5 (new_sampler draws row 0) ≡ (
  (some 4, some 4) ∷ (some 4, some 4) ∷ (some 2, some 2) ∷ (some 2, some 2) ∷ (some 2, some 2) ∷ [],
  record { items = row; draws = 2; current_item_remaining = 0; current_item_index = 1 },
)
unfolding sample previous_sample new_sampler draw_item as_u64
five_samples = refl

samples-new_sampler_example :
    let (given, total, left) = runs draws 2 row 0 in
    let (answers, s) = samples draws total (new_sampler draws row 0) in
    (answers ≡ given) × (s.draws ≡ left)
samples-new_sampler_example = samples-new_sampler draws 2 row 0
