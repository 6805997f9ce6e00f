-- ===== src/CassandraStress/Mixed.antt =====
-- operation/mixed.rs: the operations of the command `mixed`.
pub mod Retry
use cql_stress.Configuration.{ControlFlow, OperationContext, continue_flow, break_flow}
use cql_stress.Common.{
  ℕ, ◌-◌, ◌%◌, Bool, false, Option, none, some, Result, ok, err, leb, ◌==◌, if◌then◌else◌, ℤ,
}
use cql_stress.Common.Int.{as_u64}

pub data MixedSubcommand : Type 0 where
  read counter_read write counter_write : MixedSubcommand

-- What the operation does not change by itself: `R` is a row, `W` the state of the generators, which
-- are the workload, the ratio of operations and the distribution of their runs. The last argument
-- of `perform` is what the database does.
pub record Parts (E R W D : Type 0) : Type 0 where
  pub sample : W → MixedSubcommand × W
  pub next_run : W → ℤ × W
  pub generate_row : MixedSubcommand → W → R × W
  pub perform : MixedSubcommand → R → D → Result E ControlFlow

pub record MixedOperation (R W : Type 0) : Type 0 where
  pub cached_row : Option R
  pub generators : W
  pub max_operations : Option ℕ
  pub current_operation : MixedSubcommand
  pub current_operation_remaining : ℕ

abbrev pub is_over : Option ℕ → ℕ → Bool
is_over none id = false
is_over (some max_ops) id = leb max_ops id

-- `(n as usize).max(1)`
abbrev pub run_length : ℤ → ℕ
run_length n = let w = as_u64 n in if w == 0 then 1 else w

module _ {E R W D : Type 0} (parts : Parts E R W D) where
  -- `MixedOperationFactory::create`
  unfoldable pub new_mixed : Option ℕ → W → MixedOperation R W
  new_mixed max_ops w = record {
    cached_row = none;
    generators = w;
    max_operations = max_ops;
    current_operation = read;
    current_operation_remaining = 0;
  }

  -- the choice of an operation, when the last run of one is over
  unfoldable pub choose : MixedOperation R W → MixedOperation R W
  choose op =
      if op.current_operation_remaining == 0
      then (let (kind, w) = parts.sample op.generators in
          let (n, w') = parts.next_run w in
          record op {
            generators = w';
            current_operation = kind;
            current_operation_remaining = run_length n;
          })
      else op

  -- `get_or_insert_with`, with the operation that has the row in its cache
  unfoldable pub take_row : MixedOperation R W → Option R → R × MixedOperation R W
  take_row op (some row) = (row, op)
  take_row op none =
      let (row, w) = parts.generate_row op.current_operation op.generators in
      (row, record op { cached_row = some row; generators = w })

  -- the end of `execute`
  unfoldable pub settle :
      MixedOperation R W → Result E ControlFlow → Result E ControlFlow × MixedOperation R W
  settle op (err e) = (err e, op)
  settle op (ok flow) = (
    ok flow,
    record op {
      cached_row = none;
      current_operation_remaining = op.current_operation_remaining - 1;
    },
  )

  unfoldable pub perform_row :
      D → R × MixedOperation R W → Result E ControlFlow × MixedOperation R W
  unfolding settle
  perform_row db (row, op) = settle op (parts.perform op.current_operation row db)

  unfoldable pub execute :
      MixedOperation R W → OperationContext → D → Result E ControlFlow × MixedOperation R W
  unfolding perform_row take_row choose
  execute op ctx db =
      if is_over op.max_operations ctx.operation_id
      then (ok break_flow, op)
      else (let op' = choose op in perform_row db (take_row op' op'.cached_row))
