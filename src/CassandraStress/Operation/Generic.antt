-- ===== src/CassandraStress/Operation/Generic.antt =====
-- operation/mod.rs: the operation that the kinds of operation share.
pub mod InOrder
use cql_stress.Configuration.{ControlFlow, OperationContext, break_flow}
use cql_stress.Common.{ℕ, Option, none, some, Result, ok, err, if◌then◌else◌, leb, Bool, false}

-- `CassandraStressOperation` and the statistics: `W` is the workload, `R` a row, `S` the statistics
-- of the shard, and `D` is the database, which a row that is performed may change.
pub record OperationParts (E R W S D : Type 0) : Type 0 where
  pub generate_row : W → R × W
  pub perform : R → D → Result E ControlFlow × D
  pub account_operation : S → OperationContext → Result E ControlFlow → S

pub record GenericOperation (R W S : Type 0) : Type 0 where
  pub workload : W
  pub stats : S
  pub max_operations : Option ℕ
  pub cached_row : Option R

-- `GenericCassandraStressOperationFactory::create`
unfoldable pub create_operation : {R W S : Type 0} → W → S → Option ℕ → GenericOperation R W S
create_operation workload stats max_ops = record {
  workload = workload;
  stats = stats;
  max_operations = max_ops;
  cached_row = none;
}

abbrev pub is_done : Option ℕ → ℕ → Bool
is_done none id = false
is_done (some max_ops) id = leb max_ops id

module _ {E R W S D : Type 0} (parts : OperationParts E R W S D) where
  -- `get_or_insert_with`, with the row that the cache had
  unfoldable pub row_to_use : GenericOperation R W S → Option R → R × GenericOperation R W S
  row_to_use op (some row) = (row, op)
  row_to_use op none =
      let (row, w) = parts.generate_row op.workload in
      (row, record op { workload = w; cached_row = some row })

  -- A row that was performed leaves the cache.
  unfoldable pub conclude :
      GenericOperation R W S → Result E ControlFlow → Result E ControlFlow × GenericOperation R W S
  conclude op (err e) = (err e, op)
  conclude op (ok flow) = (ok flow, record op { cached_row = none })

  unfoldable pub perform_and_account :
      OperationContext
      → D
      → R × GenericOperation R W S
      → Result E ControlFlow × GenericOperation R W S × D
  unfolding conclude
  perform_and_account ctx db (row, op) =
      let (op_result, db') = parts.perform row db in
      let (r, op') =
        conclude (record op { stats = parts.account_operation op.stats ctx op_result }) op_result in
      (r, op', db')

  unfoldable pub execute_generic :
      GenericOperation R W S
      → OperationContext
      → D
      → Result E ControlFlow × GenericOperation R W S × D
  unfolding row_to_use perform_and_account
  execute_generic op ctx db =
      if is_done op.max_operations ctx.operation_id
      then (ok break_flow, op, db)
      else perform_and_account ctx db (row_to_use op op.cached_row)
