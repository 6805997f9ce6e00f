-- ===== src/Run/Start.antt =====
-- `start_operation` for a session that does not retry.
use cql_stress.Configuration.{OperationContext}
use cql_stress.Common.{◌+◌, ◌≤◌, ◌<◌, ◌≡◌, ap, none, some, arith}
use cql_stress.Run.{
  WorkerContext, WorkerSession, Clock, invalid_op_id_threshold, and_schedule, start_operation,
  schedule,
}
use cql_stress.Run.Acquire.{acquire_id_first}
use cql_stress.Run.Retries.{schedule-counter}

module _ (c : WorkerContext) (clock : Clock) (s : WorkerSession) where
  pub start_operation_first :
      s.trial_idx ≡ 0
      → c.operation_counter < invalid_op_id_threshold
      → (ctx : OperationContext) × (ws : WorkerSession) × (c' : WorkerContext) × (start_operation c
            clock s
          ≡ (some (ctx, ws), c'))
        × (ctx.operation_id ≡ c.operation_counter)
        × (ws.trial_idx ≡ 0)
        × (c'.operation_counter ≡ c.operation_counter + 1)
        × (c'.max_retries_per_op ≡ c.max_retries_per_op)
  unfolding start_operation
  start_operation_first h k =
      let c' = record c { operation_counter = c.operation_counter + 1 } in
      let s' = record s { op_id = c.operation_counter } in
      let same = schedule-counter c' clock s' in
      (
        (schedule c' clock s').0,
        s',
        (schedule c' clock s').1,
        ap (and_schedule clock) (acquire_id_first c s h k),
        same.2,
        h,
        same.0,
        same.1,
      )

  pub start_operation_over :
      s.trial_idx ≡ 0
      → invalid_op_id_threshold ≤ c.operation_counter
      → (start_operation c clock s).0 ≡ none
  unfolding start_operation
  start_operation_over h k = ground arith
