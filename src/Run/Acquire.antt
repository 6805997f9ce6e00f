-- ===== src/Run/Acquire.antt =====
-- `acquire_id` on each of its branches.
use cql_stress.Common.{◌+◌, ◌≤◌, ◌<◌, ◌≡◌, none, some, arith}
use cql_stress.Common.Int.{u64_mod}
use cql_stress.Run.{WorkerContext, WorkerSession, invalid_op_id_threshold, acquire_id}

module _ (c : WorkerContext) (s : WorkerSession) where
  pub acquire_id_first :
      s.trial_idx ≡ 0
      → c.operation_counter < invalid_op_id_threshold
      → acquire_id c s ≡ (
        some (record s { op_id = c.operation_counter }),
        record c { operation_counter = c.operation_counter + 1 },
      )
  unfolding acquire_id
  acquire_id_first h k = ground arith

  pub acquire_id_over :
      s.trial_idx ≡ 0
      → invalid_op_id_threshold ≤ c.operation_counter
      → c.operation_counter + 1 < u64_mod
      → acquire_id c s ≡ (none, record c { operation_counter = c.operation_counter + 1 })
  unfolding acquire_id
  acquire_id_over h k l = ground arith

  pub acquire_id_again : 0 < s.trial_idx → acquire_id c s ≡ (some s, c)
  unfolding acquire_id
  acquire_id_again h = ground arith
