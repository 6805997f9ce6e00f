-- ===== src/Run/Loop.antt =====
-- `make_runnable!` of src/configuration.rs: the loop of one worker, while others use its context.
pub mod Turns
use cql_stress.Configuration.{ControlFlow, OperationContext, continue_flow, break_flow}
use cql_stress.Common.{ℕ, zero, suc, Option, none, some, Result, ok, err}
use cql_stress.Run.{WorkerContext, WorkerSession, Clock, start_operation, end_operation}

pub record WorkerState (S : Type 0) : Type 0 where
  pub context : WorkerContext
  pub session : WorkerSession
  pub operation : S

-- One turn of the loop leads to another, or ends the loop.
pub data Turn (E S : Type 0) : Type 0 where
  again : WorkerState S → Turn E S
  over : Result E (Unit {0}) → S → Turn E S

-- What is outside the worker: its operation, and what others do to the context before the worker
-- starts its turn number `n`, counted from the end, and while it executes.
pub record World (E S : Type 0) : Type 0 where
  pub execute : S → OperationContext → Result E ControlFlow × S
  pub before : ℕ → WorkerContext → WorkerContext
  pub during : ℕ → WorkerContext → WorkerContext
  pub clock : ℕ → Clock

module _ {E S : Type 0} where
  unfoldable pub conclude : WorkerContext → S → Result E ControlFlow × WorkerSession → Turn E S
  conclude c op (ok continue_flow, ws) =
      again (record { context = c; session = ws; operation = op })
  conclude c op (ok break_flow, ws) = over (ok tt) op
  conclude c op (err e, ws) = over (err e) op

  unfoldable pub respond :
      World E S → ℕ → S → Option (OperationContext × WorkerSession) × WorkerContext → Turn E S
  unfolding conclude
  respond w n op (none, c) = over (ok tt) op
  respond w n op (some (ctx, ws), c) =
      let (result, op') = w.execute op ctx in
      let c' = w.during n c in conclude c' op' (end_operation c' ws result)

  pub turn : World E S → ℕ → WorkerState S → Turn E S
  unfolding respond
  turn w n st =
      respond w n st.operation (start_operation (w.before n st.context) (w.clock n) st.session)

  -- `none` when the fuel is used up
  pub run_worker : ℕ → World E S → WorkerState S → Option (Result E (Unit {0}) × S)
  run_worker zero w st = none
  run_worker (suc n) w st = elim (turn w n st) [
    | again st' ↦ run_worker n w st'
    | over r op ↦ some (r, op)
  ]
