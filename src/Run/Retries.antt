-- ===== src/Run/Retries.antt =====
-- How a session counts the trials of one operation.
use cql_stress.Configuration.{ControlFlow, continue_flow, OperationContext}
use cql_stress.Common.{
  ◌+◌, ◌≤◌, ◌<◌, ◌≡◌, ap, ◌≢◌, ◌⊎◌, ◌↔◌, refl, false, Option, none, some, Result, ok, err, arith,
}
use cql_stress.Run.Acquire.{acquire_id_again}
use cql_stress.Run.{
  and_schedule, RateLimiter, WorkerContext, WorkerSession, Clock, with_limiter, should_stop,
  schedule, start_operation, end_operation,
}

-- A session that has not used up its trials.
abbrev pub IsBounded : WorkerContext → WorkerSession → Type 0
IsBounded c s = s.trial_idx ≤ c.max_retries_per_op

-- The start time is the limiter's or the clock's: the shared counter of ids is left alone.
with_limiter-counter :
    (c : WorkerContext) (clock : Clock) (s : WorkerSession) (l : Option RateLimiter)
    → ((with_limiter c clock s l).1.operation_counter ≡ c.operation_counter)
      × ((with_limiter c clock s l).1.max_retries_per_op ≡ c.max_retries_per_op)
      × ((with_limiter c clock s l).0.operation_id ≡ s.op_id)
unfolding with_limiter
with_limiter-counter c clock s none = (refl, refl, refl)
with_limiter-counter c clock s (some l) = (refl, refl, refl)

pub schedule-counter :
    (c : WorkerContext) (clock : Clock) (s : WorkerSession)
    → ((schedule c clock s).1.operation_counter ≡ c.operation_counter)
      × ((schedule c clock s).1.max_retries_per_op ≡ c.max_retries_per_op)
      × ((schedule c clock s).0.operation_id ≡ s.op_id)
unfolding schedule
schedule-counter c clock s = with_limiter-counter c clock s c.rate_limiter

-- A session in the middle of an operation keeps its id.
pub start_operation_again :
    (c : WorkerContext) (clock : Clock) (s : WorkerSession)
    → 0 < s.trial_idx
    → start_operation c clock s ≡ (some ((schedule c clock s).0, s), (schedule c clock s).1)
unfolding start_operation
start_operation_again c clock s h = ap (and_schedule clock) (acquire_id_again c s h)

module _ {E : Type 0} where
  pub end_operation_err :
      (c : WorkerContext) (s : WorkerSession) (e : E)
      → (end_operation c s (err e) ≡ (err e, s))
        ⊎ (end_operation c s (err e) ≡ (ok continue_flow, record s { trial_idx = s.trial_idx + 1 }))
  unfolding end_operation
  end_operation_err c s e = ground arith

  end_operation_again :
      (c : WorkerContext) (s : WorkerSession) (e : E)
      → (end_operation c s (err e)).0 ≡ ok continue_flow
      → (end_operation c s (err e)).1 ≡ record s { trial_idx = s.trial_idx + 1 }
  unfolding end_operation
  end_operation_again c s e h = ground arith

  -- A failed trial is followed by another exactly when a retry is left and nobody has asked to
  -- stop; in every other case the worker gets the error back.
  pub end_operation_retries :
      (c : WorkerContext) (s : WorkerSession) (e : E)
      → (((end_operation c s (err e)).0 ≡ ok continue_flow)
          ↔ ((s.trial_idx < c.max_retries_per_op) × (should_stop c ≡ false)))
        × (((end_operation c s (err e)).0 ≢ ok continue_flow)
            → end_operation c s (err e) ≡ (err e, s))
  unfolding end_operation
  end_operation_retries c s e = ground arith

  -- Every trial, failed or not, leaves the count of retries within the configured maximum.
  pub end_operation-IsBounded :
      (c : WorkerContext) (s : WorkerSession) (r : Result E ControlFlow)
      → IsBounded c s
      → IsBounded c (end_operation c s r).1
  unfolding end_operation
  end_operation-IsBounded c s r h = ground arith

  -- After a failed trial that is to be repeated, start_operation starts the same operation again:
  -- the id is that of the failed trial, and no id is taken from the shared counter.
  pub start_operation-retry :
      (c : WorkerContext) (clock : Clock) (s : WorkerSession) (e : E)
      → (end_operation c s (err e)).0 ≡ ok continue_flow
      → (ctx : OperationContext) × (c' : WorkerContext) × (start_operation c clock
            (end_operation c s (err e)).1
          ≡ (some (ctx, record s { trial_idx = s.trial_idx + 1 }), c'))
        × (ctx.operation_id ≡ s.op_id)
        × (c'.operation_counter ≡ c.operation_counter)
  start_operation-retry c clock s e h =
      let s' = record s { trial_idx = s.trial_idx + 1 } in
      (
        (schedule c clock s').0,
        (schedule c clock s').1,
        rw (end_operation_again c s e h) (start_operation_again c clock s' (omega arith)),
        (schedule-counter c clock s').2,
        (schedule-counter c clock s').0,
      )
