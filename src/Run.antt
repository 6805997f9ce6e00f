-- ===== src/Run.antt =====
-- src/run.rs: the state that the workers of a run share, and the session of one worker.
-- A function that changes a value behind a reference returns the new value beside its result.
pub mod Acquire
pub mod Rate
pub mod Retries
pub mod Start
pub mod System
pub mod Loop
pub mod Collect
use cql_stress.Configuration.{
  Configuration, OperationContext, ControlFlow, continue_flow, break_flow,
}
use cql_stress.Common.{
  ℕ, ◌+◌, ◌-◌, ◌^◌, ◌%◌, Bool, Option, none, some, Result, ok, err, ltb, leb, ◌==◌, if◌then◌else◌,
}
use cql_stress.Common.Int.{u64_mod}

pub record RateLimiter : Type 0 where
  pub base : ℕ
  pub increment_nanos : ℕ
  pub nanos_counter : ℕ

-- `(1_000_000_000f64 / ops_per_second) as u64` is the argument `interval_nanos`.
pub new_limiter : {F : Type 0} → (F → ℕ) → ℕ → F → RateLimiter
new_limiter interval_nanos base ops_per_second = record {
  base = base;
  increment_nanos = interval_nanos ops_per_second;
  nanos_counter = 0;
}

-- `fetch_add` returns the old value and wraps around.
unfoldable pub issue_next_start_time : RateLimiter → ℕ × RateLimiter
issue_next_start_time l =
    let nanos = l.nanos_counter in
    (l.base + nanos, record l { nanos_counter = (nanos + l.increment_nanos) % u64_mod })

abbrev pub invalid_op_id_threshold : ℕ
invalid_op_id_threshold = 2 ^ 63

pub record WorkerContext : Type 0 where
  pub operation_counter : ℕ
  pub rate_limiter : Option RateLimiter
  pub max_retries_per_op : ℕ

pub new_context : {F : Type 0} → (F → ℕ) → Configuration F → ℕ → WorkerContext
unfolding new_limiter
new_context interval_nanos config now = record {
  operation_counter = 0;
  rate_limiter = elim (config.rate_limit_per_second) [
    | none ↦ none
    | some rate ↦ some (new_limiter interval_nanos now rate)
  ];
  max_retries_per_op = config.max_retries_per_op;
}

unfoldable pub ask_to_stop : WorkerContext → WorkerContext
ask_to_stop c = record c { operation_counter = invalid_op_id_threshold }

unfoldable pub should_stop : WorkerContext → Bool
should_stop c = leb invalid_op_id_threshold c.operation_counter

unfoldable pub issue_operation_id : WorkerContext → Option ℕ × WorkerContext
issue_operation_id c =
    let id = c.operation_counter in
    (
      (if ltb id invalid_op_id_threshold then some id else none),
      record c { operation_counter = (id + 1) % u64_mod },
    )

-- The context is shared, so it is passed beside the session.
pub record WorkerSession : Type 0 where
  pub op_id : ℕ
  pub trial_idx : ℕ

abbrev pub new_session : WorkerSession
new_session = record { op_id = 0; trial_idx = 0 }

-- What the clock says: two readings in a row, and a reading when `sleep_until(t)` is over.
pub record Clock : Type 0 where
  pub now : ℕ
  pub later : ℕ
  pub woken : ℕ → ℕ

-- The first part of `start_operation`: a worker that does not retry takes a new id.
unfoldable pub acquire_id : WorkerContext → WorkerSession → Option WorkerSession × WorkerContext
unfolding issue_operation_id
acquire_id c s =
    if s.trial_idx == 0
    then elim ((issue_operation_id c).0) [
      | none ↦ (none, (issue_operation_id c).1)
      | some id ↦ (some (record s { op_id = id }), (issue_operation_id c).1)
    ]
    else (some s, c)

unfoldable pub operation_context : WorkerSession → ℕ → ℕ → OperationContext
operation_context s scheduled actual = record {
  operation_id = s.op_id;
  scheduled_start_time = scheduled;
  actual_start_time = actual;
}

unfoldable pub with_limiter :
    WorkerContext → Clock → WorkerSession → Option RateLimiter → OperationContext × WorkerContext
unfolding operation_context issue_next_start_time
with_limiter c clock s none = (operation_context s clock.now clock.later, c)
with_limiter c clock s (some l) =
    let (start_time, l') = issue_next_start_time l in
    (operation_context s start_time (clock.woken start_time), record c { rate_limiter = some l' })

-- The rest of `start_operation`: the start time, and the wait for it.
unfoldable pub schedule : WorkerContext → Clock → WorkerSession → OperationContext × WorkerContext
unfolding with_limiter
schedule c clock s = with_limiter c clock s c.rate_limiter

unfoldable pub and_schedule :
    Clock
    → Option WorkerSession × WorkerContext
    → Option (OperationContext × WorkerSession) × WorkerContext
unfolding schedule
and_schedule clock (none, c) = (none, c)
and_schedule clock (some s, c) = (some ((schedule c clock s).0, s), (schedule c clock s).1)

unfoldable pub start_operation :
    WorkerContext
    → Clock
    → WorkerSession
    → Option (OperationContext × WorkerSession) × WorkerContext
unfolding acquire_id and_schedule
start_operation c clock s = and_schedule clock (acquire_id c s)

module _ {E : Type 0} where
  unfoldable pub end_operation :
      WorkerContext → WorkerSession → Result E ControlFlow → Result E ControlFlow × WorkerSession
  unfolding should_stop
  end_operation c s (ok flow) = (ok flow, record s { trial_idx = 0 })
  end_operation c s (err e) =
      if leb c.max_retries_per_op s.trial_idx
      then (err e, s)
      else if should_stop c
      then (err e, s)
      else (ok continue_flow, record s { trial_idx = s.trial_idx + 1 })
