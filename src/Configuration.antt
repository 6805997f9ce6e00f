-- ===== src/Configuration.antt =====
-- src/configuration.rs: what a run is given, and what an operation is given. An `Instant` is a
-- number of nanoseconds from some fixed instant; `F` is the type `f64`.
use cql_stress.Common.{ℕ, Option}

pub record Configuration (F : Type 0) : Type 0 where
  pub max_duration : Option ℕ
  pub concurrency : ℕ
  pub rate_limit_per_second : Option F
  pub max_retries_per_op : ℕ

pub record OperationContext : Type 0 where
  pub operation_id : ℕ
  pub scheduled_start_time : ℕ
  pub actual_start_time : ℕ

-- `std::ops::ControlFlow<()>`
pub data ControlFlow : Type 0 where
  continue_flow break_flow : ControlFlow
