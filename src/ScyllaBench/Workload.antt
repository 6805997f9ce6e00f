-- ===== src/ScyllaBench/Workload.antt =====
-- workload/: which rows the operations of a run use.
pub mod Sequential
pub mod Timeseries
pub mod Uniform
use cql_stress.Common.{ℕ, ◌≤◌, ◌<◌, ◌^◌, ◌≡◌, ℤ, List, Option, some, length}

-- a partition key and clustering keys
abbrev pub Keys : Type 0
Keys = ℤ × List ℤ

-- The trait `Workload`, on a state `S`: what an operation relies on is that the workload returns no
-- more clustering keys than it is asked for, and at least one when it is asked for one.
pub record Workload (S : Type 0) : Type 1 where
  pub IsValid : S → Type 0
  pub generate : S → ℕ → Option Keys × S
  pub answers :
      (s : S) (n : ℕ) (keys : Keys)
      → IsValid s
      → n < 2 ^ 63
      → (generate s n).0 ≡ some keys
      → (length keys.1 ≤ n) × (0 < n → 0 < length keys.1)
