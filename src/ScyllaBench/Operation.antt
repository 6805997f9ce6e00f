-- ===== src/ScyllaBench/Operation.antt =====
-- operation/: what the operations of scylla-bench do.
pub mod RowData
pub mod CounterData
pub mod Scan
pub mod Read
