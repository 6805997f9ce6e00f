-- ===== src/ScyllaBench.antt =====
-- src/bin/cql-stress-scylla-bench: the frontend that is compatible with scylla-bench.
pub mod Workload
pub mod Operation
pub mod GoCompat
