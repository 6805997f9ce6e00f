-- ===== src/CassandraStress.antt =====
-- src/bin/cql-stress-cassandra-stress: the frontend that is compatible with cassandra-stress.
pub mod Sequence
pub mod Mixed
pub mod Settings
pub mod JavaGenerate
pub mod Operation
