-- ===== src/CassandraStress/Operation.antt =====
-- operation/: the rows of the stress operations, and what is common to the operations.
pub mod RowGenerator
pub mod Generic
pub mod Sampler
pub mod Validation
