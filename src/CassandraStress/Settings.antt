-- ===== src/CassandraStress/Settings.antt =====
-- settings/: the command line of cassandra-stress.
pub mod Params
pub mod Types
pub mod Payload
pub mod RateOption
pub mod Outcome
pub mod PopulationOption
pub mod Levels
pub mod Command
pub mod ColumnOption
pub mod NodeOption
