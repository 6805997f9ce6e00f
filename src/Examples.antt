-- ===== src/Examples.antt =====
-- The theorems at concrete inputs, and runs of the definitions.
mod Runs
mod Descriptions
mod Rows
mod Flags
mod Stress
mod Generators
mod Operations
mod Shards
mod Payloads
mod Options
