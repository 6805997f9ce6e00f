-- ===== src/Lib.antt =====
-- cql-stress: a load generator for CQL databases. The library src/ (configuration.rs, run.rs,
-- distribution.rs) runs operations with many workers; the programs under src/bin/ are frontends
-- with the command lines of scylla-bench and cassandra-stress.
--
-- A frontend fills in a Configuration with a factory of operations. run.rs creates the workers:
-- each asks its WorkerSession for an operation id and a start time, executes the operation, and
-- hands the result back, which decides on a retry. The ids, the rate limiter and the request to
-- stop are in a context that the workers share. An operation of scylla-bench asks its workload for
-- the keys of the rows that it uses, and generates or validates the values.
--
-- Files, with the code that each models:
--   Common, Text                   what the program uses of Rust's integers, vectors and `str`
--   Configuration                  src/configuration.rs
--   Run                            src/run.rs: RateLimiter, WorkerContext, WorkerSession
--   Run/Acquire, Start, Retries,   proofs about the operations of a session and the limiter
--     Rate
--   Run/System                     the workers of do_run as a step relation, over every
--                                  interleaving, with its invariants in the files below it
--   Run/Loop                       the loop of make_runnable!, which runs on fuel; Run/Loop/Turns
--                                  gives an amount that is enough
--   Run/Collect                    the end of do_run and run
--   Distribution                   src/distribution.rs: descriptions and their numbers
--   ShardedStats                   src/sharded_stats.rs; ShardedStats/Conserved has the threads'
--                                  writes and the collections as a step relation
--   ScyllaBench/Workload           the trait Workload of src/bin/cql-stress-scylla-bench/workload/mod.rs,
--                                  as what an operation relies on
--   ScyllaBench/Workload/          sequential.rs, timeseries_write.rs and timeseries_read.rs, and
--     Sequential, Timeseries,      uniform.rs beside it
--     Uniform
--   ScyllaBench/Operation          src/bin/cql-stress-scylla-bench/operation: the values of rows and
--                                  counters (mod.rs), token ranges (scan.rs), restrictions (read.rs)
--   ScyllaBench/GoCompat           src/bin/cql-stress-scylla-bench/gocompat: strconv.rs and flags.rs
--   CassandraStress/Sequence       sequence.rs and fixed.rs of
--                                  src/bin/cql-stress-cassandra-stress/java_generate/distribution
--   CassandraStress/Mixed          operation/mixed.rs of the same program
--   CassandraStress/JavaGenerate   java_generate of the same program: java.util.Random (mod.rs),
--                                  FasterRandom, Distributions (uniform.rs, normal.rs and the
--                                  factories of all), and Values (values/), with the driver's
--                                  values in CqlValue
--   CassandraStress/Operation      operation of the same program: RowGenerator (row_generator.rs);
--                                  Generic, Validation and Sampler (mod.rs, read.rs)
--   CassandraStress/Settings       settings of the same program: the parameters, their groups and
--                                  types (param), the groups of the command line (mod.rs), the
--                                  commands (Command, Levels; command/common.rs and counter.rs),
--                                  and the options (RateOption, PopulationOption, ColumnOption,
--                                  NodeOption; option/rate.rs and so on)
--   Examples                       the theorems at concrete inputs, and runs
--
-- How the code is translated. A method that changes `self` returns the new state beside its
-- result; an atomic counter is a field of the state that the callers share, and each of its
-- read-modify-write operations is one step. Integers of w bits are natural numbers or integers
-- that wrap around at 2 ^ w, as the release build does; a debug build panics where the model wraps
-- around. An instant is the number of nanoseconds since some fixed one. The messages of errors are
-- constructors. A text is the list of its code points.
--
-- What comes from other crates is an argument: the hash function, random bytes and random numbers,
-- the clock, the rest of Unicode. Theorems that need something of it say so in a hypothesis.
--
-- The operations on f64 are an argument as well, Floats. The state of a ThreadLocal is that of one
-- thread where a generator uses it; in ShardedStats each thread has its cell.
--
-- A panic of a command or an option is an error of its own (Settings/Outcome), or `none`.
--
-- Fuel: the loops of the generators of bytes get their size as fuel, and the theorems say that a
-- value is made; next_gaussian and what samples it say `none` without fuel. run_worker and drain
-- (Workload/Sequential/Rows) stop when their fuel is used up, and say so with `none`. The theorems that they end give a bound on the calls, and prove that more fuel than
-- that bound returns a result.
--
-- Not modelled: the driver (sessions, statements, metadata), the runtime of the tasks, the printing
-- of statistics and histograms, the help texts, and what reads or prints floating-point numbers. Of
-- cassandra-stress, the command mixed and the options -mode and -schema are not modelled, nor are the repair of
-- white space in the command line, multiparameters and the user profiles.
pub mod CassandraStress
pub mod Common
pub mod Configuration
pub mod Distribution
pub mod Examples
pub mod Run
pub mod ScyllaBench
pub mod ShardedStats
pub mod Text
