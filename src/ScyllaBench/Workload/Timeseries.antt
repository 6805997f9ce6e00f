-- ===== src/ScyllaBench/Workload/Timeseries.antt =====
-- workload/timeseries_write.rs and timeseries_read.rs. The shared counter is passed beside the
-- workload, and is returned with 1 added to it.
use Prim.Native.Nat.{bit_or, ◌/◌, ◌%◌, ◌*◌, ◌+◌, ◌-◌, ◌^◌, min}
use cql_stress.Common.{ℕ, zero, suc, List, [], ◌∷◌, ℤ}
use cql_stress.Common.Int.{u64_mod, as_i64, neg_i64}

pub record TimeseriesWriteConfig : Type 0 where
  pub partition_offset : ℤ
  pub pks_per_generation : ℕ
  pub cks_per_pk : ℕ
  pub start_nanos : ℕ
  pub max_rate : ℕ

pub record TimeseriesWrite : Type 0 where
  pub config : TimeseriesWriteConfig
  pub period_nanos : ℕ

pub new_timeseries_write : TimeseriesWriteConfig → TimeseriesWrite
new_timeseries_write config = record {
  config = config;
  period_nanos = 1000000000 * config.pks_per_generation % u64_mod / config.max_rate;
}

-- `(pk_position << 32) | pk_generation`
pub partition_of : ℕ → ℕ → ℕ
partition_of position generation = bit_or (position * 2 ^ 32 % u64_mod) generation

-- `-((start_nanos + period_nanos * ck_position) as i64)`
pub clustering_of : ℕ → ℕ → ℕ → ℤ
clustering_of start_nanos period_nanos ck_position =
    neg_i64 (as_i64 ((start_nanos + period_nanos * ck_position % u64_mod) % u64_mod))

pub write_keys : TimeseriesWrite → ℕ → (ℤ × List ℤ) × ℕ
unfolding partition_of clustering_of
write_keys w counter =
    let pk_position = counter % w.config.pks_per_generation in
    let ck_position = counter / w.config.pks_per_generation in
    let pk_generation = ck_position / w.config.cks_per_pk in
    (
      (
        as_i64 (partition_of pk_position pk_generation),
        clustering_of w.config.start_nanos w.period_nanos ck_position ∷ [],
      ),
      (counter + 1) % u64_mod,
    )

pub record TimeseriesReadConfig : Type 0 where
  pub partition_offset : ℤ
  pub pks_per_generation : ℕ
  pub cks_per_pk : ℕ
  pub start_nanos : ℕ
  pub period_nanos : ℕ

-- `random_int`, of either distribution, is an argument, with the generator's state `G`; so is the
-- reading of the clock.
module _ {G : Type 0} (random_int : ℕ → G → ℕ × G) where
  -- `now_nanos - start_nanos`; the clock is not behind the start
  since_start : TimeseriesReadConfig → ℕ → ℕ
  since_start config now_nanos = now_nanos - config.start_nanos

  -- the closure that `map` runs for each clustering key
  pub read_clustering : TimeseriesReadConfig → ℕ → ℕ → G → ℤ × G
  unfolding since_start clustering_of
  read_clustering config now_nanos generation gen =
      let max_range =
        min config.cks_per_pk (since_start config now_nanos / config.period_nanos + 1) in
      let (offset, gen') = random_int max_range gen in
      (
        clustering_of config.start_nanos config.period_nanos
            ((generation * config.cks_per_pk + offset) % u64_mod),
        gen',
      )

  pub read_clusterings : ℕ → TimeseriesReadConfig → ℕ → ℕ → G → List ℤ × G
  unfolding read_clustering
  read_clusterings zero config now_nanos generation gen = ([], gen)
  read_clusterings (suc n) config now_nanos generation gen =
      let (ck, gen') = read_clustering config now_nanos generation gen in
      let (cks, gen'') = read_clusterings n config now_nanos generation gen' in (ck ∷ cks, gen'')

  pub read_keys : TimeseriesReadConfig → ℕ → ℕ → ℕ → G → (ℤ × List ℤ) × ℕ × G
  unfolding since_start partition_of read_clusterings
  read_keys config counter now_nanos ck_count gen =
      let pk_position = counter % config.pks_per_generation in
      let max_generation =
        since_start config now_nanos / (config.period_nanos * config.cks_per_pk % u64_mod) + 1 in
      let (generation, gen') = random_int max_generation gen in
      let (cks, gen'') = read_clusterings ck_count config now_nanos generation gen' in
      ((as_i64 (partition_of pk_position generation), cks), (counter + 1) % u64_mod, gen'')
