-- ===== src/ScyllaBench/Workload/Sequential.antt =====
-- workload/sequential.rs. `shared_state.next_pk` is passed beside the workload, since every
-- workload of the factory shares it; `fetch_add` wraps around, as all u64 sums do.
pub mod Rows
pub mod Coverage
pub mod Stuck
pub mod Answers
use cql_stress.Common.{
  ℕ, zero, suc, ◌+◌, ◌-◌, ◌*◌, ◌%◌, ◌≤◌, ◌<◌, min, Bool, true, false, ◌&&◌, List, [], ◌∷◌, map,
  Option, none, some, Result, ok, err, ensure, ◌>>=◌, ◌>>◌, ltb, leb, if◌then◌else◌, ℤ,
}
use cql_stress.Common.Int.{u64_mod, as_i64, add_i64}

pub record SequentialConfig : Type 0 where
  pub iterations : ℕ
  pub partition_offset : ℤ
  pub pks : ℕ
  pub cks_per_pk : ℕ

pub record Sequential : Type 0 where
  pub config : SequentialConfig
  pub current_pk : ℕ
  pub current_ck : ℕ

pub data ConfigError : Type 0 where
  no_partitions no_clustering_keys : ConfigError

-- `SequentialFactory::new`: the factory is its configuration and the first `next_pk`.
pub new_factory : SequentialConfig → Result ConfigError (SequentialConfig × ℕ)
new_factory config = do
  ensure (ltb 0 config.pks) no_partitions
  ensure (ltb 0 config.cks_per_pk) no_clustering_keys
  ok (config, 0)

-- `Sequential::new`: a state that makes the first call choose a partition
unfoldable pub new_sequential : SequentialConfig → Sequential
new_sequential config = record { config = config; current_pk = 0; current_ck = config.cks_per_pk }

-- `from..from + n`
unfoldable pub count_up : ℕ → ℕ → List ℕ
count_up from zero = []
count_up from (suc n) = from ∷ count_up (from + 1) n

-- the test for the end, with its early return
unfoldable pub is_past_end : SequentialConfig → ℕ → Bool
is_past_end config pk = ltb 0 config.iterations && leb (config.pks * config.iterations % u64_mod) pk

unfoldable pub partition_key : SequentialConfig → ℕ → ℤ
partition_key config pk = add_i64 (as_i64 (pk % config.pks)) config.partition_offset

-- the part behind the first `if`
unfoldable pub next_keys : Sequential → ℕ → ℤ × List ℤ
unfolding count_up partition_key
next_keys w ck_count =
    let ck_end = min ((w.current_ck + ck_count) % u64_mod) w.config.cks_per_pk in
    (
      partition_key w.config w.current_pk,
      map as_i64 (count_up w.current_ck (ck_end - w.current_ck)),
    )

unfoldable pub next_state : Sequential → ℕ → Sequential
next_state w ck_count = record w {
  current_ck = min ((w.current_ck + ck_count) % u64_mod) w.config.cks_per_pk;
}

-- the workload when the first `if` has chosen a partition
unfoldable pub advanced : Sequential → ℕ → Sequential
advanced w next_pk = record w { current_ck = 0; current_pk = next_pk }

-- The keys, the new state and the new `next_pk`.
unfoldable pub generate_keys : Sequential → ℕ → ℕ → Option (ℤ × List ℤ) × Sequential × ℕ
unfolding is_past_end next_keys next_state advanced
generate_keys w next_pk ck_count =
    if leb w.config.cks_per_pk w.current_ck
    then (if is_past_end w.config next_pk
        then (none, advanced w next_pk, (next_pk + 1) % u64_mod)
        else (
          some (next_keys (advanced w next_pk) ck_count),
          next_state (advanced w next_pk) ck_count,
          (next_pk + 1) % u64_mod,
        ))
    else (some (next_keys w ck_count), next_state w ck_count, next_pk)
