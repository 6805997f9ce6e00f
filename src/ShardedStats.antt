-- ===== src/ShardedStats.antt =====
-- src/sharded_stats.rs: statistics with a shard per thread. A mutex is held for one function of the
-- model; the lock of `all` is held from `begin` to `finish`.
pub mod Sums
pub mod Steps
pub mod Conserved
use cql_stress.Common.{
  ℕ, zero, suc, ◌+◌, List, [], ◌∷◌, ◌++◌, Option, none, some, Bool, true, false, length, get_elem?,
  set, ltb, ◌==◌, if◌then◌else◌,
}

-- The traits `StatsFactory` and `Stats`, and the writes `X` to a shard.
pub record StatsParts (S X : Type 0) : Type 0 where
  pub create : S
  pub clear : S → S
  pub combine : S → S → S
  pub write : X → S → S

-- `all` holds the shards' cells, and `shards` the cell of a thread; `collecting` is the sum of a
-- running collection and its place, and `reports` what the collections have returned.
pub record ShardedStats (S : Type 0) : Type 0 where
  pub shards : List (ℕ × ℕ)
  pub all : List S
  pub collecting : Option (S × ℕ)
  pub reports : List S

unfoldable pub shard_of : List (ℕ × ℕ) → ℕ → Option ℕ
shard_of [] thread = none
shard_of (entry ∷ shards) thread =
    let rest = shard_of shards thread in if entry.0 == thread then some entry.1 else rest

module _ {S X : Type 0} (parts : StatsParts S X) where
  unfoldable pub new_sharded : ShardedStats S
  new_sharded = record { shards = []; all = []; collecting = none; reports = [] }

  -- `get_or`: a thread without a shard gets a new one
  unfoldable pub with_shard : ℕ → Option ℕ → ShardedStats S → ℕ × ShardedStats S
  with_shard thread (some cell) s = (cell, s)
  with_shard thread none s = (
    length s.all,
    record s { shards = (thread, length s.all) ∷ s.shards; all = s.all ++ (parts.create ∷ []) },
  )

  -- a write through `get_shard_mut`
  unfoldable pub write_cell : X → ℕ × ShardedStats S → ShardedStats S
  write_cell x (cell, s) = elim (get_elem? s.all cell) [
    | none ↦ s
    | some stats ↦ record s { all = set s.all cell (parts.write x stats) }
  ]

  unfoldable pub write_shard : ℕ → X → ShardedStats S → ShardedStats S
  unfolding shard_of with_shard write_cell
  write_shard thread x s = write_cell x (with_shard thread (shard_of s.shards thread) s)

  -- The list of the shards is locked while they are collected: a new one has to wait.
  unfoldable pub may_write : ℕ → ShardedStats S → Bool
  unfolding shard_of
  may_write thread s = elim (s.collecting) [
    | none ↦ true
    | some _ ↦ elim (shard_of s.shards thread) [ none ↦ false | some cell ↦ true ]
  ]

  -- `get_combined_and_clear`: its begin, its loop's body and its end
  unfoldable pub begin : ShardedStats S → ShardedStats S
  begin s = record s { collecting = some (parts.create, 0) }

  unfoldable pub collect_shard : S × ℕ → ShardedStats S → ShardedStats S
  collect_shard (hist, cell) s = elim (get_elem? s.all cell) [
    | none ↦ s
    | some stats ↦ record s {
      all = set s.all cell (parts.clear stats);
      collecting = some (parts.combine hist stats, cell + 1);
    }
  ]

  unfoldable pub finish : S × ℕ → ShardedStats S → ShardedStats S
  finish (hist, cell) s = record s { collecting = none; reports = hist ∷ s.reports }

  -- the collection, when nothing comes between: as many bodies as there are shards
  unfoldable pub collect_all : ℕ → ShardedStats S → ShardedStats S
  unfolding collect_shard finish
  collect_all zero s = elim (s.collecting) [ none ↦ s | some c ↦ finish c s ]
  collect_all (suc n) s = elim (s.collecting) [
    | none ↦ s
    | some c ↦ collect_all n (collect_shard c s)
  ]

  unfoldable pub get_combined_and_clear : ShardedStats S → ShardedStats S
  unfolding begin collect_all
  get_combined_and_clear s = collect_all (length s.all) (begin s)
