-- ===== src/Examples/Shards.antt =====
-- src/sharded_stats.rs: two threads that count, and a collection.
use cql_stress.Common.{ℕ, ◌+◌, ◌≡◌, refl, [], ◌∷◌, none, true, arith}
use cql_stress.ShardedStats.{
  StatsParts, ShardedStats, new_sharded, write_shard, write_cell, with_shard, shard_of, may_write,
  get_combined_and_clear,
}
use cql_stress.ShardedStats.Sums.{AddsUp}
use cql_stress.ShardedStats.Steps.{everything, written}
use cql_stress.ShardedStats.Conserved.{Reach, start, writes, Reach-written}

abbrev counts : StatsParts ℕ ℕ
counts = record { create = 0; clear = λ n. 0; combine = ◌+◌; write = λ x n. x + n }

counts-AddsUp : AddsUp counts
counts-AddsUp = record {
  assoc = λ a b c. omega arith;
  comm = λ a b. omega arith;
  zero_right = λ a. omega arith;
  cleared = λ a. refl;
  write_left = λ x a b. omega arith;
}

abbrev one_write : ShardedStats ℕ
one_write = write_shard counts 7 5 (new_sharded counts)

abbrev two_writes : ShardedStats ℕ
two_writes = write_shard counts 8 3 one_write

free : may_write counts 7 (new_sharded counts) ≡ true
unfolding may_write new_sharded
free = refl

free_again : may_write counts 8 one_write ≡ true
unfolding may_write new_sharded write_shard write_cell with_shard shard_of
free_again = refl

two_writes-Reach : Reach counts (3 ∷ 5 ∷ []) two_writes
two_writes-Reach =
    writes (5 ∷ []) one_write 8 3 free_again (writes [] (new_sharded counts) 7 5 free start)

Reach-written_example :
    (everything counts two_writes ≡ written counts (3 ∷ 5 ∷ []))
    × (two_writes.collecting ≡ none
        → everything counts (get_combined_and_clear counts two_writes)
          ≡ written counts (3 ∷ 5 ∷ []))
Reach-written_example = Reach-written counts counts-AddsUp (3 ∷ 5 ∷ []) two_writes two_writes-Reach
