-- ===== src/ShardedStats/Conserved.antt =====
-- No write is lost and none is counted twice, whatever comes between.
use cql_stress.Common.{
  ℕ, zero, suc, ◌+◌, ◌<◌, ◌≤◌, ◌≡◌, refl, ap, ◌∙◌, List, [], ◌∷◌, none, some, true, length,
  get_elem?-some, length-set, arith,
}
use cql_stress.ShardedStats.{
  StatsParts, ShardedStats, new_sharded, write_shard, may_write, begin, collect_shard, finish,
  collect_all, get_combined_and_clear,
}
use cql_stress.ShardedStats.Sums.{AddsUp, zero_left}
use cql_stress.ShardedStats.Steps.{
  everything, written, IsSound, write_shard-IsSound, collect_shard-IsSound, begin-IsSound,
  finish-IsSound, collect_shard-found,
}

module _ {S X : Type 0} (parts : StatsParts S X) where
  -- The states that can be reached, with the writes so far, the last one first.
  pub data Reach : List X → ShardedStats S → Type 0 where
    start : Reach [] (new_sharded parts)
    writes :
        (xs : List X) (s : ShardedStats S) (thread : ℕ) (x : X)
        → may_write parts thread s ≡ true
        → Reach xs s
        → Reach (x ∷ xs) (write_shard parts thread x s)
    begins :
        (xs : List X) (s : ShardedStats S)
        → s.collecting ≡ none
        → Reach xs s
        → Reach xs (begin parts s)
    collects :
        (xs : List X) (s : ShardedStats S) (c : S × ℕ)
        → s.collecting ≡ some c
        → c.1 < length s.all
        → Reach xs s
        → Reach xs (collect_shard parts c s)
    finishes :
        (xs : List X) (s : ShardedStats S) (c : S × ℕ)
        → s.collecting ≡ some c
        → length s.all ≤ c.1
        → Reach xs s
        → Reach xs (finish parts c s)

  module _ (law : AddsUp parts) where
    Reach-IsSound : (xs : List X) (s : ShardedStats S) → Reach xs s → IsSound parts law xs s
    unfolding IsSound new_sharded
    Reach-IsSound xs s start = (tt, zero_left parts law _ ∙ zero_left parts law parts.create)
    Reach-IsSound xs s (writes xs' s' thread x may r) =
        write_shard-IsSound parts law xs' s' thread x (Reach-IsSound xs' s' r)
    Reach-IsSound xs s (begins xs' s' e r) =
        begin-IsSound parts law xs' s' e (Reach-IsSound xs' s' r)
    Reach-IsSound xs s (collects xs' s' c e lt r) =
        collect_shard-IsSound parts law xs' s' c e lt (Reach-IsSound xs' s' r)
    Reach-IsSound xs s (finishes xs' s' c e le r) =
        finish-IsSound parts law xs' s' c e (Reach-IsSound xs' s' r)

  collect_all-Reach :
      (n : ℕ) (xs : List X) (s : ShardedStats S) (hist : S) (cell : ℕ)
      → s.collecting ≡ some (hist, cell)
      → cell + n ≡ length s.all
      → Reach xs s
      → Reach xs (collect_all parts n s)
  unfolding collect_all
  collect_all-Reach zero xs s hist cell e n r =
      rw (collect_all, e) (finishes xs s (hist, cell) e (omega (arith, n)) r)
  collect_all-Reach (suc n) xs s hist cell e h r =
      let (stats, f) = get_elem?-some s.all cell (omega (arith, h)) in
      let step = collects xs s (hist, cell) e (omega (arith, h)) r in
      let found = collect_shard-found parts hist cell s stats f in
      rw (collect_all, e)
        (collect_all-Reach n xs (collect_shard parts (hist, cell) s) (parts.combine hist stats)
          (cell + 1) (ap (λ t. t.collecting) found)
          (rw found (omega (arith, h, length-set s.all cell (parts.clear stats)))) step)

  get_combined_and_clear-Reach :
      (xs : List X) (s : ShardedStats S)
      → s.collecting ≡ none
      → Reach xs s
      → Reach xs (get_combined_and_clear parts s)
  unfolding get_combined_and_clear begin
  get_combined_and_clear-Reach xs s e r =
      collect_all-Reach (length s.all) xs (begin parts s) parts.create 0 refl (omega arith)
        (begins xs s e r)

  -- Whatever the interleaving of the threads' writes and of the parts of the collections, what was
  -- reported, what is being collected and what is in the shards make up one counter that has got
  -- every write once; a whole collection keeps this. The statistics add up: a combination is a sum,
  -- a write can be made on either side of it, and clearing gives new statistics.
  pub Reach-written :
      AddsUp parts
      → (xs : List X) (s : ShardedStats S) → Reach xs s
      → (everything parts s ≡ written parts xs)
        × (s.collecting ≡ none
            → everything parts (get_combined_and_clear parts s) ≡ written parts xs)
  unfolding IsSound
  Reach-written law xs s r = (
    (Reach-IsSound law xs s r).1,
    λ idle.
        (Reach-IsSound law xs (get_combined_and_clear parts s)
          (get_combined_and_clear-Reach xs s idle r)).1,
  )
