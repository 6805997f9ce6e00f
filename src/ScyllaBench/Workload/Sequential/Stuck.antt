-- ===== src/ScyllaBench/Workload/Sequential/Stuck.antt =====
-- A sequential workload that is asked for no clustering keys, as a read with no bounds asks.
use cql_stress.Common.{
  ℕ, zero, suc, ◌≡◌, ◌<◌, refl, ap, ◌∙◌, [], none, some, arith, min, leb, false, ◌-◌, ◌%◌, ◌+◌,
}
use cql_stress.Common.Int.{u64_mod}
use cql_stress.ScyllaBench.Workload.Sequential.{Sequential, generate_keys, partition_key, count_up}
use cql_stress.ScyllaBench.Workload.Sequential.Rows.{drain, and_on, prepend}

-- Within a partition, a call for no keys returns the same partition with no keys, and leaves the
-- workload and the shared counter as they were.
pub generate_keys-none :
    (w : Sequential) (q : ℕ)
    → w.current_ck < w.config.cks_per_pk
    → w.config.cks_per_pk < u64_mod
    → generate_keys w q 0 ≡ (some (partition_key w.config w.current_pk, []), w, q)
unfolding generate_keys count_up
generate_keys-none w q h k =
    let e : min ((w.current_ck + 0) % u64_mod) w.config.cks_per_pk ≡ w.current_ck = omega arith in
    let f : w.current_ck - w.current_ck ≡ 0 = omega arith in
    let inside : leb w.config.cks_per_pk w.current_ck ≡ false = ground arith in rw (inside, e, f)

-- A worker that reads with no bounds from a sequential workload never gets to its end: once it is
-- within a partition, no number of calls ends the workload, whatever its iterations. The number of
-- clustering keys of a partition is a u64.
pub drain-none :
    (fuel : ℕ) (w : Sequential) (q : ℕ)
    → w.current_ck < w.config.cks_per_pk
    → w.config.cks_per_pk < u64_mod
    → drain fuel 0 w q ≡ none
unfolding drain and_on prepend
drain-none zero w q h k = refl
drain-none (suc fuel) w q h k =
    ap (and_on (drain fuel 0)) (generate_keys-none w q h k) ∙ rw (drain-none fuel w q h k)
