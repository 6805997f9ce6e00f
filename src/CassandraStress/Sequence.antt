-- ===== src/CassandraStress/Sequence.antt =====
-- java_generate/distribution/sequence.rs and fixed.rs. `new` is given i64 bounds.
pub mod Cycle
use Prim.Native.Nat.{◌+◌, ◌%◌}
use cql_stress.Common.{
  ℕ, Bool, List, [], ◌∷◌, Result, ok, err, ensure, ◌>>◌, ◌>>=◌, ℤ, pos, negsuc, suc, leb, not,
}
use cql_stress.Common.Int.{add_i64, neg_i64, neg, pos_part, neg_part}

-- the order of i64
abbrev pub lt_ℤ : ℤ → ℤ → Bool
lt_ℤ a b = not (leb (pos_part b + neg_part a) (pos_part a + neg_part b))

-- `%` on i64, which has the sign of the dividend; the divisor is not 0
unfoldable pub rem_i64 : ℤ → ℤ → ℤ
rem_i64 (pos a) b = pos (a % (pos_part b + neg_part b))
rem_i64 (negsuc a) b = neg (pos (suc a % (pos_part b + neg_part b)))

pub record SeqDistribution : Type 0 where
  pub start : ℤ
  pub end : ℤ
  pub seed : ℤ

pub data SeqError : Type 0 where
  not_below : SeqError

unfoldable pub new_seq : ℤ → ℤ → Result SeqError SeqDistribution
new_seq start end = do
  ensure (lt_ℤ start end) not_below
  ok (record { start = start; end = end; seed = pos 0 })

unfoldable pub total : SeqDistribution → ℤ
total d = add_i64 (add_i64 d.end (neg_i64 d.start)) (pos 1)

-- `next_i64`: `fetch_add` wraps around
unfoldable pub next_i64 : SeqDistribution → ℤ × SeqDistribution
unfolding total rem_i64
next_i64 d =
    (add_i64 d.start (rem_i64 d.seed (total d)), record d { seed = add_i64 d.seed (pos 1) })

unfoldable pub set_seed : SeqDistribution → ℤ → SeqDistribution
set_seed d seed = record d { seed = seed }

-- `FixedDistribution`
pub record FixedDistribution : Type 0 where
  pub value : ℤ

unfoldable pub next_fixed : FixedDistribution → ℤ × FixedDistribution
next_fixed d = (d.value, d)
