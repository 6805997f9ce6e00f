-- ===== src/CassandraStress/Sequence/Cycle.antt =====
-- The samples of a sequence distribution.
use cql_stress.Common.{
  ℕ, ◌+◌, ◌-◌, ◌%◌, ◌^◌, ◌<◌, ◌≡◌, sym, subst, ap, ap₂, ◌∙◌, ℤ, pos, negsuc, arith,
}
use native.Mathlib.Nat.{mod-lt}
use cql_stress.Common.Int.{
  IsI64, add_i64, add_i64_lem, neg_i64, as_i64, as_u64, ◌+ℤ◌, ◌≤ℤ◌, pos_part, neg_part,
}
use cql_stress.CassandraStress.Sequence.{SeqDistribution, total, next_i64, rem_i64}

-- the number of values between the bounds
abbrev pub width : SeqDistribution → ℕ
width d = pos_part d.end + neg_part d.start + 1 - (pos_part d.start + neg_part d.end)

-- The bounds are i64, in order, and fewer than 2 ^ 63 values lie between them.
pub record IsNarrow (d : SeqDistribution) : Type 0 where
  pub first : IsI64 d.start
  pub last : IsI64 d.end
  pub ordered : d.start ≤ℤ d.end
  pub narrow : width d < 2 ^ 63

as_u64-as_i64-mod : (n : ℕ) → as_u64 (as_i64 n) ≡ n % 2 ^ 64
unfolding as_u64 as_i64
as_u64-as_i64-mod n = ground arith

difference :
    (a b : ℤ) (w : ℕ)
    → IsI64 a
    → IsI64 b
    → a ≤ℤ b
    → w + pos_part a + neg_part b ≡ pos_part b + neg_part a + 1
    → w < 2 ^ 63
    → (as_u64 b + (2 ^ 64 - as_u64 a) % 2 ^ 64) % 2 ^ 64 ≡ w - 1
unfolding as_u64
difference (pos a) (pos b) w h k l e f = omega (arith, h, k, l)
difference (pos a) (negsuc b) w h k l e f = omega (arith, h, k, l)
difference (negsuc a) (pos b) w h k l e f = omega (arith, h, k, l)
difference (negsuc a) (negsuc b) w h k l e f = omega (arith, h, k, l)

total_lem : (d : SeqDistribution) → IsNarrow d → total d ≡ pos (width d)
unfolding total add_i64 neg_i64
total_lem d v =
    let e =
      difference d.start d.end (width d) v.first v.last v.ordered (omega (arith, v.ordered))
        v.narrow in
    rw
      (
        as_u64-as_i64-mod (as_u64 d.end + as_u64 (as_i64 (2 ^ 64 - as_u64 d.start))),
        as_u64-as_i64-mod (2 ^ 64 - as_u64 d.start),
        e,
      )
      (ground (arith, v.ordered, v.narrow))

-- the start and a number of steps below the width
step_within :
    (d : SeqDistribution) (r : ℕ)
    → IsNarrow d
    → r < width d
    → (add_i64 d.start (pos r) ≡ d.start +ℤ pos r)
      × (d.start ≤ℤ d.start +ℤ pos r)
      × (d.start +ℤ pos r ≤ℤ d.end)
unfolding ◌+ℤ◌
step_within d r v h =
    let above : d.start ≤ℤ d.start +ℤ pos r = ground arith in
    let below : d.start +ℤ pos r ≤ℤ d.end = ground (arith, v.ordered) in
    (
      add_i64_lem d.start (pos r) v.first (omega arith, omega (arith, v.narrow))
          (omega (arith, v.first, above), omega (arith, v.last, below)),
      above,
      below,
    )

sample_lem :
    (d : SeqDistribution) (k : ℕ)
    → IsNarrow d
    → d.seed ≡ pos k
    → rem_i64 d.seed (total d) ≡ pos (k % width d)
unfolding rem_i64
sample_lem d k v e = ap₂ rem_i64 e (total_lem d v) ∙ ground arith

counted_up : (seed : ℤ) (k : ℕ) → seed ≡ pos k → k + 1 < 2 ^ 63 → add_i64 seed (pos 1) ≡ pos (k + 1)
unfolding add_i64 as_u64 as_i64
counted_up seed k e h = rw e (ground arith)

abbrev sample_and : SeqDistribution → ℤ → ℤ → ℤ × SeqDistribution
sample_and d n seed = (n, record d { seed = seed })

-- From a count of k samples, the next sample is the value number k, counted from the start and over
-- again behind the end; it lies between the bounds, and the count goes up by one. The bounds are
-- i64, in order, with fewer than 2 ^ 63 values, and so is the number of samples.
pub next_i64_lem :
    (d : SeqDistribution) (k : ℕ)
    → IsNarrow d
    → d.seed ≡ pos k
    → k + 1 < 2 ^ 63
    → (next_i64 d ≡ (d.start +ℤ pos (k % width d), record d { seed = pos (k + 1) }))
      × (d.start ≤ℤ (next_i64 d).0)
      × ((next_i64 d).0 ≤ℤ d.end)
unfolding next_i64
next_i64_lem d k v e h =
    let r = k % width d in
    let some_width : 0 < width d = omega (arith, v.ordered) in
    let (sum, above, below) = step_within d r v (mod-lt k some_width) in
    let sampled = ap (add_i64 d.start) (sample_lem d k v e) ∙ sum in
    let counted : add_i64 d.seed (pos 1) ≡ pos (k + 1) = counted_up d.seed k e h in
    (
      ap₂ (sample_and d) sampled counted,
      subst (λ n. d.start ≤ℤ n) (sym sampled) above,
      subst (λ n. n ≤ℤ d.end) (sym sampled) below,
    )
