-- ===== src/ScyllaBench/Operation/Scan.antt =====
-- The token ranges of operation/scan.rs.
use cql_stress.Common.{
  ℕ, ◌+◌, ◌-◌, ◌*◌, ◌/◌, ◌%◌, ◌^◌, ◌≤◌, ◌<◌, ◌≡◌, ℤ, arith, ap, refl, subst, ◌≢◌, ◌∙◌, ◌⊎◌, inl,
  inr,
}
use native.Mathlib.Nat.{mod-eq_of_lt, mod-lt}
use native.Mathlib.Decide.{dec_lt}
use cql_stress.Common.Int.{
  u64_mod, as_i64, as_u64, add_i64, i64_min, ◌≤ℤ◌, sub_ℕ, pos_part, neg_part,
}

-- `calc_bound`: u128 division, the low 64 bits as an i64, and a wrapping sum
unfoldable pub calc_bound : ℕ → ℕ → ℤ
calc_bound range_count idx =
    let shifted = idx * 2 ^ 64 in
    let biased = shifted / range_count in add_i64 (as_i64 (biased % u64_mod)) i64_min

-- The first and last token of the scan that gets `next` from the shared counter.
unfoldable pub scan_range : ℕ → ℕ → ℤ × ℤ
unfolding calc_bound
scan_range range_count next =
    let range_idx = next % range_count in
    (calc_bound range_count range_idx, calc_bound range_count (range_idx + 1))

-- the number of tokens below a bound, if nothing wraps around
abbrev pub bias : ℕ → ℕ → ℕ
bias range_count idx = idx * 2 ^ 64 / range_count

wrap-bias : (b : ℕ) → b < u64_mod → add_i64 (as_i64 (b % u64_mod)) i64_min ≡ sub_ℕ b (2 ^ 63)
unfolding add_i64
wrap-bias b h = ground arith

bias-lt : (n idx : ℕ) → idx < n → bias n idx < u64_mod
bias-lt n idx h = grind arith

bias-le : (n i j : ℕ) → i ≤ j → bias n i ≤ bias n j
bias-le n i j h = grind arith

bias-end : (n : ℕ) → 0 < n → bias n n ≡ u64_mod
bias-end n h = grind arith

calc_bound-bias : (n idx : ℕ) → idx < n → calc_bound n idx ≡ sub_ℕ (bias n idx) (2 ^ 63)
unfolding calc_bound
calc_bound-bias n idx h = wrap-bias (bias n idx) (bias-lt n idx h)

-- the bound behind the last range wraps around to the first token
calc_bound-end : (n : ℕ) → 0 < n → calc_bound n n ≡ i64_min
unfolding calc_bound add_i64 as_i64 as_u64
calc_bound-end n h = rw (bias-end n h)

ℤ-cases : (a b : ℤ) → (a ≤ℤ b) ⊎ ((b ≤ℤ a) × (a ≢ b))
ℤ-cases a b = elim (dec_lt (pos_part b + neg_part a) (pos_part a + neg_part b)) [
  | yes below ↦ inr (omega arith, λ e. omega (arith, ap pos_part e, ap neg_part e))
  | no above ↦ inl (omega arith)
]

sub_bound : (b : ℕ) (t : ℤ) → sub_ℕ b (2 ^ 63) ≤ℤ t → t ≢ sub_ℕ b (2 ^ 63) → ¬ (t ≤ℤ i64_min)
sub_bound b t lo ne hi = ground arith

sub_above :
    (a b : ℕ) (t : ℤ)
    → a ≤ b
    → sub_ℕ b (2 ^ 63) ≤ℤ t
    → t ≢ sub_ℕ b (2 ^ 63)
    → ¬ (t ≤ℤ sub_ℕ a (2 ^ 63))
sub_above a b t h lo ne hi = ground arith

-- what a query with both bounds selects
abbrev pub Within : ℤ → ℤ × ℤ → Type 0
Within t (first, last) = (first ≤ℤ t) × (t ≤ℤ last)

-- nothing is below the least token, but the least token itself is not above another
last_range-empty : (n : ℕ) (t : ℤ) → 2 ≤ n → ¬ Within t (sub_ℕ (bias n (n - 1)) (2 ^ 63), i64_min)
last_range-empty n t h w =
    let some_bias : 1 ≤ bias n (n - 1) =
      let enough : n ≤ (n - 1) * 2 ^ 64 = omega (arith, h) in grind (arith, enough, h) in
    ground (arith, some_bias, w.0, w.1)

last_range : (n : ℕ) → 0 < n → scan_range n (n - 1) ≡ (sub_ℕ (bias n (n - 1)) (2 ^ 63), i64_min)
unfolding scan_range
last_range n h =
    let i : (n - 1) % n ≡ n - 1 = mod-eq_of_lt (omega (arith, h)) in
    let e : n - 1 + 1 ≡ n = omega (arith, h) in
    rw (i, e, calc_bound-bias n (n - 1) (omega (arith, h)), calc_bound-end n h) refl

missed :
    (n next : ℕ) (t : ℤ)
    → 0 < n
    → sub_ℕ (bias n (n - 1)) (2 ^ 63) ≤ℤ t
    → t ≢ sub_ℕ (bias n (n - 1)) (2 ^ 63)
    → ¬ (t ≤ℤ (scan_range n next).1)
unfolding scan_range
missed n next t h lo ne hi =
    let i = next % n in
    let small : i < n = mod-lt next h in
    elim (dec_lt (i + 1) n) [
      | yes k ↦
          sub_above (bias n (i + 1)) (bias n (n - 1)) t (bias-le n (i + 1) (n - 1) (omega arith)) lo
            ne (subst (λ b. t ≤ℤ b) (calc_bound-bias n (i + 1) k) hi)
      | no k ↦
          let last : i + 1 ≡ n = omega arith in
          sub_bound (bias n (n - 1)) t lo ne
            (subst (λ b. t ≤ℤ b) (ap (calc_bound n) last ∙ calc_bound-end n h) hi)
    ]

-- If there is a range at all, the last range goes from (range_count - 1) * 2 ^ 64 / range_count - 2
-- ^ 63 to the least token. No token is within it, unless it is the only range; and whatever scan
-- comes next, no token above the beginning of the last range is within its range.
pub scan_range-misses :
    (n next : ℕ) (t : ℤ)
    → 0 < n
    → let begin = sub_ℕ ((n - 1) * 2 ^ 64 / n) (2 ^ 63) in
      (scan_range n (n - 1) ≡ (begin, i64_min))
      × ((n ≡ 1) ⊎ (¬ Within t (scan_range n (n - 1))))
      × ((t ≤ℤ begin) ⊎ (¬ Within t (scan_range n next)))
scan_range-misses n next t h =
    let begin = sub_ℕ (bias n (n - 1)) (2 ^ 63) in
    (
      last_range n h,
      elim (dec_lt 1 n) [
        | yes two ↦ inr (λ w. last_range-empty n t two (subst (Within t) (last_range n h) w))
        | no one ↦ inl (omega (arith, h))
      ],
      elim (ℤ-cases t begin) [
        | inl below ↦ inl below
        | inr above ↦ inr (λ w. missed n next t h above.0 above.1 w.1)
      ],
    )
