-- ===== src/ScyllaBench/GoCompat/Strconv/Numbers.antt =====
-- What `parse_int` and `parse_uint` accept, and what they return.
use cql_stress.Common.{
  ℕ, ◌+◌, ◌-◌, ◌*◌, ◌^◌, ◌≤◌, ◌<◌, ◌≡◌, ◌≢◌, refl, subst, Bool, true, false, [], ◌∷◌, ok, err,
  ensure-ok, question-ok, ok-inj, leb, if◌then◌else◌, ℤ, pos, arith,
}
use native.Mathlib.Nat.{pow-le-pow_right, one-le-pow}
use cql_stress.Common.Int.{as_i64, as_u64, neg_i64, ◌≤ℤ◌, neg}
use cql_stress.Text.{Text}
use cql_stress.Text.Digits.{AreDigits, value, le-value, u64_max}
use cql_stress.Text.Split.{Lacks, split-Lacks}
use cql_stress.ScyllaBench.GoCompat.Strconv.{
  out_of_range, digit, scan_literal, parse_int_inner, parse_signed, detect_sign, detect_base,
  parse_int, parse_uint,
}

scan_literal-le :
    (base max_value : ℕ) (s : Text) (ret r : ℕ)
    → ret ≤ max_value
    → scan_literal base max_value s ret ≡ ok r
    → r ≤ max_value
unfolding scan_literal
scan_literal-le base max_value [] ret r h e = ground arith
scan_literal-le base max_value (c ∷ s) ret r h e = ground (
  arith,
  scan_literal-le base max_value s ret r,
  scan_literal-le base max_value s (ret * base + digit base c) r,
)

parse_int_inner-le :
    (s : Text) (max_value r : ℕ) → parse_int_inner s max_value ≡ ok r → r ≤ max_value
unfolding parse_int_inner
parse_int_inner-le s max_value r h =
    scan_literal-le (detect_base s).0 max_value (detect_base s).1 0 r (omega arith)
      ((ensure-ok _ _ _ h).1)

power-le : (k : ℕ) → k ≤ 63 → 2 ^ k ≤ 2 ^ 63
power-le k h = pow-le-pow_right (omega arith) h

negative_bounds :
    (m v : ℕ)
    → m ≤ 2 ^ 63
    → 0 < m
    → v ≤ m
    → (neg (pos m) ≤ℤ neg_i64 (as_i64 v)) × (neg_i64 (as_i64 v) ≤ℤ pos (m - 1))
unfolding as_i64 as_u64 neg_i64
negative_bounds m v h p k = ground arith

positive_bounds :
    (m v : ℕ)
    → m ≤ 2 ^ 63
    → 0 < m
    → v ≤ m - 1
    → (neg (pos m) ≤ℤ as_i64 v) × (as_i64 v ≤ℤ pos (m - 1))
unfolding as_i64
positive_bounds m v h p k = ground arith

abbrev InRange : ℕ → ℤ → Type 0
InRange m r = (neg (pos m) ≤ℤ r) × (r ≤ℤ pos (m - 1))

parse_signed_bounds :
    (bit_size : ℕ) (t : Bool × Text) (r : ℤ)
    → bit_size ≤ 64
    → parse_signed bit_size t ≡ ok r
    → InRange (2 ^ (bit_size - 1)) r
unfolding parse_signed
parse_signed_bounds bit_size (true, s) r h e =
    let m = 2 ^ (bit_size - 1) in
    let (v, found, read) = question-ok (λ v. ok (neg_i64 (as_i64 v))) (parse_int_inner s m) r e in
    subst (InRange m) (ok-inj found) (
      negative_bounds m v (power-le (bit_size - 1) (omega arith))
        (one-le-pow (bit_size - 1) 2 (omega arith)) (parse_int_inner-le s m v read))
parse_signed_bounds bit_size (false, s) r h e =
    let m = 2 ^ (bit_size - 1) in
    let (v, found, read) = question-ok (λ v. ok (as_i64 v)) (parse_int_inner s (m - 1)) r e in
    subst (InRange m) (ok-inj found) (
      positive_bounds m v (power-le (bit_size - 1) (omega arith))
        (one-le-pow (bit_size - 1) 2 (omega arith)) (parse_int_inner-le s (m - 1) v read))

-- What parse_int returns is in the range of a signed integer of bit_size bits.
pub parse_int-bounds :
    (s : Text) (bit_size : ℕ) (r : ℤ)
    → parse_int s bit_size ≡ ok r
    → (neg (pos (2 ^ (bit_size - 1))) ≤ℤ r) × (r ≤ℤ pos (2 ^ (bit_size - 1) - 1))
unfolding parse_int
parse_int-bounds s bit_size r h =
    let (small, read) = ensure-ok _ _ _ h in
    parse_signed_bounds bit_size (detect_sign s) r (ground arith) read

-- decimal digits are read as their value, in range
scan_literal-value :
    (max_value : ℕ) (s : Text) (n : ℕ)
    → AreDigits s
    → n ≤ max_value
    → scan_literal 10 max_value s n
      ≡ (if leb (value n s) max_value then ok (value n s) else err out_of_range)
unfolding scan_literal digit
scan_literal-value max_value [] n h k = ground arith
scan_literal-value max_value (c ∷ s) n h k =
    let d : digit 10 c ≡ c - b'0' = ground arith in
    ground (
      arith,
      scan_literal-value max_value s (n * 10 + (c - b'0')),
      le-value s (n * 10 + (c - b'0')),
    )

digit_only : (s : Text) → AreDigits s → (Lacks b'_' s) × (detect_base s ≡ (10, s))
unfolding detect_base
digit_only [] h = (refl, refl)
digit_only (c ∷ []) h = (ground arith, refl)
digit_only (c ∷ d ∷ s) h = let t = digit_only (d ∷ s) h.1 in (ground arith, ground arith)

parse_int_inner-value :
    (max_value : ℕ) (c : ℕ) (s : Text)
    → AreDigits (c ∷ s)
    → parse_int_inner (c ∷ s) max_value
      ≡ (if leb (value 0 (c ∷ s)) max_value then ok (value 0 (c ∷ s)) else err out_of_range)
unfolding parse_int_inner
parse_int_inner-value max_value c s h =
    let (lacks, plain) = digit_only (c ∷ s) h in
    rw (split-Lacks b'_' (c ∷ s) lacks, plain)
      (scan_literal-value max_value (c ∷ s) 0 h (omega arith))

-- A text of decimal digits is read as the number that it spells, and is refused exactly when that
-- is not a u64.
pub parse_uint-value :
    (s : Text)
    → s ≢ []
    → AreDigits s
    → parse_uint s 64 ≡ (if leb (value 0 s) u64_max then ok (value 0 s) else err out_of_range)
unfolding parse_uint
parse_uint-value [] n h = absurd (n refl)
parse_uint-value (c ∷ s) n h = let read = parse_int_inner-value u64_max c s h in ground arith
