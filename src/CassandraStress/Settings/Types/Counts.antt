-- ===== src/CassandraStress/Settings/Types/Counts.antt =====
-- How counts of operations are read.
use cql_stress.Common.{
  ℕ, ◌*◌, ◌%◌, ◌≤◌, ◌≡◌, ◌≢◌, refl, ap, ◌∙◌, [], ◌∷◌, ◌++◌, true, none, some, ok, err, leb,
  if◌then◌else◌, arith, all,
}
use mathlib.Core.List.{map-append}
use cql_stress.Common.Int.{u64_mod}
use cql_stress.Text.{Text, is_ascii_digit}
use cql_stress.Text.Digits.{AreDigits, IsMagnitude, value, u64_max, parse_u64-value}
use cql_stress.Distribution.Long.{next_back, next_back-append}
use cql_stress.CassandraStress.Settings.Types.{
  bad_number, are_digits, lower, lowered, count_unit, times, count_with_unit, count_of_last,
  parse_count,
}

lowered-digits : (s : Text) → AreDigits s → lowered s ≡ s
lowered-digits [] h = refl
lowered-digits (c ∷ s) h =
    let first : lower c ≡ c = ground (arith, h.0) in rw (first, lowered-digits s h.1) refl

all-AreDigits : (s : Text) → AreDigits s → all is_ascii_digit s ≡ true
all-AreDigits [] h = refl
all-AreDigits (c ∷ s) h = rw (h.0, all-AreDigits s h.1) refl

are_digits-AreDigits : (s : Text) → s ≢ [] → AreDigits s → are_digits s ≡ true
are_digits-AreDigits [] n h = absurd (n refl)
are_digits-AreDigits (c ∷ s) n h = all-AreDigits (c ∷ s) h

IsMagnitude-count_unit : (c m : ℕ) → IsMagnitude c m → count_unit (lower c) ≡ some m
IsMagnitude-count_unit c m h = ground (arith, h)

times-value :
    (s : Text) (m : ℕ)
    → s ≢ []
    → AreDigits s
    → times s m ≡ (if leb (value 0 s) u64_max then ok (value 0 s * m % u64_mod) else err bad_number)
unfolding times
times-value s m n h = let read = parse_u64-value s n h in ground arith

with_unit :
    (s whole : Text) (m : ℕ)
    → s ≢ []
    → AreDigits s
    → count_with_unit s whole (some m)
      ≡ (if leb (value 0 s) u64_max then ok (value 0 s * m % u64_mod) else err bad_number)
unfolding count_with_unit
with_unit s whole m n h = rw (are_digits-AreDigits s n h) (times-value s m n h)

-- Digits with a suffix k, m or b, of either case, are a count of that many thousands, millions or
-- billions, modulo 2 ^ 64, if the digits are a u64, and are refused otherwise: a product that is no
-- u64 wraps around, and is not refused.
pub parse_count-suffix :
    (s : Text) (c m : ℕ)
    → s ≢ []
    → AreDigits s
    → IsMagnitude c m
    → parse_count (s ++ c ∷ [])
      ≡ (if leb (value 0 s) u64_max then ok (value 0 s * m % u64_mod) else err bad_number)
unfolding parse_count count_of_last
parse_count-suffix s c m n h u =
    let k = IsMagnitude-count_unit c m u in
    let d = lower c in
    let last : lowered (s ++ c ∷ []) ≡ s ++ d ∷ [] =
      map-append lower s (c ∷ []) ∙ ap (λ t. t ++ d ∷ []) (lowered-digits s h) in
    ap (λ t. count_of_last t (next_back t)) last
    ∙ ap (count_of_last (s ++ d ∷ [])) (next_back-append s d)
    ∙ ap (count_with_unit s (s ++ d ∷ [])) k
    ∙ with_unit s (s ++ d ∷ []) m n h

next_back-digit :
    (s : Text)
    → s ≢ []
    → AreDigits s
    → (t : Text) × (c : ℕ) × (next_back s ≡ some (t, c)) × (is_ascii_digit c ≡ true)
unfolding next_back
next_back-digit [] n h = absurd (n refl)
next_back-digit (c ∷ []) n h = ([], c, refl, h.0)
next_back-digit (c ∷ d ∷ s) n h =
    let (t, last, e, digit) = next_back-digit (d ∷ s) (λ k. cc) h.1 in
    (c ∷ t, last, rw (e) refl, digit)

no_unit : (c : ℕ) → is_ascii_digit c ≡ true → count_unit c ≡ none
no_unit c h = ground (arith, h)

plain_digits :
    (t s : Text)
    → s ≢ []
    → AreDigits s
    → count_with_unit t s none
      ≡ (if leb (value 0 s) u64_max then ok (value 0 s * 1 % u64_mod) else err bad_number)
unfolding count_with_unit
plain_digits t s n h = rw (are_digits-AreDigits s n h) (times-value s 1 n h)

-- the digits of a u64, with no suffix
pub parse_count-digits :
    (s : Text) → s ≢ [] → AreDigits s → value 0 s ≤ u64_max → parse_count s ≡ ok (value 0 s)
unfolding parse_count count_of_last count_with_unit
parse_count-digits s n h k =
    let (t, c, last, digit) = next_back-digit s n h in
    let in_range : leb (value 0 s) u64_max ≡ true = ground (arith, k) in
    let whole : value 0 s * 1 % u64_mod ≡ value 0 s = omega (arith, k) in
    ap (λ r. count_of_last r (next_back r)) (lowered-digits s h)
    ∙ ap (count_of_last s) last
    ∙ ap (count_with_unit t s) (no_unit c digit)
    ∙ plain_digits t s n h
    ∙ rw (in_range, whole) refl
