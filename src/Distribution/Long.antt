-- ===== src/Distribution/Long.antt =====
-- `parse_long` of src/distribution.rs, for `i64` and `u64`.
use cql_stress.Common.{
  ℕ, ◌*◌, ◌≤◌, ◌≡◌, ◌≢◌, refl, ap, ◌∙◌, true, false, [], ◌∷◌, ◌++◌, Option, none, some, Result, ok,
  err, ◌>>=◌, leb, ◌&&◌, ◌==◌, if◌then◌else◌, arith, ℤ, pos, ok_or,
}
use cql_stress.Common.Int.{◌*ℤ◌, leb_ℤ, i64_min, i64_max}
use cql_stress.Text.{Text, to_ascii_lowercase, is_whitespace, is_ascii_digit}
use cql_stress.Text.Trim.{trim, trim_end, IsTrimmed, trim-solid, trim_end-solid}
use cql_stress.Text.Digits.{
  parse_u64, parse_i64, u64_max, AreDigits, IsMagnitude, value, parse_u64-value,
}

pub data LongError : Type 0 where
  invalid_number out_of_range : LongError

-- The trait `ParsableNumber`.
pub record ParsableNumber (I : Type 0) : Type 0 where
  pub from_u32 : ℕ → I
  pub checked_mul : I → I → Result LongError I
  pub from_str : Text → Result LongError I

-- `impl_parsable_number!`
abbrev pub parsable_u64 : ParsableNumber ℕ
parsable_u64 = record {
  from_u32 = λ n. n;
  checked_mul = λ a b. if leb (a * b) u64_max then ok (a * b) else err out_of_range;
  from_str = λ s. ok_or (parse_u64 s) invalid_number;
}

abbrev pub parsable_i64 : ParsableNumber ℤ
parsable_i64 = record {
  from_u32 = λ n. pos n;
  checked_mul = λ a b.
      if leb_ℤ i64_min (a *ℤ b) && leb_ℤ (a *ℤ b) i64_max then ok (a *ℤ b) else err out_of_range;
  from_str = λ s. ok_or (parse_i64 s) invalid_number;
}

-- `s.chars().next_back()`, and the text before it
unfoldable pub next_back : Text → Option (Text × ℕ)
next_back [] = none
next_back (c ∷ s) = elim (next_back s) [ none ↦ some ([], c) | some (t, d) ↦ some (c ∷ t, d) ]

-- the multiplier that a last character stands for
unfoldable pub multiplier : ℕ → Option ℕ
multiplier c =
    let lower = to_ascii_lowercase c in
    if lower == b'b'
    then some 1_000_000_000
    else if lower == b'm'
    then some 1_000_000
    else if lower == b'k'
    then some 1_000
    else none

module _ {I : Type 0} (n : ParsableNumber I) where
  scaled : Text → Text → Option ℕ → Result LongError I
  scaled s digits none = n.from_str s
  scaled s digits (some mult) = do num ← n.from_str digits; n.checked_mul (n.from_u32 mult) num

  long_of_last : Text → Option (Text × ℕ) → Result LongError I
  unfolding scaled multiplier
  long_of_last s none = n.from_str s
  long_of_last s (some (digits, last)) = scaled s digits (multiplier last)

  pub parse_long : Text → Result LongError I
  unfolding long_of_last next_back
  parse_long text = let s = trim text in long_of_last s (next_back s)

pub next_back-append : (s : Text) (c : ℕ) → next_back (s ++ c ∷ []) ≡ some (s, c)
unfolding next_back
next_back-append [] c = refl
next_back-append (d ∷ s) c = rw (next_back-append s c)

digit-solid : (c : ℕ) → is_ascii_digit c ≡ true → is_whitespace c ≡ false
unfolding is_whitespace
digit-solid c h = ground arith

multiplier-solid : (c m : ℕ) → multiplier c ≡ some m → is_whitespace c ≡ false
unfolding is_whitespace multiplier
multiplier-solid c m h = ground arith

suffixed-IsTrimmed :
    (s : Text) (c m : ℕ) → s ≢ [] → AreDigits s → multiplier c ≡ some m → IsTrimmed (s ++ c ∷ [])
unfolding trim_end
suffixed-IsTrimmed [] c m n h k = absurd (n refl)
suffixed-IsTrimmed (d ∷ s) c m n h k =
    trim-solid d (s ++ c ∷ []) (digit-solid d h.0)
      (trim_end-solid (d ∷ s) c [] (multiplier-solid c m k) refl)

multiplier-pos : (c m : ℕ) → multiplier c ≡ some m → 1 ≤ m
unfolding multiplier
multiplier-pos c m h = ground arith

checked_mul-value :
    (v m : ℕ)
    → 1 ≤ m
    → (ok_or (if leb v u64_max then some v else none) invalid_number >>= λ num.
        parsable_u64.checked_mul (parsable_u64.from_u32 m) num)
      ≡ (if leb (m * v) u64_max
          then ok (m * v)
          else err (if leb v u64_max then out_of_range else invalid_number))
checked_mul-value v m h = let grows : v ≤ m * v = grind arith in ground arith

IsMagnitude-multiplier : (c m : ℕ) → IsMagnitude c m → multiplier c ≡ some m
unfolding multiplier
IsMagnitude-multiplier c m h = ground (arith, h)

-- Digits with a suffix k, m or b, of either case, are read as that many thousands, millions or
-- billions, if that is a u64, and are refused otherwise: nothing wraps around.
pub parse_long-u64 :
    (s : Text) (c m : ℕ)
    → s ≢ []
    → AreDigits s
    → IsMagnitude c m
    → parse_long parsable_u64 (s ++ c ∷ []) ≡ (
        if leb (m * value 0 s) u64_max
        then ok (m * value 0 s)
        else err (if leb (value 0 s) u64_max then out_of_range else invalid_number))
unfolding parse_long
parse_long-u64 s c m n h u =
    let k = IsMagnitude-multiplier c m u in
    rw (suffixed-IsTrimmed s c m n h k) (
      ap (long_of_last parsable_u64 (s ++ c ∷ [])) (next_back-append s c)
      ∙ ap (scaled parsable_u64 (s ++ c ∷ []) s) k
      ∙ rw (parse_u64-value s n h) (checked_mul-value (value 0 s) m (multiplier-pos c m k)))
