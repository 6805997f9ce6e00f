-- ===== src/Text/Digits.antt =====
-- `str::parse` for `u64` and `i64`, as the standard library documents it: an optional sign, one or
-- more decimal digits, and a value in range.
use Prim.Native.Nat.{◌+◌, ◌-◌, ◌*◌}
use cql_stress.Common.{
  ◌⊎◌, ℕ, ◌^◌, ◌≤◌, ◌≡◌, ◌≢◌, refl, true, [], ◌∷◌, Option, none, some, leb, ◌==◌, if◌then◌else◌,
  arith, All, ℤ, pos,
}
use cql_stress.Common.Int.{neg}
use cql_stress.Text.{Text, is_ascii_digit}

-- the number that digits spell behind `n`; `none` for another character, or above `max`
unfoldable pub scan_digits : ℕ → Text → ℕ → Option ℕ
scan_digits max [] n = some n
scan_digits max (c ∷ s) n =
    if is_ascii_digit c
    then (let m = n * 10 + (c - b'0') in
        let rest = scan_digits max s m in if leb m max then rest else none)
    else none

unfoldable pub parse_digits : ℕ → Text → Option ℕ
unfolding scan_digits
parse_digits max [] = none
parse_digits max (c ∷ s) = scan_digits max (c ∷ s) 0

abbrev pub u64_max : ℕ
u64_max = 2 ^ 64 - 1

-- `u64::from_str`
unfoldable pub parse_u64 : Text → Option ℕ
unfolding parse_digits
parse_u64 [] = none
parse_u64 (c ∷ s) = if c == b'+' then parse_digits u64_max s else parse_digits u64_max (c ∷ s)

negated : Option ℕ → Option ℤ
negated none = none
negated (some n) = some (neg (pos n))

non_negative : Option ℕ → Option ℤ
non_negative none = none
non_negative (some n) = some (pos n)

-- `i64::from_str`
unfoldable pub parse_i64 : Text → Option ℤ
unfolding parse_digits negated non_negative
parse_i64 [] = none
parse_i64 (c ∷ s) =
    if c == b'-'
    then negated (parse_digits (2 ^ 63) s)
    else if c == b'+'
    then non_negative (parse_digits (2 ^ 63 - 1) s)
    else non_negative (parse_digits (2 ^ 63 - 1) (c ∷ s))

abbrev pub AreDigits : Text → Type 0
AreDigits = All (λ c. is_ascii_digit c ≡ true)

-- the number that digits spell, with no bound
abbrev pub value : ℕ → Text → ℕ
value n [] = n
value n (c ∷ s) = value (n * 10 + (c - b'0')) s

pub le-value : (s : Text) (n : ℕ) → n ≤ value n s
le-value [] n = omega arith
le-value (c ∷ s) n = omega (arith, le-value s (n * 10 + (c - b'0')))

scan_digits-value :
    (max : ℕ) (s : Text) (n : ℕ)
    → AreDigits s
    → n ≤ max
    → scan_digits max s n ≡ (if leb (value n s) max then some (value n s) else none)
unfolding scan_digits
scan_digits-value max [] n h k = ground arith
scan_digits-value max (c ∷ s) n h k =
    ground (arith, scan_digits-value max s (n * 10 + (c - b'0')), le-value s (n * 10 + (c - b'0')))

pub parse_digits-value :
    (max : ℕ) (s : Text)
    → s ≢ []
    → AreDigits s
    → parse_digits max s ≡ (if leb (value 0 s) max then some (value 0 s) else none)
unfolding parse_digits
parse_digits-value max [] h k = absurd (h refl)
parse_digits-value max (c ∷ s) h k = scan_digits-value max (c ∷ s) 0 k (omega arith)

-- A text of digits is read as its value, if that is in range.
pub parse_u64-value :
    (s : Text)
    → s ≢ []
    → AreDigits s
    → parse_u64 s ≡ (if leb (value 0 s) u64_max then some (value 0 s) else none)
unfolding parse_u64
parse_u64-value [] h k = absurd (h refl)
parse_u64-value (c ∷ s) h k = ground (arith, parse_digits-value u64_max (c ∷ s) h k)

scan_digits-AreDigits :
    (max : ℕ) (s : Text) (n r : ℕ)
    → n ≤ max
    → scan_digits max s n ≡ some r
    → AreDigits s × (r ≡ value n s) × (r ≤ max)
unfolding scan_digits
scan_digits-AreDigits max [] n r k h = ground arith
scan_digits-AreDigits max (c ∷ s) n r k h =
    ground (arith, scan_digits-AreDigits max s (n * 10 + (c - b'0')) r)

-- What is read is the value of digits, and in range.
pub parse_digits-AreDigits :
    (max : ℕ) (s : Text) (r : ℕ)
    → parse_digits max s ≡ some r
    → AreDigits s × (r ≡ value 0 s) × (r ≤ max)
unfolding parse_digits
parse_digits-AreDigits max [] r h = cc
parse_digits-AreDigits max (c ∷ s) r h = scan_digits-AreDigits max (c ∷ s) 0 r (omega arith) h

-- what a suffix stands for: k a thousand, m a million, b a billion, in either case
abbrev pub IsMagnitude : ℕ → ℕ → Type 0
IsMagnitude c m =
    (((c ≡ b'k') ⊎ (c ≡ b'K')) × (m ≡ 1000))
    ⊎ ((((c ≡ b'm') ⊎ (c ≡ b'M')) × (m ≡ 1000000)) ⊎ (((c ≡ b'b') ⊎ (c ≡ b'B')) × (m ≡ 1000000000)))
