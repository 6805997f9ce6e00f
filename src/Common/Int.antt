-- ===== src/Common/Int.antt =====
-- `i64` and `u64`. An i64 is an integer; `as` casts and wrapping sums are written out.
use Prim.Native.Nat.{ℕ, suc, ◌+◌, ◌-◌, ◌*◌, ◌/◌, ◌%◌, ◌^◌, ◌≤◌, ◌<◌}
use mathlib.Core.Path.{◌≡◌}
use mathlib.Core.Bool.{Bool, true, ◌&&◌}
use native.Mathlib.Omega.{arith}
use cql_stress.Common.Tests.{ltb, leb, ◌==◌, if◌then◌else◌}

-- `negsuc n` is -(n + 1).
pub data ℤ : Type 0 where
  pos : ℕ → ℤ
  negsuc : ℕ → ℤ

abbrev pub pos_part : ℤ → ℕ
pos_part (pos n) = n
pos_part (negsuc n) = 0

abbrev pub neg_part : ℤ → ℕ
neg_part (pos n) = 0
neg_part (negsuc n) = suc n

-- a - b, as an integer.
abbrev pub sub_ℕ : ℕ → ℕ → ℤ
sub_ℕ a b = if leb b a then pos (a - b) else negsuc (b - a - 1)

infixl 65 ◌+ℤ◌ ◌-ℤ◌
infixl 70 ◌*ℤ◌
infix 50 ◌≤ℤ◌
unfoldable pub ◌+ℤ◌ : ℤ → ℤ → ℤ
a +ℤ b = sub_ℕ (pos_part a + pos_part b) (neg_part a + neg_part b)

unfoldable pub ◌-ℤ◌ : ℤ → ℤ → ℤ
a -ℤ b = sub_ℕ (pos_part a + neg_part b) (neg_part a + pos_part b)

unfoldable pub ◌*ℤ◌ : ℤ → ℤ → ℤ
a *ℤ b =
    sub_ℕ (pos_part a * pos_part b + neg_part a * neg_part b)
      (pos_part a * neg_part b + neg_part a * pos_part b)

abbrev pub neg : ℤ → ℤ
neg a = sub_ℕ (neg_part a) (pos_part a)

abbrev pub ◌≤ℤ◌ : ℤ → ℤ → Type 0
a ≤ℤ b = pos_part a + neg_part b ≤ pos_part b + neg_part a

abbrev pub leb_ℤ : ℤ → ℤ → Bool
leb_ℤ a b = leb (pos_part a + neg_part b) (pos_part b + neg_part a)

abbrev pub u64_mod : ℕ
u64_mod = 2 ^ 64

abbrev pub i64_min : ℤ
i64_min = negsuc (2 ^ 63 - 1)

abbrev pub i64_max : ℤ
i64_max = pos (2 ^ 63 - 1)

abbrev pub IsI64 : ℤ → Type 0
IsI64 a = (i64_min ≤ℤ a) × (a ≤ℤ i64_max)

-- `n as i64` for a `u64`, a `usize` or the low 64 bits of a `u128`
unfoldable pub as_i64 : ℕ → ℤ
as_i64 n = let w = n % u64_mod in if ltb w (2 ^ 63) then pos w else negsuc (u64_mod - 1 - w)

-- `a as u64`: the bit pattern of two's complement
unfoldable pub as_u64 : ℤ → ℕ
as_u64 (pos n) = n % u64_mod
as_u64 (negsuc n) = u64_mod - 1 - n % u64_mod

-- `+` and `-` on i64 in a release build, which wrap around
unfoldable pub add_i64 : ℤ → ℤ → ℤ
unfolding as_i64 as_u64
add_i64 a b = as_i64 (as_u64 a + as_u64 b)

unfoldable pub neg_i64 : ℤ → ℤ
unfolding as_i64 as_u64
neg_i64 a = as_i64 (u64_mod - as_u64 a)

unfoldable pub mul_i64 : ℤ → ℤ → ℤ
unfolding as_i64 as_u64
mul_i64 a b = as_i64 (as_u64 a * as_u64 b)

-- `/` on i64, which rounds towards 0; the divisor is not 0
unfoldable pub quot_i64 : ℤ → ℤ → ℤ
quot_i64 (pos a) (pos b) = pos (a / b)
quot_i64 (pos a) (negsuc b) = neg (pos (a / suc b))
quot_i64 (negsuc a) (pos b) = neg (pos (suc a / b))
quot_i64 (negsuc a) (negsuc b) = pos (suc a / suc b)

pub as_i64-IsI64 : (n : ℕ) → IsI64 (as_i64 n)
unfolding as_i64
as_i64-IsI64 n = ground arith

pub as_i64-small : (n : ℕ) → n < 2 ^ 63 → as_i64 n ≡ pos n
unfolding as_i64
as_i64-small n h = ground arith

pub as_i64-as_u64 : (a : ℤ) → IsI64 a → as_i64 (as_u64 a) ≡ a
unfolding as_i64 as_u64
as_i64-as_u64 (pos n) h = ground arith
as_i64-as_u64 (negsuc n) h = ground arith

pub as_u64-as_i64 : (n : ℕ) → n < u64_mod → as_u64 (as_i64 n) ≡ n
unfolding as_i64 as_u64
as_u64-as_i64 n h = ground arith

-- a wrapping sum is the sum, if that is an i64
pub add_i64_lem : (a b : ℤ) → IsI64 a → IsI64 b → IsI64 (a +ℤ b) → add_i64 a b ≡ a +ℤ b
unfolding add_i64 ◌+ℤ◌
add_i64_lem (pos a) (pos b) ha hb h = ground arith
add_i64_lem (pos a) (negsuc b) ha hb h = ground arith
add_i64_lem (negsuc a) (pos b) ha hb h = ground arith
add_i64_lem (negsuc a) (negsuc b) ha hb h = ground arith

pub eq_of_parts : (a b : ℤ) → pos_part a + neg_part b ≡ pos_part b + neg_part a → a ≡ b
eq_of_parts a b h = ground arith

abbrev pub eqb_ℤ : ℤ → ℤ → Bool
eqb_ℤ a b = pos_part a == pos_part b && neg_part a == neg_part b

pub eqb_ℤ→≡ : (a b : ℤ) → eqb_ℤ a b ≡ true → a ≡ b
eqb_ℤ→≡ a b h = ground arith

pub eqb_ℤ_refl : (a : ℤ) → eqb_ℤ a a ≡ true
eqb_ℤ_refl a = ground arith
