-- ===== src/CassandraStress/JavaGenerate.antt =====
-- java_generate/mod.rs: java.util.Random, and what the generators of values are built from. The
-- crate java_random is an argument, and so are the operations on f64.
pub mod FasterRandom
pub mod CqlValue
pub mod Values
pub mod Distributions
use Prim.Native.Nat.{bit_xor}
use cql_stress.Common.{
  ℕ, zero, suc, ◌*◌, ◌/◌, ◌^◌, Bool, not, ◌&&◌, Option, none, some, if◌then◌else◌, ℤ, pos, negsuc,
  ◌≡◌,
}
use cql_stress.Common.Int.{as_i64, as_u64}

-- `^`, `<<`, `>>` and `!` on i64; `>>` keeps the sign
unfoldable pub xor_i64 : ℤ → ℤ → ℤ
xor_i64 a b = as_i64 (bit_xor (as_u64 a) (as_u64 b))

unfoldable pub shl_i64 : ℤ → ℕ → ℤ
shl_i64 a k = as_i64 (as_u64 a * 2 ^ k)

unfoldable pub shr_i64 : ℤ → ℕ → ℤ
shr_i64 (pos n) k = pos (n / 2 ^ k)
shr_i64 (negsuc n) k = negsuc (n / 2 ^ k)

abbrev pub not_i64 : ℤ → ℤ
not_i64 (pos n) = negsuc n
not_i64 (negsuc n) = pos n

-- `java_random::Random`: `R` is its state and `F` is f64
pub record JavaRandom (R F : Type 0) : Type 0 where
  pub with_seed : ℕ → R
  pub seeded : R → ℕ → R
  pub next_long : R → ℤ × R
  pub next_double : R → F × R

-- What the program relies on: `set_seed` forgets what was drawn before.
abbrev pub ForgetsOnSeed : {R F : Type 0} → JavaRandom R F → Type 0
ForgetsOnSeed {R} java = (r : R) (seed : ℕ) → java.seeded r seed ≡ java.with_seed seed

-- f64; `to_i64` is the cast `as i64`, `sqrt` and `log` are those of rust_strictmath
pub record Floats (F : Type 0) : Type 0 where
  pub of_i64 : ℤ → F
  pub to_i64 : F → ℤ
  pub add : F → F → F
  pub sub : F → F → F
  pub mul : F → F → F
  pub div : F → F → F
  pub lt : F → F → Bool
  pub eq : F → F → Bool
  pub sqrt : F → F
  pub log : F → F

pub record Random (R F : Type 0) : Type 0 where
  pub delegate : R
  pub next_next_gaussian : Option F

module _ {R F : Type 0} (java : JavaRandom R F) where
  unfoldable pub random_with_seed : ℕ → Random R F
  random_with_seed seed = record { delegate = java.with_seed seed; next_next_gaussian = none }

  unfoldable pub set_random_seed : Random R F → ℕ → Random R F
  set_random_seed r seed = record {
    delegate = java.seeded r.delegate seed;
    next_next_gaussian = none;
  }

  unfoldable pub random_long : Random R F → ℤ × Random R F
  random_long r =
      let (n, delegate) = java.next_long r.delegate in (n, record r { delegate = delegate })

  unfoldable pub random_double : Random R F → F × Random R F
  random_double r =
      let (x, delegate) = java.next_double r.delegate in (x, record r { delegate = delegate })

  pub set_random_seed_lem :
      ForgetsOnSeed java
      → (r : Random R F) (seed : ℕ) → set_random_seed r seed ≡ random_with_seed seed
  unfolding set_random_seed random_with_seed
  set_random_seed_lem law r seed =
      λ i. record { delegate = law r.delegate seed i; next_next_gaussian = none }

  -- A pair of draws for `next_gaussian`: v1, v2 and s. It is wanted if 0 < s < 1.
  module _ (float : Floats F) where
    abbrev draw_double : R → F × R
    draw_double r =
        let (x, r') = java.next_double r in
        (float.sub (float.mul (float.of_i64 (pos 2)) x) (float.of_i64 (pos 1)), r')

    unfoldable pub draw_pair : R → F × F × F × R
    draw_pair r =
        let (v1, r1) = draw_double r in
        let (v2, r2) = draw_double r1 in (v1, v2, float.add (float.mul v1 v1) (float.mul v2 v2), r2)

    unfoldable pub is_wanted : F → Bool
    is_wanted s = not (float.eq s (float.of_i64 (pos 0))) && float.lt s (float.of_i64 (pos 1))

    -- the loop; `none` is a lack of fuel
    unfoldable pub draw_until : ℕ → F × F × F × R → Option (F × F × F × R)
    unfolding draw_pair is_wanted
    draw_until zero (v1, v2, s, r) = if is_wanted s then some (v1, v2, s, r) else none
    draw_until (suc fuel) (v1, v2, s, r) =
        let rest = draw_until fuel (draw_pair r) in
        if is_wanted s then some (v1, v2, s, r) else rest

    unfoldable pub next_gaussian : ℕ → Random R F → Option (F × Random R F)
    unfolding draw_pair draw_until
    next_gaussian fuel r = elim (r.next_next_gaussian) [
      | some value ↦ some (value, record r { next_next_gaussian = none })
      | none ↦ elim (draw_until fuel (draw_pair r.delegate)) [
        | none ↦ none
        | some (v1, v2, s, delegate) ↦
            let multiplier =
              float.sqrt (float.div (float.mul (float.of_i64 (negsuc 1)) (float.log s)) s) in
            some (
              float.mul v1 multiplier,
              record { delegate = delegate; next_next_gaussian = some (float.mul v2 multiplier) },
            )
      ]
    ]
