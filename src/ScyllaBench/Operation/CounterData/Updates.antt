-- ===== src/ScyllaBench/Operation/CounterData/Updates.antt =====
-- The counters that updates make, and what the validation says of them.
use cql_stress.Common.{◌≡◌, ◌≢◌, Bool, not, ok, err, ℤ, pos, negsuc, ◌⊎◌}
use cql_stress.Common.Int.{eqb_ℤ, add_i64, mul_i64, quot_i64, i64_min, IsI64}
use cql_stress.ScyllaBench.Operation.CounterData.{
  Counters, corrupt_counter, division_panics, validate_counter_row_data,
}

-- The product of `ck` and `n` does not overflow: its division gives `n` back.
abbrev pub IsExact : ℤ → ℤ → ℤ → Type 0
IsExact ck n product = ((ck ≡ pos 0) × IsI64 n) ⊎ ((ck ≢ pos 0) × (quot_i64 product ck ≡ n))

-- each counter is made from the one before it
pub record AreMade (ck n : ℤ) (c : Counters) : Type 0 where
  pub first : c.c1 ≡ mul_i64 ck n
  pub second : c.c2 ≡ add_i64 c.c1 n
  pub third : c.c3 ≡ add_i64 c.c2 n
  pub fourth : c.c4 ≡ add_i64 c.c3 n
  pub fifth : c.c5 ≡ add_i64 c.c4 n

-- The counters of a row that was updated some number of times.
abbrev pub AreUpdated : ℤ → Counters → Type 0
AreUpdated ck c = (n : ℤ) × AreMade ck n c × IsExact ck n c.c1

abbrev differ : ℤ → ℤ → Bool
differ a b = not (eqb_ℤ a b)

-- the three answers
abbrev pub Answers : ℤ → Counters → Type 0
Answers ck c =
    ((c.c1 ≡ i64_min) × (ck ≡ negsuc 0) × (validate_counter_row_data ck c ≡ err division_panics))
    ⊎ ((AreUpdated ck c × (validate_counter_row_data ck c ≡ err corrupt_counter))
        ⊎ ((¬ AreUpdated ck c) × (validate_counter_row_data ck c ≡ ok tt)))
