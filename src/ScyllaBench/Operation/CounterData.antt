-- ===== src/ScyllaBench/Operation/CounterData.antt =====
-- `validate_counter_row_data` of operation/mod.rs.
pub mod Updates
use cql_stress.Common.{
  Bool, not, ◌||◌, ◌&&◌, Option, none, some, Result, ok, err, ensure, ok_or, ◌>>=◌, if◌then◌else◌,
  ℤ, pos, negsuc,
}
use cql_stress.Common.Int.{eqb_ℤ, add_i64, mul_i64, quot_i64, i64_min}

pub data CounterError : Type 0 where
  corrupt_counter : CounterError
  -- the panic of a division that overflows
  division_panics : CounterError

pub record Counters : Type 0 where
  pub c1 : ℤ
  pub c2 : ℤ
  pub c3 : ℤ
  pub c4 : ℤ
  pub c5 : ℤ

-- `a / b` for a divisor that is not 0; `none` is the panic of i64::MIN / -1
unfoldable pub div_i64 : ℤ → ℤ → Option ℤ
unfolding quot_i64
div_i64 a b = if eqb_ℤ a i64_min && eqb_ℤ b (negsuc 0) then none else some (quot_i64 a b)

unfoldable pub update_num : ℤ → Counters → Option ℤ
unfolding div_i64
update_num ck c = if eqb_ℤ ck (pos 0) then some c.c2 else div_i64 c.c1 ck

unfoldable pub is_accepted : ℤ → Counters → ℤ → Bool
is_accepted ck c n =
    not (eqb_ℤ c.c1 (mul_i64 ck n))
    || (not (eqb_ℤ c.c2 (add_i64 c.c1 n))
        || (not (eqb_ℤ c.c3 (add_i64 c.c2 n))
            || (not (eqb_ℤ c.c4 (add_i64 c.c3 n)) || not (eqb_ℤ c.c5 (add_i64 c.c4 n)))))

unfoldable pub validate_counter_row_data : ℤ → Counters → Result CounterError (Unit {0})
unfolding update_num is_accepted
validate_counter_row_data ck c = do
  n ← ok_or (update_num ck c) division_panics
  ensure (is_accepted ck c n) corrupt_counter
