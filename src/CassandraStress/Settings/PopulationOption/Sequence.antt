-- ===== src/CassandraStress/Settings/PopulationOption/Sequence.antt =====
-- The default of seq=: the sequence from 1 to the operation count.
use cql_stress.Common.{
  ℕ, ◌≤◌, ◌≡◌, ◌≢◌, refl, ap, ◌∙◌, Bool, true, false, [], ◌++◌, Option, none, some, and_then, ok,
  ensure, ◌>>◌, if◌then◌else◌, arith, pos, ltb, ◌&&◌, ◌^◌,
}
use cql_stress.Common.Int.{as_i64, as_i64-small}
use cql_stress.Text.{Text, codes}
use cql_stress.Text.Digits.{AreDigits, value, u64_max}
use cql_stress.Text.Split.{split_once_twice-append}
use cql_stress.CassandraStress.Sequence.{lt_ℤ}
use cql_stress.CassandraStress.JavaGenerate.{Floats}
use cql_stress.CassandraStress.JavaGenerate.Distributions.Factories.{
  DistributionFactory, seq_factory, new_seq_factory,
}
use cql_stress.CassandraStress.Settings.Outcome.{parsed}
use cql_stress.CassandraStress.Settings.Types.{parse_count, range_at_dots, parse_range}
use cql_stress.CassandraStress.Settings.Types.Counts.{parse_count-digits}
use cql_stress.CassandraStress.Settings.PopulationOption.{parse_bash_friendly}

-- an i64 above 1
abbrev pub above_one : ℕ → Bool
above_one n = ltb 1 n && ltb n (2 ^ 63)

one-AreDigits : AreDigits (codes "1")
one-AreDigits = (refl, tt)

module _ {F : Type 0} (float : Floats F) (read_f64 : Text → Option F)
    (to_lowercase : Text → Text) where
  -- the sequence from 1 to a count, if it is one
  abbrev pub up_to : ℕ → Option (DistributionFactory F)
  up_to n = if lt_ℤ (pos 1) (as_i64 n) then some (seq_factory (pos 1) (as_i64 n)) else none

  if_ensured :
      {E A : Type 0} (test : Bool) (e : E) (a : A)
      → parsed (ensure test e >> ok a) ≡ (if test then some a else none)
  if_ensured true e a = refl
  if_ensured false e a = refl

  new_seq_factory-up_to :
      (n : ℕ) → parsed (new_seq_factory float read_f64 (as_i64 1) (as_i64 n)) ≡ up_to n
  unfolding new_seq_factory
  new_seq_factory-up_to n =
      rw (as_i64-small 1 (omega arith)) (if_ensured (lt_ℤ (pos 1) (as_i64 n)) _ _)

  range-up_to :
      (s : Text)
      → s ≢ []
      → AreDigits s
      → value 0 s ≤ u64_max
      → parse_range parse_count (codes "1.." ++ s) ≡ ok (1, value 0 s)
  unfolding parse_range range_at_dots
  range-up_to s n h k =
      ap (range_at_dots parse_count) (split_once_twice-append b'.' (codes "1") s refl)
      ∙ rw
          (
            parse_count-digits (codes "1") (λ e. cc) one-AreDigits (ground arith),
            parse_count-digits s n h k,
          )
          refl

  pub parse_bash_friendly-up_to :
      (s : Text)
      → s ≢ []
      → AreDigits s
      → value 0 s ≤ u64_max
      → parse_bash_friendly float read_f64 to_lowercase (codes "1.." ++ s) ≡ up_to (value 0 s)
  unfolding parse_bash_friendly
  parse_bash_friendly-up_to s n h k =
      ap
        (λ m.
          and_then (parsed m)
            (λ (from, to). parsed (new_seq_factory float read_f64 (as_i64 from) (as_i64 to))))
        (range-up_to s n h k)
      ∙ new_seq_factory-up_to (value 0 s)

  pub up_to-above_one :
      (n : ℕ)
      → n ≤ u64_max
      → up_to n ≡ (if above_one n then some (seq_factory (pos 1) (as_i64 n)) else none)
  unfolding as_i64
  up_to-above_one n k = ground (arith, k)
