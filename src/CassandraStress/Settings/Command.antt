-- ===== src/CassandraStress/Settings/Command.antt =====
-- settings/command/common.rs: the parameters that the commands have in common. Reading a f64 is an
-- argument; a duration is in seconds.
pub mod Counter
use cql_stress.Common.{
  ℕ, ◌-◌, ◌^◌, ◌==◌, Bool, true, false, not, ◌&&◌, List, [], ◌∷◌, Option, none, some, and_then,
  Result, ok, err, ok_or, ◌>>=◌, if◌then◌else◌,
}
use cql_stress.Text.{Text, codes, starts_with}
use cql_stress.Text.Digits.{parse_digits}
use cql_stress.CassandraStress.JavaGenerate.Distributions.Factories.{DistributionFactory}
use cql_stress.CassandraStress.Settings.Levels.{
  Truncate, ConsistencyLevel, SerialConsistencyLevel, parse_truncate, parse_level,
  parse_serial_level,
}
use cql_stress.CassandraStress.Settings.Outcome.{OptionError, panicked, refusal, is_some, parsed}
use cql_stress.CassandraStress.Settings.Types.{
  are_digits, parse_whole, parse_flag, parse_count, parse_duration,
}
use cql_stress.CassandraStress.Settings.Params.{handle, Param, new_wrapped, parse_params}

-- the values of the parameters, of their types
pub data Value (F : Type 0) : Type 0 where
  fraction : F → Value F
  number : ℕ → Value F
  flag : Value F
  truncation : Truncate → Value F
  level : ConsistencyLevel → Value F
  serial_level : SerialConsistencyLevel → Value F
  distribution : DistributionFactory F → Value F

module _ {F : Type 0} where
  abbrev pub as_fraction : Value F → Option F
  as_fraction (fraction x) = some x
  as_fraction _ = none

  abbrev pub as_number : Value F → Option ℕ
  as_number (number n) = some n
  as_number _ = none

  abbrev pub as_truncation : Value F → Option Truncate
  as_truncation (truncation t) = some t
  as_truncation _ = none

  abbrev pub as_level : Value F → Option ConsistencyLevel
  as_level (level l) = some l
  as_level _ = none

  abbrev pub as_distribution : Value F → Option (DistributionFactory F)
  as_distribution (distribution d) = some d
  as_distribution _ = none

  abbrev pub as_serial_level : Value F → Option SerialConsistencyLevel
  as_serial_level (serial_level l) = some l
  as_serial_level _ = none

pub record Uncertainty (F : Type 0) : Type 0 where
  pub target_uncertainty : F
  pub min_uncertainty_measurements : ℕ
  pub max_uncertainty_measurements : ℕ

pub record CommonParams (F : Type 0) : Type 0 where
  pub uncertainty : Option (Uncertainty F)
  pub no_warmup : Bool
  pub truncate : Truncate
  pub consistency_level : ConsistencyLevel
  pub serial_consistency_level : SerialConsistencyLevel
  pub operation_count : Option ℕ
  pub duration : Option ℕ
  pub keysize : ℕ

-- `NonZeroU32::from_str` of the standard library
abbrev pub non_zero : ℕ → Option ℕ
non_zero n = if n == 0 then none else some n

unfoldable pub parse_non_zero_u32 : Text → Option ℕ
unfolding parse_digits
parse_non_zero_u32 [] = none
parse_non_zero_u32 (c ∷ s) =
    and_then (parse_digits (2 ^ 32 - 1) (if c == b'+' then s else c ∷ s)) non_zero

-- the three sets of parameters that go together; serial-cl= is twice in the first one
abbrev pub common_groups : List (List ℕ)
common_groups =
    (0 ∷ 1 ∷ 2 ∷ 3 ∷ 4 ∷ 5 ∷ 6 ∷ 6 ∷ 9 ∷ [])
    ∷ (7 ∷ 3 ∷ 4 ∷ 5 ∷ 6 ∷ 9 ∷ [])
    ∷ (8 ∷ 3 ∷ 4 ∷ 5 ∷ 6 ∷ 9 ∷ [])
    ∷ []

module _ {F : Type 0} (read_f64 : Text → Option F) (to_lowercase : Text → Text) where
  -- `UnitInterval::parse`: ^0\.[0-9]+$
  unfoldable pub parse_unit_interval : Text → Option F
  parse_unit_interval (c ∷ d ∷ s) =
      if c == b'0' && (d == b'.' && are_digits s) then read_f64 (c ∷ d ∷ s) else none
  parse_unit_interval _ = none

  abbrev pub reading : {A : Type 0} → (A → Value F) → (Text → Option A) → Text → Option (Value F)
  reading f read s = and_then (read s) (λ a. some (f a))

  -- `add_common_param_groups`, the parameters; `none` if it panics
  unfoldable pub prepare_common : Option (List (Param (Value F)))
  unfolding new_wrapped parse_unit_interval parse_whole parse_flag parse_truncate parse_level
      parse_serial_level parse_count parse_duration parse_non_zero_u32
  prepare_common =
      let param : Text → (Text → Option (Value F)) → Option Text → Bool → Option (Param (Value F)) =
        new_wrapped to_lowercase in
      let whole : Text → Option (Value F) = reading number (λ s. parsed (parse_whole s)) in
      and_then
        (param (codes "err<") (reading fraction parse_unit_interval) (some (codes "0.02")) false)
        (λ error. and_then (param (codes "n>") whole (some (codes "30")) false) (λ ngt.
          and_then (param (codes "n<") whole (some (codes "200")) false) (λ nlt.
            and_then
              (param (codes "no-warmup") (reading (λ _. flag) (λ s. parsed (parse_flag s))) none
                false)
              (λ no_warmup.
                and_then
                  (param (codes "truncate=") (reading truncation parse_truncate)
                    (some (codes "never")) false)
                  (λ truncate.
                    and_then
                      (param (codes "cl=") (reading level parse_level) (some (codes "local_one"))
                        false)
                      (λ cl.
                        and_then
                          (param (codes "serial-cl=") (reading serial_level parse_serial_level)
                            (some (codes "serial")) false)
                          (λ serial_cl.
                            and_then
                              (param (codes "n=") (reading number (λ s. parsed (parse_count s)))
                                none true)
                              (λ n.
                                and_then
                                  (param (codes "duration=")
                                    (reading number (λ s. parsed (parse_duration s))) none true)
                                  (λ duration.
                                    and_then
                                      (param (codes "keysize=") (reading number parse_non_zero_u32)
                                        (some (codes "10")) false)
                                      (λ keysize. some (
                                        error ∷ ngt ∷ nlt ∷ no_warmup ∷ truncate ∷ cl ∷ serial_cl
                                        ∷ n ∷ duration ∷ keysize ∷ [])))))))))))

  unfoldable pub uncertainty_of : Option F → Option ℕ → Option ℕ → Option (Uncertainty F)
  uncertainty_of (some error) (some ngt) (some nlt) = some (record {
    target_uncertainty = error;
    min_uncertainty_measurements = ngt;
    max_uncertainty_measurements = nlt;
  })
  uncertainty_of _ _ _ = none

  -- `get` of a handle, as a value of its type
  abbrev pub get_as : {A : Type 0} → List (Param (Value F)) → ℕ → (Value F → Option A) → Option A
  unfolding handle
  get_as ps i project = and_then (handle to_lowercase ps i) project

  -- `parse_with_handles`; `none` if it panics
  unfoldable pub parse_with_handles : List (Param (Value F)) → Option (CommonParams F)
  unfolding handle uncertainty_of
  parse_with_handles ps = and_then (get_as ps 4 as_truncation) (λ truncate.
      and_then (get_as ps 5 as_level) (λ cl. and_then (get_as ps 6 as_serial_level) (λ serial_cl.
        and_then (get_as ps 9 as_number) (λ keysize. some (record {
          uncertainty =
              uncertainty_of (get_as ps 0 as_fraction) (get_as ps 1 as_number)
                (get_as ps 2 as_number);
          no_warmup = is_some (handle to_lowercase ps 3);
          truncate = truncate;
          consistency_level = cl;
          serial_consistency_level = serial_cl;
          operation_count = get_as ps 7 as_number;
          duration = get_as ps 8 as_number;
          keysize = keysize;
        })))))

  -- `parse_common_params`, of the arguments of the command
  unfoldable pub parse_common_params : List Text → Result OptionError (CommonParams F)
  unfolding prepare_common parse_with_handles parse_params
  parse_common_params args = do
    ps ← ok_or prepare_common panicked
    ps' ← refusal (parse_params to_lowercase common_groups ps args)
    ok_or (parse_with_handles ps') panicked
