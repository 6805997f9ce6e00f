-- ===== src/CassandraStress/Settings/Command/Counter.antt =====
-- settings/command/counter.rs: the parameters of the command counter_write.
use cql_stress.Common.{
  ℕ, false, List, [], ◌∷◌, ◌++◌, Option, some, and_then, Result, ok_or, ◌>>=◌, map,
}
use cql_stress.Text.{Text, codes}
use cql_stress.CassandraStress.JavaGenerate.{Floats}
use cql_stress.CassandraStress.JavaGenerate.Distributions.Factories.{
  DistributionFactory, parse_distribution,
}
use cql_stress.CassandraStress.Settings.Outcome.{OptionError, panicked, refusal, parsed}
use cql_stress.CassandraStress.Settings.Params.{Param, new_wrapped, parse_params}
use cql_stress.CassandraStress.Settings.Command.{
  Value, distribution, as_distribution, CommonParams, common_groups, reading, prepare_common,
  get_as, parse_with_handles,
}

pub record CounterCommand (F : Type 0) : Type 0 where
  pub common : CommonParams F
  pub add_distribution : DistributionFactory F

-- the cell of add= is in every group
abbrev pub counter_groups : List (List ℕ)
counter_groups = map (λ group. group ++ (10 ∷ [])) common_groups

module _ {F : Type 0} (float : Floats F) (read_f64 : Text → Option F)
    (to_lowercase : Text → Text) where
  -- `add_counter_param_groups`, the parameters; `none` if it panics
  unfoldable pub prepare_counter : Option (List (Param (Value F)))
  unfolding prepare_common new_wrapped parse_distribution
  prepare_counter =
      let read : Text → Option (Value F) =
        reading read_f64 to_lowercase distribution
          (λ s. parsed (parse_distribution float read_f64 to_lowercase s)) in
      and_then (prepare_common read_f64 to_lowercase) (λ ps.
        and_then (new_wrapped to_lowercase (codes "add=") read (some (codes "fixed(1)")) false)
          (λ add. some (ps ++ (add ∷ []))))

  unfoldable pub counter_from_handles : List (Param (Value F)) → Option (CounterCommand F)
  unfolding parse_with_handles
  counter_from_handles ps = and_then (parse_with_handles read_f64 to_lowercase ps) (λ common.
      and_then (get_as read_f64 to_lowercase ps 10 as_distribution)
        (λ add. some (record { common = common; add_distribution = add })))

  -- `CounterParams::parse`, of the arguments of the command
  unfoldable pub parse_counter : List Text → Result OptionError (CounterCommand F)
  unfolding prepare_counter counter_from_handles parse_params
  parse_counter args = do
    ps ← ok_or prepare_counter panicked
    ps' ← refusal (parse_params to_lowercase counter_groups ps args)
    ok_or (counter_from_handles ps') panicked
