-- ===== src/CassandraStress/Settings/PopulationOption.antt =====
-- settings/option/population.rs: the option -pop. The values of its parameters are factories of
-- distributions. Reading a f64 and `to_lowercase` are arguments.
pub mod Sequence
pub mod Answers
use cql_stress.Common.{
  ℕ, false, List, [], ◌∷◌, ◌++◌, Option, none, some, and_then, Result, ok, err, ok_or, ◌>>=◌,
}
use cql_stress.Common.Int.{as_i64}
use cql_stress.Text.{Text, codes}
use cql_stress.CassandraStress.JavaGenerate.{Floats}
use cql_stress.CassandraStress.JavaGenerate.Distributions.Factories.{
  DistributionFactory, new_seq_factory, parse_distribution,
}
use cql_stress.CassandraStress.Settings.Outcome.{OptionError, panicked, refusal, parsed}
use cql_stress.CassandraStress.Settings.Types.{parse_count, parse_range}
use cql_stress.CassandraStress.Settings.Params.{handle, Param, new_wrapped, parse_params}

-- `parser.group`: the first cell is seq=, the second one dist=
abbrev pub population_groups : List (List ℕ)
population_groups = (0 ∷ []) ∷ (1 ∷ []) ∷ []

module _ {F : Type 0} (float : Floats F) (read_f64 : Text → Option F)
    (to_lowercase : Text → Text) where
  -- `BashFriendlySeqDistribution::parse`; `none` is an error
  unfoldable pub parse_bash_friendly : Text → Option (DistributionFactory F)
  unfolding parse_range parse_count new_seq_factory
  parse_bash_friendly s =
      and_then (parsed (parse_range parse_count s))
        (λ (from, to). parsed (new_seq_factory float read_f64 (as_i64 from) (as_i64 to)))

  -- `prepare_parser`; `none` if it panics
  unfoldable pub prepare_population : Text → Option (List (Param (DistributionFactory F)))
  unfolding new_wrapped parse_bash_friendly parse_distribution
  prepare_population operation_count =
      and_then
        (new_wrapped to_lowercase (codes "seq=") parse_bash_friendly
          (some (codes "1.." ++ operation_count)) false)
        (λ seq.
          and_then
            (new_wrapped to_lowercase (codes "dist=")
              (λ s. parsed (parse_distribution float read_f64 to_lowercase s)) none false)
            (λ dist. some (seq ∷ dist ∷ [])))

  -- `PopulationOption::from_handles`; `none` if it panics
  unfoldable pub population_from_handles :
      List (Param (DistributionFactory F)) → Option (DistributionFactory F)
  unfolding handle
  population_from_handles ps = elim (handle to_lowercase ps 0) [
    | some dist ↦ some dist
    | none ↦ handle to_lowercase ps 1
  ]

  -- `PopulationOption::parse`
  unfoldable pub parse_population_option :
      Text → List Text → Result OptionError (DistributionFactory F)
  unfolding prepare_population population_from_handles parse_params
  parse_population_option operation_count params = do
    ps ← ok_or (prepare_population operation_count) panicked
    ps' ← refusal (parse_params to_lowercase population_groups ps params)
    ok_or (population_from_handles ps') panicked
