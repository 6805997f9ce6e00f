-- ===== src/CassandraStress/JavaGenerate/Distributions/Factories.antt =====
-- The factories of distributions, their descriptions (java_generate/distribution) and the parameter
-- that is one (settings/param/types.rs). Reading a f64 is an argument.
use cql_stress.Common.{
  ℕ, not, List, [], ◌∷◌, Option, none, some, Result, ok, err, ok_or, ensure, ◌>>◌, ◌>>=◌,
  if◌then◌else◌, ◌||◌, ℤ, pos,
}
use cql_stress.Common.Int.{add_i64, neg_i64, eqb_ℤ}
use cql_stress.Text.{Text, codes, ◌is◌}
use cql_stress.Text.Digits.{parse_i64}
use cql_stress.Distribution.{
  Description, DescriptionError, classic, parse_description, check_argument_count,
  check_minimum_argument_count,
}
use cql_stress.CassandraStress.Sequence.{SeqDistribution, FixedDistribution, new_seq, lt_ℤ}
use cql_stress.CassandraStress.JavaGenerate.{JavaRandom, Floats}
use cql_stress.CassandraStress.JavaGenerate.Distributions.{
  DistributionError, bounds_not_in_order, UniformDistribution, NormalDistribution, new_uniform,
  new_normal, verify_args,
}

pub data DistributionFactory (F : Type 0) : Type 0 where
  fixed_factory : ℤ → DistributionFactory F
  seq_factory : ℤ → ℤ → DistributionFactory F
  uniform_factory : F → F → DistributionFactory F
  normal_factory : ℤ → ℤ → F → F → DistributionFactory F

pub data AnyDistribution (R F : Type 0) : Type 0 where
  any_fixed : FixedDistribution → AnyDistribution R F
  any_seq : SeqDistribution → AnyDistribution R F
  any_uniform : UniformDistribution R F → AnyDistribution R F
  any_normal : NormalDistribution R F → AnyDistribution R F

pub data FactoryError : Type 0 where
  description : DescriptionError → FactoryError
  distribution : DistributionError → FactoryError
  not_i64_number not_f64_number invalid_arguments_count inverted_distribution : FactoryError
  invalid_distribution_name : FactoryError

-- an error of another kind
abbrev pub map_err : {E A : Type 0} → (E → FactoryError) → Result E A → Result FactoryError A
map_err f (ok a) = ok a
map_err f (err e) = err (f e)

-- `desc.args[i]` is checked to be there: the other cases of a list of arguments do not come up.
abbrev pub i64_arg : Text → Result FactoryError ℤ
i64_arg s = ok_or (parse_i64 s) not_i64_number

module _ {F : Type 0} (float : Floats F) (read_f64 : Text → Option F) where
  unfoldable pub new_seq_factory : ℤ → ℤ → Result DistributionError (DistributionFactory F)
  new_seq_factory min max = do ensure (lt_ℤ min max) bounds_not_in_order; ok (seq_factory min max)

  unfoldable pub new_uniform_factory : F → F → Result DistributionError (DistributionFactory F)
  new_uniform_factory min max = do
    ensure (float.lt min max) bounds_not_in_order
    ok (uniform_factory min max)

  unfoldable pub fixed_of_args : List Text → Result FactoryError (DistributionFactory F)
  fixed_of_args [] = err invalid_arguments_count
  fixed_of_args (value ∷ rest) = do v ← i64_arg value; ok (fixed_factory v)

  unfoldable pub parse_fixed : Description → Result FactoryError (DistributionFactory F)
  unfolding fixed_of_args
  parse_fixed desc = do map_err description (check_argument_count desc 1); fixed_of_args desc.args

  unfoldable pub seq_of_args : List Text → Result FactoryError (DistributionFactory F)
  unfolding new_seq_factory
  seq_of_args (first ∷ second ∷ rest) = do
    min ← i64_arg first
    max ← i64_arg second
    map_err distribution (new_seq_factory min max)
  seq_of_args _ = err invalid_arguments_count

  unfoldable pub parse_seq : Description → Result FactoryError (DistributionFactory F)
  unfolding seq_of_args
  parse_seq desc = do map_err description (check_argument_count desc 2); seq_of_args desc.args

  unfoldable pub uniform_of_args : List Text → Result FactoryError (DistributionFactory F)
  unfolding new_uniform_factory
  uniform_of_args (first ∷ second ∷ rest) = do
    min ← i64_arg first
    max ← i64_arg second
    (if eqb_ℤ min max
        then ok (fixed_factory min)
        else map_err distribution (new_uniform_factory (float.of_i64 min) (float.of_i64 max)))
  uniform_of_args _ = err invalid_arguments_count

  unfoldable pub parse_uniform : Description → Result FactoryError (DistributionFactory F)
  unfolding uniform_of_args
  parse_uniform desc = do
    map_err description (check_argument_count desc 2)
    uniform_of_args desc.args

  unfoldable pub new_normal_factory :
      ℤ → ℤ → F → F → Result DistributionError (DistributionFactory F)
  new_normal_factory min max mean standard_deviation = do
    verify_args float min max standard_deviation
    ok (normal_factory min max mean standard_deviation)

  abbrev pub f64_arg : Text → Result FactoryError F
  f64_arg s = ok_or (read_f64 s) not_f64_number

  -- the mean and the deviation of a range, with the deviations from its middle to its edge
  unfoldable pub mean_and_deviation : ℤ → ℤ → F → F × F
  mean_and_deviation min max stdevs_to_edge =
      let two = float.of_i64 (pos 2) in
      (
        float.div (float.of_i64 (add_i64 min max)) two,
        float.div (float.div (float.of_i64 (add_i64 max (neg_i64 min))) two) stdevs_to_edge,
      )

  unfoldable pub normal_parameters : ℤ → ℤ → List Text → Result FactoryError (F × F)
  unfolding mean_and_deviation
  normal_parameters min max [] = ok (mean_and_deviation min max (float.of_i64 (pos 3)))
  normal_parameters min max (stdvrng ∷ []) = do
    edge ← f64_arg stdvrng
    ok (mean_and_deviation min max edge)
  normal_parameters min max (first ∷ second ∷ []) = do
    mean ← f64_arg first
    stdev ← f64_arg second
    ok (mean, stdev)
  normal_parameters min max (first ∷ second ∷ third ∷ rest) = err invalid_arguments_count

  unfoldable pub normal_of_args : List Text → Result FactoryError (DistributionFactory F)
  unfolding normal_parameters new_normal_factory
  normal_of_args (first ∷ second ∷ rest) = do
    min ← i64_arg first
    max ← i64_arg second
    parameters ← normal_parameters min max rest
    map_err distribution (new_normal_factory min max parameters.0 parameters.1)
  normal_of_args _ = err invalid_arguments_count

  unfoldable pub parse_normal : Description → Result FactoryError (DistributionFactory F)
  unfolding normal_of_args
  parse_normal desc = do
    map_err description (check_minimum_argument_count desc 2)
    normal_of_args desc.args

  unfoldable pub parse_named : Description → Result FactoryError (DistributionFactory F)
  unfolding parse_fixed parse_seq parse_uniform parse_normal
  parse_named desc =
      if desc.name is codes "fixed"
      then parse_fixed desc
      else if desc.name is codes "seq"
      then parse_seq desc
      else if desc.name is codes "uniform"
      then parse_uniform desc
      else if desc.name is codes "gaussian"
          || (desc.name is codes "gauss"
              || (desc.name is codes "norm" || desc.name is codes "normal"))
      then parse_normal desc
      else err invalid_distribution_name

  -- `Box<dyn DistributionFactory>::parse`; `to_lowercase` of the standard library is an argument
  unfoldable pub parse_distribution :
      (Text → Text) → Text → Result FactoryError (DistributionFactory F)
  unfolding parse_named
  parse_distribution to_lowercase s = do
    desc ← map_err description (parse_description (to_lowercase s) classic)
    ensure (not desc.inverted) inverted_distribution
    parse_named desc

module _ {R F : Type 0} (java : JavaRandom R F) (float : Floats F) (now : ℕ) where
  abbrev pub unwrap : {E A B : Type 0} → (A → B) → Result E A → Option B
  unwrap f (ok a) = some (f a)
  unwrap f (err e) = none

  -- `create`: `none` is a panic of `unwrap`
  unfoldable pub create : DistributionFactory F → Option (AnyDistribution R F)
  create (fixed_factory value) = some (any_fixed (record { value = value }))
  create (seq_factory min max) = unwrap any_seq (new_seq min max)
  create (uniform_factory min max) = unwrap any_uniform (new_uniform java float now min max)
  create (normal_factory min max mean standard_deviation) =
      unwrap any_normal (new_normal java float now min max mean standard_deviation)
