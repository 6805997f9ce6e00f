-- ===== src/CassandraStress/Settings/PopulationOption/Answers.antt =====
-- For which operation counts the option -pop panics.
use cql_stress.Common.{
  ◌≤◌, ◌≡◌, ◌≢◌, refl, sym, ap, subst, ◌∙◌, inl, inr, ◌⊎◌, Bool, Bool-cases, true, false, List, [],
  ◌∷◌, ◌++◌, Option, none, some, Option-cases, and_then, Result, ok, err, ok_or, ◌>>=◌,
  if◌then◌else◌, pos, ok-inj,
}
use cql_stress.Common.Int.{as_i64}
use cql_stress.Text.{Text, codes}
use cql_stress.Text.Digits.{AreDigits, value, u64_max}
use cql_stress.CassandraStress.JavaGenerate.{Floats}
use cql_stress.CassandraStress.JavaGenerate.Distributions.Factories.{
  DistributionFactory, seq_factory, parse_distribution,
}
use cql_stress.CassandraStress.Settings.Outcome.{
  OptionError, refused, panicked, refusal, parsed, refusal-answers,
}
use cql_stress.CassandraStress.Settings.Params.{
  handle, Param, ParamError, new_param, new_wrapped, parse_params, all_groups, consume_all,
  find_group, mark_satisfied, is_satisfied, count_supplied, is_supplied, is_missing, set_satisfied,
  get_value,
}
use cql_stress.CassandraStress.Settings.Params.Kept.{AllSound}
use cql_stress.CassandraStress.Settings.Params.Singles.{parse_params-single}
use cql_stress.CassandraStress.Settings.PopulationOption.Sequence.{
  above_one, up_to, parse_bash_friendly-up_to, up_to-above_one,
}
use cql_stress.CassandraStress.Settings.PopulationOption.{
  population_groups, parse_bash_friendly, prepare_population, population_from_handles,
  parse_population_option,
}

module _ {F : Type 0} (float : Floats F) (read_f64 : Text → Option F)
    (to_lowercase : Text → Text) where
  -- the parameters before the command line is read
  abbrev pub population_params : DistributionFactory F → List (Param (DistributionFactory F))
  unfolding new_param
  population_params default =
      new_param to_lowercase (codes "seq=") (parse_bash_friendly float read_f64 to_lowercase)
        (some default) false
      ∷ new_param to_lowercase (codes "dist=")
          (λ s. parsed (parse_distribution float read_f64 to_lowercase s)) none false
      ∷ []

  population_params-AllSound :
      (default : DistributionFactory F) → AllSound (population_params default)
  unfolding new_param
  population_params-AllSound default = (λ e. cc, (λ e. cc, tt))

  first_or-some :
      {A : Type 0} (a b : Option A)
      → (a ≢ none) ⊎ (b ≢ none)
      → (x : A) × (elim a as (λ _. Option A) [ some x ↦ some x | none ↦ b ] ≡ some x)
  first_or-some (some x) b h = (x, refl)
  first_or-some none (some y) h = (y, refl)
  first_or-some none none (inl h) = absurd (h refl)
  first_or-some none none (inr h) = absurd (h refl)

  population_from_handles-some :
      (ps' : List (Param (DistributionFactory F)))
      → (handle to_lowercase ps' 0 ≢ none) ⊎ (handle to_lowercase ps' 1 ≢ none)
      → (dist : DistributionFactory F) × (population_from_handles float read_f64 to_lowercase ps'
          ≡ some dist)
  unfolding population_from_handles
  population_from_handles-some ps' h = first_or-some _ _ h

  empty-default :
      (default : DistributionFactory F) (ps' : List (Param (DistributionFactory F)))
      → parse_params to_lowercase population_groups (population_params default) [] ≡ ok ps'
      → handle to_lowercase ps' 0 ≡ some default
  unfolding parse_params consume_all find_group mark_satisfied all_groups is_satisfied
      count_supplied is_supplied is_missing set_satisfied handle get_value new_param
  empty-default default ps' h = sym (ap (λ rs. handle to_lowercase rs 0) (ok-inj h))

  -- with no arguments, the group of seq= is the one
  accepted-from_handles :
      (default : DistributionFactory F) (params : List Text)
      (ps' : List (Param (DistributionFactory F)))
      → parse_params to_lowercase population_groups (population_params default) params ≡ ok ps'
      → (handle to_lowercase ps' 0 ≢ none) ⊎ (handle to_lowercase ps' 1 ≢ none)
  unfolding all_groups
  accepted-from_handles default [] ps' h =
      let e = empty-default default ps' h in inl (λ none_there. cc)
  accepted-from_handles default (arg ∷ args) ps' h =
      let (group, one_of, values) =
        parse_params-single to_lowercase population_groups (population_params default) ps' arg args
          (population_params-AllSound default) h in
      elim one_of [
        | inl seq ↦ inl (values 0 seq)
        | inr (inl dist) ↦ inr (values 1 dist)
        | inr (inr other) ↦ absurd other
      ]

  wrapped-then :
      {V B : Type 0} (prefix text : Text) (read : Text → Option V) (required : Bool)
      (next : Param V → Option B)
      → and_then (new_wrapped to_lowercase prefix read (some text) required) next
        ≡ and_then (read text) (λ v. next (new_param to_lowercase prefix read (some v) required))
  unfolding new_wrapped
  wrapped-then prefix text read required next = elim (Option-cases (read text)) [
    | inl refused_default ↦ rw (new_wrapped, and_then, refused_default) refl
    | inr (v, default) ↦ rw (new_wrapped, and_then, default) refl
  ]

  prepare_population-up_to :
      (s : Text)
      → s ≢ []
      → AreDigits s
      → value 0 s ≤ u64_max
      → prepare_population float read_f64 to_lowercase s
        ≡ and_then (up_to float read_f64 to_lowercase (value 0 s)) (λ d. some (population_params d))
  unfolding prepare_population
  prepare_population-up_to s n h k =
      wrapped-then (codes "seq=") (codes "1.." ++ s)
        (parse_bash_friendly float read_f64 to_lowercase) false _
      ∙ ap (λ m. and_then m (λ d. some (population_params d)))
          (parse_bash_friendly-up_to float read_f64 to_lowercase s n h k)

  -- what follows when the parser is there
  abbrev pub read_population :
      List Text → List (Param (DistributionFactory F)) → Result OptionError (DistributionFactory F)
  read_population params ps =
      refusal (parse_params to_lowercase population_groups ps params)
      >>= (λ ps'. ok_or (population_from_handles float read_f64 to_lowercase ps') panicked)

  -- an option that is answered: a factory, or the parser's error for its parameters
  abbrev pub IsAnswered :
      DistributionFactory F → List Text → Result OptionError (DistributionFactory F) → Type 0
  IsAnswered default params r =
      ((dist : DistributionFactory F) × (r ≡ ok dist))
      ⊎ ((e : ParamError) × (parse_params to_lowercase population_groups (population_params default)
              params
            ≡ err e)
          × (r ≡ err (refused e)))

  read_population-IsAnswered :
      (default : DistributionFactory F) (params : List Text)
      → IsAnswered default params (read_population params (population_params default))
  read_population-IsAnswered default params =
      refusal-answers
        (parse_params to_lowercase population_groups (population_params default) params) _
        (λ ps' accepted.
          let (dist, found) =
            population_from_handles-some ps' (accepted-from_handles default params ps' accepted) in
          (dist, ap (λ m. ok_or m panicked) found))

  parse_population_option-up_to :
      (s : Text) (params : List Text)
      → s ≢ []
      → AreDigits s
      → value 0 s ≤ u64_max
      → parse_population_option float read_f64 to_lowercase s params ≡ (
          ok_or
            (and_then
              (if above_one (value 0 s)
                then some (seq_factory (pos 1) (as_i64 (value 0 s)))
                else none)
              (λ d. some (population_params d)))
            panicked
          >>= read_population params)
  unfolding parse_population_option
  parse_population_option-up_to s params n h k =
      ap (λ m. ok_or m panicked >>= read_population params)
        (prepare_population-up_to s n h k
          ∙ ap (λ m. and_then m (λ d. some (population_params d)))
              (up_to-above_one float read_f64 to_lowercase (value 0 s) k))

  -- With an operation count of 0 or 1, or from 2 ^ 63 on, the option -pop panics whatever its
  -- parameters; with any other, it gives a distribution or the parser's error for the parameters,
  -- which may be its panic on a slice within a character. The count is the digits of a u64.
  pub parse_population_option-panics :
      (s : Text) (params : List Text)
      → s ≢ []
      → AreDigits s
      → value 0 s ≤ u64_max
      → ((above_one (value 0 s) ≡ false)
          × (parse_population_option float read_f64 to_lowercase s params ≡ err panicked))
        ⊎ ((above_one (value 0 s) ≡ true)
            × IsAnswered
                (seq_factory (pos 1) (as_i64 (value 0 s)))
                params
                (parse_population_option float read_f64 to_lowercase s params))
  parse_population_option-panics s params n h k =
      let start = parse_population_option-up_to s params n h k in
      elim (Bool-cases (above_one (value 0 s))) [
        | inl fits ↦
            let default = seq_factory (pos 1) (as_i64 (value 0 s)) in
            let run = rw fits at start in
            inr (
              fits,
              subst (IsAnswered default params) (sym run)
                  (read_population-IsAnswered default params),
            )
        | inr out ↦ inl (out, rw out at start)
      ]
