-- ===== src/CassandraStress/Settings/ColumnOption.antt =====
-- settings/option/column.rs: the option -col. Reading a f64 and `to_lowercase` are arguments.
use cql_stress.Common.{
  ℕ, zero, suc, ◌+◌, ◌/◌, ◌%◌, ltb, true, false, if◌then◌else◌, List, [], ◌∷◌, ◌++◌, Option, none,
  some, and_then, Result, ok, err, ok_or, ◌>>=◌,
}
use cql_stress.Text.{Text, codes, ◌is◌}
use cql_stress.Distribution.{Description, classic, parse_description, check_argument_count}
use cql_stress.CassandraStress.JavaGenerate.{Floats}
use cql_stress.CassandraStress.JavaGenerate.Distributions.Factories.{
  DistributionFactory, parse_distribution,
}
use cql_stress.CassandraStress.Settings.Outcome.{OptionError, panicked, refusal, parsed}
use cql_stress.CassandraStress.Settings.Types.{parse_whole, parse_list}
use cql_stress.CassandraStress.Settings.Params.{handle, Param, new_wrapped, parse_params}

-- a number in decimal, of `k` digits at most; a u64 has twenty
unfoldable pub decimal_digits : ℕ → ℕ → Text
decimal_digits zero n = []
decimal_digits (suc k) n = elim (ltb n 10) [
  | true ↦ (b'0' + n) ∷ []
  | false ↦ decimal_digits k (n / 10) ++ ((b'0' + n % 10) ∷ [])
]

-- the names that begin with C, numbered from `n`, `count` of them
unfoldable pub numbered_columns : ℕ → ℕ → List Text
unfolding decimal_digits
numbered_columns n zero = []
numbered_columns n (suc count) = (b'C' ∷ decimal_digits 20 n) ∷ numbered_columns (suc n) count

-- the values of the parameters, of their types
pub data ColumnValue (F : Type 0) : Type 0 where
  names : List Text → ColumnValue F
  columns_count : ℕ → ColumnValue F
  cell_size : DistributionFactory F → ColumnValue F

pub record ColumnOption (F : Type 0) : Type 0 where
  pub columns : List Text
  pub size_distribution : DistributionFactory F

module _ {F : Type 0} where
  abbrev pub as_names : ColumnValue F → Option (List Text)
  as_names (names ns) = some ns
  as_names _ = none

  abbrev pub as_columns_count : ColumnValue F → Option ℕ
  as_columns_count (columns_count n) = some n
  as_columns_count _ = none

  abbrev pub as_cell_size : ColumnValue F → Option (DistributionFactory F)
  as_cell_size (cell_size d) = some d
  as_cell_size _ = none

-- `description.args[0]`, which is checked to be there
unfoldable pub count_of_args : List Text → Option ℕ
unfolding parse_whole
count_of_args [] = none
count_of_args (arg ∷ rest) = parsed (parse_whole arg)

unfoldable pub fixed_count : Description → Option ℕ
unfolding count_of_args check_argument_count
fixed_count d =
    if d.name is codes "fixed"
    then and_then (parsed (check_argument_count d 1)) (λ _. count_of_args d.args)
    else none

-- `parser.group`: names= is cell 0, n= is cell 1, size= is cell 2
abbrev pub column_groups : List (List ℕ)
column_groups = (0 ∷ 2 ∷ []) ∷ (1 ∷ 2 ∷ []) ∷ []

module _ {F : Type 0} (float : Floats F) (read_f64 : Text → Option F)
    (to_lowercase : Text → Text) where
  -- `ColumnCount::parse`
  unfoldable pub parse_column_count : Text → Option ℕ
  unfolding fixed_count parse_whole parse_description
  parse_column_count s = elim (parse_whole s) [
    | ok n ↦ some n
    | err e ↦ and_then (parsed (parse_description (to_lowercase s) classic)) fixed_count
  ]

  -- `prepare_parser`; `none` if it panics
  unfoldable pub prepare_column : Option (List (Param (ColumnValue F)))
  unfolding new_wrapped parse_list parse_column_count parse_distribution
  prepare_column =
      let read_names : Text → Option (ColumnValue F) =
        λ s. and_then (parsed (parse_list s)) (λ ns. some (names ns)) in
      let read_count : Text → Option (ColumnValue F) =
        λ s. and_then (parse_column_count s) (λ n. some (columns_count n)) in
      let read_size : Text → Option (ColumnValue F) = λ s.
        and_then (parsed (parse_distribution float read_f64 to_lowercase s))
          (λ d. some (cell_size d)) in
      and_then (new_wrapped to_lowercase (codes "names=") read_names none true) (λ names_param.
        and_then (new_wrapped to_lowercase (codes "n=") read_count (some (codes "5")) false)
          (λ count_param.
            and_then
              (new_wrapped to_lowercase (codes "size=") read_size (some (codes "fixed(34)")) false)
              (λ size_param. some (names_param ∷ count_param ∷ size_param ∷ []))))

  -- the columns: their names, or as many as there are to be
  unfoldable pub columns_of : Option (List Text) → Option ℕ → Option (List Text)
  unfolding numbered_columns
  columns_of (some ns) count = some ns
  columns_of none count = and_then count (λ n. some (numbered_columns 0 n))

  -- `ColumnOption::from_handles`; `none` if it panics
  unfoldable pub column_from_handles : List (Param (ColumnValue F)) → Option (ColumnOption F)
  unfolding handle columns_of
  column_from_handles ps = and_then (and_then (handle to_lowercase ps 2) as_cell_size) (λ d.
      and_then
        (columns_of (and_then (handle to_lowercase ps 0) as_names)
          (and_then (handle to_lowercase ps 1) as_columns_count))
        (λ cs. some (record { columns = cs; size_distribution = d })))

  -- `ColumnOption::parse`
  unfoldable pub parse_column_option : List Text → Result OptionError (ColumnOption F)
  unfolding prepare_column column_from_handles parse_params
  parse_column_option params = do
    ps ← ok_or prepare_column panicked
    ps' ← refusal (parse_params to_lowercase column_groups ps params)
    ok_or (column_from_handles ps') panicked
