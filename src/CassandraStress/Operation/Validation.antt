-- ===== src/CassandraStress/Operation/Validation.antt =====
-- operation/mod.rs and operation/read.rs: validation of the rows that a read returns. A value is of
-- the driver's, and so is its equality `eq_value`.
pub mod Exact
use cql_stress.Common.{
  ℕ, Bool, true, false, ◌&&◌, List, [], ◌∷◌, map, Option, none, some, Result, ok, err, ensure, ◌>>◌,
  ◌>>=◌, ensure-ok, question-ok, length, ◌==◌, ◌≡◌, refl, ap, ap₂, sym, ◌∙◌, arith, ◌↔◌,
}
use cql_stress.Configuration.{ControlFlow, continue_flow}

-- `QueryResult`, as far as it is used: the rows, if the response has rows
pub record QueryResult (V : Type 0) : Type 0 where
  pub rows : Option (List (List (Option V)))

pub data ValidationError : Type 0 where
  no_rows multiple_rows different_length data_mismatch session_error : ValidationError

abbrev is_empty_list : {A : Type 0} → List A → Bool
is_empty_list [] = true
is_empty_list (x ∷ xs) = false

module _ {V : Type 0} (eq_value : V → V → Bool) where
  unfoldable pub first_of_rows :
      Option (List (List (Option V))) → Result ValidationError (List (Option V))
  first_of_rows none = err no_rows
  first_of_rows (some []) = err no_rows
  first_of_rows (some (first_row ∷ remaining_rows)) = do
    ensure (is_empty_list remaining_rows) multiple_rows
    ok first_row

  unfoldable pub extract_first_row : QueryResult V → Result ValidationError (List (Option V))
  unfolding first_of_rows
  extract_first_row query_result = first_of_rows query_result.rows

  -- `zip` and `all`
  unfoldable pub all_match : List (Option V) → List V → Bool
  all_match [] row = true
  all_match (value ∷ columns) [] = true
  all_match (some value ∷ columns) (expected ∷ row) =
      eq_value value expected && all_match columns row
  all_match (none ∷ columns) (expected ∷ row) = false

  -- `EqualRowValidator`
  unfoldable pub validate_equal : List V → QueryResult V → Result ValidationError (Unit {0})
  unfolding extract_first_row all_match
  validate_equal generated_row query_result = do
    first_row ← extract_first_row query_result
    ensure (length first_row == length generated_row) different_length
    ensure (all_match first_row generated_row) data_mismatch
    ok tt

  -- `ExistsRowValidator`
  unfoldable pub validate_exists : List V → QueryResult V → Result ValidationError (Unit {0})
  unfolding extract_first_row
  validate_exists generated_row query_result = do first_row ← extract_first_row query_result; ok tt

  -- `ReadOperation::do_execute`: what the session answers is an argument
  unfoldable pub read_row :
      (List V → QueryResult V → Result ValidationError (Unit {0}))
      → List V
      → Result ValidationError (QueryResult V)
      → Result ValidationError ControlFlow
  read_row validate row response = do result ← response; validate row result; ok continue_flow
