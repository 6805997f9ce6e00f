-- ===== src/CassandraStress/Operation/Validation/Exact.antt =====
-- A read succeeds on the row that was generated, alone, and on nothing else.
use cql_stress.Configuration.{continue_flow}
use cql_stress.Common.{
  Bool, true, false, ◌&&◌, List, [], ◌∷◌, map, Option, none, some, Result, ok, ensure-ok,
  question-ok, then-ok, length, length-map, ◌==◌, ==_iff, ◌≡◌, refl, ap, ap₂, ◌∙◌, arith, ◌↔◌,
}
use cql_stress.CassandraStress.Operation.Validation.{
  QueryResult, ValidationError, first_of_rows, extract_first_row, all_match, validate_equal,
  read_row, data_mismatch, different_length,
}

and_true : (a b : Bool) → (a && b) ≡ true → (a ≡ true) × (b ≡ true)
and_true true b h = (refl, h)
and_true false b h = cc

module _ {V : Type 0} (eq_value : V → V → Bool) where
  -- the answer that has one row, with these values
  abbrev pub only_row : List V → QueryResult V
  only_row row = record { rows = some (map some row ∷ []) }

  first_of_rows-ok :
      (rows : Option (List (List (Option V)))) (first_row : List (Option V))
      → first_of_rows eq_value rows ≡ ok first_row
      → rows ≡ some (first_row ∷ [])
  unfolding first_of_rows
  first_of_rows-ok none first_row h = cc
  first_of_rows-ok (some []) first_row h = cc
  first_of_rows-ok (some (r ∷ [])) first_row h = cc
  first_of_rows-ok (some (r ∷ r' ∷ rest)) first_row h = cc

  module _ (eq_lem : (a b : V) → (eq_value a b ≡ true) ↔ (a ≡ b)) where
    all_match-all : (row : List V) → all_match eq_value (map some row) row ≡ true
    unfolding all_match
    all_match-all [] = refl
    all_match-all (v ∷ row) = rw ((eq_lem v v).1 refl, all_match-all row) refl

    all_match-row :
        (columns : List (Option V)) (row : List V)
        → length columns ≡ length row
        → all_match eq_value columns row ≡ true
        → columns ≡ map some row
    unfolding all_match
    all_match-row [] [] n h = refl
    all_match-row [] (v ∷ row) n h = absurd (omega (arith, n))
    all_match-row (c ∷ columns) [] n h = absurd (omega (arith, n))
    all_match-row (none ∷ columns) (v ∷ row) n h = cc
    all_match-row (some c ∷ columns) (v ∷ row) n h =
        let (same, rest) = and_true (eq_value c v) (all_match eq_value columns row) h in
        ap₂ (λ x xs. some x ∷ xs) ((eq_lem c v).0 same)
          (all_match-row columns row (omega (arith, n)) rest)

    validate_equal-only :
        (row : List V) (result : QueryResult V)
        → validate_equal eq_value row result ≡ ok tt
        → result ≡ only_row row
    unfolding validate_equal extract_first_row
    validate_equal-only row result h =
        let (first_row, h1, e) = question-ok _ (extract_first_row eq_value result) tt h in
        let (same_length, h2) = ensure-ok (length first_row == length row) different_length _ h1 in
        let (matches, h3) = ensure-ok (all_match eq_value first_row row) data_mismatch _ h2 in
        let rows = first_of_rows-ok result.rows first_row e in
        let columns = all_match-row first_row row ((==_iff _ _).0 same_length) matches in
        ap (λ r. record { rows = r }) (rows ∙ ap (λ c. some (c ∷ [])) columns)

    only-validate_equal : (row : List V) → validate_equal eq_value row (only_row row) ≡ ok tt
    unfolding validate_equal extract_first_row first_of_rows
    only-validate_equal row =
        let e : (length (map some row) == length row) ≡ true =
          (==_iff _ _).1 (length-map some row) in
        rw (e, all_match-all row) refl

    -- A read that compares rows succeeds exactly when the session answers with one row, and its
    -- values are those of the generated row, none of them null. The equality of the driver's values
    -- is equality.
    pub read_row-only :
        (row : List V) (response : Result ValidationError (QueryResult V))
        → (read_row eq_value (validate_equal eq_value) row response ≡ ok continue_flow)
          ↔ (response ≡ ok (only_row row))
    unfolding read_row
    read_row-only row response = (
      λ h.
          let (result, h1, e) = question-ok _ response continue_flow h in
          let (valid, done) =
            then-ok (validate_equal eq_value row result) (ok continue_flow) continue_flow h1 in
          e ∙ ap ok (validate_equal-only row result valid),
      λ e. rw (e, only-validate_equal row) refl,
    )
