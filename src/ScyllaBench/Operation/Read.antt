-- ===== src/ScyllaBench/Operation/Read.antt =====
-- `ReadRestrictionKind` of operation/read.rs: the selector of the statement and the values bound
-- to its markers.
use cql_stress.Common.{
  ℕ, false, zero, suc, ◌<◌, ◌∙◌, ◌^◌, ◌+◌, ◌-◌, ◌≤◌, ◌≡◌, Bool, [], ◌∷◌, Option, none, some, pos,
  if◌then◌else◌, ◌==◌, length, replicate, ◌++◌, arith, ap, refl, length-append, length-replicate,
}
use cql_stress.Common.Int.{as_i64, add_i64}
use cql_stress.Text.{Text, codes}
use cql_stress.ScyllaBench.Workload.{Keys, Workload}

pub data ReadRestrictionKind : Type 0 where
  in_restriction : ℕ → ReadRestrictionKind
  both_bounds : ℕ → ReadRestrictionKind
  only_lower_bound : ℕ → ReadRestrictionKind
  no_bounds : ℕ → ReadRestrictionKind

-- `ReadOperationFactory::new` chooses the restriction
pub restriction : Bool → Bool → Bool → ℕ → ReadRestrictionKind
restriction is_in upper no_lower rows =
    if is_in
    then in_restriction rows
    else if upper
    then both_bounds rows
    else if no_lower
    then no_bounds rows
    else only_lower_bound rows

-- "?,".repeat(n) and then without its last comma
abbrev pub markers : ℕ → Text
markers zero = []
markers (suc zero) = codes "?"
markers (suc (suc n)) = codes "?," ++ markers (suc n)

abbrev pub selector_string : ReadRestrictionKind → Text
selector_string (in_restriction n) =
    if n == 0 then [] else codes "AND ck IN (" ++ markers n ++ codes ")"
selector_string (both_bounds n) = codes "AND ck >= ? AND ck < ?"
selector_string (only_lower_bound n) = codes "AND ck >= ?"
selector_string (no_bounds n) = []

-- the limit of the statement, which is no value that is bound
abbrev pub limit_of : ReadRestrictionKind → Option ℕ
limit_of (in_restriction n) = none
limit_of (both_bounds n) = none
limit_of (only_lower_bound n) = some n
limit_of (no_bounds n) = some n

-- cks.extend((cks.len()..cks_to_select).map(|_| 0))
abbrev pub fill_up : ℕ → Keys → Keys
fill_up n (pk, cks) = (pk, cks ++ replicate (n - length cks) (pos 0))

-- cks.push(cks[0] + cks_to_select): no first key is a panic
abbrev pub push_bound : ℕ → Keys → Option Keys
push_bound n (pk, []) = none
push_bound n (pk, ck ∷ cks) = some (pk, (ck ∷ cks) ++ (add_i64 ck (as_i64 n) ∷ []))

-- the number of rows that the workload is asked for
abbrev pub rows_asked : ReadRestrictionKind → ℕ
rows_asked (in_restriction n) = n
rows_asked (both_bounds n) = 1
rows_asked (only_lower_bound n) = 1
rows_asked (no_bounds n) = 0

-- the arms of `generate_values` behind the call: from what the workload returns for `rows_asked` rows
abbrev pub values_of : ReadRestrictionKind → Keys → Option Keys
values_of (in_restriction n) keys = some (fill_up n keys)
values_of (both_bounds n) keys = push_bound n keys
values_of (only_lower_bound n) keys = some keys
values_of (no_bounds n) keys = some keys

-- the `?` behind the call
abbrev pub answered : ReadRestrictionKind → Option Keys → Option Keys
answered kind none = none
answered kind (some keys) = values_of kind keys

-- the markers of a text
abbrev pub count_markers : Text → ℕ
count_markers [] = 0
count_markers (c ∷ s) = if c == b'?' then suc (count_markers s) else count_markers s

count_markers-append : (s t : Text) → count_markers (s ++ t) ≡ count_markers s + count_markers t
count_markers-append [] t = omega arith
count_markers-append (c ∷ s) t = let ih = count_markers-append s t in ground arith

count_markers-markers : (n : ℕ) → count_markers (markers n) ≡ n
count_markers-markers zero = refl
count_markers-markers (suc zero) = refl
count_markers-markers (suc (suc n)) = ap suc (count_markers-markers (suc n))

-- what a workload answers when it is asked for the rows of the restriction
abbrev pub IsAnswer : ReadRestrictionKind → Keys → Type 0
IsAnswer kind keys = (length keys.1 ≤ rows_asked kind) × (0 < rows_asked kind → 0 < length keys.1)

selector-in : (n : ℕ) → count_markers (selector_string (in_restriction n)) ≡ n
selector-in zero = refl
selector-in (suc n) =
    let a = count_markers-append (codes "AND ck IN (") (markers (suc n) ++ codes ")") in
    let b = count_markers-append (markers (suc n)) (codes ")") in
    let c = count_markers-markers (suc n) in rw positive (omega (arith, a, b, c))
  where
    positive : (suc n == 0) ≡ false
    positive = ground arith

values_of-markers :
    (kind : ReadRestrictionKind) (keys : Keys)
    → IsAnswer kind keys
    → (values : Keys) × (values_of kind keys ≡ some values)
      × (count_markers (selector_string kind) ≡ length values.1)
values_of-markers (in_restriction n) (pk, cks) h =
    (fill_up n (pk, cks), refl, selector-in n ∙ filled)
  where
    filled : n ≡ length (cks ++ replicate (n - length cks) (pos 0))
    filled = omega (
      arith,
      h.0,
      length-append cks (replicate (n - length cks) (pos 0)),
      length-replicate (n - length cks) (pos 0),
    )
values_of-markers (both_bounds n) (pk, []) h = absurd (omega (arith, h.1 (omega arith)))
values_of-markers (both_bounds n) (pk, ck ∷ cks) h =
    (_, refl, (let e = length-append cks (add_i64 ck (as_i64 n) ∷ []) in omega (arith, e, h.0)))
values_of-markers (only_lower_bound n) (pk, cks) h =
    ((pk, cks), refl, omega (arith, h.0, h.1 (omega arith)))
values_of-markers (no_bounds n) (pk, cks) h = ((pk, cks), refl, omega (arith, h.0))

module _ {S : Type 0} (workload : Workload S) where
  -- `generate_values`, with the new state of the workload
  pub generate_values : ReadRestrictionKind → S → Option Keys × S
  generate_values kind s = let r = workload.generate s (rows_asked kind) in (answered kind r.0, r.1)

  -- For every kind of restriction and each row count below 2^63, when the workload is in a valid
  -- state and has keys left, the operation gets its values, and their number is the number of
  -- markers in the selector.
  pub generate_values-markers :
      (kind : ReadRestrictionKind) (s : S) (keys : Keys)
      → workload.IsValid s
      → rows_asked kind < 2 ^ 63
      → (workload.generate s (rows_asked kind)).0 ≡ some keys
      → (values : Keys) × ((generate_values kind s).0 ≡ some values)
        × (count_markers (selector_string kind) ≡ length values.1)
  unfolding generate_values
  generate_values-markers kind s keys v small h =
      let found =
        values_of-markers kind keys (workload.answers s (rows_asked kind) keys v small h) in
      (found.0, ap (answered kind) h ∙ found.1, found.2)
