-- ===== src/CassandraStress/Settings/Params/Settled.antt =====
-- What an accepted command line leaves in each parameter.
use cql_stress.Common.{
  ℕ, suc, ◌≡◌, Bool, true, false, List, [], ◌∷◌, Option, none, some, ◌⊎◌, get_elem?, and_then,
  if◌then◌else◌,
}
use cql_stress.Text.{Text}
use cql_stress.CassandraStress.Settings.Params.{Param, handle}
use cql_stress.CassandraStress.Settings.Params.Available.{Has}

module _ {V : Type 0} where
  -- a parameter that no command line has touched
  abbrev pub IsFresh : Param V → Type 0
  IsFresh p = (p.supplied_by_user ≡ false) × (p.satisfied ≡ false)

  -- the value in a cell, and how many cells of a group the user supplied
  abbrev pub value_in : List (Param V) → ℕ → Option V
  value_in qs i = and_then (get_elem? qs i) (λ q. q.value)

  abbrev pub is_given : Option (Param V) → Bool
  is_given none = false
  is_given (some q) = q.supplied_by_user

  abbrev pub supplied_in : List (Param V) → List ℕ → ℕ
  supplied_in qs [] = 0
  supplied_in qs (i ∷ group) =
      if is_given (get_elem? qs i) then suc (supplied_in qs group) else supplied_in qs group

  -- a cell that holds no parameter, or one that is not required, or one that the user supplied
  abbrev pub IsComplete : List (Param V) → ℕ → Type 0
  IsComplete qs i =
      (get_elem? qs i ≡ none)
      ⊎ ((q : Param V) × (get_elem? qs i ≡ some q)
          × ((q.required ≡ false) ⊎ (q.supplied_by_user ≡ true)))

module _ (to_lowercase : Text → Text) {V : Type 0} where
  -- What a handle gives: a value for the cells of the group, and nothing for the others.
  abbrev pub IsSettled : List (Param V) → List (Param V) → List ℕ → ℕ → Type 0
  IsSettled qs ps' group i =
      (Has i group × IsComplete qs i × (handle to_lowercase ps' i ≡ value_in qs i))
      ⊎ ((¬ Has i group) × (handle to_lowercase ps' i ≡ none))
