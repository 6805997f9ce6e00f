-- ===== src/CassandraStress/Settings/Params/Group.antt =====
-- The group of parameters that an accepted command line satisfies.
use cql_stress.Common.{
  ℕ, ◌≡◌, sym, ap, subst, ◌>>=◌, true, false, List, [], ◌∷◌, Option, none, some, Result, ok, length,
  any, arith, ok_or, ok-inj, question-ok, Bool-cases, inl, inr,
}
use cql_stress.Text.{Text}
use cql_stress.CassandraStress.Settings.Params.{
  Param, ParamError, no_group, consume_all, find_group, all_groups, is_satisfied, is_missing,
  count_supplied, mark_satisfied, parse_params,
}

pub some-inj : {A : Type 0} {a b : A} → some a ≡ some b → a ≡ b
some-inj h = cc

chosen : {A : Type 0} (o : Option A) (a : A) → ok_or o no_group ≡ ok a → o ≡ some a
chosen none a h = cc
chosen (some b) a h = ap some (ok-inj h)

module _ (to_lowercase : Text → Text) {V : Type 0} where
  pub is_satisfied-parts :
      (ps : List (Param V)) (n : ℕ) (group : List ℕ)
      → is_satisfied to_lowercase ps n group ≡ true
      → (count_supplied to_lowercase ps group ≡ n)
        × (any (is_missing to_lowercase ps) group ≡ false)
  unfolding is_satisfied
  is_satisfied-parts ps n group h = ground arith

  pub find_group-is_satisfied :
      (ps : List (Param V)) (n : ℕ) (groups : List (List ℕ)) (group : List ℕ)
      → find_group to_lowercase ps n groups ≡ some group
      → is_satisfied to_lowercase ps n group ≡ true
  unfolding find_group
  find_group-is_satisfied ps n [] group h = cc
  find_group-is_satisfied ps n (g ∷ groups) group h =
      elim (Bool-cases (is_satisfied to_lowercase ps n g)) [
        | inl found ↦
            subst (λ k. is_satisfied to_lowercase ps n k ≡ true) (some-inj (rw found at h)) found
        | inr skipped ↦ find_group-is_satisfied ps n groups group (rw skipped at h)
      ]

  -- what parsing comes to: the parameters consumed, and the group that was found
  pub parse_params-found :
      (groups : List (List ℕ)) (ps ps' : List (Param V)) (args : List Text)
      → parse_params to_lowercase groups ps args ≡ ok ps'
      → (qs : List (Param V)) × (group : List ℕ) × (consume_all to_lowercase args ps ≡ ok qs)
        × (ps' ≡ mark_satisfied to_lowercase group qs)
        × (find_group to_lowercase qs (length args) (all_groups to_lowercase ps groups)
            ≡ some group)
  unfolding parse_params
  parse_params-found groups ps ps' args h =
      let pick : List (Param V) → Option (List ℕ) =
        λ qs. find_group to_lowercase qs (length args) (all_groups to_lowercase ps groups) in
      let mark : List (Param V) → List ℕ → Result ParamError (List (Param V)) =
        λ qs group. ok (mark_satisfied to_lowercase group qs) in
      let (qs, marked, consumed) =
        question-ok (λ qs. ok_or (pick qs) no_group >>= mark qs) (consume_all to_lowercase args ps)
          ps' h in
      let (group, done, picked) = question-ok (mark qs) (ok_or (pick qs) no_group) ps' marked in
      (qs, group, consumed, sym (ok-inj done), chosen (pick qs) group picked)
