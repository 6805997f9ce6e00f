-- ===== src/CassandraStress/Settings/Params/Singles.antt =====
-- Groups of one parameter: if there are arguments at all, that parameter has been supplied.
use cql_stress.Common.{
  ℕ, zero, suc, ◌≡◌, ◌≢◌, refl, ap, sym, subst, ◌∙◌, true, List, [], ◌∷◌, none, some, Option-cases,
  inl, inr, ok, length, get_elem?, arith,
}
use cql_stress.Text.{Text}
use cql_stress.CassandraStress.Settings.Params.{
  handle, Param, is_supplied, count_supplied, mark_satisfied, parse_params, all_groups,
}
use cql_stress.CassandraStress.Settings.Params.Group.{
  parse_params-found, find_group-is_satisfied, is_satisfied-parts,
}
use cql_stress.CassandraStress.Settings.Params.Available.{
  IsOneOf, Has, handle-found, mark_satisfied-at, find_group-IsOneOf,
}
use cql_stress.CassandraStress.Settings.Params.Kept.{
  IsSound, AllSound, AllKept-AllSound, consume_all-AllKept,
}

AllSound-at :
    {V : Type 0} (qs : List (Param V)) (i : ℕ) (q : Param V)
    → AllSound qs
    → get_elem? qs i ≡ some q
    → IsSound q
AllSound-at [] i q s e = cc
AllSound-at (p ∷ qs) zero q s e = let same : p ≡ q = cc in subst IsSound same s.0
AllSound-at (p ∷ qs) (suc i) q s e = AllSound-at qs i q s.1 e

module _ (to_lowercase : Text → Text) {V : Type 0} where
  count_supplied-single :
      (qs : List (Param V)) (i n : ℕ)
      → count_supplied to_lowercase qs (i ∷ []) ≡ suc n
      → is_supplied to_lowercase qs i ≡ true
  unfolding count_supplied
  count_supplied-single qs i n h = ground (arith, h)

  is_supplied-found :
      (qs : List (Param V)) (i : ℕ)
      → is_supplied to_lowercase qs i ≡ true
      → (q : Param V) × (get_elem? qs i ≡ some q) × (q.supplied_by_user ≡ true)
  unfolding is_supplied
  is_supplied-found qs i h = elim (Option-cases (get_elem? qs i)) [
    | inl missing ↦ absurd (let k = rw (is_supplied, missing) at h in cc)
    | inr (q, found) ↦ (q, found, rw (is_supplied, found) at h)
  ]

  -- Where there are arguments, the parameter of a group of one has its value.
  pub parse_params-single :
      (groups : List (List ℕ)) (ps ps' : List (Param V)) (arg : Text) (args : List Text)
      → AllSound ps
      → parse_params to_lowercase groups ps (arg ∷ args) ≡ ok ps'
      → (group : List ℕ) × IsOneOf group (all_groups to_lowercase ps groups)
        × ((i : ℕ) → group ≡ i ∷ [] → handle to_lowercase ps' i ≢ none)
  parse_params-single groups ps ps' arg args s h =
      let all_args = arg ∷ args in
      let (qs, group, consumed, marked, found) =
        parse_params-found to_lowercase groups ps ps' all_args h in
      let sat =
        find_group-is_satisfied to_lowercase qs (length all_args)
          (all_groups to_lowercase ps groups) group found in
      let (count, complete) = is_satisfied-parts to_lowercase qs (length all_args) group sat in
      (
        group,
        find_group-IsOneOf to_lowercase qs (length all_args) (all_groups to_lowercase ps groups)
            group found,
        λ i one none_there.
            let counted = ap (count_supplied to_lowercase qs) (sym one) ∙ count in
            let (q, at, supplied) =
              is_supplied-found qs i (count_supplied-single qs i (length args) counted) in
            let (r, there, same, old, mark) = mark_satisfied-at to_lowercase group i qs q at in
            let present =
              AllSound-at qs i q
                (AllKept-AllSound ps qs
                  (consume_all-AllKept to_lowercase all_args ps qs s consumed))
                at supplied in
            let marks =
              handle-found to_lowercase (mark_satisfied to_lowercase group qs) i r there
                (mark (subst (Has i) (sym one) (inl refl))) in
            present (
              sym same ∙ sym marks ∙ ap (λ rs. handle to_lowercase rs i) (sym marked) ∙ none_there),
      )
