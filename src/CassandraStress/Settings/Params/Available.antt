-- ===== src/CassandraStress/Settings/Params/Available.antt =====
-- The parameters of the group that a command line satisfies have their values.
use cql_stress.Common.{
  ℕ, zero, suc, ◌≡◌, ◌≢◌, refl, ap, sym, subst, ◌∙◌, Bool-cases, inl, inr, ◌⊎◌, Bool, true, false,
  not, ◌&&◌, ◌||◌, List, [], ◌∷◌, none, some, ok, length, any, get_elem?, arith,
}
use cql_stress.Text.{Text}
use cql_stress.CassandraStress.Settings.Params.{
  Param, set_satisfied, mark_satisfied, get_value, is_missing, is_satisfied, parse_params, handle,
  find_group, all_groups,
}
use cql_stress.CassandraStress.Settings.Params.Group.{
  some-inj, parse_params-found, find_group-is_satisfied, is_satisfied-parts,
}
use cql_stress.CassandraStress.Settings.Params.Kept.{
  HasValue, AllKept, AllSound, AllKept-at, consume_all-AllKept,
}

or_false : (a b : Bool) → (a || b) ≡ false → (a ≡ false) × (b ≡ false)
or_false true b h = cc
or_false false b h = (refl, h)

-- whether a cell is in a group
abbrev pub Has : ℕ → List ℕ → Type 0
Has i [] = ⊥
Has i (j ∷ group) = (i ≡ j) ⊎ Has i group

-- whether a group is one of several
abbrev pub IsOneOf : List ℕ → List (List ℕ) → Type 0
IsOneOf group [] = ⊥
IsOneOf group (g ∷ groups) = (group ≡ g) ⊎ IsOneOf group groups

module _ (to_lowercase : Text → Text) {V : Type 0} where
  -- a marked parameter has the value that it had
  set_satisfied-at :
      (j i : ℕ) (qs : List (Param V)) (q : Param V)
      → get_elem? qs i ≡ some q
      → (r : Param V) × (get_elem? (set_satisfied to_lowercase j qs) i ≡ some r)
        × (r.value ≡ q.value)
        × (q.satisfied ≡ true → r.satisfied ≡ true)
        × (i ≡ j → r.satisfied ≡ true)
  unfolding set_satisfied
  set_satisfied-at j i [] q h = cc
  set_satisfied-at zero zero (p ∷ qs) q h =
      let same : p ≡ q = cc in
      (record p { satisfied = true }, refl, ap (λ r. r.value) same, λ _. refl, λ _. refl)
  set_satisfied-at zero (suc i) (p ∷ qs) q h = (q, h, refl, λ e. e, λ e. absurd (omega (arith, e)))
  set_satisfied-at (suc j) zero (p ∷ qs) q h = (q, h, refl, λ e. e, λ e. absurd (omega (arith, e)))
  set_satisfied-at (suc j) (suc i) (p ∷ qs) q h =
      let (r, e, v, old, here) = set_satisfied-at j i qs q h in
      (r, e, v, old, λ k. here (omega (arith, k)))

  pub mark_satisfied-at :
      (group : List ℕ) (i : ℕ) (qs : List (Param V)) (q : Param V)
      → get_elem? qs i ≡ some q
      → (r : Param V) × (get_elem? (mark_satisfied to_lowercase group qs) i ≡ some r)
        × (r.value ≡ q.value)
        × (q.satisfied ≡ true → r.satisfied ≡ true)
        × (Has i group → r.satisfied ≡ true)
  unfolding mark_satisfied
  mark_satisfied-at [] i qs q h = (q, h, refl, λ e. e, λ b. absurd b)
  mark_satisfied-at (j ∷ group) i qs q h =
      let (r, e, v, old, here) = set_satisfied-at j i qs q h in
      let (t, e', v', old', in_group) =
        mark_satisfied-at group i (set_satisfied to_lowercase j qs) r e in
      (t, e', v' ∙ v, λ k. old' (old k), elim [ inl k ↦ old' (here k) | inr m ↦ in_group m ])

  -- no cell of the group is missing
  pub any-Has :
      (qs : List (Param V)) (i : ℕ) (group : List ℕ)
      → Has i group
      → any (is_missing to_lowercase qs) group ≡ false
      → is_missing to_lowercase qs i ≡ false
  any-Has qs i [] b h = absurd b
  any-Has qs i (j ∷ group) (inl e) h =
      subst (λ k. is_missing to_lowercase qs k ≡ false) (sym e) (or_false _ _ h).0
  any-Has qs i (j ∷ group) (inr m) h = any-Has qs i group m (or_false _ _ h).1

  is_missing-present :
      (qs : List (Param V)) (i : ℕ) (q : Param V)
      → get_elem? qs i ≡ some q
      → is_missing to_lowercase qs i ≡ false
      → q.required ≡ true
      → q.supplied_by_user ≡ true
  unfolding is_missing
  is_missing-present qs i q e h r =
      let f : (q.required && not q.supplied_by_user) ≡ false = rw (is_missing, e) at h in
      ground (arith, f, r)

  pub handle-found :
      (ps : List (Param V)) (i : ℕ) (p : Param V)
      → get_elem? ps i ≡ some p
      → p.satisfied ≡ true
      → handle to_lowercase ps i ≡ p.value
  unfolding handle get_value
  handle-found ps i p e sat = rw (handle, e, sat) refl

  handle-HasValue :
      (group : List ℕ) (ps qs : List (Param V)) (i : ℕ) (p : Param V)
      → AllKept ps qs
      → any (is_missing to_lowercase qs) group ≡ false
      → Has i group
      → get_elem? ps i ≡ some p
      → (p.required ≡ true) ⊎ HasValue p
      → handle to_lowercase (mark_satisfied to_lowercase group qs) i ≢ none
  handle-HasValue group ps qs i p kept complete b e r none_there =
      let (q, at, k) = AllKept-at ps qs i p kept e in
      let (t, found, same, old, sat) = mark_satisfied-at group i qs q at in
      let present : HasValue q = elim r [
        | inl req ↦
            k.sound
              (is_missing-present qs i q at (any-Has qs i group b complete) (k.requirement ∙ req))
        | inr v ↦ k.value_kept v
      ] in
      present (
        sym same
        ∙ sym (handle-found (mark_satisfied to_lowercase group qs) i t found (sat b))
        ∙ none_there)

  pub find_group-IsOneOf :
      (ps : List (Param V)) (n : ℕ) (groups : List (List ℕ)) (group : List ℕ)
      → find_group to_lowercase ps n groups ≡ some group
      → IsOneOf group groups
  unfolding find_group
  find_group-IsOneOf ps n [] group h = cc
  find_group-IsOneOf ps n (g ∷ groups) group h =
      elim (Bool-cases (is_satisfied to_lowercase ps n g)) [
        | inl found ↦ inl (sym (some-inj (rw found at h)))
        | inr skipped ↦ inr (find_group-IsOneOf ps n groups group (rw skipped at h))
      ]

  -- Of an accepted command line there is a group all of whose parameters have values, if they are
  -- required or have defaults.
  pub parse_params-available :
      (groups : List (List ℕ)) (ps ps' : List (Param V)) (args : List Text)
      → AllSound ps
      → parse_params to_lowercase groups ps args ≡ ok ps'
      → (group : List ℕ) × IsOneOf group (all_groups to_lowercase ps groups)
        × ((i : ℕ) (p : Param V)
            → Has i group
            → get_elem? ps i ≡ some p
            → (p.required ≡ true) ⊎ HasValue p
            → handle to_lowercase ps' i ≢ none)
  parse_params-available groups ps ps' args s h =
      let (qs, group, consumed, marked, found) =
        parse_params-found to_lowercase groups ps ps' args h in
      let sat =
        find_group-is_satisfied to_lowercase qs (length args) (all_groups to_lowercase ps groups)
          group found in
      let complete = (is_satisfied-parts to_lowercase qs (length args) group sat).1 in
      (
        group,
        find_group-IsOneOf qs (length args) (all_groups to_lowercase ps groups) group found,
        λ i p b e r.
            subst (λ rs. handle to_lowercase rs i ≢ none) (sym marked)
              (handle-HasValue group ps qs i p
                (consume_all-AllKept to_lowercase args ps qs s consumed) complete b e r),
      )
