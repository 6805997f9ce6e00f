-- ===== src/CassandraStress/Settings/Params/Kept.antt =====
-- What arguments leave as it is in the parameters: a value is kept, and a supplied parameter has one.
use cql_stress.Common.{
  ℕ, zero, suc, ◌≡◌, refl, subst, ◌∙◌, Bool-cases, inl, inr, true, not, List, [], ◌∷◌, none, some,
  Result, ok, get_elem?, ok_or, ◌>>=◌, ensure-ok, question-ok, ok-inj,
}
use cql_stress.Text.{Text, byte_length, slice_from}
use cql_stress.CassandraStress.Settings.Params.{
  Param, ParamError, given_twice, bad_value, slice_panics, try_match, parse_param, consume,
  consume_all,
}
use cql_stress.CassandraStress.Settings.Params.Supplied.{consume_all-ok}

module _ {V : Type 0} where
  abbrev pub HasValue : Param V → Type 0
  HasValue p = ¬ (p.value ≡ none)

  -- A parameter that the user supplied has a value.
  abbrev pub IsSound : Param V → Type 0
  IsSound p = p.supplied_by_user ≡ true → HasValue p

  -- a parameter before and after some arguments
  pub record Kept (p q : Param V) : Type 0 where
    pub requirement : q.required ≡ p.required
    pub mark : q.satisfied ≡ p.satisfied
    pub value_kept : HasValue p → HasValue q
    pub sound : IsSound q

  abbrev pub AllKept : List (Param V) → List (Param V) → Type 0
  AllKept [] [] = Unit
  AllKept [] (q ∷ qs) = ⊥
  AllKept (p ∷ ps) [] = ⊥
  AllKept (p ∷ ps) (q ∷ qs) = Kept p q × AllKept ps qs

  abbrev pub AllSound : List (Param V) → Type 0
  AllSound [] = Unit
  AllSound (p ∷ ps) = IsSound p × AllSound ps

  pub AllSound-AllKept : (ps : List (Param V)) → AllSound ps → AllKept ps ps
  AllSound-AllKept [] h = tt
  AllSound-AllKept (p ∷ ps) h = (
    record { requirement = refl; mark = refl; value_kept = λ v. v; sound = h.0 },
    AllSound-AllKept ps h.1,
  )

  pub AllKept-AllSound : (ps qs : List (Param V)) → AllKept ps qs → AllSound qs
  AllKept-AllSound [] [] h = tt
  AllKept-AllSound [] (q ∷ qs) h = absurd h
  AllKept-AllSound (p ∷ ps) [] h = absurd h
  AllKept-AllSound (p ∷ ps) (q ∷ qs) h = (h.0.sound, AllKept-AllSound ps qs h.1)

  AllKept-trans : (ps qs rs : List (Param V)) → AllKept ps qs → AllKept qs rs → AllKept ps rs
  AllKept-trans [] [] [] h k = tt
  AllKept-trans [] [] (r ∷ rs) h k = absurd k
  AllKept-trans [] (q ∷ qs) rs h k = absurd h
  AllKept-trans (p ∷ ps) [] rs h k = absurd h
  AllKept-trans (p ∷ ps) (q ∷ qs) [] h k = absurd k
  AllKept-trans (p ∷ ps) (q ∷ qs) (r ∷ rs) h k = (
    record {
      requirement = k.0.requirement ∙ h.0.requirement;
      mark = k.0.mark ∙ h.0.mark;
      value_kept = λ v. k.0.value_kept (h.0.value_kept v);
      sound = k.0.sound;
    },
    AllKept-trans ps qs rs h.1 k.1,
  )

  -- the parameter in a cell, before and after
  pub AllKept-at :
      (ps qs : List (Param V)) (i : ℕ) (p : Param V)
      → AllKept ps qs
      → get_elem? ps i ≡ some p
      → (q : Param V) × (get_elem? qs i ≡ some q) × Kept p q
  AllKept-at [] qs i p h e = cc
  AllKept-at (p' ∷ ps) [] i p h e = absurd h
  AllKept-at (p' ∷ ps) (q ∷ qs) zero p h e =
      let same : p' ≡ p = cc in (q, refl, subst (λ r. Kept r q) same h.0)
  AllKept-at (p' ∷ ps) (q ∷ qs) (suc i) p h e = AllKept-at ps qs i p h.1 e

module _ (to_lowercase : Text → Text) {V : Type 0} where
  parse_param-Kept :
      (p p' : Param V) (arg : Text) → parse_param to_lowercase p arg ≡ ok p' → Kept p p'
  unfolding parse_param
  parse_param-Kept p p' arg h =
      let supply : V → Result ParamError (Param V) =
        λ v. ok (record p { value = some v; supplied_by_user = true }) in
      let reading : Text → Result ParamError (Param V) =
        λ s. ok_or (p.read s) bad_value >>= supply in
      let sliced : Result ParamError Text =
        ok_or (slice_from (byte_length p.prefix) arg) slice_panics in
      let (test, taken) = ensure-ok (not p.supplied_by_user) given_twice (sliced >>= reading) h in
      let (s, read, cut) = question-ok reading sliced p' taken in
      let (v, found, got) = question-ok supply (ok_or (p.read s) bad_value) p' read in
      subst (Kept p) (ok-inj found) (record {
        requirement = refl;
        mark = refl;
        value_kept = λ old e. cc;
        sound = λ supplied e. cc;
      })

  consume-AllKept :
      (arg : Text) (ps ps' : List (Param V))
      → AllSound ps
      → consume to_lowercase arg ps ≡ ok ps'
      → AllKept ps ps'
  unfolding consume
  consume-AllKept arg [] ps' s h = cc
  consume-AllKept arg (p ∷ ps) ps' s h = elim (Bool-cases (try_match to_lowercase p arg)) [
    | inl matches ↦
        let (p', found, parsed) = question-ok _ _ _ (rw matches at h) in
        let kept : AllKept (p ∷ ps) (p' ∷ ps) =
          (parse_param-Kept p p' arg parsed, AllSound-AllKept ps s.1) in
        subst (AllKept (p ∷ ps)) (ok-inj found) kept
    | inr differs ↦
        let (qs, found, parsed) = question-ok _ _ _ (rw differs at h) in
        let same : Kept p p = record {
          requirement = refl;
          mark = refl;
          value_kept = λ v. v;
          sound = s.0;
        } in
        let kept : AllKept (p ∷ ps) (p ∷ qs) = (same, consume-AllKept arg ps qs s.1 parsed) in
        subst (AllKept (p ∷ ps)) (ok-inj found) kept
  ]

  pub consume_all-AllKept :
      (args : List Text) (ps ps' : List (Param V))
      → AllSound ps
      → consume_all to_lowercase args ps ≡ ok ps'
      → AllKept ps ps'
  unfolding consume_all
  consume_all-AllKept [] ps ps' s h = subst (AllKept ps) (ok-inj h) (AllSound-AllKept ps s)
  consume_all-AllKept (arg ∷ args) ps ps' s h =
      let (qs, first, others) = consume_all-ok to_lowercase arg args ps ps' h in
      let kept = consume-AllKept arg ps qs s first in
      AllKept-trans ps qs ps' kept
        (consume_all-AllKept args qs ps' (AllKept-AllSound ps qs kept) others)
