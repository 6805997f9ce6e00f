-- ===== src/CassandraStress/Settings/Params/Supplied.antt =====
-- Every argument of an accepted command line is consumed by a parameter of its own.
use cql_stress.Common.{
  ℕ, suc, ◌+◌, ◌≡◌, refl, ap, sym, subst, Bool-cases, inl, inr, ◌∙◌, true, false, not, List, [],
  ◌∷◌, some, Result, ok, err, if◌then◌else◌, length, ok_or, ◌>>=◌, arith, ensure-ok, question-ok,
  ok-inj,
}
use cql_stress.Text.{Text, byte_length, slice_from}
use cql_stress.CassandraStress.Settings.Params.{
  Param, ParamError, given_twice, bad_value, slice_panics, try_match, parse_param, consume,
  consume_all,
}

-- the parameters that the user supplied
pub all_supplied : {V : Type 0} → List (Param V) → ℕ
all_supplied [] = 0
all_supplied (p ∷ ps) = if p.supplied_by_user then suc (all_supplied ps) else all_supplied ps

module _ (to_lowercase : Text → Text) {V : Type 0} where
  parse_param-supplies :
      (p p' : Param V) (arg : Text)
      → parse_param to_lowercase p arg ≡ ok p'
      → (p.supplied_by_user ≡ false) × (p'.supplied_by_user ≡ true)
  unfolding parse_param
  parse_param-supplies p p' arg h =
      let supply : V → Result ParamError (Param V) =
        λ v. ok (record p { value = some v; supplied_by_user = true }) in
      let reading : Text → Result ParamError (Param V) =
        λ s. ok_or (p.read s) bad_value >>= supply in
      let sliced : Result ParamError Text =
        ok_or (slice_from (byte_length p.prefix) arg) slice_panics in
      let (test, taken) = ensure-ok (not p.supplied_by_user) given_twice (sliced >>= reading) h in
      let (s, read, cut) = question-ok reading sliced p' taken in
      let (v, found, got) = question-ok supply (ok_or (p.read s) bad_value) p' read in
      (ground arith, subst (λ q. q.supplied_by_user ≡ true) (ok-inj found) refl)

  consume-supplies :
      (arg : Text) (ps ps' : List (Param V))
      → consume to_lowercase arg ps ≡ ok ps'
      → all_supplied ps' ≡ suc (all_supplied ps)
  unfolding consume all_supplied
  consume-supplies arg [] ps' h = cc
  consume-supplies arg (p ∷ ps) ps' h = elim (Bool-cases (try_match to_lowercase p arg)) [
    | inl matches ↦
        let (p', found, parsed) = question-ok _ _ _ (rw matches at h) in
        let (before, after) = parse_param-supplies p p' arg parsed in
        subst (λ qs. all_supplied qs ≡ suc (all_supplied (p ∷ ps))) (ok-inj found)
          (rw (before, after) refl)
    | inr differs ↦
        let (qs, found, parsed) = question-ok _ _ _ (rw differs at h) in
        let ih = consume-supplies arg ps qs parsed in
        subst (λ qs. all_supplied qs ≡ suc (all_supplied (p ∷ ps))) (ok-inj found) (ground arith)
  ]

  pub consume_all-ok :
      (arg : Text) (args : List Text) (ps ps' : List (Param V))
      → consume_all to_lowercase (arg ∷ args) ps ≡ ok ps'
      → (qs : List (Param V)) × (consume to_lowercase arg ps ≡ ok qs)
        × (consume_all to_lowercase args qs ≡ ok ps')
  unfolding consume_all
  consume_all-ok arg args ps ps' h = go (consume to_lowercase arg ps) refl h
    where
      go :
          (m : Result ParamError (List (Param V)))
          → consume to_lowercase arg ps ≡ m
          → (elim m [ err e ↦ err e | ok qs ↦ consume_all to_lowercase args qs ]) ≡ ok ps'
          → (qs : List (Param V)) × (consume to_lowercase arg ps ≡ ok qs)
            × (consume_all to_lowercase args qs ≡ ok ps')
      go (err e) k l = cc
      go (ok qs) k l = (qs, k, l)

  -- If all arguments are consumed, each was consumed by another parameter, and by one that had not
  -- been supplied: the number of supplied parameters grows by the number of arguments.
  pub consume_all-supplies :
      (args : List Text) (ps ps' : List (Param V))
      → consume_all to_lowercase args ps ≡ ok ps'
      → all_supplied ps' ≡ all_supplied ps + length args
  unfolding consume_all
  consume_all-supplies [] ps ps' h = ap all_supplied (sym (ok-inj h)) ∙ omega arith
  consume_all-supplies (arg ∷ args) ps ps' h =
      let (qs, first, others) = consume_all-ok arg args ps ps' h in
      omega (arith, consume-supplies arg ps qs first, consume_all-supplies args qs ps' others)
