-- ===== src/CassandraStress/JavaGenerate/Distributions/Creates.antt =====
-- A factory that was read creates its distribution.
use cql_stress.Common.{
  ℕ, Bool, true, false, not, List, [], ◌∷◌, Option, none, Result, ok, err, ensure, ◌>>◌, ◌>>=◌,
  ensure-ok, ok-inj, ◌≡◌, ap, subst, Bool-cases, inl, inr, if◌then◌else◌, ◌||◌, ℤ, pos,
}
use cql_stress.Common.Int.{eqb_ℤ}
use cql_stress.Text.{Text, codes, ◌is◌}
use cql_stress.Distribution.{Description, classic, parse_description}
use cql_stress.CassandraStress.Sequence.{new_seq, lt_ℤ}
use cql_stress.CassandraStress.JavaGenerate.{JavaRandom, Floats}
use cql_stress.CassandraStress.JavaGenerate.Distributions.{
  new_uniform, new_normal, verify_args, bounds_not_in_order,
}
use cql_stress.CassandraStress.JavaGenerate.Distributions.Factories.{
  DistributionFactory, FactoryError, seq_factory, uniform_factory, normal_factory, map_err, i64_arg,
  new_seq_factory, new_uniform_factory, new_normal_factory, parse_fixed, parse_seq, parse_uniform,
  parse_normal, fixed_of_args, seq_of_args, uniform_of_args, normal_of_args, description,
  distribution, inverted_distribution, invalid_distribution_name, parse_named, parse_distribution,
  normal_parameters, create,
}

ok-ne-err : {E A : Type 0} {a : A} {e : E} → ¬ ((let m : Result E A = err e in m) ≡ ok a)
ok-ne-err h = cc

-- a property of the answer of a computation, if there is one
abbrev Holds : {E A : Type 0} → (A → Type 0) → Result E A → Type 0
Holds P m = (a : _) → m ≡ ok a → P a

bind-Holds :
    {E A B : Type 0} (P : B → Type 0) (m : Result E A) (next : A → Result E B)
    → ((a : A) → Holds P (next a))
    → Holds P (m >>= next)
bind-Holds P (err e) next h b k = absurd (ok-ne-err k)
bind-Holds P (ok a) next h b k = h a b k

then-Holds :
    {E B : Type 0} (P : B → Type 0) (m : Result E (Unit {0})) (next : Result E B)
    → Holds P next
    → Holds P (m >> next)
then-Holds P (err e) next h b k = absurd (ok-ne-err k)
then-Holds P (ok a) next h b k = h b k

if-Holds :
    {E A : Type 0} (P : A → Type 0) (test : Bool) (m n : Result E A)
    → Holds P m
    → Holds P n
    → Holds P (if test then m else n)
if-Holds P true m n h k = h
if-Holds P false m n h k = k

map_err-Holds :
    {E A : Type 0} (P : A → Type 0) (f : E → FactoryError) (m : Result E A)
    → Holds P m
    → Holds P (map_err f m)
map_err-Holds P f (err e) h a k = absurd (ok-ne-err k)
map_err-Holds P f (ok a) h b k = h b (ap ok (ok-inj k))

module _ {R F : Type 0} (java : JavaRandom R F) (float : Floats F) (now : ℕ)
    (read_f64 : Text → Option F) where
  -- The creation does not panic.
  abbrev pub Creates : DistributionFactory F → Type 0
  Creates f = ¬ (create java float now f ≡ none)

  new_seq_factory-Creates :
      (min max : ℤ) (f : DistributionFactory F)
      → new_seq_factory float read_f64 min max ≡ ok f
      → Creates f
  unfolding new_seq_factory create new_seq
  new_seq_factory-Creates min max f h =
      let (below, e) = ensure-ok (lt_ℤ min max) bounds_not_in_order (ok (seq_factory min max)) h in
      subst Creates (ok-inj e) (rw below (λ k. cc))

  new_uniform_factory-Creates :
      (min max : F) (f : DistributionFactory F)
      → new_uniform_factory float read_f64 min max ≡ ok f
      → Creates f
  unfolding new_uniform_factory create new_uniform
  new_uniform_factory-Creates min max f h =
      let (below, e) =
        ensure-ok (float.lt min max) bounds_not_in_order (ok (uniform_factory min max)) h in
      subst Creates (ok-inj e) (rw below (λ k. cc))

  new_normal_factory-Creates :
      (min max : ℤ) (mean stdev : F) (f : DistributionFactory F)
      → new_normal_factory float read_f64 min max mean stdev ≡ ok f
      → Creates f
  unfolding new_normal_factory create new_normal verify_args
  new_normal_factory-Creates min max mean stdev f h = elim (Bool-cases (lt_ℤ min max)) [
    | inl below ↦ elim (Bool-cases (float.lt (float.of_i64 (pos 0)) stdev)) [
      | inl positive ↦
          let e : ok (normal_factory min max mean stdev) ≡ ok f = rw (below, positive) at h in
          subst Creates (ok-inj e) (rw (below, positive) (λ k. cc))
      | inr e ↦ absurd (ok-ne-err (rw (below, e) at h))
    ]
    | inr e ↦ absurd (ok-ne-err (rw e at h))
  ]

  fixed_of_args-Creates : (args : List Text) → Holds Creates (fixed_of_args float read_f64 args)
  unfolding fixed_of_args create
  fixed_of_args-Creates [] = λ f h. absurd (ok-ne-err h)
  fixed_of_args-Creates (value ∷ rest) =
      bind-Holds Creates (i64_arg value) _ (λ v f h. subst Creates (ok-inj h) (λ k. cc))

  seq_of_args-Creates : (args : List Text) → Holds Creates (seq_of_args float read_f64 args)
  unfolding seq_of_args
  seq_of_args-Creates [] = λ f h. absurd (ok-ne-err h)
  seq_of_args-Creates (first ∷ []) = λ f h. absurd (ok-ne-err h)
  seq_of_args-Creates (first ∷ second ∷ rest) = bind-Holds Creates (i64_arg first) _ (λ min.
      bind-Holds Creates (i64_arg second) _
        (λ max. map_err-Holds Creates distribution _ (new_seq_factory-Creates min max)))

  uniform_of_args-Creates : (args : List Text) → Holds Creates (uniform_of_args float read_f64 args)
  unfolding uniform_of_args create
  uniform_of_args-Creates [] = λ f h. absurd (ok-ne-err h)
  uniform_of_args-Creates (first ∷ []) = λ f h. absurd (ok-ne-err h)
  uniform_of_args-Creates (first ∷ second ∷ rest) = bind-Holds Creates (i64_arg first) _ (λ min.
      bind-Holds Creates (i64_arg second) _ (λ max.
        if-Holds Creates (eqb_ℤ min max) _ _ (λ f h. subst Creates (ok-inj h) (λ k. cc))
          (map_err-Holds Creates distribution _
            (new_uniform_factory-Creates (float.of_i64 min) (float.of_i64 max)))))

  normal_of_args-Creates : (args : List Text) → Holds Creates (normal_of_args float read_f64 args)
  unfolding normal_of_args
  normal_of_args-Creates [] = λ f h. absurd (ok-ne-err h)
  normal_of_args-Creates (first ∷ []) = λ f h. absurd (ok-ne-err h)
  normal_of_args-Creates (first ∷ second ∷ rest) = bind-Holds Creates (i64_arg first) _ (λ min.
      bind-Holds Creates (i64_arg second) _ (λ max.
        bind-Holds Creates (normal_parameters float read_f64 min max rest) _
          (λ p. map_err-Holds Creates distribution _ (new_normal_factory-Creates min max p.0 p.1))))

  parse_named-Creates : (desc : Description) → Holds Creates (parse_named float read_f64 desc)
  unfolding parse_named parse_fixed parse_seq parse_uniform parse_normal
  parse_named-Creates desc =
      if-Holds Creates (desc.name is codes "fixed") _ _
        (then-Holds Creates _ _ (fixed_of_args-Creates desc.args))
        (if-Holds Creates (desc.name is codes "seq") _ _
          (then-Holds Creates _ _ (seq_of_args-Creates desc.args))
          (if-Holds Creates (desc.name is codes "uniform") _ _
            (then-Holds Creates _ _ (uniform_of_args-Creates desc.args))
            (if-Holds Creates
              (desc.name is codes "gaussian"
                || (desc.name is codes "gauss"
                    || (desc.name is codes "norm" || desc.name is codes "normal")))
              (parse_normal float read_f64 desc) (err invalid_distribution_name)
              (then-Holds Creates _ _ (normal_of_args-Creates desc.args))
              (λ f h. absurd (ok-ne-err h)))))

  -- If the text of a distribution is accepted, the creation of the distribution does not panic: the
  -- factory has checked what the distribution checks.
  pub parse_distribution-Creates :
      (to_lowercase : Text → Text) (s : Text) (f : DistributionFactory F)
      → parse_distribution float read_f64 to_lowercase s ≡ ok f
      → Creates f
  unfolding parse_distribution
  parse_distribution-Creates to_lowercase s =
      bind-Holds Creates (map_err description (parse_description (to_lowercase s) classic)) _
        (λ desc.
          then-Holds Creates (ensure (not desc.inverted) inverted_distribution) _
            (parse_named-Creates desc))
