-- ===== src/CassandraStress/JavaGenerate/Distributions/Bounds.antt =====
-- What a uniform distribution draws lies within its bounds.
use cql_stress.Common.{
  ℕ, zero, suc, true, none, ok, ensure-ok, ok-inj, ◌≡◌, refl, sym, ap, subst, ◌∙◌, ℤ, arith,
}
use cql_stress.Common.Int.{◌≤ℤ◌}
use cql_stress.CassandraStress.JavaGenerate.{JavaRandom, Floats}
use cql_stress.CassandraStress.JavaGenerate.Distributions.{
  UniformDistribution, new_uniform, uniform_i64, uniform_f64, clamp, clamp_asserts,
  bounds_not_in_order,
}

-- clamping keeps to the bounds, where its assertion holds
clamp_lem : (n low high : ℤ) → low ≤ℤ high → (low ≤ℤ clamp n low high) × (clamp n low high ≤ℤ high)
unfolding clamp
clamp_lem n low high h = ground arith

module _ {R F : Type 0} (java : JavaRandom R F) (float : Floats F) (now : ℕ) where
  -- the distribution after `k` samples
  abbrev pub drawn : ℕ → UniformDistribution R F → UniformDistribution R F
  drawn zero u = u
  drawn (suc k) u = (uniform_i64 java float now (drawn k u)).1

  drawn_bounds :
      (k : ℕ) (u : UniformDistribution R F)
      → ((drawn k u).lower ≡ u.lower) × ((drawn k u).upper ≡ u.upper)
  unfolding uniform_i64 uniform_f64
  drawn_bounds zero u = (refl, refl)
  drawn_bounds (suc k) u = drawn_bounds k u

  uniform_i64-within :
      (u : UniformDistribution R F)
      → float.to_i64 u.lower ≤ℤ float.to_i64 u.upper
      → (float.to_i64 u.lower ≤ℤ (uniform_i64 java float now u).0)
        × ((uniform_i64 java float now u).0 ≤ℤ float.to_i64 u.upper)
  unfolding uniform_i64
  uniform_i64-within u h = clamp_lem _ (float.to_i64 u.lower) (float.to_i64 u.upper) h

  new_uniform-ok :
      (lower upper : F) (u : UniformDistribution R F)
      → new_uniform java float now lower upper ≡ ok u
      → (u.lower ≡ lower) × (u.upper ≡ upper) × (float.lt lower upper ≡ true)
  unfolding new_uniform
  new_uniform-ok lower upper u h =
      let fresh : UniformDistribution R F = record { lower = lower; upper = upper; rng = none } in
      let (below, e) = ensure-ok (float.lt lower upper) bounds_not_in_order (ok fresh) h in
      let same : fresh ≡ u = ok-inj e in
      (sym (ap (λ d. d.lower) same), sym (ap (λ d. d.upper) same), below)

  -- Each sample of a uniform distribution lies between its bounds, cast to i64, and the assertion
  -- of clamp holds. The cast from f64 keeps the order.
  pub uniform_i64-bounds :
      ((x y : F) → float.lt x y ≡ true → float.to_i64 x ≤ℤ float.to_i64 y)
      → (lower upper : F) (u : UniformDistribution R F)
      → new_uniform java float now lower upper ≡ ok u
      → (k : ℕ)
      → (clamp_asserts (float.to_i64 (drawn k u).lower) (float.to_i64 (drawn k u).upper) ≡ true)
        × (float.to_i64 lower ≤ℤ (uniform_i64 java float now (drawn k u)).0)
        × ((uniform_i64 java float now (drawn k u)).0 ≤ℤ float.to_i64 upper)
  uniform_i64-bounds ordered lower upper u h k =
      let (low, high, below) = new_uniform-ok lower upper u h in
      let low' : (drawn k u).lower ≡ lower = (drawn_bounds k u).0 ∙ low in
      let high' : (drawn k u).upper ≡ upper = (drawn_bounds k u).1 ∙ high in
      let inside = ordered lower upper below in
      let within = uniform_i64-within (drawn k u) (
        subst (λ x. float.to_i64 x ≤ℤ float.to_i64 (drawn k u).upper) (sym low')
          (subst (λ y. float.to_i64 lower ≤ℤ float.to_i64 y) (sym high') inside)) in
      (
        rw (low', high') (ground (arith, inside)),
        subst (λ x. float.to_i64 x ≤ℤ (uniform_i64 java float now (drawn k u)).0) low' within.0,
        subst (λ x. (uniform_i64 java float now (drawn k u)).0 ≤ℤ float.to_i64 x) high' within.1,
      )
