-- ===== src/Run/System/Owned.antt =====
-- Which worker is at which operation.
use cql_stress.Common.{
  ℕ, suc, ◌≡◌, ◌<◌, List, some, arith, get_elem?, set, get_elem?-set, inl, inr, ◌≢◌, ◌⊎◌, sym,
  subst,
}
use cql_stress.Run.System.{Worker, idle, waiting, busy, finished}

module _ {E : Type 0} where
  -- The operation that a worker is at, if it is at one: between its trials too.
  abbrev pub Holds : Worker E → ℕ → Type 0
  Holds (idle ws) id = (0 < ws.trial_idx) × (ws.op_id ≡ id)
  Holds (waiting ws) id = ws.op_id ≡ id
  Holds (busy ws ctx) id = ws.op_id ≡ id
  Holds (finished r) id = ⊥

  -- A worker in `execute` was given the id of its session.
  abbrev pub IsAligned : Worker E → Type 0
  IsAligned (busy ws ctx) = ctx.operation_id ≡ ws.op_id
  IsAligned (idle ws) = Unit {0}
  IsAligned (waiting ws) = Unit {0}
  IsAligned (finished r) = Unit {0}

  pub record IsOwned (workers : List (Worker E)) (count : ℕ) : Type 0 where
    pub at_most :
        (i j id : ℕ) (v w : Worker E)
        → get_elem? workers i ≡ some v
        → get_elem? workers j ≡ some w
        → Holds v id
        → Holds w id
        → i ≡ j
    pub below : (i id : ℕ) (v : Worker E) → get_elem? workers i ≡ some v → Holds v id → id < count
    pub aligned : (i : ℕ) (v : Worker E) → get_elem? workers i ≡ some v → IsAligned v

  -- a worker that goes on with its own operation, or ends
  pub set-IsOwned :
      (ws : List (Worker E)) (count i : ℕ) (old new : Worker E)
      → get_elem? ws i ≡ some old
      → ((id : ℕ) → Holds new id → Holds old id)
      → IsAligned new
      → IsOwned ws count
      → IsOwned (set ws i new) count
  set-IsOwned ws count i old new h keep al o = record {
    at_most = λ a b id v w p q hv hw.
        at_most_set a b id v w hv hw (get_elem?-set ws i a new v p) (get_elem?-set ws i b new w q);
    below = λ a id v p hv. below_set a id v hv (get_elem?-set ws i a new v p);
    aligned = λ a v p. aligned_set a v (get_elem?-set ws i a new v p);
  }
    where
      aligned_set :
          (a : ℕ) (v : Worker E)
          → ((i ≡ a) × (v ≡ new)) ⊎ ((i ≢ a) × (get_elem? ws a ≡ some v))
          → IsAligned v
      aligned_set a v (inl (e, f)) = subst IsAligned (sym f) al
      aligned_set a v (inr (e, f)) = o.aligned a v f

      below_set :
          (a id : ℕ) (v : Worker E)
          → Holds v id
          → ((i ≡ a) × (v ≡ new)) ⊎ ((i ≢ a) × (get_elem? ws a ≡ some v))
          → id < count
      below_set a id v hv (inl (e, f)) = o.below i id old h (keep id (subst (λ t. Holds t id) f hv))
      below_set a id v hv (inr (e, f)) = o.below a id v f hv

      at_most_set :
          (a b id : ℕ) (v w : Worker E)
          → Holds v id
          → Holds w id
          → ((i ≡ a) × (v ≡ new)) ⊎ ((i ≢ a) × (get_elem? ws a ≡ some v))
          → ((i ≡ b) × (w ≡ new)) ⊎ ((i ≢ b) × (get_elem? ws b ≡ some w))
          → a ≡ b
      at_most_set a b id v w hv hw (inl (e, f)) (inl (e', f')) = omega arith
      at_most_set a b id v w hv hw (inl (e, f)) (inr (e', f')) =
          absurd (e' (o.at_most i b id old w h f' (keep id (subst (λ t. Holds t id) f hv)) hw))
      at_most_set a b id v w hv hw (inr (e, f)) (inl (e', f')) =
          absurd (e (o.at_most i a id old v h f (keep id (subst (λ t. Holds t id) f' hw)) hv))
      at_most_set a b id v w hv hw (inr (e, f)) (inr (e', f')) = o.at_most a b id v w f f' hv hw

  -- a worker that takes the next id
  pub set-IsOwned_fresh :
      (ws : List (Worker E)) (count i : ℕ) (new : Worker E)
      → ((id : ℕ) → Holds new id → id ≡ count)
      → IsAligned new
      → IsOwned ws count
      → IsOwned (set ws i new) (suc count)
  set-IsOwned_fresh ws count i new fresh al o = record {
    at_most = λ a b id v w p q hv hw.
        at_most_set a b id v w hv hw (get_elem?-set ws i a new v p) (get_elem?-set ws i b new w q);
    below = λ a id v p hv. below_set a id v hv (get_elem?-set ws i a new v p);
    aligned = λ a v p. aligned_set a v (get_elem?-set ws i a new v p);
  }
    where
      aligned_set :
          (a : ℕ) (v : Worker E)
          → ((i ≡ a) × (v ≡ new)) ⊎ ((i ≢ a) × (get_elem? ws a ≡ some v))
          → IsAligned v
      aligned_set a v (inl (e, f)) = subst IsAligned (sym f) al
      aligned_set a v (inr (e, f)) = o.aligned a v f

      below_set :
          (a id : ℕ) (v : Worker E)
          → Holds v id
          → ((i ≡ a) × (v ≡ new)) ⊎ ((i ≢ a) × (get_elem? ws a ≡ some v))
          → id < suc count
      below_set a id v hv (inl (e, f)) = omega (arith, fresh id (subst (λ t. Holds t id) f hv))
      below_set a id v hv (inr (e, f)) = omega (arith, o.below a id v f hv)

      at_most_set :
          (a b id : ℕ) (v w : Worker E)
          → Holds v id
          → Holds w id
          → ((i ≡ a) × (v ≡ new)) ⊎ ((i ≢ a) × (get_elem? ws a ≡ some v))
          → ((i ≡ b) × (w ≡ new)) ⊎ ((i ≢ b) × (get_elem? ws b ≡ some w))
          → a ≡ b
      at_most_set a b id v w hv hw (inl (e, f)) (inl (e', f')) = omega arith
      at_most_set a b id v w hv hw (inl (e, f)) (inr (e', f')) =
          absurd (omega (arith, fresh id (subst (λ t. Holds t id) f hv), o.below b id w f' hw))
      at_most_set a b id v w hv hw (inr (e, f)) (inl (e', f')) =
          absurd (omega (arith, fresh id (subst (λ t. Holds t id) f' hw), o.below a id v f hv))
      at_most_set a b id v w hv hw (inr (e, f)) (inr (e', f')) = o.at_most a b id v w f f' hv hw
