-- ===== src/Run/Loop/Turns.antt =====
-- The loop of a worker ends.
use cql_stress.Configuration.{ControlFlow, OperationContext, continue_flow, break_flow}
use cql_stress.Common.{
  ℕ, zero, suc, ◌+◌, ◌-◌, ◌*◌, ◌≤◌, ◌<◌, ◌≡◌, ◌≢◌, ◌⊎◌, refl, ◌∙◌, Option, none, some, Result, ok,
  err, arith, Bool-cases, ltb, ◌==◌, if◌then◌else◌, inl, inr,
}
use cql_stress.Run.{WorkerContext, WorkerSession, end_operation, invalid_op_id_threshold}
use cql_stress.Run.Retries.{IsBounded, start_operation_again, schedule-counter}
use cql_stress.Run.Start.{start_operation_first, start_operation_over}
use cql_stress.Run.Loop.{WorkerState, Turn, again, over, World, conclude, respond, turn, run_worker}

-- what is left of the trials of an operation in its `t`-th retry
abbrev pub trials_left : ℕ → ℕ → ℕ
trials_left retries t = if t == 0 then 0 else retries + 1 - t

-- a bound on the turns that are left
abbrev pub turns_left : {S : Type 0} → ℕ → WorkerState S → ℕ
turns_left limit st =
    (limit + 1 - st.context.operation_counter) * (st.context.max_retries_per_op + 1)
    + trials_left st.context.max_retries_per_op st.session.trial_idx

lt-row : (a b r t : ℕ) → a + 1 ≤ b → t ≤ r → a * (r + 1) + t < b * (r + 1)
lt-row a b r t h k = grind arith

le-row : (a b r : ℕ) → a ≤ b → a * (r + 1) ≤ b * (r + 1)
le-row a b r h = grind arith

-- The bound falls when an operation is started, and when one is tried again.
module _ (limit k k' r t t' : ℕ) where
  abbrev Descends : Type 0
  Descends =
      (t' ≤ r)
      × ((limit + 1 - k') * (r + 1) + trials_left r t'
          < (limit + 1 - k) * (r + 1) + trials_left r t)

  descends_first : t ≡ 0 → k < limit → k + 1 ≤ k' → (t' ≡ 0) ⊎ ((t' ≡ 1) × (0 < r)) → Descends
  descends_first z l up e =
      let row =
        lt-row (limit + 1 - k') (limit + 1 - k) r (trials_left r t') (omega arith) (ground arith) in
      (ground arith, ground arith)

  descends_again : 0 < t → t ≤ r → k ≤ k' → (t' ≡ 0) ⊎ ((t' ≡ t + 1) × (t < r)) → Descends
  descends_again p b up e =
      let row = le-row (limit + 1 - k') (limit + 1 - k) r (omega arith) in
      (ground arith, ground arith)

module _ {E S : Type 0} where
  -- The operation stops at `limit` operations, and others only raise the counter.
  pub record IsLimited (w : World E S) (limit : ℕ) : Type 0 where
    pub breaks :
        (op : S) (ctx : OperationContext)
        → limit ≤ ctx.operation_id
        → (w.execute op ctx).0 ≡ ok break_flow
    pub before_grows :
        (n : ℕ) (c : WorkerContext) → c.operation_counter ≤ (w.before n c).operation_counter
    pub before_keeps :
        (n : ℕ) (c : WorkerContext) → (w.before n c).max_retries_per_op ≡ c.max_retries_per_op
    pub during_grows :
        (n : ℕ) (c : WorkerContext) → c.operation_counter ≤ (w.during n c).operation_counter
    pub during_keeps :
        (n : ℕ) (c : WorkerContext) → (w.during n c).max_retries_per_op ≡ c.max_retries_per_op

  -- What another turn says of the one before.
  conclude-again :
      (c : WorkerContext) (op : S) (r : Result E ControlFlow) (ws : WorkerSession)
      (st : WorkerState S)
      → conclude c op (end_operation c ws r) ≡ again st
      → (st.context ≡ c)
        × (r ≢ ok break_flow)
        × ((st.session.trial_idx ≡ 0)
            ⊎ ((st.session.trial_idx ≡ ws.trial_idx + 1) × (ws.trial_idx < c.max_retries_per_op)))
  unfolding conclude end_operation
  conclude-again c op (ok continue_flow) ws st h = ground arith
  conclude-again c op (ok break_flow) ws st h = cc
  conclude-again c op (err e) ws st h = ground arith

  -- A turn that starts operation `ctx` with its context's counter at `k`.
  respond-again :
      (limit : ℕ) (w : World E S) (n : ℕ) (op : S) (ctx : OperationContext) (ws : WorkerSession)
      (c : WorkerContext) (st : WorkerState S)
      → IsLimited w limit
      → respond w n op (some (ctx, ws), c) ≡ again st
      → (ctx.operation_id < limit)
        × (c.operation_counter ≤ st.context.operation_counter)
        × (st.context.max_retries_per_op ≡ c.max_retries_per_op)
        × ((st.session.trial_idx ≡ 0)
            ⊎ ((st.session.trial_idx ≡ ws.trial_idx + 1) × (ws.trial_idx < c.max_retries_per_op)))
  unfolding respond
  respond-again limit w n op ctx ws c st v h =
      let c' = w.during n c in
      let t = conclude-again c' (w.execute op ctx).1 (w.execute op ctx).0 ws st h in
      let live : ctx.operation_id < limit = elim (Bool-cases (ltb ctx.operation_id limit)) [
        | inl yes_live ↦ ground arith
        | inr past ↦ absurd (t.1 (v.breaks op ctx (ground arith)))
      ] in
      (
        live,
        rw (t.0) (v.during_grows n c),
        rw (t.0) (v.during_keeps n c),
        rw (v.during_keeps n c) at (t.2),
      )

  respond-started :
      (w : World E S) (n : ℕ) (op : S)
      (x : Option (OperationContext × WorkerSession) × WorkerContext) (st : WorkerState S)
      → respond w n op x ≡ again st
      → x.0 ≢ none
  unfolding respond
  respond-started w n op (none, c) st h = cc
  respond-started w n op (some (ctx, ws), c) st h = cc

  -- Another turn means that the bound on the turns left has fallen.
  turn-descends :
      (limit : ℕ) (w : World E S) (n : ℕ) (st st' : WorkerState S)
      → IsLimited w limit
      → IsBounded st.context st.session
      → turn w n st ≡ again st'
      → IsBounded st'.context st'.session × (turns_left limit st' < turns_left limit st)
  unfolding turn
  turn-descends limit w n st st' v b h =
      let c = w.before n st.context in
      elim (Bool-cases (st.session.trial_idx == 0)) [
        | inl first ↦ elim (Bool-cases (ltb c.operation_counter invalid_op_id_threshold)) [
          | inl live ↦
              let (ctx, ws, c', e, id, fresh, up, same) =
                start_operation_first c (w.clock n) st.session (ground arith) (ground arith) in
              let next = respond-again limit w n st.operation ctx ws c' st' v (rw e at h) in
              let r = next.2 ∙ same ∙ v.before_keeps n st.context in
              let grows = v.before_grows n st.context in
              rw r (
                descends_first limit st.context.operation_counter st'.context.operation_counter
                  st.context.max_retries_per_op st.session.trial_idx st'.session.trial_idx
                  (ground arith) (omega (arith, next.0)) (omega (arith, next.1))
                  (ground (arith, next.3, fresh, same, v.before_keeps n st.context)))
          | inr past ↦ absurd (
              respond-started w n st.operation _ st' h
                (start_operation_over c (w.clock n) st.session (ground arith) (ground arith)))
        ]
        | inr later ↦
            let e = start_operation_again c (w.clock n) st.session (ground arith) in
            let next = respond-again limit w n st.operation _ _ _ st' v (rw e at h) in
            let keeps = schedule-counter c (w.clock n) st.session in
            let r = next.2 ∙ keeps.1 ∙ v.before_keeps n st.context in
            let grows = v.before_grows n st.context in
            rw r (
              descends_again limit st.context.operation_counter st'.context.operation_counter
                st.context.max_retries_per_op st.session.trial_idx st'.session.trial_idx
                (ground arith) b (omega (arith, next.1, keeps.0))
                (ground (arith, next.3, keeps.1, v.before_keeps n st.context)))
      ]

  abbrev Ends : ℕ → World E S → WorkerState S → Type 0
  Ends fuel w st = (r : Result E (Unit {0})) × (op : S) × (run_worker fuel w st ≡ some (r, op))

  after_turn :
      (w : World E S) (fuel : ℕ) (st : WorkerState S) (t : Turn E S)
      → turn w fuel st ≡ t
      → ((st' : WorkerState S) → turn w fuel st ≡ again st' → Ends fuel w st')
      → Ends (suc fuel) w st
  unfolding run_worker
  after_turn w fuel st (again st') e rest =
      let (r, op, ends) = rest st' e in (r, op, rw (e, run_worker) ends)
  after_turn w fuel st (over r op) e rest = (r, op, rw (e, run_worker))

  -- A worker's loop ends, whatever its operation answers and whatever other workers do to the
  -- shared context meanwhile, if the operation answers Break from id limit on and the others only
  -- raise the counter: (limit + 1 - counter) * (max_retries + 1) turns, and what is left of the
  -- retries of an operation that was begun, are enough.
  pub run_worker_ends :
      (limit : ℕ) (w : World E S) (fuel : ℕ) (st : WorkerState S)
      → IsLimited w limit
      → IsBounded st.context st.session
      → turns_left limit st < fuel
      → (r : Result E (Unit {0})) × (op : S) × (run_worker fuel w st ≡ some (r, op))
  run_worker_ends limit w zero st v b h = absurd (omega arith)
  run_worker_ends limit w (suc fuel) st v b h = after_turn w fuel st (turn w fuel st) refl λ st' e.
      let (b', less) = turn-descends limit w fuel st st' v b e in
      run_worker_ends limit w fuel st' v b' (omega arith)
