-- ===== src/Run/System/Ids.antt =====
-- The ids that a run issues, whatever the interleaving of its workers.
use cql_stress.Common.{
  ℕ, zero, suc, ◌≡◌, ◌<◌, some, Result, ok, err, arith, get_elem?, length, replicate, inl, inr, ◌≢◌,
  refl, sym, ◌∙◌, ◌==◌, ltb, Bool-cases, subst,
}
use cql_stress.Common.Int.{u64_mod}
use cql_stress.Configuration.{ControlFlow, OperationContext, continue_flow, break_flow}
use cql_stress.Run.{
  WorkerContext, WorkerSession, Clock, new_session, invalid_op_id_threshold, end_operation,
}
use cql_stress.Run.Retries.{schedule-counter, end_operation_err}
use cql_stress.Run.System.{
  Worker, idle, waiting, busy, System, new_system, acquired, started, ended, stopped, next_worker,
  Step, acquire, start, finish, stop, Reach, here, next,
}
use cql_stress.Run.System.Count.{count_finished-le}
use cql_stress.Run.System.Counter.{
  down_from, IsCounted, new_system-IsCounted, Reach-IsCounted, acquired_first, acquired_over,
  acquired_again, room,
}
use cql_stress.Run.System.Owned.{Holds, IsAligned, IsOwned, set-IsOwned, set-IsOwned_fresh}

module _ {E : Type 0} where
  -- Whatever the interleaving of the workers and of the requests to stop, the ids that were issued
  -- are 0, 1, 2, … with none left out and none issued twice, and the counter has not wrapped
  -- around. The run starts with a counter of 0 and fewer than 2 ^ 63 workers.
  pub Reach-issued :
      (c : WorkerContext) (n : ℕ) (t : System E)
      → c.operation_counter ≡ 0
      → n < invalid_op_id_threshold
      → Reach (new_system c n) t
      → (t.issued ≡ down_from (length t.issued)) × (t.context.operation_counter < u64_mod)
  Reach-issued c n t z h r =
      let v = Reach-IsCounted (new_system-IsCounted c n z h) r in
      (v.in_order, omega (arith, v.bounded, v.size, count_finished-le t.workers))

  abbrev Owned : System E → Type 0
  Owned s = IsOwned s.workers (length s.issued)

  acquired-Owned :
      (s : System E) (i : ℕ) (ws : WorkerSession)
      → get_elem? s.workers i ≡ some (idle ws)
      → IsCounted s
      → Owned s
      → Owned (acquired s i ws)
  acquired-Owned s i ws h v o = elim (Bool-cases (ws.trial_idx == 0)) [
    | inl first ↦ elim (Bool-cases (ltb s.context.operation_counter invalid_op_id_threshold)) [
      | inl live ↦ rw (acquired_first s i ws (ground arith) (ground arith)) (
          set-IsOwned_fresh s.workers (length s.issued) i _
            (λ id e. sym e ∙ v.counted (ground arith)) tt o)
      | inr over ↦
          rw (acquired_over s i ws (ground arith) (ground arith) (room s i ws h v))
            (set-IsOwned s.workers (length s.issued) i (idle ws) _ h (λ id e. absurd e) tt o)
    ]
    | inr again ↦
        rw (acquired_again s i ws (ground arith))
          (set-IsOwned s.workers (length s.issued) i (idle ws) _ h (λ id e. (ground arith, e)) tt o)
  ]

  started-Owned :
      (s : System E) (i : ℕ) (ws : WorkerSession) (clock : Clock)
      → get_elem? s.workers i ≡ some (waiting ws)
      → Owned s
      → Owned (started s i ws clock)
  unfolding started
  started-Owned s i ws clock h o =
      set-IsOwned s.workers (length s.issued) i (waiting ws) _ h (λ id e. e)
        ((schedule-counter s.context clock ws).2) o

  next_worker-Holds :
      (c : WorkerContext) (ws : WorkerSession) (r : Result E ControlFlow) (id : ℕ)
      → Holds (next_worker (end_operation c ws r).0 (end_operation c ws r).1) id
      → ws.op_id ≡ id
  unfolding end_operation next_worker
  next_worker-Holds c ws (ok continue_flow) id h = absurd (omega arith)
  next_worker-Holds c ws (ok break_flow) id h = absurd h
  next_worker-Holds c ws (err e) id h = elim (end_operation_err c ws e) [
    | inl q ↦ absurd (subst (λ t. Holds (next_worker t.0 t.1) id) q h)
    | inr q ↦ (subst (λ t. Holds (next_worker t.0 t.1) id) q h).1
  ]

  next_worker-IsAligned :
      (r : Result E ControlFlow) (ws : WorkerSession) → IsAligned (next_worker r ws)
  unfolding next_worker
  next_worker-IsAligned (ok continue_flow) ws = tt
  next_worker-IsAligned (ok break_flow) ws = tt
  next_worker-IsAligned (err e) ws = tt

  ended-Owned :
      (s : System E) (i : ℕ) (ws : WorkerSession) (ctx : OperationContext)
      (r : Result E ControlFlow)
      → get_elem? s.workers i ≡ some (busy ws ctx)
      → Owned s
      → Owned (ended s i ws r)
  unfolding ended
  ended-Owned s i ws ctx r h o =
      set-IsOwned s.workers (length s.issued) i (busy ws ctx) _ h (next_worker-Holds s.context ws r)
        (next_worker-IsAligned (end_operation s.context ws r).0 (end_operation s.context ws r).1) o

  stopped-Owned : (s : System E) → Owned s → Owned (stopped s)
  unfolding stopped
  stopped-Owned s o = o

  Step-Owned : {s t : System E} → Step s t → IsCounted s → Owned s → Owned t
  Step-Owned (acquire s i ws h) v o = acquired-Owned s i ws h v o
  Step-Owned (start s i ws clock h) v o = started-Owned s i ws clock h o
  Step-Owned (finish s i ws ctx r h) v o = ended-Owned s i ws ctx r h o
  Step-Owned (stop s) v o = stopped-Owned s o

  Reach-Owned : {s t : System E} → IsCounted s → Owned s → Reach s t → Owned t
  Reach-Owned v o here = o
  Reach-Owned v o (next r st) = Step-Owned st (Reach-IsCounted v r) (Reach-Owned v o r)

  replicate-idle :
      (n i : ℕ) (v : Worker E)
      → get_elem? (replicate n (idle new_session)) i ≡ some v
      → v ≡ idle new_session
  replicate-idle zero i v h = cc
  replicate-idle (suc n) zero v h = ground arith
  replicate-idle (suc n) (suc i) v h = replicate-idle n i v h

  new_system-Owned : (c : WorkerContext) (n : ℕ) → Owned (new_system c n)
  unfolding new_system
  new_system-Owned c n = record {
    at_most = λ i j id v w p q hv hw. absurd (holds_none n i id v p hv);
    below = λ i id v p hv. absurd (holds_none n i id v p hv);
    aligned = λ i v p. rw (replicate-idle n i v p) tt;
  }
    where
      holds_none :
          (n i id : ℕ) (v : Worker E)
          → get_elem? (replicate n (idle new_session)) i ≡ some v
          → Holds v id
          → ⊥
      holds_none n i id v p hv =
          let e : (0 < 0) × (0 ≡ id) = subst (λ t. Holds t id) (replicate-idle n i v p) hv in
          omega arith

  -- Whatever the interleaving, two workers in execute at the same time have operations with
  -- different ids. The run starts with a counter of 0 and fewer than 2 ^ 63 workers.
  pub Reach-distinct :
      (c : WorkerContext) (n : ℕ) (t : System E) (i j : ℕ) (v w : WorkerSession)
      (a b : OperationContext)
      → c.operation_counter ≡ 0
      → n < invalid_op_id_threshold
      → Reach (new_system c n) t
      → get_elem? t.workers i ≡ some (busy v a)
      → get_elem? t.workers j ≡ some (busy w b)
      → i ≢ j
      → a.operation_id ≢ b.operation_id
  Reach-distinct c n t i j v w a b z h r p q differ e =
      let o = Reach-Owned (new_system-IsCounted c n z h) (new_system-Owned c n) r in
      differ (
        o.at_most i j v.op_id (busy v a) (busy w b) p q refl
          (sym (o.aligned j (busy w b) q) ∙ sym e ∙ o.aligned i (busy v a) p))
