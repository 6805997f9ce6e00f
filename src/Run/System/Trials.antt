-- ===== src/Run/System/Trials.antt =====
-- How often the workers of a run have tried their operations, whatever the interleaving.
use cql_stress.Common.{
  ℕ, zero, suc, ◌≤◌, ◌≡◌, refl, sym, subst, ◌∙◌, List, Option, none, some, Result, ok, err, arith,
  get_elem?, set, replicate, get_elem?-set, inl, inr,
}
use cql_stress.Configuration.{ControlFlow, continue_flow, break_flow}
use cql_stress.Run.{
  WorkerContext, WorkerSession, new_session, ask_to_stop, acquire_id, schedule, end_operation,
}
use cql_stress.Run.Retries.{schedule-counter, end_operation-IsBounded}
use cql_stress.Run.System.{
  Worker, idle, waiting, busy, finished, System, new_system, took, acquired, started, ended,
  stopped, next_worker, Step, acquire, start, finish, stop, Reach, here, next,
}

acquire_id-max :
    (c : WorkerContext) (ws : WorkerSession)
    → (acquire_id c ws).1.max_retries_per_op ≡ c.max_retries_per_op
unfolding acquire_id
acquire_id-max c ws = ground arith

acquire_id-trial_idx :
    (c : WorkerContext) (ws ws' : WorkerSession)
    → (acquire_id c ws).0 ≡ some ws'
    → ws'.trial_idx ≡ ws.trial_idx
unfolding acquire_id
acquire_id-trial_idx c ws ws' h = ground arith

module _ {E : Type 0} where
  -- the session of a worker that has not ended has counted `max` retries at most
  abbrev pub IsWithin : ℕ → Worker E → Type 0
  IsWithin max (idle ws) = ws.trial_idx ≤ max
  IsWithin max (waiting ws) = ws.trial_idx ≤ max
  IsWithin max (busy ws ctx) = ws.trial_idx ≤ max
  IsWithin max (finished r) = Unit

  record AreWithin (max : ℕ) (s : System E) : Type 0 where
    configured : s.context.max_retries_per_op ≡ max
    each : (i : ℕ) (w : Worker E) → get_elem? s.workers i ≡ some w → IsWithin max w

  set-IsWithin :
      (max : ℕ) (ws : List (Worker E)) (i : ℕ) (new : Worker E)
      → IsWithin max new
      → ((j : ℕ) (w : Worker E) → get_elem? ws j ≡ some w → IsWithin max w)
      → (j : ℕ) (w : Worker E) → get_elem? (set ws i new) j ≡ some w
      → IsWithin max w
  set-IsWithin max ws i new n h j w e = elim (get_elem?-set ws i j new w e) [
    | inl here_now ↦ subst (IsWithin max) (sym here_now.1) n
    | inr elsewhere ↦ h j w elsewhere.1
  ]

  -- an id changes neither the retries nor their maximum
  took-AreWithin :
      (max : ℕ) (s : System E) (i : ℕ) (ws : WorkerSession)
      (t : Option WorkerSession × WorkerContext)
      → t.1.max_retries_per_op ≡ max
      → ((ws' : WorkerSession) → t.0 ≡ some ws' → ws'.trial_idx ≤ max)
      → AreWithin max s
      → AreWithin max (took s i ws t)
  unfolding took
  took-AreWithin max s i ws (none, c) m h v = record {
    configured = m;
    each = set-IsWithin max s.workers i (finished (ok tt)) tt v.each;
  }
  took-AreWithin max s i ws (some ws', c) m h v = record {
    configured = m;
    each = set-IsWithin max s.workers i (waiting ws') (h ws' refl) v.each;
  }

  next_worker-IsWithin :
      (max : ℕ) (r : Result E ControlFlow) (ws : WorkerSession)
      → ws.trial_idx ≤ max
      → IsWithin max (next_worker r ws)
  unfolding next_worker
  next_worker-IsWithin max (ok continue_flow) ws h = h
  next_worker-IsWithin max (ok break_flow) ws h = tt
  next_worker-IsWithin max (err e) ws h = tt

  Step-AreWithin : {s t : System E} (max : ℕ) → Step s t → AreWithin max s → AreWithin max t
  unfolding acquired started ended stopped ask_to_stop
  Step-AreWithin max (acquire s i ws h) v =
      took-AreWithin max s i ws (acquire_id s.context ws)
        (acquire_id-max s.context ws ∙ v.configured)
        (λ ws' e. omega (arith, acquire_id-trial_idx s.context ws ws' e, v.each i (idle ws) h)) v
  Step-AreWithin max (start s i ws clock h) v = record {
    configured = (schedule-counter s.context clock ws).1 ∙ v.configured;
    each =
        set-IsWithin max s.workers i (busy ws (schedule s.context clock ws).0)
          (v.each i (waiting ws) h) v.each;
  }
  Step-AreWithin max (finish s i ws ctx r h) v = record {
    configured = v.configured;
    each =
        let t = end_operation s.context ws r in
        set-IsWithin max s.workers i (next_worker t.0 t.1)
          (next_worker-IsWithin max t.0 t.1 (
            omega (
              arith,
              v.configured,
              end_operation-IsBounded s.context ws r
                  (omega (arith, v.configured, v.each i (busy ws ctx) h)),
            )))
          v.each;
  }
  Step-AreWithin max (stop s) v = record { configured = v.configured; each = v.each }

  Reach-AreWithin : {s t : System E} (max : ℕ) → AreWithin max s → Reach s t → AreWithin max t
  Reach-AreWithin max v here = v
  Reach-AreWithin max v (next r st) = Step-AreWithin max st (Reach-AreWithin max v r)

  replicate-IsWithin :
      (max n i : ℕ) (w : Worker E)
      → get_elem? (replicate n (idle new_session)) i ≡ some w
      → IsWithin max w
  replicate-IsWithin max zero i w h = cc
  replicate-IsWithin max (suc n) zero w h =
      let e : idle new_session ≡ w = cc in subst (IsWithin max) e (omega arith)
  replicate-IsWithin max (suc n) (suc i) w h = replicate-IsWithin max n i w h

  -- In every state that a run reaches, whatever the interleaving of the workers and of the requests
  -- to stop, the session of each worker that has not ended has counted no more retries than the
  -- configured maximum.
  pub Reach-IsWithin :
      (c : WorkerContext) (n i : ℕ) (t : System E) (w : Worker E)
      → Reach (new_system c n) t
      → get_elem? t.workers i ≡ some w
      → IsWithin c.max_retries_per_op w
  unfolding new_system
  Reach-IsWithin c n i t w r h =
      let start_state : AreWithin c.max_retries_per_op (new_system c n) = record {
        configured = refl;
        each = replicate-IsWithin c.max_retries_per_op n;
      } in
      (Reach-AreWithin c.max_retries_per_op start_state r).each i w h
