-- ===== src/Run/System.antt =====
-- A run as a system: the workers of `do_run`, which share one context, and what may happen next.
-- An atomic read-modify-write is one step, so every interleaving of the workers is a sequence of
-- steps.
mod Count
pub mod Counter
mod Owned
pub mod Ids
pub mod Trials
use cql_stress.Configuration.{ControlFlow, OperationContext, continue_flow, break_flow}
use cql_stress.Common.{
  ℕ, ◌≡◌, List, [], ◌∷◌, none, some, Option, Result, ok, err, get_elem?, set, replicate, ◌==◌,
  if◌then◌else◌,
}
use cql_stress.Run.{
  WorkerContext, WorkerSession, Clock, new_session, ask_to_stop, acquire_id, schedule,
  end_operation,
}

-- Where a worker is in the loop of `make_runnable!` (src/configuration.rs).
pub data Worker (E : Type 0) : Type 0 where
  -- about to call `start_operation`
  idle : WorkerSession → Worker E
  -- with an id, about to take its start time
  waiting : WorkerSession → Worker E
  -- in `execute`
  busy : WorkerSession → OperationContext → Worker E
  finished : Result E (Unit {0}) → Worker E

-- `issued` lists the ids that were taken from the counter, the last one first. The program keeps
-- no such list.
pub record System (E : Type 0) : Type 0 where
  pub context : WorkerContext
  pub workers : List (Worker E)
  pub issued : List ℕ

unfoldable pub new_system : {E : Type 0} → WorkerContext → ℕ → System E
new_system c concurrency = record {
  context = c;
  workers = replicate concurrency (idle new_session);
  issued = [];
}

module _ {E : Type 0} where
  -- the match on what `start_operation` got from the counter
  unfoldable pub took :
      System E → ℕ → WorkerSession → Option WorkerSession × WorkerContext → System E
  took s i ws (none, c) = record s { context = c; workers = set s.workers i (finished (ok tt)) }
  took s i ws (some ws', c) = record s {
    context = c;
    workers = set s.workers i (waiting ws');
    issued = if ws.trial_idx == 0 then ws'.op_id ∷ s.issued else s.issued;
  }

  unfoldable pub acquired : System E → ℕ → WorkerSession → System E
  unfolding took
  acquired s i ws = took s i ws (acquire_id s.context ws)

  unfoldable pub started : System E → ℕ → WorkerSession → Clock → System E
  started s i ws clock =
      let (ctx, c) = schedule s.context clock ws in
      record s { context = c; workers = set s.workers i (busy ws ctx) }

  -- the match on the result of `end_operation`, with its `?`
  unfoldable pub next_worker : Result E ControlFlow → WorkerSession → Worker E
  next_worker (ok continue_flow) ws = idle ws
  next_worker (ok break_flow) ws = finished (ok tt)
  next_worker (err e) ws = finished (err e)

  unfoldable pub ended : System E → ℕ → WorkerSession → Result E ControlFlow → System E
  unfolding next_worker
  ended s i ws r =
      let (answer, ws') = end_operation s.context ws r in
      record s { workers = set s.workers i (next_worker answer ws') }

  unfoldable pub stopped : System E → System E
  stopped s = record s { context = ask_to_stop s.context }

  -- `stop` is the timer, the controller or `do_run` itself, at any time.
  pub data Step : System E → System E → Type 0 where
    acquire :
        (s : System E) (i : ℕ) (ws : WorkerSession)
        → get_elem? s.workers i ≡ some (idle ws)
        → Step s (acquired s i ws)
    start :
        (s : System E) (i : ℕ) (ws : WorkerSession) (clock : Clock)
        → get_elem? s.workers i ≡ some (waiting ws)
        → Step s (started s i ws clock)
    finish :
        (s : System E) (i : ℕ) (ws : WorkerSession) (ctx : OperationContext)
        (r : Result E ControlFlow)
        → get_elem? s.workers i ≡ some (busy ws ctx)
        → Step s (ended s i ws r)
    stop : (s : System E) → Step s (stopped s)

  pub data Reach (s : System E) : System E → Type 0 where
    here : Reach s s
    next : {t u : System E} → Reach s t → Step t u → Reach s u
