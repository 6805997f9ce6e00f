-- ===== src/Run/Collect.antt =====
-- The end of `do_run` and `run`, and the controller of a run.
use cql_stress.Common.{◌≡◌, refl, List, [], ◌∷◌, ◌++◌, Option, none, some, Result, ok, err, All}
use cql_stress.Run.{WorkerContext, ask_to_stop}

module _ {E : Type 0} where
  -- `worker_handles.next().await`: the results in the order in which the workers finish
  pub collect :
      WorkerContext
      → Result E (Unit {0})
      → List (Result E (Unit {0}))
      → Result E (Unit {0}) × WorkerContext
  collect c result [] = (result, c)
  collect c result (ok u ∷ rest) = collect c result rest
  collect c result (err e ∷ rest) = collect (ask_to_stop c) (err e) rest

  abbrev pub IsOk : Result E (Unit {0}) → Type 0
  IsOk (ok u) = Unit {0}
  IsOk (err e) = ⊥

  collect-ok :
      (c : WorkerContext) (result : Result E (Unit {0})) (rs : List (Result E (Unit {0})))
      → All IsOk rs
      → collect c result rs ≡ (result, c)
  unfolding collect
  collect-ok c result [] h = refl
  collect-ok c result (ok u ∷ rs) h = collect-ok c result rs h.1
  collect-ok c result (err e ∷ rs) h = absurd (h.0)

  collect-err :
      (c : WorkerContext) (result : Result E (Unit {0})) (before after : List (Result E (Unit {0})))
      (e : E)
      → All IsOk after
      → collect c result (before ++ err e ∷ after) ≡ (err e, ask_to_stop c)
  unfolding collect ask_to_stop
  collect-err c result [] after e h = collect-ok (ask_to_stop c) (err e) after h
  collect-err c result (ok u ∷ before) after e h = collect-err c result before after e h
  collect-err c result (err e' ∷ before) after e h =
      collect-err (ask_to_stop c) (err e') before after e h

  -- A run succeeds, with nobody asked to stop, if all workers do. If some fail, whatever the order
  -- in which they finish, the run's error is that of the last one to fail, and the other workers
  -- are asked to stop.
  pub collect_lem :
      (c : WorkerContext) (before after : List (Result E (Unit {0}))) (e : E)
      → All IsOk after
      → (collect c (ok tt) after ≡ (ok tt, c))
        × (collect c (ok tt) (before ++ err e ∷ after) ≡ (err e, ask_to_stop c))
  collect_lem c before after e h =
      (collect-ok c (ok tt) after h, collect-err c (ok tt) before after e h)

-- `run`: the channel is closed with no result if the run was aborted.
pub data RunError (E : Type 0) : Type 0 where
  failed : E → RunError E
  aborted : RunError E

pub run_result : {E : Type 0} → Option (Result E (Unit {0})) → Result (RunError E) (Unit {0})
run_result none = err aborted
run_result (some (ok u)) = ok u
run_result (some (err e)) = err (failed e)
