-- ===== src/Examples/Runs.antt =====
-- Runs of a few workers (src/run.rs).
use cql_stress.Configuration.{OperationContext, continue_flow, break_flow}
use cql_stress.Common.{
  ℕ, ◌+◌, ◌<◌, ◌≡◌, ◌≢◌, ◌↔◌, refl, false, List, ◌++◌, [], ◌∷◌, none, some, Result, ok, err, arith,
  get_elem?, length, ltb, if◌then◌else◌,
}
use cql_stress.Common.Int.{u64_mod}
use cql_stress.Run.{
  RateLimiter, WorkerContext, WorkerSession, Clock, new_session, ask_to_stop, should_stop,
  start_operation, end_operation, issue_next_start_time, acquire_id, schedule, issue_operation_id,
}
use cql_stress.Run.Rate.{issue_many, evenly, issue_many-eq-evenly}
use cql_stress.Run.Retries.{end_operation_retries, start_operation-retry}
use cql_stress.Run.Collect.{collect, collect_lem}
use cql_stress.Run.System.{
  System, new_system, busy, Reach, acquire, start, here, next, acquired, started, ended, finish,
  idle, Worker, next_worker,
}
use cql_stress.Run.System.Counter.{down_from}
use cql_stress.Run.System.Trials.{IsWithin, Reach-IsWithin}
use cql_stress.Run.System.Ids.{Reach-issued, Reach-distinct}
use cql_stress.Run.Loop.{World, run_worker}
use cql_stress.Run.Loop.Turns.{IsLimited, run_worker_ends}

abbrev per_second : RateLimiter
per_second = record { base = 500; increment_nanos = 1000; nanos_counter = 2000 }

issue_many-eq-evenly_example : issue_many 3 per_second ≡ evenly 3 2500 1000
issue_many-eq-evenly_example = issue_many-eq-evenly 3 per_second (omega arith)

issue_many_test : issue_many 3 per_second ≡ 2500 ∷ 3500 ∷ 4500 ∷ []
unfolding issue_many issue_next_start_time
issue_many_test = refl

abbrev seven : ℕ
seven = 7

abbrev one_failed : List (Result ℕ (Unit {0}))
one_failed = err 1 ∷ ok tt ∷ []

abbrev last_ended : List (Result ℕ (Unit {0}))
last_ended = ok tt ∷ []

abbrev context : WorkerContext
context = record { operation_counter = 0; rate_limiter = none; max_retries_per_op = 2 }

abbrev clock : Clock
clock = record { now = 10; later = 11; woken = λ t. t }

abbrev failed_once : WorkerSession
failed_once = record { op_id = 4; trial_idx = 1 }

end_operation_retries_example :
    (((end_operation context failed_once (err seven)).0 ≡ ok continue_flow)
      ↔ ((1 < 2) × (should_stop context ≡ false)))
    × (((end_operation context failed_once (err seven)).0 ≢ ok continue_flow)
        → end_operation context failed_once (err seven) ≡ (err 7, failed_once))
end_operation_retries_example = end_operation_retries context failed_once seven

tried_again : (end_operation context failed_once (err seven)).0 ≡ ok continue_flow
unfolding end_operation should_stop
tried_again = refl

start_operation-retry_example :
    (ctx : OperationContext) × (c' : WorkerContext) × (start_operation context clock
        (end_operation context failed_once (err seven)).1
      ≡ (some (ctx, record failed_once { trial_idx = 1 + 1 }), c'))
    × (ctx.operation_id ≡ 4)
    × (c'.operation_counter ≡ 0)
start_operation-retry_example = start_operation-retry context clock failed_once seven tried_again

collect_lem_example :
    (collect context (ok tt) last_ended ≡ (ok tt, context))
    × (collect context (ok tt) (one_failed ++ err 2 ∷ last_ended) ≡ (err 2, ask_to_stop context))
collect_lem_example = collect_lem context one_failed last_ended 2 (tt, tt)

-- two workers that both take an id and start
abbrev first : System ℕ
first = new_system context 2

abbrev second : System ℕ
second = acquired first 0 new_session

abbrev in_worker : ℕ → WorkerSession
in_worker id = record { op_id = id; trial_idx = 0 }

abbrev third : System ℕ
third = acquired second 1 new_session

abbrev fourth : System ℕ
fourth = started third 0 (in_worker 0) clock

abbrev fifth : System ℕ
fifth = started fourth 1 (in_worker 1) clock

reached : Reach first fifth
unfolding new_system acquired started acquire_id issue_operation_id schedule
reached =
    next
      (next
        (next (next here (acquire first 0 new_session refl)) (acquire second 1 new_session refl))
        (start third 0 (in_worker 0) clock refl))
      (start fourth 1 (in_worker 1) clock refl)

Reach-issued_example :
    (fifth.issued ≡ down_from (length fifth.issued)) × (fifth.context.operation_counter < u64_mod)
Reach-issued_example = Reach-issued context 2 fifth refl (omega arith) reached

abbrev in_execute : ℕ → OperationContext
in_execute id = record { operation_id = id; scheduled_start_time = 10; actual_start_time = 11 }

runs :
    (get_elem? fifth.workers 0 ≡ some (busy (in_worker 0) (in_execute 0)))
    × (get_elem? fifth.workers 1 ≡ some (busy (in_worker 1) (in_execute 1)))
unfolding new_system acquired started acquire_id issue_operation_id schedule
runs = (refl, refl)

Reach-distinct_example : (in_execute 0).operation_id ≢ (in_execute 1).operation_id
Reach-distinct_example =
    Reach-distinct context 2 fifth 0 1 (in_worker 0) (in_worker 1) (in_execute 0) (in_execute 1)
      refl (omega arith) reached (runs.0) (runs.1) (λ e. omega arith)

-- the first worker fails, and will try again
abbrev sixth : System ℕ
sixth = ended fifth 0 (in_worker 0) (err 7)

abbrev tried_once : Worker ℕ
tried_once = idle (record { op_id = 0; trial_idx = 1 })

reached_retry : Reach first sixth
reached_retry = next reached (finish fifth 0 (in_worker 0) (in_execute 0) (err 7) (runs.0))

to_try_again : get_elem? sixth.workers 0 ≡ some tried_once
unfolding new_system acquired started acquire_id issue_operation_id schedule ended end_operation
    should_stop next_worker
to_try_again = refl

Reach-IsWithin_example : IsWithin context.max_retries_per_op tried_once
Reach-IsWithin_example = Reach-IsWithin context 2 0 sixth tried_once reached_retry to_try_again

-- an operation that fails once and stops at id 2, with nobody else in the run
abbrev alone : World ℕ ℕ
alone = record {
  execute = λ s ctx. if ltb ctx.operation_id 2 then (err 5, s) else (ok break_flow, s);
  before = λ n c. c;
  during = λ n c. c;
  clock = λ n. clock;
}

alone-IsLimited : IsLimited alone 2
alone-IsLimited = record {
  breaks = λ op ctx h. ground arith;
  before_grows = λ n c. omega arith;
  before_keeps = λ n c. refl;
  during_grows = λ n c. omega arith;
  during_keeps = λ n c. refl;
}

run_worker_ends_example :
    (r : Result ℕ (Unit {0})) × (op : ℕ) × (run_worker 20 alone
        (record { context = context; session = new_session; operation = 0 })
      ≡ some (r, op))
run_worker_ends_example =
    run_worker_ends 2 alone 20 (record { context = context; session = new_session; operation = 0 })
      alone-IsLimited (omega arith) (omega arith)
