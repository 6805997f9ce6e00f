-- ===== src/Run/System/Counter.antt =====
-- The shared counter of a run, whatever the interleaving of its workers.
use cql_stress.Common.{
  ℕ, zero, suc, ◌+◌, ◌≤◌, ◌<◌, ◌≡◌, refl, ap, ap₂, ◌∙◌, List, [], ◌∷◌, some, Result, ok, arith,
  get_elem?, set, length, length-set, length-replicate, ltb, Bool-cases, ◌==◌, inl, inr,
}
use cql_stress.Common.Int.{u64_mod}
use cql_stress.Configuration.{ControlFlow, OperationContext}
use cql_stress.Run.{
  WorkerContext, WorkerSession, Clock, ask_to_stop, schedule, invalid_op_id_threshold,
  end_operation,
}
use cql_stress.Run.Acquire.{acquire_id_first, acquire_id_over, acquire_id_again}
use cql_stress.Run.Retries.{schedule-counter}
use cql_stress.Run.System.{
  idle, waiting, busy, finished, System, new_system, took, acquired, started, ended, stopped,
  next_worker, Step, acquire, start, finish, stop, Reach, here, next,
}
use cql_stress.Run.System.Count.{count_finished, count_finished-lt, count_finished-set}

-- n - 1, …, 1, 0
abbrev pub down_from : ℕ → List ℕ
down_from zero = []
down_from (suc n) = n ∷ down_from n

module _ {E : Type 0} where
  -- The invariant of the shared counter. While nobody has asked to stop, the counter is the number
  -- of ids issued; at and above the threshold, it has passed it once for each finished worker at
  -- most, so it never wraps around.
  pub record IsCounted (s : System E) : Type 0 where
    pub in_order : s.issued ≡ down_from (length s.issued)
    pub few : length s.issued ≤ invalid_op_id_threshold
    pub counted :
        s.context.operation_counter < invalid_op_id_threshold
        → s.context.operation_counter ≡ length s.issued
    pub bounded : s.context.operation_counter ≤ invalid_op_id_threshold + count_finished s.workers
    pub size : length s.workers < invalid_op_id_threshold

  module _ (s : System E) (i : ℕ) (ws : WorkerSession) where
    pub acquired_first :
        ws.trial_idx ≡ 0
        → s.context.operation_counter < invalid_op_id_threshold
        → acquired s i ws ≡ record {
          context = record s.context { operation_counter = s.context.operation_counter + 1 };
          workers = set s.workers i (waiting (record ws { op_id = s.context.operation_counter }));
          issued = s.context.operation_counter ∷ s.issued;
        }
    unfolding acquired
    acquired_first h k = ap (took s i ws) (acquire_id_first s.context ws h k) ∙ ground arith

    pub acquired_over :
        ws.trial_idx ≡ 0
        → invalid_op_id_threshold ≤ s.context.operation_counter
        → s.context.operation_counter + 1 < u64_mod
        → acquired s i ws ≡ record s {
          context = record s.context { operation_counter = s.context.operation_counter + 1 };
          workers = set s.workers i (finished (ok tt));
        }
    unfolding acquired
    acquired_over h k l = ap (took s i ws) (acquire_id_over s.context ws h k l)

    pub acquired_again :
        0 < ws.trial_idx → acquired s i ws ≡ record s { workers = set s.workers i (waiting ws) }
    unfolding acquired
    acquired_again h = ap (took s i ws) (acquire_id_again s.context ws h) ∙ ground arith

    module _ (h : get_elem? s.workers i ≡ some (idle ws)) (v : IsCounted s) where
      pub room : s.context.operation_counter + 1 < u64_mod
      room = omega (arith, v.bounded, v.size, count_finished-lt s.workers i (idle ws) h)

      first_IsCounted :
          s.context.operation_counter < invalid_op_id_threshold
          → IsCounted (record {
            context = record s.context { operation_counter = s.context.operation_counter + 1 };
            workers = set s.workers i (waiting (record ws { op_id = s.context.operation_counter }));
            issued = s.context.operation_counter ∷ s.issued;
          })
      first_IsCounted k = record {
        in_order = ap₂ ◌∷◌ (v.counted k) (v.in_order);
        few = omega (arith, v.counted k);
        counted = λ l. omega (arith, v.counted k);
        bounded = omega (
          arith,
          v.bounded,
          count_finished-set s.workers i (idle ws)
              (waiting (record ws { op_id = s.context.operation_counter })) h,
        );
        size = rw length-set (v.size);
      }

      over_IsCounted :
          invalid_op_id_threshold ≤ s.context.operation_counter
          → IsCounted (record s {
            context = record s.context { operation_counter = s.context.operation_counter + 1 };
            workers = set s.workers i (finished (ok tt));
          })
      over_IsCounted k = record {
        in_order = v.in_order;
        few = v.few;
        counted = λ l. absurd (omega arith);
        bounded =
            omega (arith, v.bounded, count_finished-set s.workers i (idle ws) (finished (ok tt)) h);
        size = rw length-set (v.size);
      }

      again_IsCounted : IsCounted (record s { workers = set s.workers i (waiting ws) })
      again_IsCounted = record {
        in_order = v.in_order;
        few = v.few;
        counted = v.counted;
        bounded = omega (arith, v.bounded, count_finished-set s.workers i (idle ws) (waiting ws) h);
        size = rw length-set (v.size);
      }

    acquired-IsCounted :
        get_elem? s.workers i ≡ some (idle ws) → IsCounted s → IsCounted (acquired s i ws)
    acquired-IsCounted h v = elim (Bool-cases (ws.trial_idx == 0)) [
      | inl first ↦ elim (Bool-cases (ltb s.context.operation_counter invalid_op_id_threshold)) [
        | inl live ↦
            rw (acquired_first (ground arith) (ground arith)) (first_IsCounted h v (ground arith))
        | inr over ↦
            rw (acquired_over (ground arith) (ground arith) (room h v))
              (over_IsCounted h v (ground arith))
      ]
      | inr again ↦ rw (acquired_again (ground arith)) (again_IsCounted h v)
    ]

  started-IsCounted :
      (s : System E) (i : ℕ) (ws : WorkerSession) (clock : Clock)
      → get_elem? s.workers i ≡ some (waiting ws)
      → IsCounted s
      → IsCounted (started s i ws clock)
  unfolding started
  started-IsCounted s i ws clock h v =
      let c = schedule-counter s.context clock ws in
      record {
        in_order = v.in_order;
        few = v.few;
        counted = rw (c.0) (v.counted);
        bounded = omega (
          arith,
          c.0,
          v.bounded,
          count_finished-set s.workers i (waiting ws) (busy ws (schedule s.context clock ws).0) h,
        );
        size = rw length-set (v.size);
      }

  ended-IsCounted :
      (s : System E) (i : ℕ) (ws : WorkerSession) (ctx : OperationContext)
      (r : Result E ControlFlow)
      → get_elem? s.workers i ≡ some (busy ws ctx)
      → IsCounted s
      → IsCounted (ended s i ws r)
  unfolding ended
  ended-IsCounted s i ws ctx r h v =
      let (answer, ws') = end_operation s.context ws r in
      record {
        in_order = v.in_order;
        few = v.few;
        counted = v.counted;
        bounded = omega (
          arith,
          v.bounded,
          count_finished-set s.workers i (busy ws ctx) (next_worker answer ws') h,
        );
        size = rw length-set (v.size);
      }

  stopped-IsCounted : (s : System E) → IsCounted s → IsCounted (stopped s)
  unfolding stopped ask_to_stop
  stopped-IsCounted s v = record {
    in_order = v.in_order;
    few = v.few;
    counted = λ l. absurd (omega arith);
    bounded = omega arith;
    size = v.size;
  }

  pub Step-IsCounted : {s t : System E} → Step s t → IsCounted s → IsCounted t
  Step-IsCounted (acquire s i ws h) v = acquired-IsCounted s i ws h v
  Step-IsCounted (start s i ws clock h) v = started-IsCounted s i ws clock h v
  Step-IsCounted (finish s i ws ctx r h) v = ended-IsCounted s i ws ctx r h v
  Step-IsCounted (stop s) v = stopped-IsCounted s v

  pub new_system-IsCounted :
      (c : WorkerContext) (n : ℕ)
      → c.operation_counter ≡ 0
      → n < invalid_op_id_threshold
      → IsCounted (new_system c n)
  unfolding new_system
  new_system-IsCounted c n z h = record {
    in_order = refl;
    few = omega arith;
    counted = λ l. z;
    bounded = omega arith;
    size = rw length-replicate h;
  }

  pub Reach-IsCounted : {s t : System E} → IsCounted s → Reach s t → IsCounted t
  Reach-IsCounted v here = v
  Reach-IsCounted v (next r st) = Step-IsCounted st (Reach-IsCounted v r)
