-- ===== src/Run/Rate.antt =====
-- The start times that a `RateLimiter` issues.
use cql_stress.Common.{ℕ, zero, suc, ◌+◌, ◌*◌, ◌%◌, ◌<◌, ◌≡◌, refl, ap, List, [], ◌∷◌, arith}
use cql_stress.Common.Int.{u64_mod}
use native.Mathlib.Nat.{add_assoc}
use cql_stress.Run.{RateLimiter, issue_next_start_time}

-- the start times of `n` calls in a row
unfoldable pub issue_many : ℕ → RateLimiter → List ℕ
unfolding issue_next_start_time
issue_many zero l = []
issue_many (suc n) l = (issue_next_start_time l).0 ∷ issue_many n (issue_next_start_time l).1

-- `n` times, evenly spaced
unfoldable pub evenly : ℕ → ℕ → ℕ → List ℕ
evenly zero start gap = []
evenly (suc n) start gap = start ∷ evenly n (start + gap) gap

-- From any point of a run, the next n start times are spaced by exactly the increment, as long as
-- the 64-bit counter does not wrap around: the rate is kept whatever the calls' timing.
pub issue_many-eq-evenly :
    (n : ℕ) (l : RateLimiter)
    → l.nanos_counter + n * l.increment_nanos < u64_mod
    → issue_many n l ≡ evenly n (l.base + l.nanos_counter) l.increment_nanos
unfolding issue_many evenly issue_next_start_time
issue_many-eq-evenly zero l h = refl
issue_many-eq-evenly (suc n) l h =
    rw
      (let e : (l.nanos_counter + l.increment_nanos) % u64_mod
            ≡ l.nanos_counter + l.increment_nanos =
          omega arith in
        e)
      (ap (λ t. (l.base + l.nanos_counter) ∷ t)
        (rw (add_assoc l.base l.nanos_counter l.increment_nanos) (
          issue_many-eq-evenly n (record l { nanos_counter = l.nanos_counter + l.increment_nanos })
            (omega arith))))
