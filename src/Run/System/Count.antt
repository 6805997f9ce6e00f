-- ===== src/Run/System/Count.antt =====
-- The number of finished workers.
use cql_stress.Common.{
  ℕ, zero, suc, ◌+◌, ◌≤◌, ◌≡◌, List, [], ◌∷◌, some, arith, get_elem?, set, length, replicate,
}
use cql_stress.Run.System.{Worker, idle, waiting, busy, finished}

module _ {E : Type 0} where
  abbrev pub weight : Worker E → ℕ
  weight (finished r) = 1
  weight (idle s) = 0
  weight (waiting s) = 0
  weight (busy s ctx) = 0

  abbrev pub count_finished : List (Worker E) → ℕ
  count_finished [] = 0
  count_finished (w ∷ ws) = weight w + count_finished ws

  pub count_finished-le : (ws : List (Worker E)) → count_finished ws ≤ length ws
  count_finished-le [] = omega arith
  count_finished-le (finished r ∷ ws) = omega (arith, count_finished-le ws)
  count_finished-le (idle s ∷ ws) = omega (arith, count_finished-le ws)
  count_finished-le (waiting s ∷ ws) = omega (arith, count_finished-le ws)
  count_finished-le (busy s ctx ∷ ws) = omega (arith, count_finished-le ws)

  pub count_finished-set :
      (ws : List (Worker E)) (i : ℕ) (old new : Worker E)
      → get_elem? ws i ≡ some old
      → count_finished (set ws i new) + weight old ≡ count_finished ws + weight new
  count_finished-set [] i old new h = cc
  count_finished-set (w ∷ ws) zero old new h = let e : w ≡ old = ground arith in rw e (omega arith)
  count_finished-set (w ∷ ws) (suc i) old new h = omega (arith, count_finished-set ws i old new h)

  pub count_finished-lt :
      (ws : List (Worker E)) (i : ℕ) (old : Worker E)
      → get_elem? ws i ≡ some old
      → weight old ≡ 0
      → count_finished ws + 1 ≤ length ws
  count_finished-lt [] i old h z = cc
  count_finished-lt (w ∷ ws) zero old h z =
      let e : w ≡ old = ground arith in rw e (omega (arith, count_finished-le ws))
  count_finished-lt (finished r ∷ ws) (suc i) old h z =
      omega (arith, count_finished-lt ws i old h z)
  count_finished-lt (idle s ∷ ws) (suc i) old h z = omega (arith, count_finished-lt ws i old h z)
  count_finished-lt (waiting s ∷ ws) (suc i) old h z = omega (arith, count_finished-lt ws i old h z)
  count_finished-lt (busy s ctx ∷ ws) (suc i) old h z =
      omega (arith, count_finished-lt ws i old h z)

pub count_finished-replicate :
    {E : Type 0} (n : ℕ) (w : Worker E) → weight w ≡ 0 → count_finished (replicate n w) ≡ 0
count_finished-replicate zero w h = omega arith
count_finished-replicate (suc n) w h = omega (arith, count_finished-replicate n w h)
