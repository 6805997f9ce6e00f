-- ===== src/ScyllaBench/Workload/Sequential/Coverage.antt =====
-- A sequential workload that is used until it ends writes every row, in order.
use native.Mathlib.Nat.{mul-add-mod_self_left, mod-eq_of_lt}
use cql_stress.Common.{
  ap₂, ℕ, zero, suc, ◌+◌, ◌-◌, ◌*◌, ◌%◌, ◌≤◌, ◌<◌, min, ◌≡◌, refl, ap, ◌∙◌, List, [], ◌∷◌, ◌++◌,
  map, Option, none, some, ℤ, arith, append_assoc,
}
use native.Mathlib.Decide.{dec_lt}
use cql_stress.Common.Int.{u64_mod, as_i64, add_i64}
use cql_stress.ScyllaBench.Workload.Sequential.{
  SequentialConfig, Sequential, new_sequential, partition_key, next_keys, generate_keys,
}
use cql_stress.ScyllaBench.Workload.Sequential.Rows.{
  prepend, and_on, drain, row, rows_of, partition_rows, numbered_rows, key_rows, iteration_rows,
  all_rows, partition_rows-split, partition_rows-end, Fits,
}

module _ (c : SequentialConfig) (k : ℕ) (fits : Fits c k) where
  abbrev at : ℕ → ℕ → Sequential
  at p from = record { config = c; current_pk = p; current_ck = from }

  -- the rows that are left to a worker that is alone
  rows_left : ℕ → ℕ → ℕ → List (ℤ × ℤ)
  rows_left p from q = partition_rows c p from ++ numbered_rows c q (c.pks * c.iterations - q)

  abbrev calls_left : ℕ → ℕ → ℕ
  calls_left from q = c.cks_per_pk - from + (c.pks * c.iterations - q) * c.cks_per_pk

  abbrev to_from : ℕ → ℕ
  to_from from = min ((from + k) % u64_mod) c.cks_per_pk

  to_bounds :
      (from : ℕ) → from < c.cks_per_pk → (from < to_from from) × (to_from from ≤ c.cks_per_pk)
  to_bounds from h =
      let e : (from + k) % u64_mod ≡ from + k = omega (arith, fits.step) in
      (omega (arith, fits.rows), omega arith)

  -- An operation's rows are the first of those that were left.
  step_rows :
      (p from q : ℕ)
      → from < c.cks_per_pk
      → rows_left p from q
        ≡ map (row (next_keys (at p from) k).0) (next_keys (at p from) k).1
          ++ rows_left p (to_from from) q
  unfolding next_keys rows_left
  step_rows p from q h =
      rw
        (partition_rows-split c p from (to_from from) (omega (arith, (to_bounds from h).0))
          (to_bounds from h).1)
        (rw append_assoc)

  -- What `drain` returns from here: operations with the given rows.
  abbrev Writes : ℕ → Sequential → ℕ → List (ℤ × ℤ) → Type 0
  Writes fuel w q rows =
      (ops : List (ℤ × List ℤ)) × (drain fuel k w q ≡ some ops) × (rows_of ops ≡ rows)

  -- A call in the middle of a partition.
  generate_keys_inside :
      (p from q : ℕ)
      → from < c.cks_per_pk
      → generate_keys (at p from) q k ≡ (some (next_keys (at p from) k), at p (to_from from), q)
  unfolding generate_keys
  generate_keys_inside p from q h = ground arith

  -- A call at the end of a partition, with others left.
  generate_keys_next :
      (p q : ℕ)
      → q < c.pks * c.iterations
      → generate_keys (at p c.cks_per_pk) q k
        ≡ (some (next_keys (at q 0) k), at q (to_from 0), q + 1)
  unfolding generate_keys
  generate_keys_next p q h =
      let e : c.pks * c.iterations % u64_mod ≡ c.pks * c.iterations = omega (arith, fits.total) in
      let f : (q + 1) % u64_mod ≡ q + 1 = omega (arith, fits.total) in ground (arith, fits.repeats)

  -- A call at the end of the last partition.
  generate_keys_last :
      (p : ℕ) → (generate_keys (at p c.cks_per_pk) (c.pks * c.iterations) k).0 ≡ none
  unfolding generate_keys
  generate_keys_last p =
      let e : c.pks * c.iterations % u64_mod ≡ c.pks * c.iterations = omega (arith, fits.total) in
      ground (arith, fits.repeats)

  drain_more :
      (fuel q q' : ℕ) (w w' : Sequential) (op : ℤ × List ℤ) (rows : List (ℤ × ℤ))
      → generate_keys w q k ≡ (some op, w', q')
      → Writes fuel w' q' rows
      → Writes (suc fuel) w q (map (row op.0) op.1 ++ rows)
  unfolding drain rows_of
  drain_more fuel q q' w w' op rows e (ops, d, r) = (
    op ∷ ops,
    ap (and_on (drain fuel k)) e ∙ ap (prepend op) d,
    ap (λ t. map (row op.0) op.1 ++ t) r,
  )

  drain_end :
      (fuel q : ℕ) (w : Sequential) → (generate_keys w q k).0 ≡ none → Writes (suc fuel) w q []
  unfolding drain rows_of
  drain_end fuel q w e = ([], ended (generate_keys w q k) e, refl)
    where
      ended :
          (x : Option (ℤ × List ℤ) × Sequential × ℕ)
          → x.0 ≡ none
          → and_on (drain fuel k) x ≡ some []
      ended (none, w, q) h = refl
      ended (some op, w, q) h = cc

  rows_left-next :
      (p q : ℕ) → q < c.pks * c.iterations → rows_left p c.cks_per_pk q ≡ rows_left q 0 (q + 1)
  unfolding rows_left numbered_rows
  rows_left-next p q h =
      let e : c.pks * c.iterations - q ≡ suc (c.pks * c.iterations - (q + 1)) = omega arith in
      rw (partition_rows-end c p, e)

  rows_left-last : (p : ℕ) → rows_left p c.cks_per_pk (c.pks * c.iterations) ≡ []
  unfolding rows_left numbered_rows
  rows_left-last p =
      let e : c.pks * c.iterations - c.pks * c.iterations ≡ 0 = omega arith in
      rw (partition_rows-end c p, e)

  next_calls :
      {fuel : ℕ} (from q : ℕ)
      → q < c.pks * c.iterations
      → from ≡ c.cks_per_pk
      → calls_left from q < suc fuel
      → calls_left (to_from 0) (q + 1) < fuel
  next_calls from q more e b =
      let f : c.pks * c.iterations - q ≡ suc (c.pks * c.iterations - (q + 1)) = omega arith in
      omega (arith, ap (λ t. t * c.cks_per_pk) f, (to_bounds 0 fits.keys).0, fits.keys)

  drain-rows :
      (fuel p from q : ℕ)
      → from ≤ c.cks_per_pk
      → q ≤ c.pks * c.iterations
      → calls_left from q < fuel
      → Writes fuel (at p from) q (rows_left p from q)
  drain-rows zero p from q h l b = absurd (omega arith)
  drain-rows (suc fuel) p from q h l b = elim (dec_lt from c.cks_per_pk) [
    | yes inside ↦ rw (step_rows p from q inside) (
        drain_more fuel q q (at p from) (at p (to_from from)) (next_keys (at p from) k) _
          (generate_keys_inside p from q inside)
          (drain-rows fuel p (to_from from) q (to_bounds from inside).1 l
            (omega (arith, (to_bounds from inside).0))))
    | no outside ↦
        let e : from ≡ c.cks_per_pk = omega arith in
        elim (dec_lt q (c.pks * c.iterations)) [
          | yes more ↦
              rw (e, rows_left-next p q more, step_rows q 0 (q + 1) fits.keys)
                (drain_more fuel q (q + 1) (at p c.cks_per_pk) (at q (to_from 0))
                  (next_keys (at q 0) k) _ (generate_keys_next p q more)
                  (drain-rows fuel q (to_from 0) (q + 1) (to_bounds 0 fits.keys).1 (omega arith)
                    (next_calls from q more e b)))
          | no last ↦
              let f : q ≡ c.pks * c.iterations = omega arith in
              rw (e, f, rows_left-last p)
                (drain_end fuel (c.pks * c.iterations) (at p c.cks_per_pk) (generate_keys_last p))
        ]
  ]

rows_left-all :
    (c : SequentialConfig) (k : ℕ) (fits : Fits c k)
    → rows_left c k fits 0 c.cks_per_pk 0 ≡ numbered_rows c 0 (c.pks * c.iterations)
unfolding rows_left
rows_left-all c k fits =
    let e : c.pks * c.iterations - 0 ≡ c.pks * c.iterations = omega arith in
    rw (partition_rows-end c 0, e)

numbered_rows-append :
    (c : SequentialConfig) (p m n : ℕ)
    → numbered_rows c p (m + n) ≡ numbered_rows c p m ++ numbered_rows c (p + m) n
unfolding numbered_rows
numbered_rows-append c p zero n = ap₂ (numbered_rows c) (omega arith) (omega arith)
numbered_rows-append c p (suc m) n =
    let e : suc m + n ≡ suc (m + n) = omega arith in
    let f : p + suc m ≡ p + 1 + m = omega arith in
    rw (e, f, numbered_rows-append c (p + 1) m n, append_assoc) refl

-- the keys of a partition that is number `j` of its iteration
partition_rows-key_rows :
    (c : SequentialConfig) (p j : ℕ)
    → p % c.pks ≡ j
    → partition_rows c p 0 ≡ key_rows c (add_i64 (as_i64 j) c.partition_offset)
unfolding partition_rows key_rows partition_key
partition_rows-key_rows c p j h =
    let e : c.cks_per_pk - 0 ≡ c.cks_per_pk = omega arith in rw (e, h) refl

numbered_rows-iteration_rows :
    (c : SequentialConfig) (i j n : ℕ)
    → j + n ≤ c.pks
    → numbered_rows c (c.pks * i + j) n ≡ iteration_rows c j n
unfolding numbered_rows iteration_rows
numbered_rows-iteration_rows c i j zero h = refl
numbered_rows-iteration_rows c i j (suc n) h =
    let number : (c.pks * i + j) % c.pks ≡ j =
      mul-add-mod_self_left c.pks i j ∙ mod-eq_of_lt (omega arith) in
    let e : c.pks * i + j + 1 ≡ c.pks * i + (j + 1) = omega arith in
    rw
      (
        partition_rows-key_rows c (c.pks * i + j) j number,
        e,
        numbered_rows-iteration_rows c i (j + 1) n (omega arith),
      )
      refl

numbered_rows-from :
    (c : SequentialConfig) (i n : ℕ) → numbered_rows c (c.pks * i) (c.pks * n) ≡ all_rows c n
unfolding all_rows
numbered_rows-from c i zero =
    let e : c.pks * 0 ≡ 0 = omega arith in
    ap (numbered_rows c (c.pks * i)) e ∙ unfold numbered_rows in refl
numbered_rows-from c i (suc n) =
    let e : c.pks * suc n ≡ c.pks + c.pks * n = grind arith in
    let f : c.pks * i + c.pks ≡ c.pks * suc i = grind arith in
    let z : c.pks * i ≡ c.pks * i + 0 = omega arith in
    ap (numbered_rows c (c.pks * i)) e
    ∙ numbered_rows-append c (c.pks * i) c.pks (c.pks * n)
    ∙ ap₂ ◌++◌
        (ap (λ p. numbered_rows c p c.pks) z
          ∙ numbered_rows-iteration_rows c i 0 c.pks (omega arith))
        (ap (λ p. numbered_rows c p (c.pks * n)) f ∙ numbered_rows-from c (suc i) n)

numbered_rows-all_rows :
    (c : SequentialConfig) → numbered_rows c 0 (c.pks * c.iterations) ≡ all_rows c c.iterations
numbered_rows-all_rows c =
    let z : 0 ≡ c.pks * 0 = omega arith in
    ap (λ p. numbered_rows c p (c.pks * c.iterations)) z ∙ numbered_rows-from c 0 c.iterations

-- A worker that is alone on a new sequential workload, and asks for any positive number of rows
-- each time until the workload ends, does end, and has then written each row of each partition
-- exactly once per iteration: partition after partition, and in each the rows in order. The
-- iterations and the clustering keys are positive, and the numbers of partitions, of clustering
-- keys and of rows asked for do not add up beyond 64 bits.
pub drain-all_rows :
    (c : SequentialConfig) (k fuel : ℕ)
    → Fits c k
    → c.pks * c.iterations * c.cks_per_pk < fuel
    → (ops : List (ℤ × List ℤ)) × (drain fuel k (new_sequential c) 0 ≡ some ops)
      × (rows_of ops ≡ all_rows c c.iterations)
unfolding new_sequential
drain-all_rows c k fuel fits h =
    let e : c.pks * c.iterations - 0 ≡ c.pks * c.iterations = omega arith in
    rw (rows_left-all c k fits, numbered_rows-all_rows c) at
      (drain-rows c k fits fuel 0 c.cks_per_pk 0 (omega arith) (omega arith)
        (omega (arith, ap (λ t. t * c.cks_per_pk) e)))
