-- ===== src/ScyllaBench/Workload/Sequential/Rows.antt =====
-- The rows of a sequential workload.
-- What a worker writes that calls `generate_keys` until the workload ends.
use cql_stress.Common.{
  ℕ, zero, suc, ◌+◌, ◌-◌, ◌*◌, ◌≤◌, ◌<◌, ◌≡◌, ap, List, [], ◌∷◌, ◌++◌, map, Option, none, some, ℤ,
  arith, ap₂,
}
use mathlib.Core.List.{map-append, map-map}
use cql_stress.Common.Int.{u64_mod, as_i64, add_i64}
use cql_stress.ScyllaBench.Workload.Sequential.{
  SequentialConfig, Sequential, count_up, partition_key, generate_keys,
}

unfoldable pub prepend : (ℤ × List ℤ) → Option (List (ℤ × List ℤ)) → Option (List (ℤ × List ℤ))
prepend op none = none
prepend op (some ops) = some (op ∷ ops)

unfoldable pub and_on :
    (Sequential → ℕ → Option (List (ℤ × List ℤ)))
    → Option (ℤ × List ℤ) × Sequential × ℕ
    → Option (List (ℤ × List ℤ))
unfolding prepend
and_on rest (none, w, next_pk) = some []
and_on rest (some op, w, next_pk) = prepend op (rest w next_pk)

-- The operations of a worker that asks for `ck_count` rows each time; `none` if the fuel runs out
-- before the workload ends.
unfoldable pub drain : ℕ → ℕ → Sequential → ℕ → Option (List (ℤ × List ℤ))
unfolding and_on
drain zero ck_count w next_pk = none
drain (suc fuel) ck_count w next_pk =
    and_on (drain fuel ck_count) (generate_keys w next_pk ck_count)

abbrev pub row : ℤ → ℤ → ℤ × ℤ
row pk ck = (pk, ck)

-- the rows of an operation: its partition key with each clustering key
unfoldable pub rows_of : List (ℤ × List ℤ) → List (ℤ × ℤ)
rows_of [] = []
rows_of ((pk, cks) ∷ ops) = map (row pk) cks ++ rows_of ops

-- rows `from` to the end of the partition number `p`
unfoldable pub partition_rows : SequentialConfig → ℕ → ℕ → List (ℤ × ℤ)
partition_rows c p from =
    map (λ ck. row (partition_key c p) (as_i64 ck)) (count_up from (c.cks_per_pk - from))

-- the rows of `n` partitions from number `p`
unfoldable pub numbered_rows : SequentialConfig → ℕ → ℕ → List (ℤ × ℤ)
numbered_rows c p zero = []
numbered_rows c p (suc n) = partition_rows c p 0 ++ numbered_rows c (p + 1) n

-- The rows that the configuration asks for, said without the numbers of the partitions: each iteration
-- has the keys `partition_offset`, `partition_offset` + 1 and so on, `pks` of them.
unfoldable pub key_rows : SequentialConfig → ℤ → List (ℤ × ℤ)
key_rows c pk = map (λ ck. row pk (as_i64 ck)) (count_up 0 c.cks_per_pk)

-- the rows of `n` keys, from `partition_offset` + `j` on
unfoldable pub iteration_rows : SequentialConfig → ℕ → ℕ → List (ℤ × ℤ)
unfolding key_rows
iteration_rows c j zero = []
iteration_rows c j (suc n) =
    key_rows c (add_i64 (as_i64 j) c.partition_offset) ++ iteration_rows c (j + 1) n

unfoldable pub all_rows : SequentialConfig → ℕ → List (ℤ × ℤ)
unfolding iteration_rows
all_rows c zero = []
all_rows c (suc n) = iteration_rows c 0 c.pks ++ all_rows c n

pub count_up-append :
    (from m n : ℕ) → count_up from (m + n) ≡ count_up from m ++ count_up (from + m) n
unfolding count_up
count_up-append from zero n = ap₂ count_up (omega arith) (omega arith)
count_up-append from (suc m) n =
    let e : suc m + n ≡ suc (m + n) = omega arith in
    let f : from + suc m ≡ from + 1 + m = omega arith in
    rw (e, f) (ap (λ t. from ∷ t) (count_up-append (from + 1) m n))

module _ (c : SequentialConfig) (p : ℕ) where
  -- an operation takes the first of the rows that are left
  pub partition_rows-split :
      (from to : ℕ)
      → from ≤ to
      → to ≤ c.cks_per_pk
      → partition_rows c p from
        ≡ map (row (partition_key c p)) (map as_i64 (count_up from (to - from)))
          ++ partition_rows c p to
  unfolding partition_rows
  partition_rows-split from to h k =
      let e : c.cks_per_pk - from ≡ (to - from) + (c.cks_per_pk - to) = omega arith in
      let f : from + (to - from) ≡ to = omega arith in
      rw (e, count_up-append from (to - from) (c.cks_per_pk - to), f, map-append, map-map)

  pub partition_rows-end : partition_rows c p c.cks_per_pk ≡ []
  unfolding partition_rows count_up
  partition_rows-end = let e : c.cks_per_pk - c.cks_per_pk ≡ 0 = omega arith in rw e

-- The numbers of a run in which no u64 wraps around.
pub record Fits (c : SequentialConfig) (ck_count : ℕ) : Type 0 where
  pub repeats : 0 < c.iterations
  pub keys : 0 < c.cks_per_pk
  pub rows : 0 < ck_count
  pub total : c.pks * c.iterations < u64_mod
  pub step : c.cks_per_pk + ck_count < u64_mod
