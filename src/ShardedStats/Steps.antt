-- ===== src/ShardedStats/Steps.antt =====
-- What every step keeps.
use cql_stress.Common.{
  ℕ, ◌+◌, ◌<◌, ◌≤◌, ◌≡◌, refl, sym, ap, ap₂, subst, ◌∙◌, List, [], ◌∷◌, ◌++◌, Option, none, some,
  length, get_elem?, get_elem?-some, set, length-set, length-append, All, ◌==◌, Bool-cases, inl,
  inr, arith,
}
use cql_stress.ShardedStats.{
  StatsParts, ShardedStats, shard_of, with_shard, write_cell, write_shard, begin, collect_shard,
  finish,
}
use cql_stress.ShardedStats.Sums.{
  AddsUp, total, zero_left, write_right, total-create, total-write, total-collect,
}

module _ {S X : Type 0} (parts : StatsParts S X) where
  abbrev pub in_progress : Option (S × ℕ) → S
  in_progress none = parts.create
  in_progress (some (hist, cell)) = hist

  -- what was reported, what is being collected, and what is in the shards
  abbrev pub everything : ShardedStats S → S
  everything s =
      parts.combine (total parts s.reports)
        (parts.combine (in_progress s.collecting) (total parts s.all))

  abbrev pub written : List X → S
  written [] = parts.create
  written (x ∷ xs) = parts.write x (written xs)

  -- Every thread's cell is there.
  abbrev HasCells : ShardedStats S → Type 0
  HasCells s = All (λ (entry : ℕ × ℕ). entry.1 < length s.all) s.shards

  more_cells :
      (shards : List (ℕ × ℕ)) (m n : ℕ)
      → m ≤ n
      → All (λ (entry : ℕ × ℕ). entry.1 < m) shards
      → All (λ (entry : ℕ × ℕ). entry.1 < n) shards
  more_cells [] m n le h = tt
  more_cells (entry ∷ shards) m n le h = (omega (arith, le, h.0), more_cells shards m n le h.1)

  shard_of-lt :
      (shards : List (ℕ × ℕ)) (n thread cell : ℕ)
      → All (λ (entry : ℕ × ℕ). entry.1 < n) shards
      → shard_of shards thread ≡ some cell
      → cell < n
  unfolding shard_of
  shard_of-lt [] n thread cell h e = cc
  shard_of-lt (entry ∷ shards) n thread cell h e = elim (Bool-cases (entry.0 == thread)) [
    | inl found ↦
        let f : some entry.1 ≡ some cell = rw found at e in
        let g : entry.1 ≡ cell = cc in omega (arith, g, h.0)
    | inr other ↦ shard_of-lt shards n thread cell h.1 (rw other at e)
  ]

  write_cell-found :
      (x : X) (cell : ℕ) (s : ShardedStats S) (stats : S)
      → get_elem? s.all cell ≡ some stats
      → write_cell parts x (cell, s) ≡ record s { all = set s.all cell (parts.write x stats) }
  unfolding write_cell
  write_cell-found x cell s stats e = rw (write_cell, e) refl

  pub collect_shard-found :
      (hist : S) (cell : ℕ) (s : ShardedStats S) (stats : S)
      → get_elem? s.all cell ≡ some stats
      → collect_shard parts (hist, cell) s ≡ record s {
        all = set s.all cell (parts.clear stats);
        collecting = some (parts.combine hist stats, cell + 1);
      }
  unfolding collect_shard
  collect_shard-found hist cell s stats e = rw (collect_shard, e) refl

  -- the shard that a thread writes to
  record HasShard (s : ShardedStats S) (t : ℕ × ShardedStats S) : Type 0 where
    in_range : t.0 < length t.1.all
    cells : HasCells t.1
    same_collecting : t.1.collecting ≡ s.collecting
    same_reports : t.1.reports ≡ s.reports

  module _ (law : AddsUp parts) where
    with_shard-HasShard :
        (s : ShardedStats S) (thread : ℕ) (found : Option ℕ)
        → shard_of s.shards thread ≡ found
        → HasCells s
        → HasShard s (with_shard parts thread found s)
          × (total parts (with_shard parts thread found s).1.all ≡ total parts s.all)
    unfolding with_shard
    with_shard-HasShard s thread (some cell) e h = (
      record {
        in_range = shard_of-lt s.shards (length s.all) thread cell h e;
        cells = h;
        same_collecting = refl;
        same_reports = refl;
      },
      refl,
    )
    with_shard-HasShard s thread none e h =
        let n = length-append s.all (parts.create ∷ []) in
        (
          record {
            in_range = omega (arith, n);
            cells = (
              omega (arith, n),
              more_cells s.shards (length s.all) (length (s.all ++ (parts.create ∷ [])))
                  (omega (arith, n)) h,
            );
            same_collecting = refl;
            same_reports = refl;
          },
          total-create parts law s.all,
        )

    -- what a step keeps: the cells, and everything that was written
    unfoldable pub IsSound : List X → ShardedStats S → Type 0
    IsSound xs s = HasCells s × (everything s ≡ written xs)

    pub write_shard-IsSound :
        (xs : List X) (s : ShardedStats S) (thread : ℕ) (x : X)
        → IsSound xs s
        → IsSound (x ∷ xs) (write_shard parts thread x s)
    unfolding write_shard IsSound
    write_shard-IsSound xs s thread x (cells, sum) =
        let t = with_shard parts thread (shard_of s.shards thread) s in
        let (has, same) = with_shard-HasShard s thread (shard_of s.shards thread) refl cells in
        let (stats, e) = get_elem?-some t.1.all t.0 has.in_range in
        let n = length-set t.1.all t.0 (parts.write x stats) in
        subst (IsSound (x ∷ xs)) (sym (write_cell-found x t.0 t.1 stats e)) (
          subst (λ k. All (λ (entry : ℕ × ℕ). entry.1 < k) t.1.shards) (sym n) has.cells,
          ap₂
                (λ r c. parts.combine (total parts r) (
                  parts.combine (in_progress c)
                    (total parts (set t.1.all t.0 (parts.write x stats)))))
                has.same_reports has.same_collecting
              ∙ ap
                  (λ a.
                    parts.combine (total parts s.reports)
                      (parts.combine (in_progress s.collecting) a))
                  (total-write parts law t.1.all t.0 x stats e ∙ ap (parts.write x) same)
              ∙ ap (parts.combine (total parts s.reports))
                  (write_right parts law x (in_progress s.collecting) (total parts s.all))
              ∙ write_right parts law x (total parts s.reports)
                  (parts.combine (in_progress s.collecting) (total parts s.all))
              ∙ ap (parts.write x) sum,
        )

    pub collect_shard-IsSound :
        (xs : List X) (s : ShardedStats S) (c : S × ℕ)
        → s.collecting ≡ some c
        → c.1 < length s.all
        → IsSound xs s
        → IsSound xs (collect_shard parts c s)
    unfolding IsSound
    collect_shard-IsSound xs s (hist, cell) e lt (cells, sum) =
        let (stats, f) = get_elem?-some s.all cell lt in
        let n = length-set s.all cell (parts.clear stats) in
        subst (IsSound xs) (sym (collect_shard-found hist cell s stats f)) (
          subst (λ k. All (λ (entry : ℕ × ℕ). entry.1 < k) s.shards) (sym n) cells,
          ap (parts.combine (total parts s.reports)) (
                law.assoc hist stats (total parts (set s.all cell (parts.clear stats)))
                ∙ ap (parts.combine hist) (total-collect parts law s.all cell stats f)
                ∙ ap (λ p. parts.combine (in_progress p) (total parts s.all)) (sym e))
              ∙ sum,
        )

    pub begin-IsSound :
        (xs : List X) (s : ShardedStats S)
        → s.collecting ≡ none
        → IsSound xs s
        → IsSound xs (begin parts s)
    unfolding begin IsSound
    begin-IsSound xs s e (cells, sum) = (
      cells,
      ap
            (λ c.
              parts.combine (total parts s.reports)
                (parts.combine (in_progress c) (total parts s.all)))
            (sym e)
          ∙ sum,
    )

    pub finish-IsSound :
        (xs : List X) (s : ShardedStats S) (c : S × ℕ)
        → s.collecting ≡ some c
        → IsSound xs s
        → IsSound xs (finish parts c s)
    unfolding finish IsSound
    finish-IsSound xs s (hist, cell) e (cells, sum) = (
      cells,
      ap (parts.combine (parts.combine hist (total parts s.reports)))
            (zero_left parts law (total parts s.all))
          ∙ ap (λ a. parts.combine a (total parts s.all)) (law.comm hist (total parts s.reports))
          ∙ law.assoc (total parts s.reports) hist (total parts s.all)
          ∙ ap
              (λ p.
                parts.combine (total parts s.reports)
                  (parts.combine (in_progress p) (total parts s.all)))
              (sym e)
          ∙ sum,
    )
