-- ===== src/CassandraStress/Operation/Sampler/Total.antt =====
-- The samples of the operations: runs of one item each, as long as was drawn.
use cql_stress.Common.{
  false, ℕ, zero, suc, ◌+◌, ◌-◌, ◌%◌, ◌<◌, ◌≡◌, refl, ap, ◌∙◌, List, [], ◌∷◌, ◌++◌, Option, ltb,
  get_elem?, replicate, ◌==◌, if◌then◌else◌, arith, ℤ,
}
use cql_stress.Common.Int.{as_u64}
use cql_stress.CassandraStress.Operation.Sampler.{
  SamplerParts, OperationSampler, run_of, new_sampler, draw_item, previous_sample, sample,
}

-- the length of a run: the low eight bits of the number that was drawn, and 1 for 0
pub run_length : ℤ → ℕ
run_length n = if ltb 0 (as_u64 n % 256) then as_u64 n % 256 else 1

run_of-run_length : (n : ℤ) → (run_of n ≡ run_length n) × (0 < run_length n)
unfolding run_length
run_of-run_length n = ground arith

module _ {T W : Type 0} (parts : SamplerParts W) where
  -- what `n` samples give, each with what `previous_sample` says behind it, and the sampler then
  abbrev pub samples : ℕ → OperationSampler T W → List (Option T × Option T) × OperationSampler T W
  samples zero s = ([], s)
  samples (suc n) s =
      let (item, s') = sample parts s in
      let (items, s'') = samples n s' in ((item, previous_sample parts s') ∷ items, s'')

  -- The samples that `m` runs make, their number and the draws left behind them: an index and a
  -- length are drawn for each run, and the item of that index is given as often as the length says.
  unfoldable pub runs : ℕ → List T → W → List (Option T × Option T) × ℕ × W
  unfolding run_length
  runs zero items w = ([], 0, w)
  runs (suc m) items w =
      let (index, w1) = parts.sample_index w in
      let (n, w2) = parts.next_count w1 in
      let (others, total, w3) = runs m items w2 in
      let item = get_elem? items index in
      (replicate (run_length n) (item, item) ++ others, run_length n + total, w3)

  abbrev at : List T → W → ℕ → ℕ → OperationSampler T W
  at items w left index = record {
    items = items;
    draws = w;
    current_item_remaining = left;
    current_item_index = index;
  }

  sample-left :
      (items : List T) (w : W) (index left : ℕ)
      → sample parts (at items w (suc left) index) ≡ (get_elem? items index, at items w left index)
  unfolding sample
  sample-left items w index left =
      let e : (suc left == 0) ≡ false = ground arith in
      let f : suc left - 1 ≡ left = omega arith in rw (e, f) refl

  -- the samples within a run
  within_run :
      (items : List T) (w : W) (index left : ℕ)
      → samples left (at items w left index)
        ≡ (let item = get_elem? items index in (replicate left (item, item), at items w 0 index))
  unfolding previous_sample
  within_run items w index zero = refl
  within_run items w index (suc left) =
      ap (λ t. ((t.0, previous_sample parts t.1) ∷ (samples left t.1).0, (samples left t.1).1))
        (sample-left items w index left)
      ∙ ap (λ t. let item = get_elem? items index in ((item, item) ∷ t.0, t.1))
          (within_run items w index left)

  samples-append :
      (m n : ℕ) (s : OperationSampler T W)
      → samples (m + n) s
        ≡ ((samples m s).0 ++ (samples n (samples m s).1).0, (samples n (samples m s).1).1)
  samples-append zero n s = ap (λ k. samples k s) (omega arith)
  samples-append (suc m) n s =
      let e : suc m + n ≡ suc (m + n) = omega arith in
      let s' = (sample parts s).1 in
      ap (λ k. samples k s) e
      ∙ ap (λ t. (((sample parts s).0, previous_sample parts s') ∷ t.0, t.1))
          (samples-append m n s')

  -- with nothing left of a run, the next one is drawn
  sample-drawn :
      (items : List T) (w : W) (i k : ℕ)
      → run_of (parts.next_count (parts.sample_index w).1).0 ≡ suc k
      → sample parts (at items w 0 i) ≡ (
        get_elem? items (parts.sample_index w).0,
        at items (parts.next_count (parts.sample_index w).1).1 k (parts.sample_index w).0,
      )
  unfolding sample draw_item
  sample-drawn items w i k h = let f : suc k - 1 ≡ k = omega arith in rw (h, f) refl

  samples-drawn :
      (items : List T) (w : W) (i k : ℕ)
      → run_of (parts.next_count (parts.sample_index w).1).0 ≡ k
      → 0 < k
      → samples k (at items w 0 i) ≡ (
          let index = (parts.sample_index w).0 in
          let item = get_elem? items index in
          (
            replicate k (item, item),
            at items (parts.next_count (parts.sample_index w).1).1 0 index,
          ))
  unfolding previous_sample
  samples-drawn items w i zero h p = absurd (omega (arith, p))
  samples-drawn items w i (suc k) h p =
      ap (λ t. ((t.0, previous_sample parts t.1) ∷ (samples k t.1).0, (samples k t.1).1))
        (sample-drawn items w i k h)
      ∙ ap (λ t. let item = get_elem? items (parts.sample_index w).0 in ((item, item) ∷ t.0, t.1))
          (within_run items (parts.next_count (parts.sample_index w).1).1 (parts.sample_index w).0
            k)

  samples-runs :
      (m : ℕ) (items : List T) (w : W) (i : ℕ)
      → ((samples (runs m items w).1 (at items w 0 i)).0 ≡ (runs m items w).0)
        × ((samples (runs m items w).1 (at items w 0 i)).1.draws ≡ (runs m items w).2)
  unfolding runs
  samples-runs zero items w i = (refl, refl)
  samples-runs (suc m) items w i =
      let (index, w1) = parts.sample_index w in
      let (n, w2) = parts.next_count w1 in
      let first =
        samples-drawn items w i (run_length n) (run_of-run_length n).0 (run_of-run_length n).1 in
      let whole =
        samples-append (run_length n) (runs m items w2).1 (at items w 0 i)
        ∙ ap
            (λ t. (t.0 ++ (samples (runs m items w2).1 t.1).0, (samples (runs m items w2).1 t.1).1))
            first in
      let (given, left) = samples-runs m items w2 index in
      let item = get_elem? items index in
      (
        ap (λ t. t.0) whole ∙ ap (λ l. replicate (run_length n) (item, item) ++ l) given,
        ap (λ t. t.1.draws) whole ∙ left,
      )

  -- The samples of a new sampler are runs: for each an index and a length are drawn, once and in
  -- that order, and the item of that index is given as often as the low eight bits of the length
  -- say, or once for 0; previous_sample gives each of them again. Nothing else is drawn. An index
  -- that is no item's gives nothing.
  pub samples-new_sampler :
      (m : ℕ) (items : List T) (w : W)
      → let (given, total, left) = runs m items w in
        let (answers, s) = samples total (new_sampler parts items w) in
        (answers ≡ given) × (s.draws ≡ left)
  unfolding new_sampler
  samples-new_sampler m items w = samples-runs m items w 0
