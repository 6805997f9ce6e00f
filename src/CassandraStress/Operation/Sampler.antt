-- ===== src/CassandraStress/Operation/Sampler.antt =====
-- operation/mod.rs: the sampler of the operations of a user profile. The index is drawn by the crate
-- rand_distr, and the counter by a distribution: both are arguments, with their state `W`.
pub mod Total
use cql_stress.Common.{ℕ, zero, suc, ◌-◌, ◌%◌, List, Option, get_elem?, ◌==◌, if◌then◌else◌, ℤ}
use cql_stress.Common.Int.{as_u64}

pub record SamplerParts (W : Type 0) : Type 0 where
  pub sample_index : W → ℕ × W
  pub next_count : W → ℤ × W

pub record OperationSampler (T W : Type 0) : Type 0 where
  pub items : List T
  pub draws : W
  pub current_item_remaining : ℕ
  pub current_item_index : ℕ

-- `(n as u8).max(1)`
abbrev pub run_of : ℤ → ℕ
run_of n = let w = as_u64 n % 256 in if w == 0 then 1 else w

module _ {T W : Type 0} (parts : SamplerParts W) where
  unfoldable pub new_sampler : List T → W → OperationSampler T W
  new_sampler items draws = record {
    items = items;
    draws = draws;
    current_item_remaining = 0;
    current_item_index = 0;
  }

  unfoldable pub draw_item : OperationSampler T W → OperationSampler T W
  draw_item s =
      let (index, w) = parts.sample_index s.draws in
      let (n, w') = parts.next_count w in
      record s { draws = w'; current_item_remaining = run_of n; current_item_index = index }

  -- `none` is an index that is out of bounds
  unfoldable pub previous_sample : OperationSampler T W → Option T
  previous_sample s = get_elem? s.items s.current_item_index

  unfoldable pub sample : OperationSampler T W → Option T × OperationSampler T W
  unfolding draw_item
  sample s =
      let s' = if s.current_item_remaining == 0 then draw_item s else s in
      let s2 = record s' { current_item_remaining = s'.current_item_remaining - 1 } in
      (get_elem? s2.items s2.current_item_index, s2)
