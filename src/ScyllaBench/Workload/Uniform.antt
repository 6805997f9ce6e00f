-- ===== src/ScyllaBench/Workload/Uniform.antt =====
-- workload/uniform.rs. The two distributions of the `rand` crate are arguments: each draws a number
-- with the state `G` of the generator.
use cql_stress.Common.{ℕ, zero, suc, List, [], ◌∷◌, Result, ok, ensure, ◌>>◌, ltb, ℤ}
use cql_stress.Common.Int.{as_i64}

pub record UniformConfig : Type 0 where
  pub pk_start : ℕ
  pub pk_end : ℕ
  pub ck_start : ℕ
  pub ck_end : ℕ

pub data RangeError : Type 0 where
  bad_pk_range bad_ck_range : RangeError

pub new_uniform_factory : UniformConfig → Result RangeError UniformConfig
new_uniform_factory config = do
  ensure (ltb config.pk_start config.pk_end) bad_pk_range
  ensure (ltb config.ck_start config.ck_end) bad_ck_range
  ok config

module _ {G : Type 0} (draw_pk draw_ck : UniformConfig → G → ℕ × G) where
  pub sample_cks : ℕ → UniformConfig → G → List ℤ × G
  sample_cks zero config gen = ([], gen)
  sample_cks (suc n) config gen =
      let (x, gen') = draw_ck config gen in
      let (xs, gen'') = sample_cks n config gen' in (as_i64 x ∷ xs, gen'')

  pub uniform_keys : UniformConfig → ℕ → G → (ℤ × List ℤ) × G
  unfolding sample_cks
  uniform_keys config ck_count gen =
      let (x, gen') = draw_pk config gen in
      let (cks, gen'') = sample_cks ck_count config gen' in ((as_i64 x, cks), gen'')
