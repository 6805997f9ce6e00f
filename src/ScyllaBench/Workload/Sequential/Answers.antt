-- ===== src/ScyllaBench/Workload/Sequential/Answers.antt =====
-- The sequential workload as the workload of an operation.
use cql_stress.Common.{
  ℕ, zero, suc, ◌+◌, ◌-◌, ◌%◌, ◌≤◌, ◌<◌, ◌^◌, ◌≡◌, refl, ap, Bool-cases, inl, inr, Option, some,
  none, length, length-map, arith, min, leb, subst,
}
use native.Mathlib.Nat.{mod-eq_of_lt}
use cql_stress.Common.Int.{u64_mod, as_i64}
use cql_stress.ScyllaBench.Workload.{Keys, Workload}
use cql_stress.ScyllaBench.Workload.Sequential.{
  Sequential, generate_keys, next_keys, count_up, is_past_end, advanced,
}

-- the number of clustering keys of a partition fits an i64
abbrev pub IsSmall : Sequential × ℕ → Type 0
IsSmall s = (0 < s.0.config.cks_per_pk) × (s.0.config.cks_per_pk < 2 ^ 63)

length-count_up : (from n : ℕ) → length (count_up from n) ≡ n
unfolding count_up
length-count_up from zero = refl
length-count_up from (suc n) = ap suc (length-count_up (from + 1) n)

next_keys_lem :
    (w : Sequential) (n : ℕ)
    → w.current_ck < w.config.cks_per_pk
    → w.config.cks_per_pk < 2 ^ 63
    → n < 2 ^ 63
    → (length (next_keys w n).1 ≤ n) × (0 < n → 0 < length (next_keys w n).1)
unfolding next_keys
next_keys_lem w n h k m =
    let e = length-map as_i64 (
      count_up w.current_ck
        (min ((w.current_ck + n) % u64_mod) w.config.cks_per_pk - w.current_ck)) in
    let f =
      length-count_up w.current_ck
        (min ((w.current_ck + n) % u64_mod) w.config.cks_per_pk - w.current_ck) in
    let wrap : (w.current_ck + n) % u64_mod ≡ w.current_ck + n = mod-eq_of_lt (omega arith) in
    (omega (arith, e, f, wrap), λ p. omega (arith, e, f, wrap, p))

of_next :
    (w : Sequential) (n : ℕ) (keys : Keys)
    → w.current_ck < w.config.cks_per_pk
    → w.config.cks_per_pk < 2 ^ 63
    → n < 2 ^ 63
    → next_keys w n ≡ keys
    → (length keys.1 ≤ n) × (0 < n → 0 < length keys.1)
of_next w n keys h k m e =
    subst (λ t. (length t.1 ≤ n) × (0 < n → 0 < length t.1)) e (next_keys_lem w n h k m)

abbrev from_some : {A : Type 0} → A → Option A → A
from_some a none = a
from_some a (some b) = b

none-some : {A : Type 0} {a : A} → ¬ (none ≡ some a)
none-some e = ground arith

pub generate_keys_answers :
    (s : Sequential × ℕ) (n : ℕ) (keys : Keys)
    → IsSmall s
    → n < 2 ^ 63
    → (generate_keys s.0 s.1 n).0 ≡ some keys
    → (length keys.1 ≤ n) × (0 < n → 0 < length keys.1)
unfolding generate_keys
generate_keys_answers s n keys v m e =
    elim (Bool-cases (leb s.0.config.cks_per_pk s.0.current_ck)) [
      | inl past ↦ elim (Bool-cases (is_past_end s.0.config s.1)) [
        | inl over ↦ absurd (none-some (rw (past, over) at e))
        | inr live ↦
            of_next (advanced s.0 s.1) n keys (v.0) (v.1) m
              (ap (from_some keys) (rw (past, live) at e))
      ]
      | inr within ↦
          of_next s.0 n keys (ground arith) (v.1) m (ap (from_some keys) (rw within at e))
    ]

abbrev pub packed : Option Keys × Sequential × ℕ → Option Keys × (Sequential × ℕ)
packed (keys, w, next_pk) = (keys, (w, next_pk))

unfoldable pub sequential_workload : Workload (Sequential × ℕ)
sequential_workload = record {
  IsValid = IsSmall;
  generate = λ s n. packed (generate_keys s.0 s.1 n);
  answers = generate_keys_answers;
}
