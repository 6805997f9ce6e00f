-- ===== src/CassandraStress/Settings/RateOption.antt =====
-- settings/option/rate.rs: the option -rate. All its parameters are numbers here: the value of a flag
-- is 1, and nothing but its presence is looked at.
pub mod Answers
use cql_stress.Common.{
  ℕ, Bool, true, false, List, [], ◌∷◌, Option, none, some, and_then, Result, ok, err, ok_or, ◌>>=◌,
}
use cql_stress.Text.{Text, codes}
use cql_stress.CassandraStress.Settings.Outcome.{OptionError, panicked, refusal, is_some, parsed}
use cql_stress.CassandraStress.Settings.Types.{parse_whole, parse_flag, parse_rate}
use cql_stress.CassandraStress.Settings.Params.{
  handle, Param, ParamError, new_wrapped, parse_params,
}

pub data ThreadsInfo : Type 0 where
  -- threads, throttle, co_fixed
  fixed : ℕ → Option ℕ → Bool → ThreadsInfo
  -- min_threads, max_threads, auto
  automatic : ℕ → ℕ → Bool → ThreadsInfo

abbrev pub read_flag : Text → Option ℕ
unfolding parse_flag
read_flag s = and_then (parsed (parse_flag s)) (λ _. some 1)

-- `parser.group`
abbrev pub rate_groups : List (List ℕ)
rate_groups = (0 ∷ 1 ∷ 2 ∷ []) ∷ (3 ∷ 4 ∷ 5 ∷ []) ∷ []

module _ (to_lowercase : Text → Text) where
  -- `prepare_parser`; `none` if it panics
  unfoldable pub prepare_rate : Option (List (Param ℕ))
  unfolding new_wrapped parse_whole parse_rate
  prepare_rate =
      let whole : Text → Option ℕ = λ s. parsed (parse_whole s) in
      and_then (new_wrapped to_lowercase (codes "threads=") whole none true) (λ threads.
        and_then
          (new_wrapped to_lowercase (codes "throttle=") (λ s. parsed (parse_rate s)) none false)
          (λ throttle.
            and_then (new_wrapped to_lowercase (codes "fixed") read_flag none false) (λ co_fixed.
              and_then (new_wrapped to_lowercase (codes "threads>=") whole (some (codes "4")) false)
                (λ threads_gte.
                  and_then
                    (new_wrapped to_lowercase (codes "threads<=") whole (some (codes "1000")) false)
                    (λ threads_lte.
                      and_then (new_wrapped to_lowercase (codes "auto") read_flag none false)
                        (λ auto. some (
                          threads ∷ throttle ∷ co_fixed ∷ threads_gte ∷ threads_lte ∷ auto
                          ∷ [])))))))

  -- `RateOption::from_handles`; `none` if it panics
  unfoldable pub threads_info :
      Option ℕ → Option ℕ → Bool → Option ℕ → Option ℕ → Bool → Option ThreadsInfo
  threads_info threads throttle co_fixed (some min_threads) (some max_threads) auto =
      some (automatic min_threads max_threads auto)
  threads_info threads throttle co_fixed (some min_threads) none auto =
      and_then threads (λ n. some (fixed n throttle co_fixed))
  threads_info threads throttle co_fixed none max_threads auto =
      and_then threads (λ n. some (fixed n throttle co_fixed))

  unfoldable pub from_handles : List (Param ℕ) → Option ThreadsInfo
  unfolding handle threads_info
  from_handles ps =
      let get = handle to_lowercase ps in
      threads_info (get 0) (get 1) (is_some (get 2)) (get 3) (get 4) (is_some (get 5))

  -- `RateOption::parse`
  unfoldable pub parse_rate_option : List Text → Result OptionError ThreadsInfo
  unfolding prepare_rate from_handles parse_params
  parse_rate_option params = do
    ps ← ok_or prepare_rate panicked
    ps' ← refusal (parse_params to_lowercase rate_groups ps params)
    ok_or (from_handles ps') panicked
