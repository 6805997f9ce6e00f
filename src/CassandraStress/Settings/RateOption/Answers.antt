-- ===== src/CassandraStress/Settings/RateOption/Answers.antt =====
-- The groups of the parameters of -rate leave nothing to unwrap without a value.
use cql_stress.Common.{
  ℕ, ◌≡◌, ◌≢◌, refl, sym, subst, ap, inl, inr, ◌⊎◌, Bool, true, false, List, [], ◌∷◌, Option, none,
  some, ok, err, ok_or, ◌>>=◌, get_elem?,
}
use cql_stress.Text.{Text, codes}
use cql_stress.Text.Digits.{parse_u64, parse_digits, scan_digits}
use cql_stress.CassandraStress.Settings.Outcome.{
  refused, panicked, refusal, parsed, refusal-answers,
}
use cql_stress.CassandraStress.Settings.Types.{parse_whole, parse_rate}
use cql_stress.CassandraStress.Settings.Params.{
  handle, Param, ParamError, new_param, new_wrapped, parse_params, all_groups,
}
use cql_stress.CassandraStress.Settings.Params.Available.{Has, IsOneOf, parse_params-available}
use cql_stress.CassandraStress.Settings.Params.Kept.{HasValue, AllSound}
use cql_stress.CassandraStress.Settings.RateOption.{
  ThreadsInfo, read_flag, rate_groups, prepare_rate, threads_info, from_handles, parse_rate_option,
}

module _ (to_lowercase : Text → Text) where
  -- the parameters before the command line is read
  abbrev pub rate_params : List (Param ℕ)
  unfolding new_param
  rate_params =
      new_param to_lowercase (codes "threads=") (λ s. parsed (parse_whole s)) none true
      ∷ new_param to_lowercase (codes "throttle=") (λ s. parsed (parse_rate s)) none false
      ∷ new_param to_lowercase (codes "fixed") read_flag none false
      ∷ new_param to_lowercase (codes "threads>=") (λ s. parsed (parse_whole s)) (some 4) false
      ∷ new_param to_lowercase (codes "threads<=") (λ s. parsed (parse_whole s)) (some 1000) false
      ∷ new_param to_lowercase (codes "auto") read_flag none false
      ∷ []

  prepare_rate-rate_params : prepare_rate to_lowercase ≡ some rate_params
  unfolding prepare_rate new_wrapped new_param parse_whole parse_u64 parse_digits scan_digits
  prepare_rate-rate_params = refl

  rate_params-AllSound : AllSound rate_params
  unfolding new_param
  rate_params-AllSound = (λ e. cc, (λ e. cc, (λ e. cc, (λ e. cc, (λ e. cc, (λ e. cc, tt))))))

  -- either the number of threads is there, or both bounds of it are
  threads_info-some :
      (threads throttle min_threads max_threads : Option ℕ) (co_fixed auto : Bool)
      → (threads ≢ none) ⊎ ((min_threads ≢ none) × (max_threads ≢ none))
      → (info : ThreadsInfo) × (threads_info to_lowercase threads throttle co_fixed min_threads
            max_threads auto
          ≡ some info)
  unfolding threads_info
  threads_info-some threads throttle (some n) (some m) co_fixed auto h = (_, refl)
  threads_info-some (some t) throttle (some n) none co_fixed auto h = (_, refl)
  threads_info-some (some t) throttle none m co_fixed auto h = (_, refl)
  threads_info-some none throttle (some n) none co_fixed auto (inl h) = absurd (h refl)
  threads_info-some none throttle (some n) none co_fixed auto (inr h) = absurd (h.1 refl)
  threads_info-some none throttle none m co_fixed auto (inl h) = absurd (h refl)
  threads_info-some none throttle none m co_fixed auto (inr h) = absurd (h.0 refl)

  rate_groups-handles :
      (ps' : List (Param ℕ)) (group : List ℕ)
      → IsOneOf group rate_groups
      → ((i : ℕ) (p : Param ℕ)
          → Has i group
          → get_elem? rate_params i ≡ some p
          → (p.required ≡ true) ⊎ HasValue p
          → handle to_lowercase ps' i ≢ none)
      → (handle to_lowercase ps' 0 ≢ none)
        ⊎ ((handle to_lowercase ps' 3 ≢ none) × (handle to_lowercase ps' 4 ≢ none))
  unfolding new_param
  rate_groups-handles ps' group (inl e) h =
      inl (h 0 _ (subst (Has 0) (sym e) (inl refl)) refl (inl refl))
  rate_groups-handles ps' group (inr (inl e)) h = inr (
    h 3 _ (subst (Has 3) (sym e) (inl refl)) refl (inr (λ n. cc)),
    h 4 _ (subst (Has 4) (sym e) (inr (inl refl))) refl (inr (λ n. cc)),
  )
  rate_groups-handles ps' group (inr (inr e)) h = absurd e

  from_handles-some :
      (ps' : List (Param ℕ)) (params : List Text)
      → parse_params to_lowercase rate_groups rate_params params ≡ ok ps'
      → (info : ThreadsInfo) × (from_handles to_lowercase ps' ≡ some info)
  unfolding from_handles all_groups
  from_handles-some ps' params h =
      let (group, one_of, values) =
        parse_params-available to_lowercase rate_groups rate_params ps' params rate_params-AllSound
          h in
      threads_info-some _ _ _ _ _ _ (rate_groups-handles ps' group one_of values)

  parse_rate_option-refusal :
      (params : List Text)
      → parse_rate_option to_lowercase params ≡ (
          refusal (parse_params to_lowercase rate_groups rate_params params)
          >>= (λ ps'. ok_or (from_handles to_lowercase ps') panicked))
  unfolding parse_rate_option
  parse_rate_option-refusal params =
      ap
        (λ m. ok_or m panicked >>= (λ ps.
          refusal (parse_params to_lowercase rate_groups ps params)
          >>= (λ ps'. ok_or (from_handles to_lowercase ps') panicked)))
        prepare_rate-rate_params

  -- The option gives the threads, or the parser's error: nothing without a value is unwrapped.
  pub parse_rate_option-answers :
      (params : List Text)
      → ((info : ThreadsInfo) × (parse_rate_option to_lowercase params ≡ ok info))
        ⊎ ((e : ParamError) × (parse_params to_lowercase rate_groups rate_params params ≡ err e)
            × (parse_rate_option to_lowercase params ≡ err (refused e)))
  parse_rate_option-answers params = rw (parse_rate_option-refusal params) (
      refusal-answers (parse_params to_lowercase rate_groups rate_params params) _ (λ ps' accepted.
        let (info, found) = from_handles-some ps' params accepted in
        (info, ap (λ m. ok_or m panicked) found)))
