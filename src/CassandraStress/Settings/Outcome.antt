-- ===== src/CassandraStress/Settings/Outcome.antt =====
-- settings/option/: what becomes of an option. A panic is an error of its own; the
-- panic of the parser itself is the error slice_panics, and is passed on with its other errors.
use cql_stress.Common.{
  Bool, true, false, Option, none, some, Result, ok, err, ◌>>=◌, ◌≡◌, refl, ◌⊎◌, inl, inr,
}
use cql_stress.CassandraStress.Settings.Params.{ParamError}

pub data OptionError : Type 0 where
  refused : ParamError → OptionError
  panicked : OptionError

abbrev pub refusal : {A : Type 0} → Result ParamError A → Result OptionError A
refusal (ok a) = ok a
refusal (err e) = err (refused e)

abbrev pub is_some : {A : Type 0} → Option A → Bool
is_some none = false
is_some (some a) = true

-- what a parameter reads: a value, or nothing where `parse` has an error
abbrev pub parsed : {E A : Type 0} → Result E A → Option A
parsed (ok a) = some a
parsed (err e) = none

-- If what follows has an answer for each accepted command line, there is one, or the refusal.
pub refusal-answers :
    {A B : Type 0} (r : Result ParamError A) (next : A → Result OptionError B)
    → ((a : A) → r ≡ ok a → (b : B) × (next a ≡ ok b))
    → ((b : B) × ((refusal r >>= next) ≡ ok b))
      ⊎ ((e : ParamError) × (r ≡ err e) × ((refusal r >>= next) ≡ err (refused e)))
refusal-answers (ok a) next h = inl (h a refl)
refusal-answers (err e) next h = inr (e, refl, refl)
