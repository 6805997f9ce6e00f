-- ===== src/Text/Split.antt =====
-- `split_once`, `split` and `strip_suffix`, and what they find in a text that was put together.
use mathlib.Core.Option
use cql_stress.Common.{
  ℕ, ◌≡◌, refl, List, [], ◌∷◌, ◌++◌, Option, none, some, false, ◌==◌, if◌then◌else◌, arith,
}
use cql_stress.Text.{Text, contains}

before_first : ℕ → Option (Text × Text) → Option (Text × Text)
before_first c none = none
before_first c (some (a, b)) = some (c ∷ a, b)

-- the text before the first `p`, and the text behind it
unfoldable pub split_once : ℕ → Text → Option (Text × Text)
unfolding before_first
split_once p [] = none
split_once p (c ∷ s) =
    let rest = before_first c (split_once p s) in if c == p then some ([], s) else rest

-- `split_once("..")`, for a pattern of one character twice
unfoldable pub split_once_twice : ℕ → Text → Option (Text × Text)
unfolding before_first
split_once_twice p [] = none
split_once_twice p (c ∷ []) = none
split_once_twice p (c ∷ d ∷ s) =
    let rest = before_first c (split_once_twice p (d ∷ s)) in
    if c == p then (if d == p then some ([], s) else rest) else rest

onto_first : ℕ → List Text → List Text
onto_first c [] = (c ∷ []) ∷ []
onto_first c (part ∷ parts) = (c ∷ part) ∷ parts

-- `split`: always one part at least
unfoldable pub split : ℕ → Text → List Text
unfolding onto_first
split p [] = [] ∷ []
split p (c ∷ s) = let parts = split p s in if c == p then [] ∷ parts else onto_first c parts

unfoldable pub strip_suffix : ℕ → Text → Option Text
strip_suffix p [] = none
strip_suffix p (c ∷ []) = if c == p then some [] else none
strip_suffix p (c ∷ d ∷ s) = Option.map (λ t. c ∷ t) (strip_suffix p (d ∷ s))

-- the parts with `p` between them
unfoldable pub join : ℕ → List Text → Text
join p [] = []
join p (part ∷ []) = part
join p (part ∷ q ∷ parts) = part ++ p ∷ join p (q ∷ parts)

abbrev pub Lacks : ℕ → Text → Type 0
Lacks p s = contains p s ≡ false

pub split_once-append :
    (p : ℕ) (s rest : Text) → Lacks p s → split_once p (s ++ p ∷ rest) ≡ some (s, rest)
unfolding split_once
split_once-append p [] rest h = ground arith
split_once-append p (c ∷ s) rest h = ground (arith, split_once-append p s rest)

pub split_once-none : (p : ℕ) (s : Text) → Lacks p s → split_once p s ≡ none
unfolding split_once
split_once-none p [] h = refl
split_once-none p (c ∷ s) h = ground (arith, split_once-none p s)

pub split_once_twice-append :
    (p : ℕ) (s rest : Text) → Lacks p s → split_once_twice p (s ++ p ∷ p ∷ rest) ≡ some (s, rest)
unfolding split_once_twice
split_once_twice-append p [] rest h = ground arith
split_once_twice-append p (c ∷ []) rest h = ground (arith, split_once_twice-append p [] rest)
split_once_twice-append p (c ∷ d ∷ s) rest h =
    ground (arith, split_once_twice-append p (d ∷ s) rest)

pub split_once_twice-none : (p : ℕ) (s : Text) → Lacks p s → split_once_twice p s ≡ none
unfolding split_once_twice
split_once_twice-none p [] h = refl
split_once_twice-none p (c ∷ []) h = refl
split_once_twice-none p (c ∷ d ∷ s) h = ground (arith, split_once_twice-none p (d ∷ s))

pub strip_suffix-append : (p : ℕ) (s : Text) → strip_suffix p (s ++ p ∷ []) ≡ some s
unfolding strip_suffix
strip_suffix-append p [] = ground arith
strip_suffix-append p (c ∷ []) = ground (arith, strip_suffix-append p [])
strip_suffix-append p (c ∷ d ∷ s) = rw (strip_suffix-append p (d ∷ s))

pub split-Lacks : (p : ℕ) (s : Text) → Lacks p s → split p s ≡ s ∷ []
unfolding split
split-Lacks p [] h = refl
split-Lacks p (c ∷ s) h = ground (arith, split-Lacks p s)

split-append : (p : ℕ) (s rest : Text) → Lacks p s → split p (s ++ p ∷ rest) ≡ s ∷ split p rest
unfolding split
split-append p [] rest h = ground arith
split-append p (c ∷ s) rest h = ground (arith, split-append p s rest)

-- every part lacks the separator
abbrev pub AllLack : ℕ → List Text → Type 0
AllLack p [] = Unit {0}
AllLack p (part ∷ parts) = Lacks p part × AllLack p parts

pub split-join :
    (p : ℕ) (part : Text) (parts : List Text)
    → AllLack p (part ∷ parts)
    → split p (join p (part ∷ parts)) ≡ part ∷ parts
unfolding join
split-join p part [] h = split-Lacks p part h.0
split-join p part (q ∷ parts) h =
    rw (split-append p part (join p (q ∷ parts)) (h.0)) (rw (split-join p q parts h.1))
