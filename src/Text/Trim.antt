-- ===== src/Text/Trim.antt =====
-- `trim`.
use cql_stress.Common.{
  ℕ, ◌≤◌, ◌≡◌, refl, [], ◌∷◌, ◌++◌, true, false, ◌&&◌, if◌then◌else◌, arith, length, ap, Bool-cases,
  inl, inr,
}
use cql_stress.Text.{Text, is_whitespace, is_empty}

unfoldable pub trim_start : Text → Text
trim_start [] = []
trim_start (c ∷ s) = if is_whitespace c then trim_start s else c ∷ s

unfoldable pub trim_end : Text → Text
trim_end [] = []
trim_end (c ∷ s) =
    let rest = trim_end s in if is_empty rest && is_whitespace c then [] else c ∷ rest

unfoldable pub trim : Text → Text
unfolding trim_start trim_end
trim s = trim_end (trim_start s)

-- no white space at either end
abbrev pub IsTrimmed : Text → Type 0
IsTrimmed s = trim s ≡ s

length-trim_end : (s : Text) → length (trim_end s) ≤ length s
unfolding trim_end
length-trim_end [] = omega arith
length-trim_end (c ∷ s) = ground (arith, length-trim_end s)

length-trim_start : (s : Text) → length (trim_start s) ≤ length s
unfolding trim_start
length-trim_start [] = omega arith
length-trim_start (c ∷ s) = ground (arith, length-trim_start s)

-- nothing is trimmed behind a solid character that is followed by a text with no trailing space
pub trim_end-solid :
    (s : Text) (c : ℕ) (t : Text)
    → is_whitespace c ≡ false
    → trim_end t ≡ t
    → trim_end (s ++ c ∷ t) ≡ s ++ c ∷ t
unfolding trim_end
trim_end-solid [] c t h k = ground arith
trim_end-solid (d ∷ []) c t h k = ground arith
trim_end-solid (d ∷ e ∷ s) c t h k = rw (trim_end-solid (e ∷ s) c t h k)

-- a text is trimmed if its first character is solid and it has no trailing space
pub trim-solid :
    (d : ℕ) (s : Text) → is_whitespace d ≡ false → trim_end (d ∷ s) ≡ d ∷ s → IsTrimmed (d ∷ s)
unfolding trim
trim-solid d s h k = rw h k

trim-shorter : (c : ℕ) (s : Text) → is_whitespace c ≡ true → length (trim (c ∷ s)) ≤ length s
unfolding trim
trim-shorter c s e = rw e (omega (arith, length-trim_end (trim_start s), length-trim_start s))

-- the first character of a trimmed text is solid
pub head-IsTrimmed : (c : ℕ) (s : Text) → IsTrimmed (c ∷ s) → is_whitespace c ≡ false
head-IsTrimmed c s h = elim (Bool-cases (is_whitespace c)) [
  | inl e ↦ absurd (omega (arith, trim-shorter c s e, ap (length {A = ℕ}) h))
  | inr e ↦ e
]

pub trim_end-IsTrimmed : (s : Text) → IsTrimmed s → trim_end s ≡ s
unfolding trim
trim_end-IsTrimmed [] h = refl
trim_end-IsTrimmed (c ∷ s) h = rw (head-IsTrimmed c s h) at h
