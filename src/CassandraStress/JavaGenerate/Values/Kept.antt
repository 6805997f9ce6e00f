-- ===== src/CassandraStress/JavaGenerate/Values/Kept.antt =====
-- A generation keeps the kind of the generator, and its distributions but for what they drew.
use cql_stress.Common.{
  ℕ, zero, suc, ◌≡◌, refl, sym, subst, ◌∙◌, Bool-cases, inl, inr, Option, none, some, Option-cases,
  ltb, if_true, if_false, ◌+◌, [], ℤ,
}
use cql_stress.Common.Bytes.{Bytes}
use cql_stress.CassandraStress.JavaGenerate.{JavaRandom, not_i64}
use cql_stress.CassandraStress.JavaGenerate.FasterRandom.{FasterRandom, set_seed}
use cql_stress.CassandraStress.JavaGenerate.Values.{
  Distribution, ValueGenerator, sized, fill, filled, hex_fill, hex_filled, hex_digits, filled_from,
  hex_filled_from, blob_bytes, text_bytes, hex_of, blob_of, text_of, checked_text, generate_value,
  blob, text, hex_blob, big_int, int, small_int, tiny_int, boolean, inet, var_int, uuid, decimal,
}
use cql_stress.CassandraStress.JavaGenerate.CqlValue.{CqlValue, from_utf8, fits_capacity}
use cql_stress.CassandraStress.JavaGenerate.Values.Kin.{SeedsAfresh, SameSource, renewed}

module _ {R F D : Type 0} (java : JavaRandom R F) (dist : Distribution D) where
  -- What a generation leaves as it was.
  abbrev AreKept : D → D → Option (Bytes × FasterRandom R F × D × D) → Type 0
  AreKept identity size none = Unit
  AreKept identity size (some (bytes, rng, identity', size')) =
      SameSource java dist identity' identity × SameSource java dist size' size

  abbrev HexKept : D → D → Option (Bytes × D × D) → Type 0
  HexKept identity size none = Unit
  HexKept identity size (some (bytes, identity', size')) =
      SameSource java dist identity' identity × SameSource java dist size' size

  abbrev pub IsKept :
      ValueGenerator R F → D → D → Option (CqlValue × ValueGenerator R F × D × D) → Type 0
  IsKept gen identity size none = Unit
  IsKept gen identity size (some (value, gen', identity', size')) =
      (renewed java dist gen' ≡ renewed java dist gen)
      × SameSource java dist identity' identity
      × SameSource java dist size' size

  filled_from-AreKept :
      (bytes_of : ℤ → Bytes) (rng : FasterRandom R F) (start : ℤ × ℕ × D × D) (identity size : D)
      → SameSource java dist start.2 identity
      → SameSource java dist start.3 size
      → AreKept identity size (filled_from java dist bytes_of rng start)
  unfolding filled_from
  filled_from-AreKept bytes_of rng (seed, n, identity', size') identity size hi hs =
      elim (Bool-cases (fits_capacity n)) [
        | inr large ↦ rw large tt
        | inl fits ↦
            elim (Option-cases (fill java bytes_of n n 0 (set_seed java rng (not_i64 seed)) [])) [
              | inl e ↦ rw (fits, e) tt
              | inr (m, e) ↦ rw (fits, e) (hi, hs)
            ]
      ]

  blob_of-IsKept :
      (rng : FasterRandom R F) (identity size : D) (m : Option (Bytes × FasterRandom R F × D × D))
      → AreKept identity size m
      → IsKept (blob rng) identity size (blob_of java dist m)
  unfolding blob_of
  blob_of-IsKept rng identity size none h = tt
  blob_of-IsKept rng identity size (some (bytes, rng', identity', size')) h = (refl, h.0, h.1)

  checked_text-IsKept :
      (rng rng' : FasterRandom R F) (identity size identity' size' : D)
      → SameSource java dist identity' identity × SameSource java dist size' size
      → (m : Option Bytes)
      → IsKept (text rng) identity size (checked_text java dist rng' identity' size' m)
  unfolding checked_text
  checked_text-IsKept rng rng' identity size identity' size' h none = tt
  checked_text-IsKept rng rng' identity size identity' size' h (some s) = (refl, h.0, h.1)

  text_of-IsKept :
      (rng : FasterRandom R F) (identity size : D) (m : Option (Bytes × FasterRandom R F × D × D))
      → AreKept identity size m
      → IsKept (text rng) identity size (text_of java dist m)
  unfolding text_of from_utf8
  text_of-IsKept rng identity size none h = tt
  text_of-IsKept rng identity size (some (bytes, rng', identity', size')) h =
      checked_text-IsKept rng rng' identity size identity' size' h (from_utf8 bytes)

  hex_of-IsKept :
      (identity size : D) (m : Option (Bytes × D × D))
      → HexKept identity size m
      → IsKept hex_blob identity size (hex_of java dist m)
  unfolding hex_of
  hex_of-IsKept identity size none h = tt
  hex_of-IsKept identity size (some (bytes, identity', size')) h = (refl, h.0, h.1)

  module _ (afresh : SeedsAfresh dist) where
    abbrev Sampled : D → Option (Bytes × D) → Type 0
    Sampled identity none = Unit
    Sampled identity (some (bytes, identity')) = SameSource java dist identity' identity

    hex_fill-Sampled :
        (fuel size i : ℕ) (identity start : D) (result : Bytes)
        → SameSource java dist identity start
        → Sampled start (hex_fill dist fuel size i identity result)
    unfolding hex_fill
    hex_fill-Sampled zero size i identity start result h = elim (Bool-cases (ltb i size)) [
      | inl more ↦ rw more tt
      | inr over ↦ rw over h
    ]
    hex_fill-Sampled (suc fuel) size i identity start result h =
        let rest =
          hex_fill-Sampled fuel size (i + 16) (dist.sample identity).1 start
            (hex_digits dist 16 i size (dist.sample identity).0 result)
            (λ s. afresh.after_sample identity s ∙ h s) in
        elim (Bool-cases (ltb i size)) [
          | inl more ↦ subst (Sampled start) (sym (if_true (ltb i size) _ _ more)) rest
          | inr over ↦ subst (Sampled start) (sym (if_false (ltb i size) _ _ over)) h
        ]

    hex_filled_from-HexKept :
        (start : ℤ × ℕ × D × D) (identity size : D)
        → SameSource java dist start.2 identity
        → SameSource java dist start.3 size
        → HexKept identity size (hex_filled_from dist start)
    unfolding hex_filled_from
    hex_filled_from-HexKept (seed, n, identity', size') identity size hi hs =
        let sampled = hex_fill-Sampled n n 0 identity' identity [] hi in
        elim (Bool-cases (fits_capacity n)) [
          | inr large ↦ rw large tt
          | inl fits ↦ elim (Option-cases (hex_fill dist n n 0 identity' [])) [
            | inl e ↦ rw (fits, e) tt
            | inr (m, e) ↦ rw (fits, e) ((rw e at sampled), hs)
          ]
        ]

    sized-kept :
        (identity size : D)
        → SameSource java dist (sized dist identity size).2 identity
          × SameSource java dist (sized dist identity size).3 size
    sized-kept identity size = (
      λ s. afresh.after_sample identity s,
      λ s.
          afresh.after_sample (dist.seeded size (dist.sample identity).0) s
          ∙ afresh.after_seed size (dist.sample identity).0 s,
    )

    pub generate_value-IsKept :
        (gen : ValueGenerator R F) (identity size : D)
        → IsKept gen identity size (generate_value java dist gen identity size)
    unfolding generate_value filled hex_filled
    generate_value-IsKept (blob rng) identity size =
        let k = sized-kept identity size in
        blob_of-IsKept rng identity size _
          (filled_from-AreKept blob_bytes rng (sized dist identity size) identity size k.0 k.1)
    generate_value-IsKept (text rng) identity size =
        let k = sized-kept identity size in
        text_of-IsKept rng identity size _
          (filled_from-AreKept text_bytes rng (sized dist identity size) identity size k.0 k.1)
    generate_value-IsKept hex_blob identity size =
        let k = sized-kept identity size in
        hex_of-IsKept identity size _
          (hex_filled_from-HexKept (sized dist identity size) identity size k.0 k.1)
    generate_value-IsKept big_int identity size = (refl, afresh.after_sample identity, λ s. refl)
    generate_value-IsKept int identity size = (refl, afresh.after_sample identity, λ s. refl)
    generate_value-IsKept small_int identity size = (refl, afresh.after_sample identity, λ s. refl)
    generate_value-IsKept tiny_int identity size = (refl, afresh.after_sample identity, λ s. refl)
    generate_value-IsKept boolean identity size = (refl, afresh.after_sample identity, λ s. refl)
    generate_value-IsKept inet identity size = (refl, afresh.after_sample identity, λ s. refl)
    generate_value-IsKept var_int identity size = (refl, afresh.after_sample identity, λ s. refl)
    generate_value-IsKept uuid identity size = (refl, afresh.after_sample identity, λ s. refl)
    generate_value-IsKept decimal identity size = (refl, afresh.after_sample identity, λ s. refl)
