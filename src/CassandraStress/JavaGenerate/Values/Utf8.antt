-- ===== src/CassandraStress/JavaGenerate/Values/Utf8.antt =====
-- The text of `Text` is ASCII, so `String::from_utf8` takes it.
use cql_stress.Common.{
  ℕ, zero, suc, ◌+◌, ◌%◌, ◌^◌, ◌≤◌, ◌<◌, ◌≡◌, refl, ap, ◌∙◌, true, [], ◌∷◌, none, some, length,
  length-map, take, map, All, All-take, All-append, ltb, ℤ, arith,
}
use native.Mathlib.Nat.{mod-lt}
use cql_stress.Common.Int.{as_u64}
use cql_stress.Common.Bytes.{Bytes, to_le_bytes, length-to_le_bytes}
use cql_stress.CassandraStress.JavaGenerate.{JavaRandom}
use cql_stress.CassandraStress.JavaGenerate.FasterRandom.{FasterRandom, next_i64}
use cql_stress.CassandraStress.JavaGenerate.Values.{
  Distribution, sized, blob, text, blob_bytes, text_bytes, generate_value, blob_of, text_of,
  checked_text,
}
use cql_stress.CassandraStress.JavaGenerate.CqlValue.{
  blob_value, text_value, to_text_byte, is_utf8_from, utf8_lead, from_utf8,
}
use cql_stress.CassandraStress.JavaGenerate.Values.Chunks.{
  stream, started, filled_lem, filled_panics, take-stream-length,
}

abbrev pub AreAscii : Bytes → Type 0
AreAscii = All (λ b. b < 128)

AreAscii-is_utf8 : (bs : Bytes) → AreAscii bs → is_utf8_from 0 0x80 0xbf bs ≡ true
unfolding is_utf8_from utf8_lead
AreAscii-is_utf8 [] h = refl
AreAscii-is_utf8 (b ∷ bs) h =
    let e : ltb b 0x80 ≡ true = ground (arith, h.0) in
    rw (is_utf8_from, utf8_lead, e) (AreAscii-is_utf8 bs h.1)

map-AreAscii : (bs : Bytes) → AreAscii (map to_text_byte bs)
map-AreAscii [] = tt
map-AreAscii (b ∷ bs) = (mod-lt (b % 128 + 32) (omega arith), map-AreAscii bs)

blob_eight : (v : ℤ) → length (blob_bytes v) ≡ 8
blob_eight v = length-to_le_bytes 8 (as_u64 v)

text_eight : (v : ℤ) → length (text_bytes v) ≡ 8
text_eight v = length-map to_text_byte (to_le_bytes 8 (as_u64 v)) ∙ length-to_le_bytes 8 (as_u64 v)

module _ {R F : Type 0} (java : JavaRandom R F) where
  stream-AreAscii : (k : ℕ) (rng : FasterRandom R F) → AreAscii (stream java text_bytes k rng)
  stream-AreAscii zero rng = tt
  stream-AreAscii (suc k) rng =
      All-append (λ b. b < 128) (text_bytes (next_i64 java rng).0)
        (stream java text_bytes k (next_i64 java rng).1)
        (map-AreAscii (to_le_bytes 8 (as_u64 (next_i64 java rng).0)))
        (stream-AreAscii k (next_i64 java rng).1)

  module _ {D : Type 0} (dist : Distribution D) where
    -- A blob whose size is below 2 ^ 63 is made, and is the first bytes of the stream of random
    -- numbers that follow the seed, as many as its size; from 2 ^ 63 on, where a negative size is
    -- cast to, the generator panics.
    pub generate_value-blob :
        (rng : FasterRandom R F) (identity size : D)
        → let s = sized dist identity size in
          let bytes = take s.1 (stream java blob_bytes s.1 (started java dist rng identity size)) in
          (s.1 < 2 ^ 63
            → (rng' : FasterRandom R F) × (generate_value java dist (blob rng) identity size
                ≡ some (blob_value bytes, blob rng', s.2, s.3))
              × (length bytes ≡ s.1))
          × (2 ^ 63 ≤ s.1 → generate_value java dist (blob rng) identity size ≡ none)
    unfolding generate_value blob_of text_of
    generate_value-blob rng identity size = (
      λ small.
          let n = (sized dist identity size).1 in
          let (rng', e) = filled_lem java blob_bytes blob_eight dist rng identity size small in
          (
            rng',
            ap (blob_of java dist) e,
            take-stream-length java blob_bytes blob_eight n (started java dist rng identity size),
          ),
      λ large.
          ap (blob_of java dist)
            (filled_panics java blob_bytes blob_eight dist rng identity size large),
    )

    text_of-AreAscii :
        (bytes : Bytes) (rng : FasterRandom R F) (identity size : D)
        → AreAscii bytes
        → text_of java dist (some (bytes, rng, identity, size))
          ≡ some (text_value bytes, text rng, identity, size)
    unfolding text_of from_utf8 checked_text
    text_of-AreAscii bytes rng identity size ascii = rw (text_of, AreAscii-is_utf8 bytes ascii) refl

    -- A text whose size is below 2 ^ 63 is made, so the check of its UTF-8 never panics: it is the
    -- first bytes of a stream, as many as its size, and all of them are ASCII. From 2 ^ 63 on the
    -- generator panics.
    pub generate_value-text :
        (rng : FasterRandom R F) (identity size : D)
        → let s = sized dist identity size in
          let bytes = take s.1 (stream java text_bytes s.1 (started java dist rng identity size)) in
          (s.1 < 2 ^ 63
            → (rng' : FasterRandom R F) × (generate_value java dist (text rng) identity size
                ≡ some (text_value bytes, text rng', s.2, s.3))
              × (length bytes ≡ s.1)
              × AreAscii bytes)
          × (2 ^ 63 ≤ s.1 → generate_value java dist (text rng) identity size ≡ none)
    unfolding generate_value blob_of text_of
    generate_value-text rng identity size = (
      λ small.
          let n = (sized dist identity size).1 in
          let start = started java dist rng identity size in
          let bytes = take n (stream java text_bytes n start) in
          let (rng', e) = filled_lem java text_bytes text_eight dist rng identity size small in
          let ascii : AreAscii bytes =
            All-take (λ b. b < 128) n (stream java text_bytes n start) (stream-AreAscii n start) in
          (
            rng',
            ap (text_of java dist) e
                ∙ text_of-AreAscii bytes rng' (sized dist identity size).2
                    (sized dist identity size).3 ascii,
            take-stream-length java text_bytes text_eight n start,
            ascii,
          ),
      λ large.
          ap (text_of java dist)
            (filled_panics java text_bytes text_eight dist rng identity size large),
    )
