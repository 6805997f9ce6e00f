-- ===== src/ScyllaBench/Operation/RowData/RoundTrip.antt =====
-- A generated value is valid.
use cql_stress.Common.{
  ℕ, ◌+◌, ◌-◌, ◌%◌, ◌^◌, pos, negsuc, ◌≤◌, ◌<◌, ◌≡◌, ap, ◌∙◌, sym, [], ◌∷◌, ◌++◌, append_assoc,
  arith, length, take, drop, replicate, length-append, take-append, drop-append, ok, ltb,
  if◌then◌else◌, ℤ, true, false,
}
use cql_stress.Common.Int.{u64_mod, as_i64, as_u64, as_i64-as_u64, IsI64, eqb_ℤ_refl}
use cql_stress.Common.Bytes.{
  Bytes, to_le_bytes, from_le_bytes, from_le_bytes-to_le_bytes, length-to_le_bytes, resize,
  eq_bytes_refl,
}
use native.Mathlib.Decide.{dec_lt}
use cql_stress.ScyllaBench.Operation.RowData.{
  header, header_size, min_size, generate_row_data, validate_row_data, validate_short,
  validate_long, decode_size,
}
use cql_stress.ScyllaBench.Operation.RowData.Shape.{
  generate_long, generate_middle, generate_small, length-generate_row_data, head_byte-resize,
  length-resize,
}

as_u64-lt : (a : ℤ) → as_u64 a < 256 ^ 8
unfolding as_u64
as_u64-lt (pos n) = omega arith
as_u64-lt (negsuc n) = omega arith

-- an i64 is read back from its bytes
key-bytes : (a : ℤ) → IsI64 a → as_i64 (from_le_bytes (to_le_bytes 8 (as_u64 a))) ≡ a
key-bytes a h = rw (from_le_bytes-to_le_bytes 8 (as_u64 a) (as_u64-lt a)) (as_i64-as_u64 a h)

decode_small :
    (size : ℕ) (bs : Bytes)
    → 0 < size
    → size < header_size
    → (decode_size (resize (size % 256 ∷ bs) size 0)).0 ≡ size
unfolding decode_size
decode_small size bs h k =
    let l = length-resize (size % 256 ∷ bs) size 0 in
    let small : ltb (length (resize (size % 256 ∷ bs) size 0)) header_size ≡ true =
      ground (arith, l) in
    rw small (head_byte-resize (size % 256) bs size 0 h ∙ omega arith)

generate-same :
    (sha256 : Bytes → Bytes) (payload other : ℕ → Bytes) (pk ck : ℤ) (size : ℕ)
    → size < min_size
    → generate_row_data sha256 payload pk ck size ≡ generate_row_data sha256 other pk ck size
unfolding generate_row_data
generate-same sha256 payload other pk ck size h = ground arith

module _ (sha256 : Bytes → Bytes) (hashed : (bs : Bytes) → length (sha256 bs) ≡ 32) where
  module _ (a b p : Bytes) (length-a : length a ≡ 8) (length-b : length b ≡ 8) where
    abbrev keyed : Bytes
    keyed = a ++ (b ++ (p ++ sha256 p))

    length-keyed : length keyed ≡ 16 + length p + 32
    length-keyed = omega (
      arith,
      length-append {0} a (b ++ (p ++ sha256 p)),
      length-append {0} b (p ++ sha256 p),
      length-append {0} p (sha256 p),
      hashed p,
    )

    front : keyed ≡ (a ++ (b ++ p)) ++ sha256 p
    front = rw append_assoc (rw append_assoc)

    length-front : length (a ++ (b ++ p)) ≡ length keyed - 32
    length-front = omega (arith, length-append {0} a (b ++ p), length-append {0} b p, length-keyed)

    payload-keyed : drop 16 (take (length keyed - 32) keyed) ≡ p
    payload-keyed =
        ap (λ t. drop 16 (take (length keyed - 32) t)) front
        ∙ ap (drop 16) (take-append (length keyed - 32) (a ++ (b ++ p)) (sha256 p) length-front)
        ∙ ap (drop 16) (sym (append_assoc a b p))
        ∙ drop-append 16 (a ++ b) p (omega (arith, length-append {0} a b))

    checksum-keyed : drop (length keyed - 32) keyed ≡ sha256 p
    checksum-keyed =
        ap (drop (length keyed - 32)) front
        ∙ drop-append (length keyed - 32) (a ++ (b ++ p)) (sha256 p) length-front

  -- The checks of a value that was generated with a payload.
  validate_long-generated :
      (pk ck : ℤ) (p : Bytes)
      → IsI64 pk
      → IsI64 ck
      → validate_long sha256 pk ck
          (to_le_bytes 8 (as_u64 pk) ++ (to_le_bytes 8 (as_u64 ck) ++ (p ++ sha256 p)))
        ≡ ok tt
  unfolding validate_long
  validate_long-generated pk ck p hp hc =
      let a = to_le_bytes 8 (as_u64 pk) in
      let b = to_le_bytes 8 (as_u64 ck) in
      let la = length-to_le_bytes 8 (as_u64 pk) in
      let lb = length-to_le_bytes 8 (as_u64 ck) in
      rw (
        payload-keyed a b p la lb,
        checksum-keyed a b p la lb,
        take-append 8 a _ la,
        drop-append 8 a _ la,
        take-append 8 b _ lb,
        key-bytes pk hp,
        key-bytes ck hc,
        eqb_ℤ_refl,
        eqb_ℤ_refl,
        eq_bytes_refl,
      )

  decode_size-long :
      (size : ℕ) (rest : Bytes)
      → size < u64_mod
      → 16 ≤ length rest
      → decode_size (to_le_bytes 8 (size % u64_mod) ++ rest) ≡ (size, rest)
  unfolding decode_size
  decode_size-long size rest h k =
      let a = to_le_bytes 8 (size % u64_mod) in
      let la = length-to_le_bytes 8 (size % u64_mod) in
      let e : size % u64_mod ≡ size = omega arith in
      let f : from_le_bytes a ≡ size = rw e (from_le_bytes-to_le_bytes 8 size (omega arith)) in
      let big : ltb (length (a ++ rest)) header_size ≡ false =
        ground (arith, length-append {0} a rest, la) in
      rw (big, take-append 8 a rest la, drop-append 8 a rest la, f)

  validate_row_data-sized :
      (pk ck : ℤ) (value rest : Bytes) (size : ℕ)
      → length value ≡ size
      → 0 < size
      → decode_size value ≡ (size, rest)
      → validate_row_data sha256 pk ck value ≡ (
          if ltb size min_size
          then validate_short sha256 pk ck value
          else validate_long sha256 pk ck rest)
  unfolding validate_row_data
  validate_row_data-sized pk ck value rest size l h d = rw (d, l) (ground arith)

  validate_empty :
      (payload : ℕ → Bytes) (pk ck : ℤ) (size : ℕ)
      → size ≡ 0
      → validate_row_data sha256 pk ck (generate_row_data sha256 payload pk ck size) ≡ ok tt
  unfolding validate_row_data generate_row_data
  validate_empty payload pk ck size h = rw h

  module _ (payload : ℕ → Bytes) (drawn : (n : ℕ) → length (payload n) ≡ n) (pk ck : ℤ)
      (size : ℕ) where
    abbrev generated : Bytes
    generated = generate_row_data sha256 payload pk ck size

    length-generated : length generated ≡ size
    length-generated = length-generate_row_data sha256 payload pk ck size drawn hashed

    validate-generated_long :
        IsI64 pk
        → IsI64 ck
        → min_size ≤ size
        → size < u64_mod
        → validate_row_data sha256 pk ck generated ≡ ok tt
    unfolding header
    validate-generated_long hp hc h k =
        let p = payload (size - 32 - 24) in
        let a = to_le_bytes 8 (as_u64 pk) in
        let b = to_le_bytes 8 (as_u64 ck) in
        let shape : generated ≡ to_le_bytes 8 (size % u64_mod) ++ (a ++ (b ++ (p ++ sha256 p))) =
          generate_long sha256 payload pk ck size h ∙ rw append_assoc (rw append_assoc) in
        validate_row_data-sized pk ck generated (a ++ (b ++ (p ++ sha256 p))) size length-generated
          (omega arith)
          (ap decode_size shape
            ∙ decode_size-long size (a ++ (b ++ (p ++ sha256 p))) k (
                omega (
                  arith,
                  length-keyed a b p (length-to_le_bytes 8 (as_u64 pk))
                      (length-to_le_bytes 8 (as_u64 ck)),
                )))
        ∙ rw (validate_long-generated pk ck p hp hc) (ground arith)

    decode_size-short : 0 < size → size < min_size → (decode_size generated).0 ≡ size
    unfolding header
    decode_size-short h k = elim (dec_lt size header_size) [
      | yes small ↦
          rw (generate_small sha256 payload pk ck size h small) (decode_small size _ h small)
      | no middle ↦
          let zeros = replicate (size - length (header pk ck size)) 0 in
          let a = to_le_bytes 8 (as_u64 pk) in
          let b = to_le_bytes 8 (as_u64 ck) in
          let shape : generated ≡ to_le_bytes 8 (size % u64_mod) ++ ((a ++ b) ++ zeros) =
            generate_middle sha256 payload pk ck size (omega arith) k ∙ rw append_assoc in
          ap (λ t. (decode_size t).0) shape
          ∙ ap (λ t. t.0)
              (decode_size-long size ((a ++ b) ++ zeros) (omega arith) (
                omega (
                  arith,
                  length-append {0} (a ++ b) zeros,
                  length-append {0} a b,
                  length-to_le_bytes 8 (as_u64 pk),
                  length-to_le_bytes 8 (as_u64 ck),
                )))
    ]

    validate_short-generated : size < min_size → validate_short sha256 pk ck generated ≡ ok tt
    unfolding validate_short
    validate_short-generated h =
        rw (length-generated, generate-same sha256 payload (λ n. []) pk ck size h, eq_bytes_refl)

  -- A value that generate_row_data made is valid for the key that it was made for, whatever its
  -- size and its random bytes. The hash has 32 bytes, the size is a usize, and the keys are i64.
  pub validate-generate_row_data :
      (payload : ℕ → Bytes) (pk ck : ℤ) (size : ℕ)
      → ((n : ℕ) → length (payload n) ≡ n)
      → IsI64 pk
      → IsI64 ck
      → size < u64_mod
      → validate_row_data sha256 pk ck (generate_row_data sha256 payload pk ck size) ≡ ok tt
  validate-generate_row_data payload pk ck size drawn hp hc k = elim (dec_lt 0 size) [
    | no none_left ↦ validate_empty payload pk ck size (omega arith)
    | yes some_left ↦ elim (dec_lt size min_size) [
      | yes short ↦
          validate_row_data-sized pk ck (generate_row_data sha256 payload pk ck size) _ size
            (length-generated payload drawn pk ck size) some_left
            (ap (λ t. (t, (decode_size (generate_row_data sha256 payload pk ck size)).1))
              (decode_size-short payload drawn pk ck size some_left short))
          ∙ rw (validate_short-generated payload drawn pk ck size short) (ground arith)
      | no long ↦ validate-generated_long payload drawn pk ck size hp hc (omega arith) k
    ]
  ]
