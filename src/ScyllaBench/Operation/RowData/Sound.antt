-- ===== src/ScyllaBench/Operation/RowData/Sound.antt =====
-- What `validate_row_data` accepts.
use native.Mathlib.Decide.{dec_lt}
use cql_stress.Common.{
  ℕ, ◌+◌, ◌-◌, ◌%◌, ◌^◌, ◌≤◌, ◌<◌, ◌≡◌, refl, ap, ap₂, ◌⊎◌, inl, inr, ◌∙◌, sym, [], ◌∷◌, ◌++◌,
  append_assoc, arith, length, take, drop, length-take, length-drop, take-append-drop, drop-drop,
  drop-take, All-take, All-drop, ok, ℤ, Bool, true, ensure, ◌>>◌,
}
use cql_stress.Common.Int.{u64_mod, as_i64, as_u64, as_u64-as_i64, eqb_ℤ→≡}
use cql_stress.Common.Bytes.{
  Bytes, AreBytes, to_le_bytes, from_le_bytes, to_le_bytes-from_le_bytes, from_le_bytes-lt,
  eq_bytes→≡,
}
use cql_stress.ScyllaBench.Operation.RowData.{
  wrong_pk, wrong_ck, wrong_checksum, header, min_size, generate_row_data, validate_row_data,
  validate_short, validate_long, decode_size,
}
use cql_stress.ScyllaBench.Operation.RowData.Shape.{generate_long}

-- eight bytes that are read as a number are the bytes of that number
bytes_of_u64 :
    (bs : Bytes)
    → AreBytes bs
    → length bs ≡ 8
    → (n : ℕ) → from_le_bytes bs ≡ n
    → bs ≡ to_le_bytes 8 n
bytes_of_u64 bs h l n e = sym (to_le_bytes-from_le_bytes 8 bs h l) ∙ ap (to_le_bytes 8) e

bytes_of_i64 :
    (bs : Bytes)
    → AreBytes bs
    → length bs ≡ 8
    → (a : ℤ) → as_i64 (from_le_bytes bs) ≡ a
    → bs ≡ to_le_bytes 8 (as_u64 a)
bytes_of_i64 bs h l a e =
    let small : from_le_bytes bs < 256 ^ 8 = rw l at (from_le_bytes-lt bs h) in
    bytes_of_u64 bs h l (as_u64 a)
      (sym (as_u64-as_i64 (from_le_bytes bs) (omega arith)) ∙ ap as_u64 e)

three_checks :
    (a b c : Bool)
    → (ensure a wrong_pk >> (ensure b wrong_ck >> ensure c wrong_checksum)) ≡ ok tt
    → (a ≡ true) × (b ≡ true) × (c ≡ true)
three_checks a b c h = ground arith

module _ (sha256 : Bytes → Bytes) (pk ck : ℤ) where
  -- what the checks of `validate_long` say
  validate_long-checks :
      (rest : Bytes)
      → validate_long sha256 pk ck rest ≡ ok tt
      → (as_i64 (from_le_bytes (take 8 rest)) ≡ pk)
        × (as_i64 (from_le_bytes (take 8 (drop 8 rest))) ≡ ck)
        × (drop (length rest - 32) rest ≡ sha256 (drop 16 (take (length rest - 32) rest)))
  unfolding validate_long
  validate_long-checks rest h =
      let t = three_checks _ _ _ h in (eqb_ℤ→≡ _ pk t.0, eqb_ℤ→≡ _ ck t.1, eq_bytes→≡ _ _ t.2)

  -- its bytes, where there are enough of them
  validate_long-bytes :
      (rest : Bytes)
      → AreBytes rest
      → 48 ≤ length rest
      → validate_long sha256 pk ck rest ≡ ok tt
      → (p : Bytes) × (rest
          ≡ to_le_bytes 8 (as_u64 pk) ++ (to_le_bytes 8 (as_u64 ck) ++ (p ++ sha256 p)))
  validate_long-bytes rest b l h =
      let (e, f, g) = validate_long-checks rest h in
      let p = drop 16 (take (length rest - 32) rest) in
      let n : length rest - 32 ≡ 16 + (length rest - 48) = omega arith in
      let back : p ++ sha256 p ≡ drop 16 rest =
        ap (λ t. p ++ t) (sym g) ∙ rw n (drop-take 16 (length rest - 48) rest) in
      let first =
        bytes_of_i64 (take 8 rest) (All-take _ 8 rest b) (length-take 8 rest ∙ omega arith) pk e in
      let second =
        bytes_of_i64 (take 8 (drop 8 rest)) (All-take _ 8 (drop 8 rest) (All-drop _ 8 rest b))
          (length-take 8 (drop 8 rest) ∙ omega (arith, length-drop {0} 8 rest)) ck f in
      (
        p,
        sym (
            rw (← first, ← second, back, ← drop-drop 8 8 rest, take-append-drop, take-append-drop)),
      )

  abbrev pub Generated : Bytes → Type 0
  Generated value = (p : Bytes) × (value ≡ generate_row_data sha256 (λ n. p) pk ck (length value))

  short-Generated :
      (value : Bytes)
      → validate_short sha256 pk ck value ≡ ok tt
      → length value < min_size
      → Generated value
  unfolding validate_short
  short-Generated value h k = ([], eq_bytes→≡ _ _ (ground arith))

  long-checks :
      (value : Bytes)
      → min_size ≤ length value
      → validate_row_data sha256 pk ck value ≡ ok tt
      → (from_le_bytes (take 8 value) ≡ length value)
        × (validate_long sha256 pk ck (drop 8 value) ≡ ok tt)
  unfolding validate_row_data decode_size
  long-checks value l h = ground arith

  long-Generated :
      (value : Bytes)
      → AreBytes value
      → min_size ≤ length value
      → length value < u64_mod
      → validate_row_data sha256 pk ck value ≡ ok tt
      → Generated value
  unfolding header
  long-Generated value b l k h =
      let checks = long-checks value l h in
      let encoded = checks.0 in
      let (p, e) =
        validate_long-bytes (drop 8 value) (All-drop _ 8 value b)
          (omega (arith, length-drop {0} 8 value)) checks.1 in
      let first =
        bytes_of_u64 (take 8 value) (All-take _ 8 value b) (length-take 8 value ∙ omega arith)
          (length value % u64_mod) (encoded ∙ omega arith) in
      (
        p,
        sym (take-append-drop 8 value)
            ∙ ap₂ ◌++◌ first e
            ∙ sym (
                generate_long sha256 (λ n. p) pk ck (length value) l
                ∙ rw append_assoc (rw append_assoc)),
      )

  short-checks :
      (value : Bytes)
      → length value < min_size
      → validate_row_data sha256 pk ck value ≡ ok tt
      → (length value ≡ 0) ⊎ (validate_short sha256 pk ck value ≡ ok tt)
  unfolding validate_row_data
  short-checks value l h = ground arith

  empty-Generated : (value : Bytes) → length value ≡ 0 → Generated value
  unfolding generate_row_data
  empty-Generated [] h = ([], refl)
  empty-Generated (c ∷ value) h = absurd (omega arith)

  -- A value that is accepted for a key was made by generate_row_data for that key and the value's
  -- own size, with some random bytes: nothing else passes, but the empty value, which is the one
  -- generated for size 0. The value's bytes are below 256, and its length is a u64.
  pub validate_row_data-Generated :
      (value : Bytes)
      → AreBytes value
      → length value < u64_mod
      → validate_row_data sha256 pk ck value ≡ ok tt
      → (p : Bytes) × (value ≡ generate_row_data sha256 (λ n. p) pk ck (length value))
  validate_row_data-Generated value b k h = elim (dec_lt (length value) min_size) [
    | yes short ↦ elim (short-checks value short h) [
      | inl empty ↦ empty-Generated value empty
      | inr checked ↦ short-Generated value checked short
    ]
    | no long ↦ long-Generated value b (omega arith) k h
  ]
