-- ===== src/CassandraStress/JavaGenerate/Values/Hex.antt =====
-- The bytes of `HexBlob`: sixteen digits of every number that the identity distribution gives.
use cql_stress.Common.{
  ℕ, zero, suc, ◌+◌, ◌-◌, ◌*◌, ◌/◌, ◌%◌, ◌^◌, ◌≤◌, ◌<◌, ◌≡◌, refl, sym, ap, ap₂, ◌∙◌, true, false,
  Bool-cases, inl, inr, ◌⊎◌, List, [], ◌∷◌, ◌++◌, none, some, ltb, if_true, length, take,
  append_assoc, append-nil, length-append, length-take, All, All-append, All-take, ℤ, arith,
}
use cql_stress.Common.Int.{as_u64, as_i64, as_u64-as_i64, u64_mod}
use cql_stress.Common.Bytes.{Bytes}
use cql_stress.CassandraStress.JavaGenerate.{JavaRandom}
use cql_stress.CassandraStress.JavaGenerate.Values.{
  Distribution, sized, hex_digits, hex_fill, hex_filled, hex_filled_from, hex_of, hex_blob,
  generate_value,
}
use cql_stress.CassandraStress.JavaGenerate.CqlValue.{hex_digit, blob_value}

-- `k` hexadecimal digits of a number, the lowest first
abbrev pub digits : ℕ → ℕ → Bytes
digits zero w = []
digits (suc k) w = hex_digit (w % 16) ∷ digits k (w / 16)

-- '0' to '9', or 'K' to 'P'
abbrev pub IsPrinted : ℕ → Type 0
IsPrinted b = ((b'0' ≤ b) × (b ≤ b'9')) ⊎ ((b'K' ≤ b) × (b ≤ b'P'))

hex_digit-IsPrinted : (w : ℕ) → IsPrinted (hex_digit (w % 16))
hex_digit-IsPrinted w = ground arith

digits-IsPrinted : (k w : ℕ) → All IsPrinted (digits k w)
digits-IsPrinted zero w = tt
digits-IsPrinted (suc k) w = (hex_digit-IsPrinted w, digits-IsPrinted k (w / 16))

length-digits : (k w : ℕ) → length (digits k w) ≡ k
length-digits zero w = refl
length-digits (suc k) w = ap suc (length-digits k (w / 16))

as_u64-lt : (a : ℤ) → as_u64 a < u64_mod
unfolding as_u64
as_u64-lt a = ground arith

take-nil : {A : Type 0} (n : ℕ) → take n (let e : List A = [] in e) ≡ []
take-nil zero = refl
take-nil (suc n) = refl

take-append_split :
    {A : Type 0} (m : ℕ) (c r : List A) → take m (c ++ r) ≡ take m c ++ take (m - length c) r
take-append_split m [] r =
    let e : m - 0 ≡ m = omega arith in ap₂ ◌++◌ (sym (take-nil m)) (rw e refl)
take-append_split zero (x ∷ c) r = let e : 0 - suc (length c) ≡ 0 = omega arith in rw e refl
take-append_split (suc m) (x ∷ c) r =
    let f : suc m - suc (length c) ≡ m - length c = omega arith in
    rw f (ap (λ l. x ∷ l) (take-append_split m c r))

hex_digits_lem :
    {D : Type 0} (dist : Distribution D) (left at size : ℕ) (value : ℤ) (result : Bytes)
    → hex_digits dist left at size value result
      ≡ result ++ take (size - at) (digits left (as_u64 value))
unfolding hex_digits
hex_digits_lem dist zero at size value result =
    sym (append-nil result) ∙ ap (λ l. result ++ l) (sym (take-nil (size - at)))
hex_digits_lem dist (suc left) at size value result = elim (Bool-cases (ltb at size)) [
  | inl more ↦
      let w = as_u64 value in
      let next = as_i64 (w / 16) in
      let v = hex_digit (w % 16) in
      let IH = hex_digits_lem dist left (at + 1) size next (result ++ (v ∷ [])) in
      let e : as_u64 next ≡ w / 16 = as_u64-as_i64 (w / 16) (omega (arith, as_u64-lt value)) in
      let f : size - at ≡ suc (size - (at + 1)) = ground arith in
      let IH2 : hex_digits dist left (at + 1) size next (result ++ (v ∷ []))
          ≡ (result ++ (v ∷ [])) ++ take (size - (at + 1)) (digits left (w / 16)) =
        rw e at IH in
      rw (more, f)
        (IH2 ∙ append_assoc result (v ∷ []) (take (size - (at + 1)) (digits left (w / 16))))
  | inr over ↦ let e : size - at ≡ 0 = ground arith in rw (over, e, append-nil result) refl
]

module _ {D : Type 0} (dist : Distribution D) where
  -- the digits of the next `k` numbers
  abbrev pub hex_stream : ℕ → D → Bytes
  hex_stream zero identity = []
  hex_stream (suc k) identity =
      digits 16 (as_u64 (dist.sample identity).0) ++ hex_stream k (dist.sample identity).1

  hex_stream-IsPrinted : (k : ℕ) (identity : D) → All IsPrinted (hex_stream k identity)
  hex_stream-IsPrinted zero identity = tt
  hex_stream-IsPrinted (suc k) identity =
      All-append IsPrinted (digits 16 (as_u64 (dist.sample identity).0))
        (hex_stream k (dist.sample identity).1)
        (digits-IsPrinted 16 (as_u64 (dist.sample identity).0))
        (hex_stream-IsPrinted k (dist.sample identity).1)

  length-hex_stream : (k : ℕ) (identity : D) → length (hex_stream k identity) ≡ 16 * k
  length-hex_stream zero identity = omega arith
  length-hex_stream (suc k) identity = omega (
    arith,
    length-append (digits 16 (as_u64 (dist.sample identity).0))
        (hex_stream k (dist.sample identity).1),
    length-digits 16 (as_u64 (dist.sample identity).0),
    length-hex_stream k (dist.sample identity).1,
  )

  hex_fill_lem :
      (fuel size i : ℕ) (identity : D) (result : Bytes)
      → size ≤ i + 16 * fuel
      → (identity' : D) × (hex_fill dist fuel size i identity result
          ≡ some (result ++ take (size - i) (hex_stream fuel identity), identity'))
  unfolding hex_fill
  hex_fill_lem zero size i identity result enough =
      let over : ltb i size ≡ false = ground arith in
      let e : size - i ≡ 0 = omega arith in (identity, rw (over, e, append-nil result) refl)
  hex_fill_lem (suc fuel) size i identity result enough = elim (Bool-cases (ltb i size)) [
    | inl more ↦
        let w = as_u64 (dist.sample identity).0 in
        let after = (dist.sample identity).1 in
        let d = hex_digits_lem dist 16 i size (dist.sample identity).0 result in
        let (identity', filled) =
          hex_fill_lem fuel size (i + 16) after (result ++ take (size - i) (digits 16 w))
            (omega arith) in
        let left : size - (i + 16) ≡ size - i - length (digits 16 w) =
          omega (arith, length-digits 16 w) in
        let parts =
          append_assoc result (take (size - i) (digits 16 w))
            (take (size - (i + 16)) (hex_stream fuel after))
          ∙ ap (λ l. result ++ (take (size - i) (digits 16 w) ++ take l (hex_stream fuel after)))
              left
          ∙ ap (λ l. result ++ l)
              (sym (take-append_split (size - i) (digits 16 w) (hex_stream fuel after))) in
        (
          identity',
          if_true (ltb i size) _ _ more
              ∙ ap (λ r. hex_fill dist fuel size (i + 16) after r) d
              ∙ filled
              ∙ ap (λ l. some (l, identity')) parts,
        )
    | inr over ↦
        let e : size - i ≡ 0 = ground arith in (identity, rw (over, e, append-nil result) refl)
  ]

  module _ {R F : Type 0} (java : JavaRandom R F) where
    -- A key whose size is below 2 ^ 63 is made of sixteen digits of each number that the identity
    -- distribution gives, the lowest first, as many as its size, and every byte is one of 0 to 9 or
    -- of K to P. From 2 ^ 63 on the generator panics.
    pub generate_value-hex_blob :
        (identity size : D)
        → let s = sized dist identity size in
          let bytes = take s.1 (hex_stream s.1 s.2) in
          (s.1 < 2 ^ 63
            → (identity' : D) × (generate_value java dist hex_blob identity size
                ≡ some (blob_value bytes, hex_blob, identity', s.3))
              × (length bytes ≡ s.1)
              × All IsPrinted bytes)
          × (2 ^ 63 ≤ s.1 → generate_value java dist hex_blob identity size ≡ none)
    unfolding generate_value hex_of hex_filled hex_filled_from
    generate_value-hex_blob identity size = (
      λ small.
          let (seed, n, identity', size') = sized dist identity size in
          let fits : ltb n (2 ^ 63) ≡ true = ground arith in
          let (identity2, e) = hex_fill_lem n n 0 identity' [] (omega arith) in
          let whole : n - 0 ≡ n = omega arith in
          let f : hex_fill dist n n 0 identity' []
              ≡ some (take n (hex_stream n identity'), identity2) =
            rw whole at e in
          (
            identity2,
            rw (fits, f) refl,
            omega (arith, length-take n (hex_stream n identity'), length-hex_stream n identity'),
            All-take IsPrinted n (hex_stream n identity') (hex_stream-IsPrinted n identity'),
          ),
      λ large.
          let n = (sized dist identity size).1 in
          let fits : ltb n (2 ^ 63) ≡ false = ground arith in rw fits refl,
    )
