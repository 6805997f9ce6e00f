-- ===== src/Common/Fallible.antt =====
-- `anyhow::Result`: the value or an error. The text of an error is not modelled, only its kind `E`.
use mathlib.Core.Path.{◌≡◌, refl, ap, ◌∙◌}
use mathlib.Core.Bool.{Bool, true, false}
use mathlib.Core.Option.{Option, none, some}

pub data Result {ℓ κ} (E : Type ℓ) (A : Type κ) : Type (ℓ ⊔ κ) where
  ok : A → Result E A
  err : E → Result E A

-- the `?` operator, and its form for an answer that is not used
infixl 5 ◌>>=◌ ◌>>◌
abbrev pub ◌>>=◌ {ℓ κ μ} :
    {E : Type ℓ} {A : Type κ} {B : Type μ} → Result E A → (A → Result E B) → Result E B
err failure >>= next = err failure
ok value >>= next = next value

abbrev pub ◌>>◌ {ℓ κ} : {E : Type ℓ} {B : Type κ} → Result E (Unit {0}) → Result E B → Result E B
err failure >> next = err failure
ok done >> next = next

-- `anyhow::ensure!`
abbrev pub ensure {ℓ} : {E : Type ℓ} → Bool → E → Result E (Unit {0})
ensure true e = ok tt
ensure false e = err e

-- `Option::ok_or_else`
abbrev pub ok_or {ℓ κ} : {E : Type ℓ} {A : Type κ} → Option A → E → Result E A
ok_or none e = err e
ok_or (some a) e = ok a

-- What stands behind a test that succeeds.
pub ensure-ok {ℓ κ} :
    {E : Type ℓ} {A : Type κ} (test : Bool) (e : E) (next : Result E A) {a : A}
    → (ensure test e >> next) ≡ ok a
    → (test ≡ true) × (next ≡ ok a)
ensure-ok true e next h = (refl, h)
ensure-ok false e next h = cc

-- The value that `?` gets out of a result, where it does not return.
pub question-ok {ℓ κ μ} :
    {E : Type ℓ} {A : Type κ} {B : Type μ} (next : A → Result E B) (m : Result E A) (b : B)
    → (m >>= next) ≡ ok b
    → (a : A) × (next a ≡ ok b) × (m ≡ ok a)
question-ok next (err e) b h = cc
question-ok next (ok value) b h = (value, h, refl)

pub ok-inj {ℓ κ} :
    {E : Type ℓ} {A : Type κ} {a b : A} → (let m : Result E A = ok a in m ≡ ok b) → a ≡ b
ok-inj h = cc

-- `?` and `and_then` on options
abbrev pub and_then {ℓ κ} : {A : Type ℓ} {B : Type κ} → Option A → (A → Option B) → Option B
and_then none next = none
and_then (some a) next = next a

pub and_then-cong {ℓ κ} :
    {A : Type ℓ} {B : Type κ} (m m' : Option A) (f g : A → Option B)
    → m ≡ m'
    → ((a : A) → f a ≡ g a)
    → and_then m f ≡ and_then m' g
and_then-cong none none f g e h = refl
and_then-cong none (some a) f g e h = cc
and_then-cong (some a) none f g e h = cc
and_then-cong (some a) (some b) f g e h = let same : a ≡ b = cc in h a ∙ ap g same

pub then-ok {ℓ κ} :
    {E : Type ℓ} {B : Type κ} (m : Result E (Unit {0})) (next : Result E B) (b : B)
    → (m >> next) ≡ ok b
    → (m ≡ ok tt) × (next ≡ ok b)
then-ok (err e) next b h = cc
then-ok (ok tt) next b h = (refl, h)
