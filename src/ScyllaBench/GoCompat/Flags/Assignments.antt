-- ===== src/ScyllaBench/GoCompat/Flags/Assignments.antt =====
-- Command lines that give values to flags.
use cql_stress.Common.{
  Bool, true, false, List, [], ◌∷◌, ◌++◌, ◌≡◌, refl, ap, ◌∙◌, some, ok, any, arith, Bool-cases, inl,
  inr,
}
use mathlib.Core.Bool.{true≢false}
use cql_stress.Text.{Text, codes, ◌is◌, starts_with, is_empty}
use cql_stress.Text.Split.{Lacks, split_once-append, split_once-none}
use cql_stress.ScyllaBench.GoCompat.Flags.{
  Flag, Parsing, get, set_value, assign, read_option, lookup_flag, meaning_of, assigned,
  expects_value, parse_args, parse_value, strip_dashes,
}

-- a flag, the text of its value, the value, and whether the text is an argument of its own
pub record Assignment (V : Type 0) : Type 0 where
  pub flag : Flag V
  pub text : Text
  pub value : V
  pub is_separate : Bool

-- The flag is known to the parser and was not given yet, and its value can be read. A Boolean flag
-- takes no argument of its own.
pub record IsAssignable {V : Type 0} (st : Parsing V) (a : Assignment V) : Type 0 where
  pub named : is_empty a.flag.name ≡ false
  pub no_dash : starts_with b'-' a.flag.name ≡ false
  pub no_equals : Lacks b'=' a.flag.name
  pub new : any (λ t. t is a.flag.name) st.parsed ≡ false
  pub known : get a.flag.name st.flags ≡ some a.flag
  pub reads : a.flag.read a.text ≡ some a.value
  pub separable : a.is_separate ≡ true → a.flag.is_bool_flag ≡ false

-- What the tests on the text of an option say.
with_value :
    (name text : Text)
    → is_empty name ≡ false
    → starts_with b'-' name ≡ false
    → Lacks b'=' name
    → (strip_dashes (b'-' ∷ (name ++ b'=' ∷ text)) ≡ some (name ++ b'=' ∷ text))
      × (((b'-' ∷ (name ++ b'=' ∷ text)) is codes "--") ≡ false)
      × (is_empty (name ++ b'=' ∷ text) ≡ false)
      × (starts_with b'-' (name ++ b'=' ∷ text) ≡ false)
      × (starts_with b'=' (name ++ b'=' ∷ text) ≡ false)
with_value [] text n d l = absurd (true≢false n)
with_value (c ∷ name) text n d l = (ground arith, ground arith, refl, ground arith, ground arith)

without_value :
    (name : Text)
    → is_empty name ≡ false
    → starts_with b'-' name ≡ false
    → Lacks b'=' name
    → (strip_dashes (b'-' ∷ name) ≡ some name)
      × (((b'-' ∷ name) is codes "--") ≡ false)
      × (starts_with b'=' name ≡ false)
without_value [] n d l = absurd (true≢false n)
without_value (c ∷ name) n d l = (ground arith, ground arith, ground arith)

-- -name value, or -name=value
abbrev pub print_parts : Bool → Text → Text → List Text
print_parts true name text = (b'-' ∷ name) ∷ text ∷ []
print_parts false name text = (b'-' ∷ (name ++ b'=' ∷ text)) ∷ []

module _ {V : Type 0} where
  pub print_assignment : Assignment V → List Text
  print_assignment a = print_parts a.is_separate a.flag.name a.text

  pub print_assignments : List (Assignment V) → List Text
  print_assignments [] = []
  print_assignments (a ∷ rest) = print_assignment a ++ print_assignments rest

  unfoldable pub after : Parsing V → Assignment V → Parsing V
  after st a = record {
    flags = set_value a.flag.name a.value st.flags;
    parsed = a.flag.name ∷ st.parsed;
  }

  unfoldable pub after_all : List (Assignment V) → Parsing V → Parsing V
  unfolding after
  after_all [] st = st
  after_all (a ∷ rest) st = after_all rest (after st a)

  -- each can be assigned when those before it have been
  abbrev pub AreAssignable : List (Assignment V) → Parsing V → Type 0
  AreAssignable [] st = Unit {0}
  AreAssignable (a ∷ rest) st = IsAssignable st a × AreAssignable rest (after st a)

  -- the state in which the value of a flag is read
  abbrev given : Parsing V → Assignment V → Parsing V
  given st a = record st { parsed = a.flag.name ∷ st.parsed }

  read_option-joined :
      (st : Parsing V) (a : Assignment V)
      → IsAssignable st a
      → read_option st (b'-' ∷ (a.flag.name ++ b'=' ∷ a.text)) ≡ ok (assigned (after st a))
  unfolding read_option lookup_flag meaning_of assign after
  read_option-joined st a v =
      let (stripped, not_end, full, no_dash, no_equals) =
        with_value a.flag.name a.text v.named v.no_dash v.no_equals in
      rw (
        not_end,
        stripped,
        full,
        no_dash,
        no_equals,
        split_once-append b'=' a.flag.name a.text v.no_equals,
        v.new,
        v.known,
        v.reads,
      )

  read_option-separate :
      (st : Parsing V) (a : Assignment V)
      → IsAssignable st a
      → a.flag.is_bool_flag ≡ false
      → read_option st (b'-' ∷ a.flag.name) ≡ ok (expects_value (given st a) a.flag)
  unfolding read_option lookup_flag meaning_of
  read_option-separate st a v plain =
      let (stripped, not_end, no_equals) =
        without_value a.flag.name v.named v.no_dash v.no_equals in
      rw (
        not_end,
        stripped,
        v.named,
        v.no_dash,
        no_equals,
        split_once-none b'=' a.flag.name v.no_equals,
        v.new,
        v.known,
        plain,
      )

  assign-given :
      (st : Parsing V) (a : Assignment V)
      → IsAssignable st a
      → assign (given st a) a.flag a.text ≡ ok (after st a)
  unfolding assign after
  assign-given st a v = rw v.reads

  parse_args-assigned :
      (arg : Text) (args : List Text) (st st' : Parsing V)
      → read_option st arg ≡ ok (assigned st')
      → parse_args (arg ∷ args) st ≡ parse_args args st'
  unfolding parse_args
  parse_args-assigned arg args st st' h = rw (h, parse_args) refl

  parse_args-expects_value :
      (arg : Text) (args : List Text) (st st' : Parsing V) (flag : Flag V)
      → read_option st arg ≡ ok (expects_value st' flag)
      → parse_args (arg ∷ args) st ≡ parse_value args st' flag
  unfolding parse_args
  parse_args-expects_value arg args st st' flag h = rw (h, parse_args) refl

  parse_value-assigned :
      (text : Text) (args : List Text) (st st' : Parsing V) (flag : Flag V)
      → assign st flag text ≡ ok st'
      → parse_value (text ∷ args) st flag ≡ parse_args args st'
  unfolding parse_args
  parse_value-assigned text args st st' flag h = rw (h, parse_value) refl

  parse_args-print_assignment :
      (st : Parsing V) (a : Assignment V) (args : List Text)
      → IsAssignable st a
      → parse_args (print_assignment a ++ args) st ≡ parse_args args (after st a)
  unfolding print_assignment
  parse_args-print_assignment st a args v = elim (Bool-cases a.is_separate) [
    | inl separate ↦
        ap (λ t. parse_args (print_parts t a.flag.name a.text ++ args) st) separate
        ∙ parse_args-expects_value (b'-' ∷ a.flag.name) (a.text ∷ args) st (given st a) a.flag
            (read_option-separate st a v (v.separable separate))
        ∙ parse_value-assigned a.text args (given st a) (after st a) a.flag (assign-given st a v)
    | inr joined ↦
        ap (λ t. parse_args (print_parts t a.flag.name a.text ++ args) st) joined
        ∙ parse_args-assigned _ args st (after st a) (read_option-joined st a v)
  ]

  -- the assignments are made one after another
  pub parse_args-assignments :
      (rest : List (Assignment V)) (st : Parsing V)
      → AreAssignable rest st
      → parse_args (print_assignments rest) st ≡ ok (after_all rest st)
  unfolding print_assignments after_all
  parse_args-assignments [] st h = unfold parse_args in refl
  parse_args-assignments (a ∷ rest) st h =
      parse_args-print_assignment st a (print_assignments rest) h.0
      ∙ parse_args-assignments rest (after st a) h.1
