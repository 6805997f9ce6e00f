-- ===== src/ScyllaBench/GoCompat/Flags.antt =====
-- gocompat/flags.rs: the flags of a command line. A flag's cell holds a value of one type `V`, the
-- sum of the types that flags have; `read` is `GoValue::parse` for the flag's type. The map from
-- names to flags is a list of flags.
pub mod Assignments
pub mod Values
use cql_stress.Common.{
  ℕ, Bool, true, false, not, ◌&&◌, ◌||◌, List, [], ◌∷◌, Option, none, some, Result, ok, err, ensure,
  ok_or, ◌>>=◌, ◌>>◌, if◌then◌else◌, ◌==◌, any, ℤ, pos,
}
use cql_stress.Common.Int.{eqb_ℤ}
use cql_stress.Text.{Text, codes, ◌is◌, is_empty, starts_with, strip_prefix}
use cql_stress.Text.Split.{split_once}
use cql_stress.ScyllaBench.GoCompat.Strconv.{
  ConvError, parse_bool, parse_int, parse_uint, quote_string,
}

-- `GoValue`
pub record GoValue (T : Type 0) : Type 0 where
  pub parse : Text → Result ConvError T
  pub is_zero_value : T → Bool
  pub is_bool_flag : Bool
  pub default_name : Text

pub go_bool : GoValue Bool
go_bool = record { parse = parse_bool; is_zero_value = not; is_bool_flag = true; default_name = [] }

pub go_i64 : GoValue ℤ
go_i64 = record {
  parse = λ s. parse_int s 64;
  is_zero_value = λ a. eqb_ℤ a (pos 0);
  is_bool_flag = false;
  default_name = codes "int";
}

pub go_u64 : GoValue ℕ
go_u64 = record {
  parse = λ s. parse_uint s 64;
  is_zero_value = λ n. n == 0;
  is_bool_flag = false;
  default_name = codes "uint";
}

pub go_string : GoValue Text
go_string = record {
  parse = λ s. ok s;
  is_zero_value = is_empty;
  is_bool_flag = false;
  default_name = codes "string";
}

pub data FlagError : Type 0 where
  not_an_option invalid_flag provided_twice unknown_flag value_missing bad_value : FlagError

-- the panics of `add_flag`
pub data DefinitionError : Type 0 where
  empty_name starts_with_dash starts_with_equals defined_twice : DefinitionError

-- the text behind one or two dashes
abbrev pub strip_dashes : Text → Option Text
strip_dashes [] = none
strip_dashes (c ∷ []) = if c == b'-' then some [] else none
strip_dashes (c ∷ d ∷ s) = if c == b'-' then (if d == b'-' then some s else some (d ∷ s)) else none

-- the name, and the value behind the equality sign
abbrev pub name_and_value : Text → Option (Text × Text) → Text × Option Text
name_and_value s none = (s, none)
name_and_value s (some (name, value)) = (name, some value)

pub record Flag (V : Type 0) : Type 0 where
  pub name : Text
  pub is_bool_flag : Bool
  pub read : Text → Option V
  pub value : V

-- the values of the flags, and the names that were given
pub record Parsing (V : Type 0) : Type 0 where
  pub flags : List (Flag V)
  pub parsed : List Text

-- What an argument in the position of an option means.
pub data Meaning (V : Type 0) : Type 0 where
  -- `--`
  end_of_flags : Parsing V → Meaning V
  -- the flag has its value
  assigned : Parsing V → Meaning V
  -- the value is the next argument
  expects_value : Parsing V → Flag V → Meaning V

module _ {V : Type 0} where
  unfoldable pub get : Text → List (Flag V) → Option (Flag V)
  get name [] = none
  get name (f ∷ fs) = let rest = get name fs in if f.name is name then some f else rest

  -- `flag.cell` gets a value
  unfoldable pub set_value : Text → V → List (Flag V) → List (Flag V)
  set_value name v [] = []
  set_value name v (f ∷ fs) =
      let rest = set_value name v fs in
      if f.name is name then record f { value = v } ∷ fs else f ∷ rest

  unfoldable pub is_defined : Text → List (Flag V) → Bool
  is_defined name fs = any (λ f. f.name is name) fs

  -- `add_flag`, in any of the builder's methods
  unfoldable pub add_flag : List (Flag V) → Flag V → Result DefinitionError (List (Flag V))
  unfolding is_defined
  add_flag flags flag = do
    ensure (not (is_empty flag.name)) empty_name
    ensure (not (starts_with b'-' flag.name)) starts_with_dash
    ensure (not (starts_with b'=' flag.name)) starts_with_equals
    ensure (not (is_defined flag.name flags)) defined_twice
    ok (flag ∷ flags)

  -- `flag.cell.parse(value)?`
  unfoldable pub assign : Parsing V → Flag V → Text → Result FlagError (Parsing V)
  unfolding set_value
  assign st flag text = do
    v ← ok_or (flag.read text) bad_value
    ok (record st { flags = set_value flag.name v st.flags })

  -- the last match of the loop
  unfoldable pub meaning_of : Parsing V → Flag V → Option Text → Result FlagError (Meaning V)
  unfolding assign
  meaning_of st flag (some value) = do st' ← assign st flag value; ok (assigned st')
  meaning_of st flag none =
      if flag.is_bool_flag
      then (do st' ← assign st flag (codes "1"); ok (assigned st'))
      else ok (expects_value st flag)

  unfoldable pub lookup_flag : Parsing V → Text × Option Text → Result FlagError (Meaning V)
  unfolding meaning_of get
  lookup_flag st (name, value) = do
    ensure (not (any (λ t. t is name) st.parsed)) provided_twice
    flag ← ok_or (get name st.flags) unknown_flag
    meaning_of (record st { parsed = name ∷ st.parsed }) flag value

  unfoldable pub read_option : Parsing V → Text → Result FlagError (Meaning V)
  unfolding lookup_flag
  read_option st arg = if arg is codes "--" then ok (end_of_flags st) else (do
    s ← ok_or (strip_dashes arg) not_an_option
    ensure (not (is_empty s) && (not (starts_with b'-' s) && not (starts_with b'=' s))) invalid_flag
    lookup_flag st (name_and_value s (split_once b'=' s)))

  -- `parse_args`: the arguments are an iterator, which a flag may ask for one more.
  unfoldable mutual
    pub parse_args : List Text → Parsing V → Result FlagError (Parsing V)
    parse_args [] st = ok st
    parse_args (arg ∷ args) st = elim (read_option st arg) [
      | err e ↦ err e
      | ok m ↦ elim m [
        | end_of_flags st' ↦ ok st'
        | assigned st' ↦ parse_args args st'
        | expects_value st' flag ↦ parse_value args st' flag
      ]
    ]

    -- `args.next()` within the loop
    pub parse_value : List Text → Parsing V → Flag V → Result FlagError (Parsing V)
    parse_value [] st flag = err value_missing
    parse_value (text ∷ args) st flag = elim (assign st flag text) [
      | err e ↦ err e
      | ok st' ↦ parse_args args st'
    ]
