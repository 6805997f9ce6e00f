-- ===== src/CassandraStress/Settings/Params.antt =====
-- settings/param/mod.rs, simple_param.rs and parser.rs: simple parameters and their groups. The
-- parser and its groups share the cells of the parameters: a cell is an index into the parser's list.
pub mod Supplied
pub mod Group
pub mod Kept
pub mod Available
pub mod Singles
pub mod Settled
use cql_stress.Common.{
  ℕ, zero, suc, ◌+◌, Bool, true, false, not, ◌&&◌, ◌||◌, List, [], ◌∷◌, Option, none, some, Result,
  ok, err, ensure, ok_or, ◌>>=◌, ◌>>◌, if◌then◌else◌, ◌==◌, length, drop, any, get_elem?, and_then,
}
use cql_stress.Text.{Text, byte_length, slice_from}

-- `TypedParam<SimpleParam<T>>`: `read` is `T::parse`
pub record Param (V : Type 0) : Type 0 where
  pub prefix : Text
  pub read : Text → Option V
  pub value : Option V
  pub required : Bool
  pub supplied_by_user : Bool
  pub satisfied : Bool

pub data ParamError : Type 0 where
  given_twice bad_value invalid_parameter no_group : ParamError
  -- the panic of a slice that begins within a character
  slice_panics : ParamError

abbrev pub has_prefix : Text → Text → Bool
has_prefix [] s = true
has_prefix (p ∷ ps) [] = false
has_prefix (p ∷ ps) (c ∷ s) = c == p && has_prefix ps s

-- the numbers of the cells, from `n`
unfoldable pub cells_from : {A : Type 0} → ℕ → List A → List ℕ
cells_from n [] = []
cells_from n (x ∷ xs) = n ∷ cells_from (n + 1) xs

-- `str::to_lowercase` of the standard library is an argument.
module _ (to_lowercase : Text → Text) {V : Type 0} where
  unfoldable pub new_param : Text → (Text → Option V) → Option V → Bool → Param V
  new_param prefix read default required = record {
    prefix = prefix;
    read = read;
    value = default;
    required = required;
    supplied_by_user = false;
    satisfied = false;
  }

  -- `SimpleParam::new_wrapped`; `none` if the default does not parse, where the source panics
  unfoldable pub new_wrapped : Text → (Text → Option V) → Option Text → Bool → Option (Param V)
  unfolding new_param
  new_wrapped prefix read none required = some (new_param prefix read none required)
  new_wrapped prefix read (some default) required = elim (read default) [
    | none ↦ none
    | some v ↦ some (new_param prefix read (some v) required)
  ]

  unfoldable pub try_match : Param V → Text → Bool
  try_match p arg = has_prefix (to_lowercase p.prefix) (to_lowercase arg)

  unfoldable pub parse_param : Param V → Text → Result ParamError (Param V)
  parse_param p arg = do
    ensure (not p.supplied_by_user) given_twice
    arg_val ← ok_or (slice_from (byte_length p.prefix) arg) slice_panics
    v ← ok_or (p.read arg_val) bad_value
    ok (record p { value = some v; supplied_by_user = true })

  -- `set_satisfied`, of the parameter in a cell
  unfoldable pub set_satisfied : ℕ → List (Param V) → List (Param V)
  set_satisfied i [] = []
  set_satisfied zero (p ∷ ps) = record p { satisfied = true } ∷ ps
  set_satisfied (suc i) (p ∷ ps) = p ∷ set_satisfied i ps

  -- `get`, of a parameter
  unfoldable pub get_value : Param V → Option V
  get_value p = if p.satisfied then p.value else none

  -- `SimpleParamHandle::get`, of the parameter in a cell
  unfoldable pub handle : List (Param V) → ℕ → Option V
  unfolding get_value
  handle ps i = and_then (get_elem? ps i) get_value

  -- the loop over the parameters: the first one that matches consumes the argument
  unfoldable pub consume : Text → List (Param V) → Result ParamError (List (Param V))
  unfolding try_match parse_param
  consume arg [] = err invalid_parameter
  consume arg (p ∷ ps) =
      let rest = consume arg ps in
      if try_match p arg
      then (do p' ← parse_param p arg; ok (p' ∷ ps))
      else (do ps' ← rest; ok (p ∷ ps'))

  unfoldable pub consume_all : List Text → List (Param V) → Result ParamError (List (Param V))
  unfolding consume
  consume_all [] ps = ok ps
  consume_all (arg ∷ args) ps = elim (consume arg ps) [
    | err e ↦ err e
    | ok ps' ↦ consume_all args ps'
  ]

  -- `ParamsGroup`: its cells
  unfoldable pub is_supplied : List (Param V) → ℕ → Bool
  is_supplied ps i = elim (get_elem? ps i) [ none ↦ false | some p ↦ p.supplied_by_user ]

  unfoldable pub is_missing : List (Param V) → ℕ → Bool
  is_missing ps i = elim (get_elem? ps i) [
    | none ↦ false
    | some p ↦ p.required && not p.supplied_by_user
  ]

  unfoldable pub count_supplied : List (Param V) → List ℕ → ℕ
  unfolding is_supplied
  count_supplied ps [] = 0
  count_supplied ps (i ∷ group) =
      if is_supplied ps i then suc (count_supplied ps group) else count_supplied ps group

  unfoldable pub is_satisfied : List (Param V) → ℕ → List ℕ → Bool
  unfolding count_supplied is_missing
  is_satisfied ps args_size group =
      count_supplied ps group == args_size && not (any (is_missing ps) group)

  unfoldable pub find_group : List (Param V) → ℕ → List (List ℕ) → Option (List ℕ)
  unfolding is_satisfied
  find_group ps args_size [] = none
  find_group ps args_size (group ∷ groups) =
      let rest = find_group ps args_size groups in
      if is_satisfied ps args_size group then some group else rest

  unfoldable pub mark_satisfied : List ℕ → List (Param V) → List (Param V)
  unfolding set_satisfied
  mark_satisfied [] ps = ps
  mark_satisfied (i ∷ group) ps = mark_satisfied group (set_satisfied i ps)

  unfoldable pub all_groups : List (Param V) → List (List ℕ) → List (List ℕ)
  unfolding cells_from
  all_groups ps [] = cells_from 0 ps ∷ []
  all_groups ps (group ∷ groups) = group ∷ groups

  -- `ParamsParser::parse`
  unfoldable pub parse_params :
      List (List ℕ) → List (Param V) → List Text → Result ParamError (List (Param V))
  unfolding consume_all find_group mark_satisfied all_groups
  parse_params groups ps args = do
    ps' ← consume_all args ps
    group ← ok_or (find_group ps' (length args) (all_groups ps groups)) no_group
    ok (mark_satisfied group ps')
