-- ===== src/CassandraStress/Settings/NodeOption.antt =====
-- settings/option/node.rs: the option -node. What a file holds is an argument: its lines, or nothing
-- where it cannot be opened or read.
use cql_stress.Common.{
  ℕ, Bool, false, List, [], ◌∷◌, Option, none, some, and_then, Result, ok, err, ok_or, ◌>>=◌,
  if◌then◌else◌,
}
use cql_stress.Text.{Text, codes, is_empty}
use cql_stress.CassandraStress.Settings.Outcome.{OptionError, panicked, refusal, is_some, parsed}
use cql_stress.CassandraStress.Settings.Types.{parse_flag, parse_list, parse_string}
use cql_stress.CassandraStress.Settings.Params.{handle, Param, new_wrapped, parse_params}

-- the values of the parameters, of their types
pub data NodeValue : Type 0 where
  string : Text → NodeValue
  list : List Text → NodeValue
  given : NodeValue

pub record NodeOption : Type 0 where
  pub nodes : List Text
  pub whitelist : Bool
  pub datacenter : Option Text

pub data NodeError : Type 0 where
  option : OptionError → NodeError
  invalid_nodes_file : NodeError

abbrev pub as_string : NodeValue → Option Text
as_string (string s) = some s
as_string _ = none

abbrev pub as_list : NodeValue → Option (List Text)
as_list (list ns) = some ns
as_list _ = none

abbrev pub option_error : {A : Type 0} → Result OptionError A → Result NodeError A
option_error (ok a) = ok a
option_error (err e) = err (option e)

unfoldable pub drop_empty : List Text → List Text
drop_empty [] = []
drop_empty (line ∷ lines) = if is_empty line then drop_empty lines else line ∷ drop_empty lines

-- `parser.group`: datacenter=, whitelist, file= and the list are the cells 0 to 3
abbrev pub node_groups : List (List ℕ)
node_groups = (0 ∷ 1 ∷ 3 ∷ []) ∷ (0 ∷ 1 ∷ 2 ∷ []) ∷ []

module _ (lines_of_file : Text → Option (List Text)) (to_lowercase : Text → Text) where
  unfoldable pub read_nodes_from_file : Text → Result NodeError (List Text)
  unfolding drop_empty
  read_nodes_from_file filename = do
    lines ← ok_or (lines_of_file filename) invalid_nodes_file
    ok (drop_empty lines)

  -- `prepare_parser`; `none` if it panics
  unfoldable pub prepare_node : Option (List (Param NodeValue))
  unfolding new_wrapped parse_flag parse_list parse_string
  prepare_node =
      let read_string : Text → Option NodeValue =
        λ s. and_then (parsed (parse_string s)) (λ t. some (string t)) in
      let read_flag : Text → Option NodeValue =
        λ s. and_then (parsed (parse_flag s)) (λ _. some given) in
      let read_list : Text → Option NodeValue =
        λ s. and_then (parsed (parse_list s)) (λ ns. some (list ns)) in
      and_then (new_wrapped to_lowercase (codes "datacenter=") read_string none false)
        (λ datacenter.
          and_then (new_wrapped to_lowercase (codes "whitelist") read_flag none false) (λ whitelist.
            and_then (new_wrapped to_lowercase (codes "file=") read_string none false) (λ file.
              and_then (new_wrapped to_lowercase [] read_list (some (codes "localhost")) false)
                (λ nodes. some (datacenter ∷ whitelist ∷ file ∷ nodes ∷ [])))))

  unfoldable pub nodes_of : Option (List Text) → Option Text → Result NodeError (List Text)
  unfolding read_nodes_from_file
  nodes_of (some nodes) file = ok nodes
  nodes_of none (some file) = read_nodes_from_file file
  nodes_of none none = err (option panicked)

  -- `NodeOption::from_handles`
  unfoldable pub node_from_handles : List (Param NodeValue) → Result NodeError NodeOption
  unfolding handle nodes_of
  node_from_handles ps = do
    nodes ←
        nodes_of (and_then (handle to_lowercase ps 3) as_list)
          (and_then (handle to_lowercase ps 2) as_string)
    ok (record {
      nodes = nodes;
      whitelist = is_some (handle to_lowercase ps 1);
      datacenter = and_then (handle to_lowercase ps 0) as_string;
    })

  -- `NodeOption::parse`
  unfoldable pub parse_node_option : List Text → Result NodeError NodeOption
  unfolding prepare_node node_from_handles parse_params
  parse_node_option params = do
    ps ← ok_or prepare_node (option panicked)
    ps' ← option_error (refusal (parse_params to_lowercase node_groups ps params))
    node_from_handles ps'
