-- ===== src/CassandraStress/Settings/Payload.antt =====
-- settings/mod.rs: the arguments of the command line, grouped by command and options. A map is the
-- list of its entries, in the order of their insertion.
pub mod Groups
use cql_stress.Common.{
  ℕ, Bool, true, false, not, ◌||◌, List, [], ◌∷◌, ◌++◌, Option, none, some, Result, ok, err, ensure,
  ok_or, ◌>>◌, ◌>>=◌, if◌then◌else◌,
}
use cql_stress.Text.{Text, ◌is◌, starts_with}

abbrev pub ParsePayload : Type 0
ParsePayload = List (Text × List Text)

pub data PayloadError : Type 0 where
  no_command defined_multiple_times absent_key : PayloadError

unfoldable pub contains_key : Text → ParsePayload → Bool
contains_key key [] = false
contains_key key (entry ∷ payload) = entry.0 is key || contains_key key payload

unfoldable pub insert : Text → List Text → ParsePayload → ParsePayload
insert key params [] = (key, params) ∷ []
insert key params (entry ∷ payload) =
    let rest = insert key params payload in
    if entry.0 is key then (key, params) ∷ payload else entry ∷ rest

-- `get_mut` and `push`
unfoldable pub push : Text → Text → ParsePayload → Option ParsePayload
push key arg [] = none
push key arg (entry ∷ payload) = elim (entry.0 is key) [
  | true ↦ some ((entry.0, entry.1 ++ (arg ∷ [])) ∷ payload)
  | false ↦ elim (push key arg payload) [ none ↦ none | some rest ↦ some (entry ∷ rest) ]
]

-- `str::to_lowercase` of the standard library is an argument.
module _ (to_lowercase : Text → Text) where
  -- the loop over the arguments behind the command
  unfoldable pub group_args : Text → ParsePayload → List Text → Result PayloadError ParsePayload
  unfolding contains_key insert push
  group_args current payload [] = ok payload
  group_args current payload (arg ∷ args) = elim (starts_with b'-' arg) [
    | true ↦ (do
      ensure (not (contains_key arg payload)) defined_multiple_times
      group_args (to_lowercase arg) (insert (to_lowercase arg) [] payload) args)
    | false ↦ elim (push current arg payload) [
      | none ↦ err absent_key
      | some payload' ↦ group_args current payload' args
    ]
  ]

  unfoldable pub prepare_parse_payload : List Text → Result PayloadError (Text × ParsePayload)
  unfolding group_args
  prepare_parse_payload [] = err no_command
  prepare_parse_payload (cmd ∷ args) = do
    payload ← group_args (to_lowercase cmd) ((to_lowercase cmd, []) ∷ []) args
    ok (cmd, payload)
