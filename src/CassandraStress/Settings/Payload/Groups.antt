-- ===== src/CassandraStress/Settings/Payload/Groups.antt =====
-- The groups of a command line.
use cql_stress.Common.{
  Bool, true, false, ◌||◌, List, [], ◌∷◌, ◌++◌, append_assoc, append-nil, some, ok, All, ◌≡◌, refl,
  sym, ap, ◌∙◌, arith,
}
use cql_stress.Text.{Text, ◌is◌, starts_with}
use cql_stress.CassandraStress.Settings.Payload.{
  ParsePayload, contains_key, insert, push, group_args, prepare_parse_payload,
}

is_refl : (s : Text) → (s is s) ≡ true
is_refl [] = refl
is_refl (c ∷ s) = ground (arith, is_refl s)

or_false : (a b : Bool) → (a || b) ≡ false → (a ≡ false) × (b ≡ false)
or_false true b h = cc
or_false false b h = (refl, h)

-- an argument that is no option
abbrev pub IsParam : Text → Type 0
IsParam arg = starts_with b'-' arg ≡ false

-- the arguments that options and their parameters are given by
abbrev pub flat : ParsePayload → List Text
flat [] = []
flat (group ∷ groups) = group.0 ∷ (group.1 ++ flat groups)

push-last :
    (payload : ParsePayload) (key arg : Text) (params : List Text)
    → contains_key key payload ≡ false
    → push key arg (payload ++ ((key, params) ∷ []))
      ≡ some (payload ++ ((key, params ++ (arg ∷ [])) ∷ []))
unfolding push contains_key
push-last [] key arg params h = rw (push, is_refl key) refl
push-last (entry ∷ payload) key arg params h =
    let (other, rest) = or_false (entry.0 is key) (contains_key key payload) h in
    rw (push, other, push-last payload key arg params rest) refl

insert-absent :
    (payload : ParsePayload) (key : Text) (params : List Text)
    → contains_key key payload ≡ false
    → insert key params payload ≡ payload ++ ((key, params) ∷ [])
unfolding insert contains_key
insert-absent [] key params h = refl
insert-absent (entry ∷ payload) key params h =
    let (other, rest) = or_false (entry.0 is key) (contains_key key payload) h in
    rw (insert, other, insert-absent payload key params rest) refl

module _ (to_lowercase : Text → Text) where
  -- Options that are new, in lower case, and followed by parameters.
  abbrev pub AreNew : ParsePayload → ParsePayload → Type 0
  AreNew payload [] = Unit
  AreNew payload (group ∷ groups) =
      (starts_with b'-' group.0 ≡ true)
      × (to_lowercase group.0 ≡ group.0)
      × (contains_key group.0 payload ≡ false)
      × All IsParam group.1
      × AreNew (payload ++ (group ∷ [])) groups

  group_args-params :
      (before : ParsePayload) (current : Text) (sofar params args : List Text)
      → contains_key current before ≡ false
      → All IsParam params
      → group_args to_lowercase current (before ++ ((current, sofar) ∷ [])) (params ++ args)
        ≡ group_args to_lowercase current (before ++ ((current, sofar ++ params) ∷ [])) args
  unfolding group_args
  group_args-params before current sofar [] args new h =
      ap (λ l. group_args to_lowercase current (before ++ ((current, l) ∷ [])) args)
        (sym (append-nil sofar))
  group_args-params before current sofar (param ∷ params) args new h =
      rw (group_args, h.0, push-last before current param sofar new)
        (group_args-params before current (sofar ++ (param ∷ [])) params args new h.1
          ∙ ap (λ l. group_args to_lowercase current (before ++ ((current, l) ∷ [])) args)
              (append_assoc sofar (param ∷ []) params))

  group_args-groups :
      (before : ParsePayload) (current : Text) (groups : ParsePayload)
      → AreNew before groups
      → group_args to_lowercase current before (flat groups) ≡ ok (before ++ groups)
  unfolding group_args
  group_args-groups before current [] h = ap ok (sym (append-nil before))
  group_args-groups before current (group ∷ groups) (option, lower, new, params, rest) =
      rw (group_args, option, new, lower, insert-absent before group.0 [] new)
        (group_args-params before group.0 [] group.1 (flat groups) new params
          ∙ group_args-groups (before ++ (group ∷ [])) group.0 groups rest
          ∙ ap ok (append_assoc before (group ∷ []) groups))

  -- A command with its parameters, followed by options with theirs, is grouped into just these
  -- groups, if the options begin with a dash, are in lower case, are different from each other, and
  -- the parameters do not begin with a dash.
  pub prepare_parse_payload-groups :
      (cmd : Text) (params : List Text) (groups : ParsePayload)
      → All IsParam params
      → AreNew ((to_lowercase cmd, params) ∷ []) groups
      → prepare_parse_payload to_lowercase (cmd ∷ (params ++ flat groups))
        ≡ ok (cmd, (to_lowercase cmd, params) ∷ groups)
  unfolding prepare_parse_payload
  prepare_parse_payload-groups cmd params groups h new =
      let e =
        group_args-params [] (to_lowercase cmd) [] params (flat groups) refl h
        ∙ group_args-groups ((to_lowercase cmd, params) ∷ []) (to_lowercase cmd) groups new in
      rw e refl
