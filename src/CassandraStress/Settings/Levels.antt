-- ===== src/CassandraStress/Settings/Levels.antt =====
-- settings/command/common.rs: the enumerations that are parsed by their names. The names are those
-- that strum derives: upper case with underscores, compared without regard to the case of ASCII.
use cql_stress.Common.{Bool, ◌≡◌, refl, List, [], ◌∷◌, Option, none, some, if◌then◌else◌, map}
use cql_stress.Text.{Text, codes, ◌is◌, to_ascii_lowercase}

pub data Truncate : Type 0 where
  never once always : Truncate

pub data ConsistencyLevel : Type 0 where
  one quorum local_quorum each_quorum all any two three local_one serial local_serial :
      ConsistencyLevel

pub data SerialConsistencyLevel : Type 0 where
  serial_only local_serial_only : SerialConsistencyLevel

-- `eq_ignore_ascii_case`
abbrev pub eq_ignore_case : Text → Text → Bool
eq_ignore_case s t = map to_ascii_lowercase s is map to_ascii_lowercase t

-- `from_str`: the first variant of that name
unfoldable pub find_variant : {A : Type 0} → (A → Text) → Text → List A → Option A
find_variant show s [] = none
find_variant show s (a ∷ rest) =
    let others = find_variant show s rest in if eq_ignore_case s (show a) then some a else others

abbrev pub show_truncate : Truncate → Text
show_truncate never = codes "NEVER"
show_truncate once = codes "ONCE"
show_truncate always = codes "ALWAYS"

abbrev pub show_level : ConsistencyLevel → Text
show_level one = codes "ONE"
show_level quorum = codes "QUORUM"
show_level local_quorum = codes "LOCAL_QUORUM"
show_level each_quorum = codes "EACH_QUORUM"
show_level all = codes "ALL"
show_level any = codes "ANY"
show_level two = codes "TWO"
show_level three = codes "THREE"
show_level local_one = codes "LOCAL_ONE"
show_level serial = codes "SERIAL"
show_level local_serial = codes "LOCAL_SERIAL"

abbrev pub show_serial_level : SerialConsistencyLevel → Text
show_serial_level serial_only = codes "SERIAL"
show_serial_level local_serial_only = codes "LOCAL_SERIAL"

-- `Parsable::parse`; the driver's value of the same name is not told from the variant
unfoldable pub parse_truncate : Text → Option Truncate
unfolding find_variant
parse_truncate s = find_variant show_truncate s (never ∷ once ∷ always ∷ [])

unfoldable pub parse_level : Text → Option ConsistencyLevel
unfolding find_variant
parse_level s = find_variant show_level s (
    one ∷ quorum ∷ local_quorum ∷ each_quorum ∷ all ∷ any ∷ two ∷ three ∷ local_one ∷ serial
    ∷ local_serial ∷ [])

unfoldable pub parse_serial_level : Text → Option SerialConsistencyLevel
unfolding find_variant
parse_serial_level s = find_variant show_serial_level s (serial_only ∷ local_serial_only ∷ [])

parse_truncate-show :
    (t : Truncate) (s : Text)
    → map to_ascii_lowercase s ≡ map to_ascii_lowercase (show_truncate t)
    → parse_truncate s ≡ some t
unfolding parse_truncate
parse_truncate-show never s h = rw (h) refl
parse_truncate-show once s h = rw (h) refl
parse_truncate-show always s h = rw (h) refl
