-- ===== src/ScyllaBench/GoCompat/Flags/Values.antt =====
-- The values that the flags have behind a command line.
use mathlib.Core.Option
use cql_stress.Common.{List, [], ◌∷◌, Option, if◌then◌else◌}
use cql_stress.Text.{Text, ◌is◌}
use cql_stress.ScyllaBench.GoCompat.Flags.{Flag}
use cql_stress.ScyllaBench.GoCompat.Flags.Assignments.{Assignment}

module _ {V : Type 0} where
  -- a flag that is given a value, if it has that name
  abbrev with_value : Text → V → Flag V → Flag V
  with_value n v f = if f.name is n then record f { value = v } else f

  -- a flag behind the assignments to its name
  abbrev pub with_values : List (Assignment V) → Flag V → Flag V
  with_values [] f = f
  with_values (a ∷ rest) f =
      with_values rest (if f.name is a.flag.name then record f { value = a.value } else f)
