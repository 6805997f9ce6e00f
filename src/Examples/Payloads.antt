-- ===== src/Examples/Payloads.antt =====
-- settings/ of src/bin/cql-stress-cassandra-stress: the command line.
use cql_stress.Common.{◌≡◌, refl, [], ◌∷◌, ◌++◌, ok, map}
use cql_stress.Text.{Text, codes, to_ascii_lowercase}
use cql_stress.CassandraStress.Settings.Payload.{ParsePayload, prepare_parse_payload, contains_key}
use cql_stress.CassandraStress.Settings.Payload.Groups.{flat, AreNew, prepare_parse_payload-groups}

abbrev ascii_lowercase : Text → Text
ascii_lowercase s = map to_ascii_lowercase s

abbrev options : ParsePayload
options =
    (codes "-rate", codes "threads=80" ∷ codes "throttle=8000/s" ∷ []) ∷ (codes "-pop", []) ∷ []

abbrev before : ParsePayload
before = (codes "write", codes "n=5" ∷ []) ∷ []

options-AreNew : AreNew ascii_lowercase before options
unfolding contains_key
options-AreNew = (refl, refl, refl, (refl, (refl, tt)), (refl, refl, refl, tt, tt))

prepare_parse_payload-groups_example :
    prepare_parse_payload ascii_lowercase (codes "WRITE" ∷ ((codes "n=5" ∷ []) ++ flat options))
    ≡ ok (codes "WRITE", (codes "write", codes "n=5" ∷ []) ∷ options)
prepare_parse_payload-groups_example =
    prepare_parse_payload-groups ascii_lowercase (codes "WRITE") (codes "n=5" ∷ []) options
      (refl, tt) options-AreNew
