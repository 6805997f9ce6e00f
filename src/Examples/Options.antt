-- ===== src/Examples/Options.antt =====
-- The options of settings/option/ of src/bin/cql-stress-cassandra-stress.
use cql_stress.Common.{
  ◌≡◌, refl, ◌⊎◌, List, [], ◌∷◌, ◌+◌, ◌-◌, ◌*◌, ◌/◌, ltb, ◌==◌, Option, none, some, ℕ, true, false,
  ok, err, map, arith, pos,
}
use cql_stress.Common.Int.{as_i64, pos_part}
use cql_stress.Text.{Text, codes, to_ascii_lowercase, is_whitespace}
use cql_stress.Text.Digits.{parse_u64, parse_digits, scan_digits, parse_i64}
use cql_stress.Text.Split.{split, split_once, split_once_twice, strip_suffix}
use cql_stress.Text.Trim.{trim}
use cql_stress.Distribution.{
  parse_description, strip_tilde, parse_stripped, decompose_name_and_args, classic_name_and_args,
  decompose_args, args_at_dots, check_argument_count,
}
use cql_stress.CassandraStress.Settings.NodeOption.{
  parse_node_option, prepare_node, node_from_handles, nodes_of, read_nodes_from_file, drop_empty,
}
use cql_stress.CassandraStress.Settings.ColumnOption.{
  parse_column_option, prepare_column, column_from_handles, columns_of, numbered_columns,
  decimal_digits, parse_column_count, fixed_count, count_of_args,
}
use cql_stress.Distribution.Long.{next_back}
use cql_stress.CassandraStress.JavaGenerate.{Floats}
use cql_stress.CassandraStress.JavaGenerate.Distributions.Factories.{
  fixed_factory, parse_distribution, parse_named, parse_fixed, fixed_of_args, seq_factory,
  new_seq_factory,
}
use cql_stress.CassandraStress.Settings.Params.{
  handle, no_group, parse_params, all_groups, find_group, mark_satisfied, is_satisfied,
  count_supplied, is_supplied, is_missing, set_satisfied, cells_from, consume_all, try_match,
  parse_param, new_param, new_wrapped, get_value,
}
use cql_stress.CassandraStress.Settings.Outcome.{panicked, refused}
use cql_stress.CassandraStress.Settings.Levels.{
  never, quorum, serial_only, find_variant, parse_truncate, parse_level, parse_serial_level,
}
use cql_stress.CassandraStress.Settings.Command.{
  parse_common_params, prepare_common, parse_with_handles, parse_non_zero_u32, parse_unit_interval,
  uncertainty_of,
}
use cql_stress.CassandraStress.Settings.Types.{
  parse_string, parse_list, parse_duration, parse_whole, parse_flag, parse_count, count_of_last,
  count_with_unit, times, parse_range, range_at_dots,
}
use cql_stress.CassandraStress.Settings.RateOption.{
  automatic, prepare_rate, threads_info, from_handles, parse_rate_option,
}
use cql_stress.CassandraStress.Settings.PopulationOption.Sequence.{above_one}
use cql_stress.CassandraStress.Settings.PopulationOption.{
  parse_bash_friendly, prepare_population, parse_population_option,
}
use cql_stress.CassandraStress.Settings.PopulationOption.Answers.{
  IsAnswered, parse_population_option-panics,
}

abbrev in_lower_case : Text → Text
in_lower_case s = map to_ascii_lowercase s

-- the default of the first bound stays
rate_bounds :
    parse_rate_option in_lower_case (codes "threads<=200" ∷ codes "auto" ∷ [])
    ≡ ok (automatic 4 200 true)
unfolding parse_rate_option prepare_rate from_handles parse_params all_groups find_group
    mark_satisfied is_satisfied count_supplied is_supplied is_missing set_satisfied cells_from
    consume_all try_match parse_param new_param new_wrapped get_value handle threads_info
    parse_whole parse_flag parse_u64 parse_digits scan_digits
rate_bounds = refl

abbrev whole : Floats ℕ
whole = record {
  of_i64 = λ n. pos_part n;
  to_i64 = pos;
  add = ◌+◌;
  sub = ◌-◌;
  mul = ◌*◌;
  div = ◌/◌;
  lt = ltb;
  eq = ◌==◌;
  sqrt = λ x. x;
  log = λ x. x;
}

abbrev unread : Text → Option ℕ
unread s = none

-- `cassandra-stress write n=1`, with another distribution asked for
one_operation :
    parse_population_option whole unread in_lower_case (codes "1") (codes "dist=fixed(3)" ∷ [])
    ≡ err panicked
unfolding parse_population_option prepare_population new_wrapped parse_bash_friendly parse_range
    range_at_dots parse_count count_of_last count_with_unit times next_back split_once_twice
    new_seq_factory as_i64 parse_u64 parse_digits scan_digits
one_operation = refl

parse_population_option-panics_example :
    ((above_one 100 ≡ false)
      × (parse_population_option whole unread in_lower_case (codes "100") (codes "seq=5..7" ∷ [])
          ≡ err panicked))
    ⊎ ((above_one 100 ≡ true)
        × IsAnswered whole unread in_lower_case
            (seq_factory (pos 1) (as_i64 100))
            (codes "seq=5..7" ∷ [])
            (parse_population_option whole unread in_lower_case
              (codes "100")
              (codes "seq=5..7" ∷ [])))
parse_population_option-panics_example =
    parse_population_option-panics whole unread in_lower_case (codes "100") (codes "seq=5..7" ∷ [])
      (λ e. cc) (refl, (refl, (refl, tt))) (omega arith)

abbrev tenth : Text → Option ℕ
tenth s = some 1

-- serial-cl= counts twice among the parameters of its group, so there is one too many
serial_level_alone :
    parse_common_params tenth in_lower_case (codes "serial-cl=serial" ∷ []) ≡ err (refused no_group)
unfolding parse_common_params prepare_common parse_with_handles parse_params all_groups find_group
    mark_satisfied is_satisfied count_supplied is_supplied is_missing set_satisfied cells_from
    consume_all try_match parse_param new_param new_wrapped get_value handle parse_whole parse_flag
    parse_u64 parse_digits scan_digits parse_truncate parse_level parse_serial_level find_variant
    parse_count parse_duration parse_non_zero_u32 parse_unit_interval uncertainty_of
serial_level_alone = refl

-- with it, the number of operations is not looked at, for the group without n= is satisfied too
two_operations :
    parse_common_params tenth in_lower_case
      (codes "n=2" ∷ codes "cl=QUORUM" ∷ codes "serial-cl=serial" ∷ [])
    ≡ ok (record {
      uncertainty = some (record {
        target_uncertainty = 1;
        min_uncertainty_measurements = 30;
        max_uncertainty_measurements = 200;
      });
      no_warmup = false;
      truncate = never;
      consistency_level = quorum;
      serial_consistency_level = serial_only;
      operation_count = none;
      duration = none;
      keysize = 10;
    })
unfolding parse_common_params prepare_common parse_with_handles parse_params all_groups find_group
    mark_satisfied is_satisfied count_supplied is_supplied is_missing set_satisfied cells_from
    consume_all try_match parse_param new_param new_wrapped get_value handle parse_whole parse_flag
    parse_u64 parse_digits scan_digits parse_truncate parse_level parse_serial_level find_variant
    parse_count parse_duration parse_non_zero_u32 parse_unit_interval uncertainty_of count_of_last
    count_with_unit times next_back
two_operations = refl

three_columns :
    parse_column_option whole unread in_lower_case (codes "n=FIXED(3)" ∷ [])
    ≡ ok (record {
      columns = codes "C0" ∷ codes "C1" ∷ codes "C2" ∷ [];
      size_distribution = fixed_factory (pos 34);
    })
unfolding parse_column_option prepare_column column_from_handles parse_params all_groups find_group
    mark_satisfied is_satisfied count_supplied is_supplied is_missing set_satisfied cells_from
    consume_all try_match parse_param new_param new_wrapped get_value handle parse_whole parse_list
    parse_u64 parse_digits scan_digits columns_of numbered_columns decimal_digits parse_column_count
    fixed_count count_of_args parse_distribution parse_named parse_fixed fixed_of_args
    parse_description strip_tilde parse_stripped decompose_name_and_args classic_name_and_args
    decompose_args args_at_dots split split_once split_once_twice strip_suffix trim parse_i64
    check_argument_count is_whitespace
three_columns = refl

abbrev two_nodes : Text → Option (List Text)
two_nodes filename = some (codes "10.0.0.1" ∷ [] ∷ codes "10.0.0.2" ∷ [])

nodes_in_file :
    parse_node_option two_nodes in_lower_case (codes "file=nodes" ∷ codes "whitelist" ∷ [])
    ≡ ok (record {
      nodes = codes "10.0.0.1" ∷ codes "10.0.0.2" ∷ [];
      whitelist = true;
      datacenter = none;
    })
unfolding parse_node_option prepare_node node_from_handles parse_params all_groups find_group
    mark_satisfied is_satisfied count_supplied is_supplied is_missing set_satisfied cells_from
    consume_all try_match parse_param new_param new_wrapped get_value handle parse_flag parse_list
    parse_string split nodes_of read_nodes_from_file drop_empty
nodes_in_file = refl
