-- ===== src/Error/SqlState/FirstEntries.antt =====
-- The first half of the entries of `SQLSTATE_MAP` of src/error/sqlstate.rs.
use may_postgres.Base.{List, [], ◌∷◌, Text, codes}
use may_postgres.Error.SqlState.Defs.{SqlState}
use may_postgres.Error.SqlState.Completion.{
  connection_exception, diagnostics_exception, feature_not_supported, invalid_grant_operation,
  locator_exception, protocol_violation, sql_statement_not_yet_complete, warning,
  warning_deprecated_feature, warning_null_value_eliminated_in_set_function,
}
use may_postgres.Error.SqlState.DataException.{
  array_element_error, division_by_zero, duplicate_json_object_key_value, error_in_assignment,
  floating_point_exception, interval_field_overflow, invalid_argument_for_width_bucket_function,
  invalid_character_value_for_cast, invalid_datetime_format, invalid_escape_character,
  invalid_escape_octet, invalid_escape_sequence, invalid_json_text,
  invalid_preceding_or_following_size, invalid_row_count_in_limit_clause,
  invalid_row_count_in_result_offset_clause, invalid_time_zone_displacement_value,
  invalid_use_of_escape_character, invalid_xml_comment, more_than_one_sql_json_item,
  most_specific_type_mismatch, non_numeric_sql_json_item, nonstandard_use_of_escape_character,
  not_an_xml_document, null_value_not_allowed, numeric_value_out_of_range,
  sql_json_object_not_found, sql_json_scalar_required, string_data_length_mismatch,
  too_many_json_array_elements,
}
use may_postgres.Error.SqlState.Internal.{
  assert_failure, fdw_column_name_not_found, fdw_dynamic_parameter_value_needed, fdw_error,
  fdw_function_sequence_error, fdw_invalid_attribute_value, fdw_invalid_column_number,
  fdw_invalid_data_type, fdw_invalid_descriptor_field_identifier,
  fdw_invalid_string_length_or_buffer_length, fdw_no_schemas, fdw_option_name_not_found,
  fdw_reply_handle, fdw_schema_not_found, fdw_table_not_found, fdw_too_many_handles,
  fdw_unable_to_create_reply, index_corrupted, internal_error, lock_file_exists, no_data_found,
  raise_exception, snapshot_too_old, too_many_rows,
}
use may_postgres.Error.SqlState.Resources.{
  admin_shutdown, cannot_connect_now, cant_change_runtime_param, configuration_limit_exceeded,
  crash_shutdown, disk_full, io_error, operator_intervention, out_of_memory, program_limit_exceeded,
  too_many_connections, undefined_file, unsafe_new_enum_value_usage,
}
use may_postgres.Error.SqlState.Routine.{
  e_r_e_modifying_sql_data_not_permitted, e_r_e_reading_sql_data_not_permitted,
  e_r_i_e_event_trigger_protocol_violated, e_r_i_e_srf_protocol_violated, invalid_cursor_name,
  s_e_invalid_specification,
}
use may_postgres.Error.SqlState.Syntax.{
  ambiguous_parameter, cannot_coerce, datatype_mismatch, duplicate_column, duplicate_database,
  duplicate_function, duplicate_object, duplicate_pstatement, insufficient_privilege,
  invalid_column_reference, invalid_cursor_definition, invalid_database_definition, invalid_name,
  invalid_object_definition, invalid_pstatement_definition, invalid_recursion, reserved_name,
  t_r_integrity_constraint_violation, t_r_serialization_failure, t_r_statement_completion_unknown,
  undefined_object, with_check_option_violation,
}
use may_postgres.Error.SqlState.Transaction.{
  branch_transaction_already_active, cardinality_violation, check_violation,
  dependent_privilege_descriptors_still_exist, foreign_key_violation,
  held_cursor_requires_same_isolation_level, idle_in_transaction_session_timeout,
  in_failed_sql_transaction, inappropriate_isolation_level_for_branch_transaction,
  integrity_constraint_violation, invalid_authorization_specification, invalid_sql_statement_name,
  invalid_transaction_state, invalid_transaction_termination, no_active_sql_transaction,
  no_active_sql_transaction_for_branch_transaction, restrict_violation,
  s_r_e_function_executed_no_return_statement, s_r_e_prohibited_sql_statement_attempted,
  s_r_e_reading_sql_data_not_permitted, schema_and_data_statement_mixing_not_supported,
  sql_routine_exception, triggered_data_change_violation, unique_violation,
}

abbrev pub first_entries : List (Text × SqlState)
first_entries =
    (codes "38002", e_r_e_modifying_sql_data_not_permitted)
    ∷ (codes "XX002", index_corrupted)
    ∷ (codes "HV091", fdw_invalid_descriptor_field_identifier)
    ∷ (codes "42P08", ambiguous_parameter)
    ∷ (codes "44000", with_check_option_violation)
    ∷ (codes "2202E", array_element_error)
    ∷ (codes "25008", held_cursor_requires_same_isolation_level)
    ∷ (codes "0Z000", diagnostics_exception)
    ∷ (codes "58P01", undefined_file)
    ∷ (codes "2201W", invalid_row_count_in_limit_clause)
    ∷ (codes "42P05", duplicate_pstatement)
    ∷ (codes "P0001", raise_exception)
    ∷ (codes "08P01", protocol_violation)
    ∷ (codes "54000", program_limit_exceeded)
    ∷ (codes "HV014", fdw_too_many_handles)
    ∷ (codes "2F003", s_r_e_prohibited_sql_statement_attempted)
    ∷ (codes "53200", out_of_memory)
    ∷ (codes "2200C", invalid_use_of_escape_character)
    ∷ (codes "25000", invalid_transaction_state)
    ∷ (codes "27000", triggered_data_change_violation)
    ∷ (codes "42602", invalid_name)
    ∷ (codes "08000", connection_exception)
    ∷ (codes "57P03", cannot_connect_now)
    ∷ (codes "2D000", invalid_transaction_termination)
    ∷ (codes "3B001", s_e_invalid_specification)
    ∷ (codes "HV005", fdw_column_name_not_found)
    ∷ (codes "42501", insufficient_privilege)
    ∷ (codes "22018", invalid_character_value_for_cast)
    ∷ (codes "2203D", too_many_json_array_elements)
    ∷ (codes "P0003", too_many_rows)
    ∷ (codes "2F005", s_r_e_function_executed_no_return_statement)
    ∷ (codes "HV002", fdw_dynamic_parameter_value_needed)
    ∷ (codes "23505", unique_violation)
    ∷ (codes "38004", e_r_e_reading_sql_data_not_permitted)
    ∷ (codes "22019", invalid_escape_character)
    ∷ (codes "2200S", invalid_xml_comment)
    ∷ (codes "22030", duplicate_json_object_key_value)
    ∷ (codes "2200G", most_specific_type_mismatch)
    ∷ (codes "25007", schema_and_data_statement_mixing_not_supported)
    ∷ (codes "HV024", fdw_invalid_attribute_value)
    ∷ (codes "25P03", idle_in_transaction_session_timeout)
    ∷ (codes "0LP01", invalid_grant_operation)
    ∷ (codes "34000", invalid_cursor_name)
    ∷ (codes "57P02", crash_shutdown)
    ∷ (codes "22012", division_by_zero)
    ∷ (codes "42723", duplicate_function)
    ∷ (codes "22004", null_value_not_allowed)
    ∷ (codes "2201X", invalid_row_count_in_result_offset_clause)
    ∷ (codes "57000", operator_intervention)
    ∷ (codes "HV008", fdw_invalid_column_number)
    ∷ (codes "HV00P", fdw_no_schemas)
    ∷ (codes "2203F", sql_json_scalar_required)
    ∷ (codes "2201G", invalid_argument_for_width_bucket_function)
    ∷ (codes "23001", restrict_violation)
    ∷ (codes "23514", check_violation)
    ∷ (codes "42939", reserved_name)
    ∷ (codes "25004", inappropriate_isolation_level_for_branch_transaction)
    ∷ (codes "HV00K", fdw_reply_handle)
    ∷ (codes "22P06", nonstandard_use_of_escape_character)
    ∷ (codes "53100", disk_full)
    ∷ (codes "28000", invalid_authorization_specification)
    ∷ (codes "03000", sql_statement_not_yet_complete)
    ∷ (codes "72000", snapshot_too_old)
    ∷ (codes "22003", numeric_value_out_of_range)
    ∷ (codes "25002", branch_transaction_already_active)
    ∷ (codes "40002", t_r_integrity_constraint_violation)
    ∷ (codes "22013", invalid_preceding_or_following_size)
    ∷ (codes "HV00R", fdw_table_not_found)
    ∷ (codes "2200L", not_an_xml_document)
    ∷ (codes "25005", no_active_sql_transaction_for_branch_transaction)
    ∷ (codes "25P02", in_failed_sql_transaction)
    ∷ (codes "22007", invalid_datetime_format)
    ∷ (codes "26000", invalid_sql_statement_name)
    ∷ (codes "23000", integrity_constraint_violation)
    ∷ (codes "42P10", invalid_column_reference)
    ∷ (codes "2200D", invalid_escape_octet)
    ∷ (codes "HV004", fdw_invalid_data_type)
    ∷ (codes "22005", error_in_assignment)
    ∷ (codes "P0002", no_data_found)
    ∷ (codes "22036", non_numeric_sql_json_item)
    ∷ (codes "58030", io_error)
    ∷ (codes "HV00Q", fdw_schema_not_found)
    ∷ (codes "F0001", lock_file_exists)
    ∷ (codes "01003", warning_null_value_eliminated_in_set_function)
    ∷ (codes "01000", warning)
    ∷ (codes "22032", invalid_json_text)
    ∷ (codes "2B000", dependent_privilege_descriptors_still_exist)
    ∷ (codes "40003", t_r_statement_completion_unknown)
    ∷ (codes "53400", configuration_limit_exceeded)
    ∷ (codes "2F004", s_r_e_reading_sql_data_not_permitted)
    ∷ (codes "39P03", e_r_i_e_event_trigger_protocol_violated)
    ∷ (codes "42846", cannot_coerce)
    ∷ (codes "39P02", e_r_i_e_srf_protocol_violated)
    ∷ (codes "23503", foreign_key_violation)
    ∷ (codes "57P01", admin_shutdown)
    ∷ (codes "55P04", unsafe_new_enum_value_usage)
    ∷ (codes "42P19", invalid_recursion)
    ∷ (codes "53300", too_many_connections)
    ∷ (codes "42804", datatype_mismatch)
    ∷ (codes "22015", interval_field_overflow)
    ∷ (codes "0A000", feature_not_supported)
    ∷ (codes "0F000", locator_exception)
    ∷ (codes "42710", duplicate_object)
    ∷ (codes "2203C", sql_json_object_not_found)
    ∷ (codes "P0004", assert_failure)
    ∷ (codes "22025", invalid_escape_sequence)
    ∷ (codes "42P17", invalid_object_definition)
    ∷ (codes "XX000", internal_error)
    ∷ (codes "22009", invalid_time_zone_displacement_value)
    ∷ (codes "HV00J", fdw_option_name_not_found)
    ∷ (codes "42P11", invalid_cursor_definition)
    ∷ (codes "25P01", no_active_sql_transaction)
    ∷ (codes "22034", more_than_one_sql_json_item)
    ∷ (codes "HV010", fdw_function_sequence_error)
    ∷ (codes "22P01", floating_point_exception)
    ∷ (codes "2F000", sql_routine_exception)
    ∷ (codes "21000", cardinality_violation)
    ∷ (codes "40001", t_r_serialization_failure)
    ∷ (codes "01P01", warning_deprecated_feature)
    ∷ (codes "22026", string_data_length_mismatch)
    ∷ (codes "42P12", invalid_database_definition)
    ∷ (codes "42704", undefined_object)
    ∷ (codes "42P04", duplicate_database)
    ∷ (codes "HV000", fdw_error)
    ∷ (codes "42P14", invalid_pstatement_definition)
    ∷ (codes "HV00M", fdw_unable_to_create_reply)
    ∷ (codes "42701", duplicate_column)
    ∷ (codes "55P02", cant_change_runtime_param)
    ∷ (codes "HV090", fdw_invalid_string_length_or_buffer_length)
    ∷ []
