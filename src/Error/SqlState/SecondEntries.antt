-- ===== src/Error/SqlState/SecondEntries.antt =====
-- The second half of the entries of `SQLSTATE_MAP` of src/error/sqlstate.rs.
use may_postgres.Base.{List, [], ◌∷◌, Text, codes}
use may_postgres.Error.SqlState.Defs.{SqlState}
use may_postgres.Error.SqlState.Completion.{
  connection_does_not_exist, connection_failure, invalid_grantor, invalid_role_specification,
  invalid_transaction_initiation, l_e_invalid_specification,
  no_additional_dynamic_result_sets_returned, no_data, sqlclient_unable_to_establish_sqlconnection,
  sqlserver_rejected_establishment_of_sqlconnection,
  stacked_diagnostics_accessed_without_active_handler, successful_completion,
  transaction_resolution_unknown, triggered_action_exception, warning_dynamic_result_sets_returned,
  warning_implicit_zero_bit_padding, warning_privilege_not_granted, warning_privilege_not_revoked,
  warning_string_data_right_truncation,
}
use may_postgres.Error.SqlState.DataException.{
  bad_copy_file_format, character_not_in_repertoire, data_exception, datetime_field_overflow,
  escape_character_conflict, indicator_overflow, invalid_argument_for_log,
  invalid_argument_for_nth_value, invalid_argument_for_ntile, invalid_argument_for_power_function,
  invalid_binary_representation, invalid_indicator_parameter_value, invalid_parameter_value,
  invalid_regular_expression, invalid_sql_json_subscript, invalid_tablesample_argument,
  invalid_tablesample_repeat, invalid_text_representation, invalid_xml_content,
  invalid_xml_document, invalid_xml_processing_instruction, no_sql_json_item,
  non_unique_keys_in_a_json_object, null_value_no_indicator_parameter,
  sequence_generator_limit_exceeded, singleton_sql_json_item_required, sql_json_array_not_found,
  sql_json_member_not_found, sql_json_number_not_found, string_data_right_truncation,
  substring_error, too_many_json_object_members, trim_error, unterminated_c_string,
  untranslatable_character, zero_length_character_string,
}
use may_postgres.Error.SqlState.Internal.{
  config_file_error, data_corrupted, fdw_inconsistent_descriptor_information,
  fdw_invalid_column_name, fdw_invalid_data_type_descriptors, fdw_invalid_handle,
  fdw_invalid_option_index, fdw_invalid_option_name, fdw_invalid_string_format,
  fdw_invalid_use_of_null_pointer, fdw_out_of_memory, fdw_unable_to_create_execution,
  fdw_unable_to_establish_connection, plpgsql_error,
}
use may_postgres.Error.SqlState.Resources.{
  database_dropped, duplicate_file, insufficient_resources, lock_not_available, object_in_use,
  object_not_in_prerequisite_state, query_canceled, statement_too_complex, system_error,
  too_many_arguments, too_many_columns,
}
use may_postgres.Error.SqlState.Routine.{
  e_r_e_containing_sql_not_permitted, e_r_e_prohibited_sql_statement_attempted,
  e_r_i_e_invalid_sqlstate_returned, e_r_i_e_null_value_not_allowed,
  e_r_i_e_trigger_protocol_violated, external_routine_exception,
  external_routine_invocation_exception, invalid_catalog_name, invalid_schema_name,
  savepoint_exception,
}
use may_postgres.Error.SqlState.Syntax.{
  ambiguous_alias, ambiguous_column, ambiguous_function, collation_mismatch, duplicate_alias,
  duplicate_cursor, duplicate_schema, duplicate_table, generated_always, grouping_error,
  indeterminate_collation, indeterminate_datatype, invalid_column_definition, invalid_foreign_key,
  invalid_function_definition, invalid_schema_definition, invalid_table_definition, name_too_long,
  syntax_error, syntax_error_or_access_rule_violation, t_r_deadlock_detected, transaction_rollback,
  undefined_column, undefined_function, undefined_parameter, undefined_table, windowing_error,
  wrong_object_type,
}
use may_postgres.Error.SqlState.Transaction.{
  active_sql_transaction, case_not_found, dependent_objects_still_exist, exclusion_violation,
  inappropriate_access_mode_for_branch_transaction, invalid_cursor_state, invalid_password,
  not_null_violation, read_only_sql_transaction, s_r_e_modifying_sql_data_not_permitted,
}

abbrev pub second_entries : List (Text × SqlState)
second_entries =
    (codes "XX001", data_corrupted)
    ∷ (codes "22038", singleton_sql_json_item_required)
    ∷ (codes "58P02", duplicate_file)
    ∷ (codes "22001", string_data_right_truncation)
    ∷ (codes "08003", connection_does_not_exist)
    ∷ (codes "39000", external_routine_invocation_exception)
    ∷ (codes "HV00B", fdw_invalid_handle)
    ∷ (codes "54011", too_many_columns)
    ∷ (codes "0Z002", stacked_diagnostics_accessed_without_active_handler)
    ∷ (codes "2203E", too_many_json_object_members)
    ∷ (codes "23P01", exclusion_violation)
    ∷ (codes "HV006", fdw_invalid_data_type_descriptors)
    ∷ (codes "39004", e_r_i_e_null_value_not_allowed)
    ∷ (codes "HV009", fdw_invalid_use_of_null_pointer)
    ∷ (codes "22035", no_sql_json_item)
    ∷ (codes "HV001", fdw_out_of_memory)
    ∷ (codes "3F000", invalid_schema_name)
    ∷ (codes "0B000", invalid_transaction_initiation)
    ∷ (codes "42830", invalid_foreign_key)
    ∷ (codes "01007", warning_privilege_not_granted)
    ∷ (codes "2201F", invalid_argument_for_power_function)
    ∷ (codes "54023", too_many_arguments)
    ∷ (codes "09000", triggered_action_exception)
    ∷ (codes "2200H", sequence_generator_limit_exceeded)
    ∷ (codes "428C9", generated_always)
    ∷ (codes "53000", insufficient_resources)
    ∷ (codes "42P09", ambiguous_alias)
    ∷ (codes "08006", connection_failure)
    ∷ (codes "22039", sql_json_array_not_found)
    ∷ (codes "54001", statement_too_complex)
    ∷ (codes "2203A", sql_json_member_not_found)
    ∷ (codes "23502", not_null_violation)
    ∷ (codes "22008", datetime_field_overflow)
    ∷ (codes "F0000", config_file_error)
    ∷ (codes "3B000", savepoint_exception)
    ∷ (codes "2BP01", dependent_objects_still_exist)
    ∷ (codes "2202H", invalid_tablesample_argument)
    ∷ (codes "38001", e_r_e_containing_sql_not_permitted)
    ∷ (codes "01004", warning_string_data_right_truncation)
    ∷ (codes "57014", query_canceled)
    ∷ (codes "55000", object_not_in_prerequisite_state)
    ∷ (codes "40000", transaction_rollback)
    ∷ (codes "HV00L", fdw_unable_to_create_execution)
    ∷ (codes "22033", invalid_sql_json_subscript)
    ∷ (codes "02000", no_data)
    ∷ (codes "2200T", invalid_xml_processing_instruction)
    ∷ (codes "3D000", invalid_catalog_name)
    ∷ (codes "2200M", invalid_xml_document)
    ∷ (codes "42611", invalid_column_definition)
    ∷ (codes "2F002", s_r_e_modifying_sql_data_not_permitted)
    ∷ (codes "22P05", untranslatable_character)
    ∷ (codes "42883", undefined_function)
    ∷ (codes "22016", invalid_argument_for_nth_value)
    ∷ (codes "22027", trim_error)
    ∷ (codes "39P01", e_r_i_e_trigger_protocol_violated)
    ∷ (codes "0L000", invalid_grantor)
    ∷ (codes "42725", ambiguous_function)
    ∷ (codes "42601", syntax_error)
    ∷ (codes "22002", null_value_no_indicator_parameter)
    ∷ (codes "42702", ambiguous_column)
    ∷ (codes "22024", unterminated_c_string)
    ∷ (codes "22023", invalid_parameter_value)
    ∷ (codes "22P03", invalid_binary_representation)
    ∷ (codes "22010", invalid_indicator_parameter_value)
    ∷ (codes "42P16", invalid_table_definition)
    ∷ (codes "0P000", invalid_role_specification)
    ∷ (codes "2203B", sql_json_number_not_found)
    ∷ (codes "55006", object_in_use)
    ∷ (codes "42P13", invalid_function_definition)
    ∷ (codes "42803", grouping_error)
    ∷ (codes "22021", character_not_in_repertoire)
    ∷ (codes "08004", sqlserver_rejected_establishment_of_sqlconnection)
    ∷ (codes "42P15", invalid_schema_definition)
    ∷ (codes "25006", read_only_sql_transaction)
    ∷ (codes "42P02", undefined_parameter)
    ∷ (codes "2201E", invalid_argument_for_log)
    ∷ (codes "42P22", indeterminate_collation)
    ∷ (codes "0F001", l_e_invalid_specification)
    ∷ (codes "2201B", invalid_regular_expression)
    ∷ (codes "08001", sqlclient_unable_to_establish_sqlconnection)
    ∷ (codes "42P07", duplicate_table)
    ∷ (codes "02001", no_additional_dynamic_result_sets_returned)
    ∷ (codes "58000", system_error)
    ∷ (codes "42000", syntax_error_or_access_rule_violation)
    ∷ (codes "42622", name_too_long)
    ∷ (codes "20000", case_not_found)
    ∷ (codes "08007", transaction_resolution_unknown)
    ∷ (codes "22022", indicator_overflow)
    ∷ (codes "42P18", indeterminate_datatype)
    ∷ (codes "01008", warning_implicit_zero_bit_padding)
    ∷ (codes "39001", e_r_i_e_invalid_sqlstate_returned)
    ∷ (codes "22014", invalid_argument_for_ntile)
    ∷ (codes "2200N", invalid_xml_content)
    ∷ (codes "42P01", undefined_table)
    ∷ (codes "42P03", duplicate_cursor)
    ∷ (codes "25003", inappropriate_access_mode_for_branch_transaction)
    ∷ (codes "22037", non_unique_keys_in_a_json_object)
    ∷ (codes "22000", data_exception)
    ∷ (codes "28P01", invalid_password)
    ∷ (codes "HV00A", fdw_invalid_string_format)
    ∷ (codes "42P06", duplicate_schema)
    ∷ (codes "HV00D", fdw_invalid_option_name)
    ∷ (codes "55P03", lock_not_available)
    ∷ (codes "HV021", fdw_inconsistent_descriptor_information)
    ∷ (codes "42712", duplicate_alias)
    ∷ (codes "38000", external_routine_exception)
    ∷ (codes "HV00N", fdw_unable_to_establish_connection)
    ∷ (codes "2200B", escape_character_conflict)
    ∷ (codes "42P21", collation_mismatch)
    ∷ (codes "42703", undefined_column)
    ∷ (codes "57P04", database_dropped)
    ∷ (codes "22P04", bad_copy_file_format)
    ∷ (codes "01006", warning_privilege_not_revoked)
    ∷ (codes "HV007", fdw_invalid_column_name)
    ∷ (codes "HV00C", fdw_invalid_option_index)
    ∷ (codes "25001", active_sql_transaction)
    ∷ (codes "42809", wrong_object_type)
    ∷ (codes "22P02", invalid_text_representation)
    ∷ (codes "42P20", windowing_error)
    ∷ (codes "24000", invalid_cursor_state)
    ∷ (codes "22011", substring_error)
    ∷ (codes "00000", successful_completion)
    ∷ (codes "2202G", invalid_tablesample_repeat)
    ∷ (codes "P0000", plpgsql_error)
    ∷ (codes "38003", e_r_e_prohibited_sql_statement_attempted)
    ∷ (codes "0100C", warning_dynamic_result_sets_returned)
    ∷ (codes "2200F", zero_length_character_string)
    ∷ (codes "40P01", t_r_deadlock_detected)
    ∷ []
