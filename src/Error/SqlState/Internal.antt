-- ===== src/Error/SqlState/Internal.antt =====
-- The constants of src/error/sqlstate.rs: the classes that begin with a letter.
use may_postgres.Error.SqlState.Defs.{SqlState, borrowed}

abbrev pub snapshot_too_old : SqlState
snapshot_too_old = borrowed "72000"

abbrev pub config_file_error : SqlState
config_file_error = borrowed "F0000"

abbrev pub lock_file_exists : SqlState
lock_file_exists = borrowed "F0001"

abbrev pub fdw_error : SqlState
fdw_error = borrowed "HV000"

abbrev pub fdw_column_name_not_found : SqlState
fdw_column_name_not_found = borrowed "HV005"

abbrev pub fdw_dynamic_parameter_value_needed : SqlState
fdw_dynamic_parameter_value_needed = borrowed "HV002"

abbrev pub fdw_function_sequence_error : SqlState
fdw_function_sequence_error = borrowed "HV010"

abbrev pub fdw_inconsistent_descriptor_information : SqlState
fdw_inconsistent_descriptor_information = borrowed "HV021"

abbrev pub fdw_invalid_attribute_value : SqlState
fdw_invalid_attribute_value = borrowed "HV024"

abbrev pub fdw_invalid_column_name : SqlState
fdw_invalid_column_name = borrowed "HV007"

abbrev pub fdw_invalid_column_number : SqlState
fdw_invalid_column_number = borrowed "HV008"

abbrev pub fdw_invalid_data_type : SqlState
fdw_invalid_data_type = borrowed "HV004"

abbrev pub fdw_invalid_data_type_descriptors : SqlState
fdw_invalid_data_type_descriptors = borrowed "HV006"

abbrev pub fdw_invalid_descriptor_field_identifier : SqlState
fdw_invalid_descriptor_field_identifier = borrowed "HV091"

abbrev pub fdw_invalid_handle : SqlState
fdw_invalid_handle = borrowed "HV00B"

abbrev pub fdw_invalid_option_index : SqlState
fdw_invalid_option_index = borrowed "HV00C"

abbrev pub fdw_invalid_option_name : SqlState
fdw_invalid_option_name = borrowed "HV00D"

abbrev pub fdw_invalid_string_length_or_buffer_length : SqlState
fdw_invalid_string_length_or_buffer_length = borrowed "HV090"

abbrev pub fdw_invalid_string_format : SqlState
fdw_invalid_string_format = borrowed "HV00A"

abbrev pub fdw_invalid_use_of_null_pointer : SqlState
fdw_invalid_use_of_null_pointer = borrowed "HV009"

abbrev pub fdw_too_many_handles : SqlState
fdw_too_many_handles = borrowed "HV014"

abbrev pub fdw_out_of_memory : SqlState
fdw_out_of_memory = borrowed "HV001"

abbrev pub fdw_no_schemas : SqlState
fdw_no_schemas = borrowed "HV00P"

abbrev pub fdw_option_name_not_found : SqlState
fdw_option_name_not_found = borrowed "HV00J"

abbrev pub fdw_reply_handle : SqlState
fdw_reply_handle = borrowed "HV00K"

abbrev pub fdw_schema_not_found : SqlState
fdw_schema_not_found = borrowed "HV00Q"

abbrev pub fdw_table_not_found : SqlState
fdw_table_not_found = borrowed "HV00R"

abbrev pub fdw_unable_to_create_execution : SqlState
fdw_unable_to_create_execution = borrowed "HV00L"

abbrev pub fdw_unable_to_create_reply : SqlState
fdw_unable_to_create_reply = borrowed "HV00M"

abbrev pub fdw_unable_to_establish_connection : SqlState
fdw_unable_to_establish_connection = borrowed "HV00N"

abbrev pub plpgsql_error : SqlState
plpgsql_error = borrowed "P0000"

abbrev pub raise_exception : SqlState
raise_exception = borrowed "P0001"

abbrev pub no_data_found : SqlState
no_data_found = borrowed "P0002"

abbrev pub too_many_rows : SqlState
too_many_rows = borrowed "P0003"

abbrev pub assert_failure : SqlState
assert_failure = borrowed "P0004"

abbrev pub internal_error : SqlState
internal_error = borrowed "XX000"

abbrev pub data_corrupted : SqlState
data_corrupted = borrowed "XX001"

abbrev pub index_corrupted : SqlState
index_corrupted = borrowed "XX002"
