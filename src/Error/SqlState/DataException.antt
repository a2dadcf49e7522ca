-- ===== src/Error/SqlState/DataException.antt =====
-- The constants of src/error/sqlstate.rs: class 22.
use may_postgres.Error.SqlState.Defs.{SqlState, borrowed}

abbrev pub data_exception : SqlState
data_exception = borrowed "22000"

abbrev pub array_element_error : SqlState
array_element_error = borrowed "2202E"

abbrev pub array_subscript_error : SqlState
array_subscript_error = borrowed "2202E"

abbrev pub character_not_in_repertoire : SqlState
character_not_in_repertoire = borrowed "22021"

abbrev pub datetime_field_overflow : SqlState
datetime_field_overflow = borrowed "22008"

abbrev pub datetime_value_out_of_range : SqlState
datetime_value_out_of_range = borrowed "22008"

abbrev pub division_by_zero : SqlState
division_by_zero = borrowed "22012"

abbrev pub error_in_assignment : SqlState
error_in_assignment = borrowed "22005"

abbrev pub escape_character_conflict : SqlState
escape_character_conflict = borrowed "2200B"

abbrev pub indicator_overflow : SqlState
indicator_overflow = borrowed "22022"

abbrev pub interval_field_overflow : SqlState
interval_field_overflow = borrowed "22015"

abbrev pub invalid_argument_for_log : SqlState
invalid_argument_for_log = borrowed "2201E"

abbrev pub invalid_argument_for_ntile : SqlState
invalid_argument_for_ntile = borrowed "22014"

abbrev pub invalid_argument_for_nth_value : SqlState
invalid_argument_for_nth_value = borrowed "22016"

abbrev pub invalid_argument_for_power_function : SqlState
invalid_argument_for_power_function = borrowed "2201F"

abbrev pub invalid_argument_for_width_bucket_function : SqlState
invalid_argument_for_width_bucket_function = borrowed "2201G"

abbrev pub invalid_character_value_for_cast : SqlState
invalid_character_value_for_cast = borrowed "22018"

abbrev pub invalid_datetime_format : SqlState
invalid_datetime_format = borrowed "22007"

abbrev pub invalid_escape_character : SqlState
invalid_escape_character = borrowed "22019"

abbrev pub invalid_escape_octet : SqlState
invalid_escape_octet = borrowed "2200D"

abbrev pub invalid_escape_sequence : SqlState
invalid_escape_sequence = borrowed "22025"

abbrev pub nonstandard_use_of_escape_character : SqlState
nonstandard_use_of_escape_character = borrowed "22P06"

abbrev pub invalid_indicator_parameter_value : SqlState
invalid_indicator_parameter_value = borrowed "22010"

abbrev pub invalid_parameter_value : SqlState
invalid_parameter_value = borrowed "22023"

abbrev pub invalid_preceding_or_following_size : SqlState
invalid_preceding_or_following_size = borrowed "22013"

abbrev pub invalid_regular_expression : SqlState
invalid_regular_expression = borrowed "2201B"

abbrev pub invalid_row_count_in_limit_clause : SqlState
invalid_row_count_in_limit_clause = borrowed "2201W"

abbrev pub invalid_row_count_in_result_offset_clause : SqlState
invalid_row_count_in_result_offset_clause = borrowed "2201X"

abbrev pub invalid_tablesample_argument : SqlState
invalid_tablesample_argument = borrowed "2202H"

abbrev pub invalid_tablesample_repeat : SqlState
invalid_tablesample_repeat = borrowed "2202G"

abbrev pub invalid_time_zone_displacement_value : SqlState
invalid_time_zone_displacement_value = borrowed "22009"

abbrev pub invalid_use_of_escape_character : SqlState
invalid_use_of_escape_character = borrowed "2200C"

abbrev pub most_specific_type_mismatch : SqlState
most_specific_type_mismatch = borrowed "2200G"

abbrev pub null_value_not_allowed : SqlState
null_value_not_allowed = borrowed "22004"

abbrev pub null_value_no_indicator_parameter : SqlState
null_value_no_indicator_parameter = borrowed "22002"

abbrev pub numeric_value_out_of_range : SqlState
numeric_value_out_of_range = borrowed "22003"

abbrev pub sequence_generator_limit_exceeded : SqlState
sequence_generator_limit_exceeded = borrowed "2200H"

abbrev pub string_data_length_mismatch : SqlState
string_data_length_mismatch = borrowed "22026"

abbrev pub string_data_right_truncation : SqlState
string_data_right_truncation = borrowed "22001"

abbrev pub substring_error : SqlState
substring_error = borrowed "22011"

abbrev pub trim_error : SqlState
trim_error = borrowed "22027"

abbrev pub unterminated_c_string : SqlState
unterminated_c_string = borrowed "22024"

abbrev pub zero_length_character_string : SqlState
zero_length_character_string = borrowed "2200F"

abbrev pub floating_point_exception : SqlState
floating_point_exception = borrowed "22P01"

abbrev pub invalid_text_representation : SqlState
invalid_text_representation = borrowed "22P02"

abbrev pub invalid_binary_representation : SqlState
invalid_binary_representation = borrowed "22P03"

abbrev pub bad_copy_file_format : SqlState
bad_copy_file_format = borrowed "22P04"

abbrev pub untranslatable_character : SqlState
untranslatable_character = borrowed "22P05"

abbrev pub not_an_xml_document : SqlState
not_an_xml_document = borrowed "2200L"

abbrev pub invalid_xml_document : SqlState
invalid_xml_document = borrowed "2200M"

abbrev pub invalid_xml_content : SqlState
invalid_xml_content = borrowed "2200N"

abbrev pub invalid_xml_comment : SqlState
invalid_xml_comment = borrowed "2200S"

abbrev pub invalid_xml_processing_instruction : SqlState
invalid_xml_processing_instruction = borrowed "2200T"

abbrev pub duplicate_json_object_key_value : SqlState
duplicate_json_object_key_value = borrowed "22030"

abbrev pub invalid_json_text : SqlState
invalid_json_text = borrowed "22032"

abbrev pub invalid_sql_json_subscript : SqlState
invalid_sql_json_subscript = borrowed "22033"

abbrev pub more_than_one_sql_json_item : SqlState
more_than_one_sql_json_item = borrowed "22034"

abbrev pub no_sql_json_item : SqlState
no_sql_json_item = borrowed "22035"

abbrev pub non_numeric_sql_json_item : SqlState
non_numeric_sql_json_item = borrowed "22036"

abbrev pub non_unique_keys_in_a_json_object : SqlState
non_unique_keys_in_a_json_object = borrowed "22037"

abbrev pub singleton_sql_json_item_required : SqlState
singleton_sql_json_item_required = borrowed "22038"

abbrev pub sql_json_array_not_found : SqlState
sql_json_array_not_found = borrowed "22039"

abbrev pub sql_json_member_not_found : SqlState
sql_json_member_not_found = borrowed "2203A"

abbrev pub sql_json_number_not_found : SqlState
sql_json_number_not_found = borrowed "2203B"

abbrev pub sql_json_object_not_found : SqlState
sql_json_object_not_found = borrowed "2203C"

abbrev pub too_many_json_array_elements : SqlState
too_many_json_array_elements = borrowed "2203D"

abbrev pub too_many_json_object_members : SqlState
too_many_json_object_members = borrowed "2203E"

abbrev pub sql_json_scalar_required : SqlState
sql_json_scalar_required = borrowed "2203F"
