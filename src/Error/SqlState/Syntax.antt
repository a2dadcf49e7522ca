-- ===== src/Error/SqlState/Syntax.antt =====
-- The constants of src/error/sqlstate.rs: the classes that begin with 4.
use may_postgres.Error.SqlState.Defs.{SqlState, borrowed}

abbrev pub transaction_rollback : SqlState
transaction_rollback = borrowed "40000"

abbrev pub t_r_integrity_constraint_violation : SqlState
t_r_integrity_constraint_violation = borrowed "40002"

abbrev pub t_r_serialization_failure : SqlState
t_r_serialization_failure = borrowed "40001"

abbrev pub t_r_statement_completion_unknown : SqlState
t_r_statement_completion_unknown = borrowed "40003"

abbrev pub t_r_deadlock_detected : SqlState
t_r_deadlock_detected = borrowed "40P01"

abbrev pub syntax_error_or_access_rule_violation : SqlState
syntax_error_or_access_rule_violation = borrowed "42000"

abbrev pub syntax_error : SqlState
syntax_error = borrowed "42601"

abbrev pub insufficient_privilege : SqlState
insufficient_privilege = borrowed "42501"

abbrev pub cannot_coerce : SqlState
cannot_coerce = borrowed "42846"

abbrev pub grouping_error : SqlState
grouping_error = borrowed "42803"

abbrev pub windowing_error : SqlState
windowing_error = borrowed "42P20"

abbrev pub invalid_recursion : SqlState
invalid_recursion = borrowed "42P19"

abbrev pub invalid_foreign_key : SqlState
invalid_foreign_key = borrowed "42830"

abbrev pub invalid_name : SqlState
invalid_name = borrowed "42602"

abbrev pub name_too_long : SqlState
name_too_long = borrowed "42622"

abbrev pub reserved_name : SqlState
reserved_name = borrowed "42939"

abbrev pub datatype_mismatch : SqlState
datatype_mismatch = borrowed "42804"

abbrev pub indeterminate_datatype : SqlState
indeterminate_datatype = borrowed "42P18"

abbrev pub collation_mismatch : SqlState
collation_mismatch = borrowed "42P21"

abbrev pub indeterminate_collation : SqlState
indeterminate_collation = borrowed "42P22"

abbrev pub wrong_object_type : SqlState
wrong_object_type = borrowed "42809"

abbrev pub generated_always : SqlState
generated_always = borrowed "428C9"

abbrev pub undefined_column : SqlState
undefined_column = borrowed "42703"

abbrev pub undefined_function : SqlState
undefined_function = borrowed "42883"

abbrev pub undefined_table : SqlState
undefined_table = borrowed "42P01"

abbrev pub undefined_parameter : SqlState
undefined_parameter = borrowed "42P02"

abbrev pub undefined_object : SqlState
undefined_object = borrowed "42704"

abbrev pub duplicate_column : SqlState
duplicate_column = borrowed "42701"

abbrev pub duplicate_cursor : SqlState
duplicate_cursor = borrowed "42P03"

abbrev pub duplicate_database : SqlState
duplicate_database = borrowed "42P04"

abbrev pub duplicate_function : SqlState
duplicate_function = borrowed "42723"

abbrev pub duplicate_pstatement : SqlState
duplicate_pstatement = borrowed "42P05"

abbrev pub duplicate_schema : SqlState
duplicate_schema = borrowed "42P06"

abbrev pub duplicate_table : SqlState
duplicate_table = borrowed "42P07"

abbrev pub duplicate_alias : SqlState
duplicate_alias = borrowed "42712"

abbrev pub duplicate_object : SqlState
duplicate_object = borrowed "42710"

abbrev pub ambiguous_column : SqlState
ambiguous_column = borrowed "42702"

abbrev pub ambiguous_function : SqlState
ambiguous_function = borrowed "42725"

abbrev pub ambiguous_parameter : SqlState
ambiguous_parameter = borrowed "42P08"

abbrev pub ambiguous_alias : SqlState
ambiguous_alias = borrowed "42P09"

abbrev pub invalid_column_reference : SqlState
invalid_column_reference = borrowed "42P10"

abbrev pub invalid_column_definition : SqlState
invalid_column_definition = borrowed "42611"

abbrev pub invalid_cursor_definition : SqlState
invalid_cursor_definition = borrowed "42P11"

abbrev pub invalid_database_definition : SqlState
invalid_database_definition = borrowed "42P12"

abbrev pub invalid_function_definition : SqlState
invalid_function_definition = borrowed "42P13"

abbrev pub invalid_pstatement_definition : SqlState
invalid_pstatement_definition = borrowed "42P14"

abbrev pub invalid_schema_definition : SqlState
invalid_schema_definition = borrowed "42P15"

abbrev pub invalid_table_definition : SqlState
invalid_table_definition = borrowed "42P16"

abbrev pub invalid_object_definition : SqlState
invalid_object_definition = borrowed "42P17"

abbrev pub with_check_option_violation : SqlState
with_check_option_violation = borrowed "44000"
