-- ===== src/Error/SqlState/Transaction.antt =====
-- The constants of src/error/sqlstate.rs: the other classes that begin with 2.
use may_postgres.Error.SqlState.Defs.{SqlState, borrowed}

abbrev pub case_not_found : SqlState
case_not_found = borrowed "20000"

abbrev pub cardinality_violation : SqlState
cardinality_violation = borrowed "21000"

abbrev pub integrity_constraint_violation : SqlState
integrity_constraint_violation = borrowed "23000"

abbrev pub restrict_violation : SqlState
restrict_violation = borrowed "23001"

abbrev pub not_null_violation : SqlState
not_null_violation = borrowed "23502"

abbrev pub foreign_key_violation : SqlState
foreign_key_violation = borrowed "23503"

abbrev pub unique_violation : SqlState
unique_violation = borrowed "23505"

abbrev pub check_violation : SqlState
check_violation = borrowed "23514"

abbrev pub exclusion_violation : SqlState
exclusion_violation = borrowed "23P01"

abbrev pub invalid_cursor_state : SqlState
invalid_cursor_state = borrowed "24000"

abbrev pub invalid_transaction_state : SqlState
invalid_transaction_state = borrowed "25000"

abbrev pub active_sql_transaction : SqlState
active_sql_transaction = borrowed "25001"

abbrev pub branch_transaction_already_active : SqlState
branch_transaction_already_active = borrowed "25002"

abbrev pub held_cursor_requires_same_isolation_level : SqlState
held_cursor_requires_same_isolation_level = borrowed "25008"

abbrev pub inappropriate_access_mode_for_branch_transaction : SqlState
inappropriate_access_mode_for_branch_transaction = borrowed "25003"

abbrev pub inappropriate_isolation_level_for_branch_transaction : SqlState
inappropriate_isolation_level_for_branch_transaction = borrowed "25004"

abbrev pub no_active_sql_transaction_for_branch_transaction : SqlState
no_active_sql_transaction_for_branch_transaction = borrowed "25005"

abbrev pub read_only_sql_transaction : SqlState
read_only_sql_transaction = borrowed "25006"

abbrev pub schema_and_data_statement_mixing_not_supported : SqlState
schema_and_data_statement_mixing_not_supported = borrowed "25007"

abbrev pub no_active_sql_transaction : SqlState
no_active_sql_transaction = borrowed "25P01"

abbrev pub in_failed_sql_transaction : SqlState
in_failed_sql_transaction = borrowed "25P02"

abbrev pub idle_in_transaction_session_timeout : SqlState
idle_in_transaction_session_timeout = borrowed "25P03"

abbrev pub invalid_sql_statement_name : SqlState
invalid_sql_statement_name = borrowed "26000"

abbrev pub undefined_pstatement : SqlState
undefined_pstatement = borrowed "26000"

abbrev pub triggered_data_change_violation : SqlState
triggered_data_change_violation = borrowed "27000"

abbrev pub invalid_authorization_specification : SqlState
invalid_authorization_specification = borrowed "28000"

abbrev pub invalid_password : SqlState
invalid_password = borrowed "28P01"

abbrev pub dependent_privilege_descriptors_still_exist : SqlState
dependent_privilege_descriptors_still_exist = borrowed "2B000"

abbrev pub dependent_objects_still_exist : SqlState
dependent_objects_still_exist = borrowed "2BP01"

abbrev pub invalid_transaction_termination : SqlState
invalid_transaction_termination = borrowed "2D000"

abbrev pub sql_routine_exception : SqlState
sql_routine_exception = borrowed "2F000"

abbrev pub s_r_e_function_executed_no_return_statement : SqlState
s_r_e_function_executed_no_return_statement = borrowed "2F005"

abbrev pub s_r_e_modifying_sql_data_not_permitted : SqlState
s_r_e_modifying_sql_data_not_permitted = borrowed "2F002"

abbrev pub s_r_e_prohibited_sql_statement_attempted : SqlState
s_r_e_prohibited_sql_statement_attempted = borrowed "2F003"

abbrev pub s_r_e_reading_sql_data_not_permitted : SqlState
s_r_e_reading_sql_data_not_permitted = borrowed "2F004"
