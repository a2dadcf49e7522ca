-- ===== src/Error/SqlState/Routine.antt =====
-- The constants of src/error/sqlstate.rs: the classes that begin with 3.
use may_postgres.Error.SqlState.Defs.{SqlState, borrowed}

abbrev pub invalid_cursor_name : SqlState
invalid_cursor_name = borrowed "34000"

abbrev pub undefined_cursor : SqlState
undefined_cursor = borrowed "34000"

abbrev pub external_routine_exception : SqlState
external_routine_exception = borrowed "38000"

abbrev pub e_r_e_containing_sql_not_permitted : SqlState
e_r_e_containing_sql_not_permitted = borrowed "38001"

abbrev pub e_r_e_modifying_sql_data_not_permitted : SqlState
e_r_e_modifying_sql_data_not_permitted = borrowed "38002"

abbrev pub e_r_e_prohibited_sql_statement_attempted : SqlState
e_r_e_prohibited_sql_statement_attempted = borrowed "38003"

abbrev pub e_r_e_reading_sql_data_not_permitted : SqlState
e_r_e_reading_sql_data_not_permitted = borrowed "38004"

abbrev pub external_routine_invocation_exception : SqlState
external_routine_invocation_exception = borrowed "39000"

abbrev pub e_r_i_e_invalid_sqlstate_returned : SqlState
e_r_i_e_invalid_sqlstate_returned = borrowed "39001"

abbrev pub e_r_i_e_null_value_not_allowed : SqlState
e_r_i_e_null_value_not_allowed = borrowed "39004"

abbrev pub e_r_i_e_trigger_protocol_violated : SqlState
e_r_i_e_trigger_protocol_violated = borrowed "39P01"

abbrev pub e_r_i_e_srf_protocol_violated : SqlState
e_r_i_e_srf_protocol_violated = borrowed "39P02"

abbrev pub e_r_i_e_event_trigger_protocol_violated : SqlState
e_r_i_e_event_trigger_protocol_violated = borrowed "39P03"

abbrev pub savepoint_exception : SqlState
savepoint_exception = borrowed "3B000"

abbrev pub s_e_invalid_specification : SqlState
s_e_invalid_specification = borrowed "3B001"

abbrev pub invalid_catalog_name : SqlState
invalid_catalog_name = borrowed "3D000"

abbrev pub undefined_database : SqlState
undefined_database = borrowed "3D000"

abbrev pub invalid_schema_name : SqlState
invalid_schema_name = borrowed "3F000"

abbrev pub undefined_schema : SqlState
undefined_schema = borrowed "3F000"
