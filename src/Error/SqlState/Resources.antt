-- ===== src/Error/SqlState/Resources.antt =====
-- The constants of src/error/sqlstate.rs: the classes that begin with 5.
use may_postgres.Error.SqlState.Defs.{SqlState, borrowed}

abbrev pub insufficient_resources : SqlState
insufficient_resources = borrowed "53000"

abbrev pub disk_full : SqlState
disk_full = borrowed "53100"

abbrev pub out_of_memory : SqlState
out_of_memory = borrowed "53200"

abbrev pub too_many_connections : SqlState
too_many_connections = borrowed "53300"

abbrev pub configuration_limit_exceeded : SqlState
configuration_limit_exceeded = borrowed "53400"

abbrev pub program_limit_exceeded : SqlState
program_limit_exceeded = borrowed "54000"

abbrev pub statement_too_complex : SqlState
statement_too_complex = borrowed "54001"

abbrev pub too_many_columns : SqlState
too_many_columns = borrowed "54011"

abbrev pub too_many_arguments : SqlState
too_many_arguments = borrowed "54023"

abbrev pub object_not_in_prerequisite_state : SqlState
object_not_in_prerequisite_state = borrowed "55000"

abbrev pub object_in_use : SqlState
object_in_use = borrowed "55006"

abbrev pub cant_change_runtime_param : SqlState
cant_change_runtime_param = borrowed "55P02"

abbrev pub lock_not_available : SqlState
lock_not_available = borrowed "55P03"

abbrev pub unsafe_new_enum_value_usage : SqlState
unsafe_new_enum_value_usage = borrowed "55P04"

abbrev pub operator_intervention : SqlState
operator_intervention = borrowed "57000"

abbrev pub query_canceled : SqlState
query_canceled = borrowed "57014"

abbrev pub admin_shutdown : SqlState
admin_shutdown = borrowed "57P01"

abbrev pub crash_shutdown : SqlState
crash_shutdown = borrowed "57P02"

abbrev pub cannot_connect_now : SqlState
cannot_connect_now = borrowed "57P03"

abbrev pub database_dropped : SqlState
database_dropped = borrowed "57P04"

abbrev pub system_error : SqlState
system_error = borrowed "58000"

abbrev pub io_error : SqlState
io_error = borrowed "58030"

abbrev pub undefined_file : SqlState
undefined_file = borrowed "58P01"

abbrev pub duplicate_file : SqlState
duplicate_file = borrowed "58P02"
