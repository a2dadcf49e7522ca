-- ===== src/Error/SqlState/Completion.antt =====
-- The constants of src/error/sqlstate.rs: the classes that begin with 0.
use may_postgres.Error.SqlState.Defs.{SqlState, borrowed}

abbrev pub successful_completion : SqlState
successful_completion = borrowed "00000"

abbrev pub warning : SqlState
warning = borrowed "01000"

abbrev pub warning_dynamic_result_sets_returned : SqlState
warning_dynamic_result_sets_returned = borrowed "0100C"

abbrev pub warning_implicit_zero_bit_padding : SqlState
warning_implicit_zero_bit_padding = borrowed "01008"

abbrev pub warning_null_value_eliminated_in_set_function : SqlState
warning_null_value_eliminated_in_set_function = borrowed "01003"

abbrev pub warning_privilege_not_granted : SqlState
warning_privilege_not_granted = borrowed "01007"

abbrev pub warning_privilege_not_revoked : SqlState
warning_privilege_not_revoked = borrowed "01006"

abbrev pub warning_string_data_right_truncation : SqlState
warning_string_data_right_truncation = borrowed "01004"

abbrev pub warning_deprecated_feature : SqlState
warning_deprecated_feature = borrowed "01P01"

abbrev pub no_data : SqlState
no_data = borrowed "02000"

abbrev pub no_additional_dynamic_result_sets_returned : SqlState
no_additional_dynamic_result_sets_returned = borrowed "02001"

abbrev pub sql_statement_not_yet_complete : SqlState
sql_statement_not_yet_complete = borrowed "03000"

abbrev pub connection_exception : SqlState
connection_exception = borrowed "08000"

abbrev pub connection_does_not_exist : SqlState
connection_does_not_exist = borrowed "08003"

abbrev pub connection_failure : SqlState
connection_failure = borrowed "08006"

abbrev pub sqlclient_unable_to_establish_sqlconnection : SqlState
sqlclient_unable_to_establish_sqlconnection = borrowed "08001"

abbrev pub sqlserver_rejected_establishment_of_sqlconnection : SqlState
sqlserver_rejected_establishment_of_sqlconnection = borrowed "08004"

abbrev pub transaction_resolution_unknown : SqlState
transaction_resolution_unknown = borrowed "08007"

abbrev pub protocol_violation : SqlState
protocol_violation = borrowed "08P01"

abbrev pub triggered_action_exception : SqlState
triggered_action_exception = borrowed "09000"

abbrev pub feature_not_supported : SqlState
feature_not_supported = borrowed "0A000"

abbrev pub invalid_transaction_initiation : SqlState
invalid_transaction_initiation = borrowed "0B000"

abbrev pub locator_exception : SqlState
locator_exception = borrowed "0F000"

abbrev pub l_e_invalid_specification : SqlState
l_e_invalid_specification = borrowed "0F001"

abbrev pub invalid_grantor : SqlState
invalid_grantor = borrowed "0L000"

abbrev pub invalid_grant_operation : SqlState
invalid_grant_operation = borrowed "0LP01"

abbrev pub invalid_role_specification : SqlState
invalid_role_specification = borrowed "0P000"

abbrev pub diagnostics_exception : SqlState
diagnostics_exception = borrowed "0Z000"

abbrev pub stacked_diagnostics_accessed_without_active_handler : SqlState
stacked_diagnostics_accessed_without_active_handler = borrowed "0Z002"
