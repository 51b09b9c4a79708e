-- ===== src/Errors/Codes.antt =====
-- The numeric result codes of lib.rs: the constants of the PHP class `ResultCode` with their messages,
-- and the codes that `aero_result_code_to_i32` gives to the variants of `aero::ResultCode`.
use Prim.Native.String.{String}
use aerospike_php_client.Common.{ℕ, List, [], ◌∷◌, Option, none, some, if◌then◌else◌}
use aerospike_php_client.Common.Int.{ℤ, pos, negsuc, ℤ_beq}

-- The constants of `ResultCode`.
pub data Constant : Type 0 where
  batch_failed no_response network_error common_error max_retries_exceeded : Constant
  max_error_rate rack_not_defined invalid_cluster_partition_map : Constant
  server_not_available cluster_name_mismatch_error recordset_closed : Constant
  no_available_connections_to_node type_not_supported command_rejected : Constant
  query_terminated scan_terminated invalid_node_error parse_error : Constant
  serialize_error ok server_error key_not_found_error generation_error : Constant
  parameter_error key_exists_error bin_exists_error cluster_key_mismatch : Constant
  server_mem_error timeout always_forbidden partition_unavailable : Constant
  bin_type_error record_too_big key_busy scan_abort unsupported_feature : Constant
  bin_not_found device_overload key_mismatch invalid_namespace : Constant
  bin_name_too_long fail_forbidden fail_element_not_found fail_element_exists : Constant
  enterprise_only op_not_applicable filtered_out lost_conflict xdr_key_busy : Constant
  query_end security_not_supported security_not_enabled : Constant
  security_scheme_not_supported invalid_command invalid_field illegal_state : Constant
  invalid_user user_already_exists invalid_password expired_password : Constant
  forbidden_password invalid_credential expired_session invalid_role : Constant
  role_already_exists invalid_privilege invalid_whitelist quotas_not_enabled : Constant
  invalid_quota not_authenticated role_violation not_whitelisted quota_exceeded : Constant
  udf_bad_response batch_disabled batch_max_requests_exceeded batch_queues_full : Constant
  geo_invalid_geojson index_found index_not_found index_oom index_not_readable : Constant
  index_generic index_name_max_len index_max_count query_aborted : Constant
  query_queue_full query_timeout query_generic query_net_io_err query_duplicate : Constant
  aerospike_err_udf_not_found aerospike_err_lua_file_not_found : Constant

unfoldable pub value : Constant → ℤ
value batch_failed = negsuc 19
value no_response = negsuc 18
value network_error = negsuc 17
value common_error = negsuc 16
value max_retries_exceeded = negsuc 15
value max_error_rate = negsuc 14
value rack_not_defined = negsuc 12
value invalid_cluster_partition_map = negsuc 11
value server_not_available = negsuc 10
value cluster_name_mismatch_error = negsuc 9
value recordset_closed = negsuc 8
value no_available_connections_to_node = negsuc 7
value type_not_supported = negsuc 6
value command_rejected = negsuc 5
value query_terminated = negsuc 4
value scan_terminated = negsuc 3
value invalid_node_error = negsuc 2
value parse_error = negsuc 1
value serialize_error = negsuc 0
value ok = pos 0
value server_error = pos 1
value key_not_found_error = pos 2
value generation_error = pos 3
value parameter_error = pos 4
value key_exists_error = pos 5
value bin_exists_error = pos 6
value cluster_key_mismatch = pos 7
value server_mem_error = pos 8
value timeout = pos 9
value always_forbidden = pos 10
value partition_unavailable = pos 11
value bin_type_error = pos 12
value record_too_big = pos 13
value key_busy = pos 14
value scan_abort = pos 15
value unsupported_feature = pos 16
value bin_not_found = pos 17
value device_overload = pos 18
value key_mismatch = pos 19
value invalid_namespace = pos 20
value bin_name_too_long = pos 21
value fail_forbidden = pos 22
value fail_element_not_found = pos 23
value fail_element_exists = pos 24
value enterprise_only = pos 25
value op_not_applicable = pos 26
value filtered_out = pos 27
value lost_conflict = pos 28
value xdr_key_busy = pos 32
value query_end = pos 50
value security_not_supported = pos 51
value security_not_enabled = pos 52
value security_scheme_not_supported = pos 53
value invalid_command = pos 54
value invalid_field = pos 55
value illegal_state = pos 56
value invalid_user = pos 60
value user_already_exists = pos 61
value invalid_password = pos 62
value expired_password = pos 63
value forbidden_password = pos 64
value invalid_credential = pos 65
value expired_session = pos 66
value invalid_role = pos 70
value role_already_exists = pos 71
value invalid_privilege = pos 72
value invalid_whitelist = pos 73
value quotas_not_enabled = pos 74
value invalid_quota = pos 75
value not_authenticated = pos 80
value role_violation = pos 81
value not_whitelisted = pos 82
value quota_exceeded = pos 83
value udf_bad_response = pos 100
value batch_disabled = pos 150
value batch_max_requests_exceeded = pos 151
value batch_queues_full = pos 152
value geo_invalid_geojson = pos 160
value index_found = pos 200
value index_not_found = pos 201
value index_oom = pos 202
value index_not_readable = pos 203
value index_generic = pos 204
value index_name_max_len = pos 205
value index_max_count = pos 206
value query_aborted = pos 210
value query_queue_full = pos 211
value query_timeout = pos 212
value query_generic = pos 213
value query_net_io_err = pos 214
value query_duplicate = pos 215
value aerospike_err_udf_not_found = pos 1301
value aerospike_err_lua_file_not_found = pos 1302

-- The arms of `ResultCode::to_string`, in order.
unfoldable pub arms : List (ℤ × String)
unfolding value
arms =
    (value batch_failed, "one or more keys failed in a batch")
    ∷ (value no_response, "no response was received from the server")
    ∷ (value network_error, "a network error. Checked the wrapped error for detail")
    ∷ (value common_error, "a common, none-aerospike error. Checked the wrapped error for detail")
    ∷ (value max_retries_exceeded, "max retries limit reached")
    ∷ (value max_error_rate, "max errors limit reached")
    ∷ (value rack_not_defined, "requested Rack for node/namespace was not defined in the cluster")
    ∷ (
      value invalid_cluster_partition_map,
      "cluster has an invalid partition map, usually due to bad configuration",
    )
    ∷ (value server_not_available, "server is not accepting requests")
    ∷ (
      value cluster_name_mismatch_error,
      "cluster Name does not match the ClientPolicy.ClusterName value",
    )
    ∷ (value recordset_closed, "recordset has already been closed or cancelled")
    ∷ (
      value no_available_connections_to_node,
      "there were no connections available to the node in the pool, and the pool was limited",
    )
    ∷ (value type_not_supported, "data type is not supported by aerospike server")
    ∷ (value command_rejected, "info Command was rejected by the server")
    ∷ (value query_terminated, "query was terminated by user")
    ∷ (value scan_terminated, "scan was terminated by user")
    ∷ (value invalid_node_error, "chosen node is not currently active")
    ∷ (value parse_error, "client parse error")
    ∷ (value serialize_error, "client serialization error")
    ∷ (value ok, "operation was successful")
    ∷ (value server_error, "unknown server failure")
    ∷ (
      value key_not_found_error,
      "on retrieving, touching or replacing a record that doesn't exist",
    )
    ∷ (value generation_error, "on modifying a record with unexpected generation")
    ∷ (value parameter_error, "bad parameter(s) were passed in database operation call")
    ∷ (
      value key_exists_error,
      "on create-only (write unique) operations on a record that already exists",
    )
    ∷ (value bin_exists_error, "bin already exists on a create-only operation")
    ∷ (value cluster_key_mismatch, "expected cluster ID was not received")
    ∷ (value server_mem_error, "server has run out of memory")
    ∷ (value timeout, "client or server has timed out")
    ∷ (value always_forbidden, "operation not allowed in current configuration")
    ∷ (value partition_unavailable, "partition is unavailable")
    ∷ (
      value bin_type_error,
      "operation is not supported with configured bin type (single-bin or multi-bin)",
    )
    ∷ (value record_too_big, "record size exceeds limit")
    ∷ (value key_busy, "too many concurrent operations on the same record")
    ∷ (value scan_abort, "scan aborted by server")
    ∷ (value unsupported_feature, "unsupported Server Feature (e.g. Scan + UDF)")
    ∷ (value bin_not_found, "bin not found on update-only operation")
    ∷ (value device_overload, "device not keeping up with writes")
    ∷ (value key_mismatch, "key type mismatch")
    ∷ (value invalid_namespace, "invalid namespace")
    ∷ (
      value bin_name_too_long,
      "bin name length greater than 14 characters, or maximum number of unique bin names are exceeded",
    )
    ∷ (value fail_forbidden, "operation not allowed at this time")
    ∷ (value fail_element_not_found, "element Not Found in CDT")
    ∷ (value fail_element_exists, "element Already Exists in CDT")
    ∷ (
      value enterprise_only,
      "attempt to use an Enterprise feature on a Community server or a server without the applicable feature key",
    )
    ∷ (
      value op_not_applicable,
      "the operation cannot be applied to the current bin value on the server",
    )
    ∷ (value filtered_out, "the transaction was not performed because the filter was false")
    ∷ (value lost_conflict, "write command loses conflict to XDR")
    ∷ (value xdr_key_busy, "the XDR is not in the required state to process the write")
    ∷ (value query_end, "there are no more records left for query")
    ∷ (value security_not_supported, "security type not supported by connected server")
    ∷ (value security_not_enabled, "administration command is invalid")
    ∷ (value security_scheme_not_supported, "administration field is invalid")
    ∷ (value invalid_command, "administration command is invalid")
    ∷ (value invalid_field, "administration field is invalid")
    ∷ (value illegal_state, "security protocol not followed")
    ∷ (value invalid_user, "user name is invalid")
    ∷ (value user_already_exists, "user was previously created")
    ∷ (value invalid_password, "password is invalid")
    ∷ (value expired_password, "security credential is invalid")
    ∷ (value forbidden_password, "forbidden password (e.g. recently used)")
    ∷ (value invalid_credential, "security credential is invalid")
    ∷ (value expired_session, "login session expired")
    ∷ (value invalid_role, "role name is invalid")
    ∷ (value role_already_exists, "role already exists")
    ∷ (value invalid_privilege, "privilege is invalid")
    ∷ (value invalid_whitelist, "invalid IP address whiltelist")
    ∷ (value quotas_not_enabled, "Quotas not enabled on server")
    ∷ (value invalid_quota, "invalid quota value")
    ∷ (value not_authenticated, "user must be authentication before performing database operations")
    ∷ (
      value role_violation,
      "user does not posses the required role to perform the database operation",
    )
    ∷ (value not_whitelisted, "command not allowed because sender IP address not whitelisted")
    ∷ (value quota_exceeded, "Quota exceeded")
    ∷ (value udf_bad_response, "a user defined function returned an error code")
    ∷ (value batch_disabled, "batch functionality has been disabled")
    ∷ (value batch_max_requests_exceeded, "batch max requests have been exceeded")
    ∷ (value batch_queues_full, "all batch queues are full")
    ∷ (value geo_invalid_geojson, "invalid GeoJSON on insert/update")
    ∷ (value index_found, "secondary index already exists")
    ∷ (value index_not_found, "requested secondary index does not exist")
    ∷ (value index_oom, "secondary index memory space exceeded")
    ∷ (value index_not_readable, "secondary index not available")
    ∷ (value index_generic, "generic secondary index error")
    ∷ (value index_name_max_len, "index name maximum length exceeded")
    ∷ (value index_max_count, "maximum number of indexes exceeded")
    ∷ (value query_aborted, "secondary index query aborted")
    ∷ (value query_queue_full, "secondary index queue full")
    ∷ (value query_timeout, "secondary index query timed out on server")
    ∷ (value query_generic, "generic query error")
    ∷ (value query_net_io_err, "query NetIO error on server")
    ∷ (value query_duplicate, "duplicate TaskId sent for the statement")
    ∷ (value aerospike_err_udf_not_found, "UDF does not exist")
    ∷ (value aerospike_err_lua_file_not_found, "LUA file does not exist")
    ∷ []

unfoldable pub first_arm : ℤ → List (ℤ × String) → Option String
unfolding ℤ_beq
first_arm c [] = none
first_arm c ((k, message) ∷ rest) = if ℤ_beq k c then some message else first_arm c rest

abbrev message_or : Option String → String → String
message_or none d = d
message_or (some s) d = s

-- `ResultCode::to_string`.
unfoldable pub to_string : ℤ → String
unfolding first_arm arms
to_string code = message_or (first_arm code arms) "Unknown Error"

-- `aero::ResultCode`, with the variants that the source matches.
pub data ResultCode : Type 0 where
  ok server_error key_not_found_error generation_error parameter_error : ResultCode
  key_exists_error bin_exists_error cluster_key_mismatch server_mem_error : ResultCode
  timeout always_forbidden partition_unavailable bin_type_error record_too_big : ResultCode
  key_busy scan_abort unsupported_feature bin_not_found device_overload : ResultCode
  key_mismatch invalid_namespace bin_name_too_long fail_forbidden : ResultCode
  element_not_found element_exists enterprise_only op_not_applicable : ResultCode
  filtered_out lost_conflict xdr_key_busy query_end security_not_supported : ResultCode
  security_not_enabled security_scheme_not_supported invalid_command : ResultCode
  invalid_field illegal_state invalid_user user_already_exists invalid_password : ResultCode
  expired_password forbidden_password invalid_credential expired_session : ResultCode
  invalid_role role_already_exists invalid_privilege invalid_allowlist : ResultCode
  quotas_not_enabled invalid_quota not_authenticated role_violation : ResultCode
  not_allowlisted quota_exceeded udf_bad_response batch_disabled : ResultCode
  batch_max_requests_exceeded batch_queues_full invalid_geojson index_found : ResultCode
  index_not_found index_oom index_not_readable index_generic index_name_max_len : ResultCode
  index_max_count query_aborted query_queue_full query_timeout query_generic : ResultCode
  query_netio_err query_duplicate : ResultCode
  unknown : ℕ → ResultCode

unfoldable pub aero_result_code_to_i32 : ResultCode → ℤ
aero_result_code_to_i32 ok = pos 0
aero_result_code_to_i32 server_error = pos 1
aero_result_code_to_i32 key_not_found_error = pos 2
aero_result_code_to_i32 generation_error = pos 3
aero_result_code_to_i32 parameter_error = pos 4
aero_result_code_to_i32 key_exists_error = pos 5
aero_result_code_to_i32 bin_exists_error = pos 6
aero_result_code_to_i32 cluster_key_mismatch = pos 7
aero_result_code_to_i32 server_mem_error = pos 8
aero_result_code_to_i32 timeout = pos 9
aero_result_code_to_i32 always_forbidden = pos 10
aero_result_code_to_i32 partition_unavailable = pos 11
aero_result_code_to_i32 bin_type_error = pos 12
aero_result_code_to_i32 record_too_big = pos 13
aero_result_code_to_i32 key_busy = pos 14
aero_result_code_to_i32 scan_abort = pos 15
aero_result_code_to_i32 unsupported_feature = pos 16
aero_result_code_to_i32 bin_not_found = pos 17
aero_result_code_to_i32 device_overload = pos 18
aero_result_code_to_i32 key_mismatch = pos 19
aero_result_code_to_i32 invalid_namespace = pos 20
aero_result_code_to_i32 bin_name_too_long = pos 21
aero_result_code_to_i32 fail_forbidden = pos 22
aero_result_code_to_i32 element_not_found = pos 23
aero_result_code_to_i32 element_exists = pos 24
aero_result_code_to_i32 enterprise_only = pos 25
aero_result_code_to_i32 op_not_applicable = pos 26
aero_result_code_to_i32 filtered_out = pos 27
aero_result_code_to_i32 lost_conflict = pos 28
aero_result_code_to_i32 xdr_key_busy = pos 32
aero_result_code_to_i32 query_end = pos 50
aero_result_code_to_i32 security_not_supported = pos 51
aero_result_code_to_i32 security_not_enabled = pos 52
aero_result_code_to_i32 security_scheme_not_supported = pos 53
aero_result_code_to_i32 invalid_command = pos 54
aero_result_code_to_i32 invalid_field = pos 55
aero_result_code_to_i32 illegal_state = pos 56
aero_result_code_to_i32 invalid_user = pos 60
aero_result_code_to_i32 user_already_exists = pos 61
aero_result_code_to_i32 invalid_password = pos 62
aero_result_code_to_i32 expired_password = pos 63
aero_result_code_to_i32 forbidden_password = pos 64
aero_result_code_to_i32 invalid_credential = pos 65
aero_result_code_to_i32 expired_session = pos 66
aero_result_code_to_i32 invalid_role = pos 70
aero_result_code_to_i32 role_already_exists = pos 71
aero_result_code_to_i32 invalid_privilege = pos 72
aero_result_code_to_i32 invalid_allowlist = pos 73
aero_result_code_to_i32 quotas_not_enabled = pos 74
aero_result_code_to_i32 invalid_quota = pos 75
aero_result_code_to_i32 not_authenticated = pos 80
aero_result_code_to_i32 role_violation = pos 81
aero_result_code_to_i32 not_allowlisted = pos 82
aero_result_code_to_i32 quota_exceeded = pos 83
aero_result_code_to_i32 udf_bad_response = pos 100
aero_result_code_to_i32 batch_disabled = pos 150
aero_result_code_to_i32 batch_max_requests_exceeded = pos 151
aero_result_code_to_i32 batch_queues_full = pos 152
aero_result_code_to_i32 invalid_geojson = pos 160
aero_result_code_to_i32 index_found = pos 200
aero_result_code_to_i32 index_not_found = pos 201
aero_result_code_to_i32 index_oom = pos 202
aero_result_code_to_i32 index_not_readable = pos 203
aero_result_code_to_i32 index_generic = pos 204
aero_result_code_to_i32 index_name_max_len = pos 205
aero_result_code_to_i32 index_max_count = pos 206
aero_result_code_to_i32 query_aborted = pos 210
aero_result_code_to_i32 query_queue_full = pos 211
aero_result_code_to_i32 query_timeout = pos 212
aero_result_code_to_i32 query_generic = pos 213
aero_result_code_to_i32 query_netio_err = pos 214
aero_result_code_to_i32 query_duplicate = pos 215
aero_result_code_to_i32 (unknown code) = pos code
