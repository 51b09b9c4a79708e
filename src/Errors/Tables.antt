-- ===== src/Errors/Tables.antt =====
-- The two tables of result codes of lib.rs, against each other.
use Prim.Native.String.{String}
use mathlib.Core.Option.{some-injective}
use aerospike_php_client.Common.{
  ◌≡◌, refl, ap, ◌∙◌, sym, List, [], ◌∷◌, Option, none, some, if◌then◌else◌,
}
use aerospike_php_client.Common.Int.{ℤ, ℤ_beq}
use aerospike_php_client.Errors.Codes
use aerospike_php_client.Errors.Codes.{
  Constant, ResultCode, unknown, aero_result_code_to_i32, value, first_arm, arms,
}

-- The constant of the PHP class that goes by the variant's name.
unfoldable pub constant_of : ResultCode → Option Constant
constant_of ResultCode.ok = some Constant.ok
constant_of ResultCode.server_error = some Constant.server_error
constant_of ResultCode.key_not_found_error = some Constant.key_not_found_error
constant_of ResultCode.generation_error = some Constant.generation_error
constant_of ResultCode.parameter_error = some Constant.parameter_error
constant_of ResultCode.key_exists_error = some Constant.key_exists_error
constant_of ResultCode.bin_exists_error = some Constant.bin_exists_error
constant_of ResultCode.cluster_key_mismatch = some Constant.cluster_key_mismatch
constant_of ResultCode.server_mem_error = some Constant.server_mem_error
constant_of ResultCode.timeout = some Constant.timeout
constant_of ResultCode.always_forbidden = some Constant.always_forbidden
constant_of ResultCode.partition_unavailable = some Constant.partition_unavailable
constant_of ResultCode.bin_type_error = some Constant.bin_type_error
constant_of ResultCode.record_too_big = some Constant.record_too_big
constant_of ResultCode.key_busy = some Constant.key_busy
constant_of ResultCode.scan_abort = some Constant.scan_abort
constant_of ResultCode.unsupported_feature = some Constant.unsupported_feature
constant_of ResultCode.bin_not_found = some Constant.bin_not_found
constant_of ResultCode.device_overload = some Constant.device_overload
constant_of ResultCode.key_mismatch = some Constant.key_mismatch
constant_of ResultCode.invalid_namespace = some Constant.invalid_namespace
constant_of ResultCode.bin_name_too_long = some Constant.bin_name_too_long
constant_of ResultCode.fail_forbidden = some Constant.fail_forbidden
constant_of ResultCode.element_not_found = some Constant.fail_element_not_found
constant_of ResultCode.element_exists = some Constant.fail_element_exists
constant_of ResultCode.enterprise_only = some Constant.enterprise_only
constant_of ResultCode.op_not_applicable = some Constant.op_not_applicable
constant_of ResultCode.filtered_out = some Constant.filtered_out
constant_of ResultCode.lost_conflict = some Constant.lost_conflict
constant_of ResultCode.xdr_key_busy = some Constant.xdr_key_busy
constant_of ResultCode.query_end = some Constant.query_end
constant_of ResultCode.security_not_supported = some Constant.security_not_supported
constant_of ResultCode.security_not_enabled = some Constant.security_not_enabled
constant_of ResultCode.security_scheme_not_supported = some Constant.security_scheme_not_supported
constant_of ResultCode.invalid_command = some Constant.invalid_command
constant_of ResultCode.invalid_field = some Constant.invalid_field
constant_of ResultCode.illegal_state = some Constant.illegal_state
constant_of ResultCode.invalid_user = some Constant.invalid_user
constant_of ResultCode.user_already_exists = some Constant.user_already_exists
constant_of ResultCode.invalid_password = some Constant.invalid_password
constant_of ResultCode.expired_password = some Constant.expired_password
constant_of ResultCode.forbidden_password = some Constant.forbidden_password
constant_of ResultCode.invalid_credential = some Constant.invalid_credential
constant_of ResultCode.expired_session = some Constant.expired_session
constant_of ResultCode.invalid_role = some Constant.invalid_role
constant_of ResultCode.role_already_exists = some Constant.role_already_exists
constant_of ResultCode.invalid_privilege = some Constant.invalid_privilege
constant_of ResultCode.invalid_allowlist = some Constant.invalid_whitelist
constant_of ResultCode.quotas_not_enabled = some Constant.quotas_not_enabled
constant_of ResultCode.invalid_quota = some Constant.invalid_quota
constant_of ResultCode.not_authenticated = some Constant.not_authenticated
constant_of ResultCode.role_violation = some Constant.role_violation
constant_of ResultCode.not_allowlisted = some Constant.not_whitelisted
constant_of ResultCode.quota_exceeded = some Constant.quota_exceeded
constant_of ResultCode.udf_bad_response = some Constant.udf_bad_response
constant_of ResultCode.batch_disabled = some Constant.batch_disabled
constant_of ResultCode.batch_max_requests_exceeded = some Constant.batch_max_requests_exceeded
constant_of ResultCode.batch_queues_full = some Constant.batch_queues_full
constant_of ResultCode.invalid_geojson = some Constant.geo_invalid_geojson
constant_of ResultCode.index_found = some Constant.index_found
constant_of ResultCode.index_not_found = some Constant.index_not_found
constant_of ResultCode.index_oom = some Constant.index_oom
constant_of ResultCode.index_not_readable = some Constant.index_not_readable
constant_of ResultCode.index_generic = some Constant.index_generic
constant_of ResultCode.index_name_max_len = some Constant.index_name_max_len
constant_of ResultCode.index_max_count = some Constant.index_max_count
constant_of ResultCode.query_aborted = some Constant.query_aborted
constant_of ResultCode.query_queue_full = some Constant.query_queue_full
constant_of ResultCode.query_timeout = some Constant.query_timeout
constant_of ResultCode.query_generic = some Constant.query_generic
constant_of ResultCode.query_netio_err = some Constant.query_net_io_err
constant_of ResultCode.query_duplicate = some Constant.query_duplicate
constant_of (unknown code) = none

abbrev IsSomeText : Option String → Type 0
IsSomeText none = ⊥
IsSomeText (some s) = Unit

-- The variant has a constant, the numbers are the same, and `to_string` has an arm for it.
abbrev pub Agrees : ResultCode → Option Constant → Type 0
Agrees rc none = ⊥
Agrees rc (some c) = (aero_result_code_to_i32 rc ≡ value c) × IsSomeText (first_arm (value c) arms)

abbrev pub IsKnown : ResultCode → Type 0
IsKnown (unknown code) = ⊥
IsKnown _ = Unit

-- Each known variant of the crate's result code has a constant of its name in the PHP class, with the
-- number that `aero_result_code_to_i32` gives to the variant, and `to_string` has an arm for it.
pub codes-Agree : (rc : ResultCode) → IsKnown rc → Agrees rc (constant_of rc)
unfolding constant_of aero_result_code_to_i32 value first_arm arms
codes-Agree Codes.ok k = (refl, tt)
codes-Agree (unknown code) k = absurd k
codes-Agree _ k = (refl, tt)

-- Every known variant, in the order of the source.
variants : List ResultCode
variants =
    Codes.ok ∷ Codes.server_error ∷ Codes.key_not_found_error ∷ Codes.generation_error
    ∷ Codes.parameter_error ∷ Codes.key_exists_error ∷ Codes.bin_exists_error
    ∷ Codes.cluster_key_mismatch ∷ Codes.server_mem_error ∷ Codes.timeout ∷ Codes.always_forbidden
    ∷ Codes.partition_unavailable ∷ Codes.bin_type_error ∷ Codes.record_too_big ∷ Codes.key_busy
    ∷ Codes.scan_abort ∷ Codes.unsupported_feature ∷ Codes.bin_not_found ∷ Codes.device_overload
    ∷ Codes.key_mismatch ∷ Codes.invalid_namespace ∷ Codes.bin_name_too_long ∷ Codes.fail_forbidden
    ∷ Codes.element_not_found ∷ Codes.element_exists ∷ Codes.enterprise_only
    ∷ Codes.op_not_applicable ∷ Codes.filtered_out ∷ Codes.lost_conflict ∷ Codes.xdr_key_busy
    ∷ Codes.query_end ∷ Codes.security_not_supported ∷ Codes.security_not_enabled
    ∷ Codes.security_scheme_not_supported ∷ Codes.invalid_command ∷ Codes.invalid_field
    ∷ Codes.illegal_state ∷ Codes.invalid_user ∷ Codes.user_already_exists ∷ Codes.invalid_password
    ∷ Codes.expired_password ∷ Codes.forbidden_password ∷ Codes.invalid_credential
    ∷ Codes.expired_session ∷ Codes.invalid_role ∷ Codes.role_already_exists
    ∷ Codes.invalid_privilege ∷ Codes.invalid_allowlist ∷ Codes.quotas_not_enabled
    ∷ Codes.invalid_quota ∷ Codes.not_authenticated ∷ Codes.role_violation ∷ Codes.not_allowlisted
    ∷ Codes.quota_exceeded ∷ Codes.udf_bad_response ∷ Codes.batch_disabled
    ∷ Codes.batch_max_requests_exceeded ∷ Codes.batch_queues_full ∷ Codes.invalid_geojson
    ∷ Codes.index_found ∷ Codes.index_not_found ∷ Codes.index_oom ∷ Codes.index_not_readable
    ∷ Codes.index_generic ∷ Codes.index_name_max_len ∷ Codes.index_max_count ∷ Codes.query_aborted
    ∷ Codes.query_queue_full ∷ Codes.query_timeout ∷ Codes.query_generic ∷ Codes.query_netio_err
    ∷ Codes.query_duplicate ∷ []

find_code : ℤ → List ResultCode → Option ResultCode
find_code n [] = none
find_code n (rc ∷ rest) = if ℤ_beq (aero_result_code_to_i32 rc) n then some rc else find_code n rest

decode : ℤ → Option ResultCode
unfolding find_code variants ℤ_beq aero_result_code_to_i32
decode n = find_code n variants

decode-code : (rc : ResultCode) → IsKnown rc → decode (aero_result_code_to_i32 rc) ≡ some rc
unfolding decode
decode-code Codes.ok k = refl
decode-code (unknown code) k = absurd k
decode-code _ k = refl

-- No two known variants of the crate's result code are given the same number.
pub code-injective :
    (a b : ResultCode)
    → IsKnown a
    → IsKnown b
    → aero_result_code_to_i32 a ≡ aero_result_code_to_i32 b
    → a ≡ b
code-injective a b ka kb e =
    some-injective _ _ (sym (decode-code a ka) ∙ ap decode e ∙ decode-code b kb)
