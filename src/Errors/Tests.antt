-- ===== src/Errors/Tests.antt =====
-- Concrete errors and codes.
use aerospike_php_client.Common.{◌≡◌, ◌↔◌, [], ◌∷◌, refl, true, some, All}
use aerospike_php_client.Errors.Codes
use aerospike_php_client.Errors.Codes.{ResultCode, aero_result_code_to_i32, value}
use aerospike_php_client.Errors.{Error, server_error, chain, other, aero_error_code, from_error}
use aerospike_php_client.Errors.Tables.{constant_of, Agrees, codes-Agree, code-injective}
use aerospike_php_client.Errors.Chains.{
  leaves, first_carried, wrap, IsUncoded, error_code-first, from_error-wrap, from_error-IsUncoded,
}

abbrev busy : Error
busy = server_error Codes.key_busy true "node"

abbrev wrapped : Error
wrapped = chain (other "retries exhausted") busy

error_code-first_example : aero_error_code wrapped ≡ first_carried (leaves wrapped)
error_code-first_example = error_code-first wrapped

busy_code : aero_error_code busy ≡ some (aero_result_code_to_i32 Codes.key_busy, true)
unfolding aero_error_code
busy_code = refl

from_error-wrap_example :
    ((from_error (λ e. "text") (wrap (other "retries exhausted" ∷ []) busy)).code
      ≡ aero_result_code_to_i32 Codes.key_busy)
    × ((from_error (λ e. "text") (wrap (other "retries exhausted" ∷ []) busy)).in_doubt ≡ true)
from_error-wrap_example =
    from_error-wrap (λ e. "text") (other "retries exhausted" ∷ []) busy busy_code

from_error-IsUncoded_example :
    ((from_error (λ e. "text") wrapped).code ≡ value Codes.common_error)
    ↔ All IsUncoded (leaves wrapped)
from_error-IsUncoded_example = from_error-IsUncoded (λ e. "text") wrapped

codes-Agree_example : Agrees Codes.key_busy (constant_of Codes.key_busy)
codes-Agree_example = codes-Agree Codes.key_busy tt

abbrev busy_variant : ResultCode
busy_variant = Codes.key_busy

code-injective_example : busy_variant ≡ busy_variant
code-injective_example = code-injective busy_variant busy_variant tt tt refl
