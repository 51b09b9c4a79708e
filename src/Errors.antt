-- ===== src/Errors.antt =====
-- `aero::Error`, the code that it carries (`aero_error_code`) and the PHP exception made of it
-- (`AerospikeException`), of lib.rs.
pub mod Codes
pub mod Tables
pub mod Chains
pub mod Tests
use Prim.Native.String.{String}
use aerospike_php_client.Common.{ℕ, Bool, false, List, [], ◌∷◌, ◌++◌, Option, none, some}
use aerospike_php_client.Common.Int.{ℤ}
use Codes.{ResultCode, aero_result_code_to_i32, value}
use Codes

-- `aero::Error`, with the variants that the source names; `other` stands for all the rest.
pub data Error : Type 0 where
  server_error : ResultCode → Bool → String → Error
  batch_error : ℕ → ResultCode → Bool → String → Error
  batch_last_error : ℕ → ResultCode → Bool → String → Error
  udf_bad_response : String → Error
  timeout : String → Error
  chain : Error → Error → Error
  other : String → Error

-- `Option::or_else`.
abbrev pub or_else {ℓ} : {A : Type ℓ} → Option A → Option A → Option A
or_else none b = b
or_else (some a) b = some a

abbrev pub unwrap_or {ℓ} : {A : Type ℓ} → Option A → A → A
unwrap_or none d = d
unwrap_or (some a) d = a

-- The first argument of `chain` is the context, the second the cause.
unfoldable pub aero_error_code : Error → Option (ℤ × Bool)
aero_error_code (server_error rc in_doubt node) = some (aero_result_code_to_i32 rc, in_doubt)
aero_error_code (batch_error i rc in_doubt node) = some (aero_result_code_to_i32 rc, in_doubt)
aero_error_code (batch_last_error i rc in_doubt node) = some (aero_result_code_to_i32 rc, in_doubt)
aero_error_code (udf_bad_response m) = some (value Codes.udf_bad_response, false)
aero_error_code (timeout m) = some (value Codes.timeout, false)
aero_error_code (chain context cause) = or_else (aero_error_code cause) (aero_error_code context)
aero_error_code (other m) = none

-- The exception class; the message is the error's `Display`, which the crate defines.
pub record AerospikeException : Type 0 where
  pub message : String
  pub code : ℤ
  pub in_doubt : Bool

-- `AerospikeException::new`.
unfoldable pub new : String → AerospikeException
unfolding value
new message = record { message = message; code = value Codes.common_error; in_doubt = false }

module _ (display : Error → String) where
  -- `From<&aero::Error> for AerospikeException`.
  unfoldable pub from_error : Error → AerospikeException
  unfolding aero_error_code
  from_error e =
      let (code, in_doubt) = unwrap_or (aero_error_code e) (value Codes.common_error, false) in
      record { message = display e; code = code; in_doubt = in_doubt }
