-- ===== src/Php.antt =====
-- What a call of the extension gives PHP: a value, or an exception. The text of a message is kept as the
-- constructor for its template, with what the template quotes. A function of lib.rs that throws and
-- returns a default for PHP never to see (`throw_msg`, `throw_aero_error`) throws here.
use Prim.Native.String.{String}
use aerospike_php_client.Common.{ℕ}
use aerospike_php_client.Common.Int.{ℤ}
use aerospike_php_client.Errors.{Error}

pub data Thrown : Type 0 where
  -- `tokio_rt`: the runtime could not be built.
  runtime_failed : String → Thrown
  -- `catch_panic`: "internal error in aerospike client".
  panicked : String → Thrown
  -- `throw_aero_error`.
  client_error : Error → Thrown
  -- `Client::connect`: external authentication without TLS.
  external_needs_tls : Thrown
  -- `millis_u64_to_u32`: the setting and the value.
  exceeds_u32 : String → ℕ → Thrown
  -- `positive_arg`: the setter.
  must_be_positive : String → Thrown
  -- `read_touch_ttl_from_percent`.
  bad_percent : ℤ → Thrown
  -- `PartitionStatus::__construct`.
  bad_partition : Thrown
  -- `opt_arg` and `opt_list_arg`: the argument and what was expected.
  invalid_arg : String → String → Thrown
  -- `Error::IntegerOverflow` of ext-php-rs.
  integer_overflow : Thrown
  -- `from_zval`.
  invalid_object : Thrown
  unsupported_type : Thrown
  not_utf8 : Thrown
  -- `php_array_as_map` and `Value::map`: what was called.
  unusable_array : String → Thrown
  requires_array : String → Thrown
  -- `Value::map`: an array keyed 0..N-1.
  stored_as_list : Thrown
  -- `Value::blob`: what came instead.
  blob_contract : String → Thrown
  blob_out_of_range : ℤ → Thrown
  -- `filter_value`: the argument, and the name of the type that came.
  filter_type : String → String → Thrown
  -- `Key::__construct`: the crate's message.
  invalid_key : String → Thrown
  -- `ListOp`: the message.
  list_op : String → Thrown
  -- `Client::scan` and `Client::query`: the lock of the partition filter is poisoned.
  poisoned_filter : Thrown
  -- Any other `Err` of ext-php-rs.
  php_error : String → Thrown

pub data PhpResult {ℓ} (A : Type ℓ) : Type ℓ where
  returned : A → PhpResult A
  threw : Thrown → PhpResult A

infixl 5 ◌>>=◌
abbrev pub ◌>>=◌ {ℓ κ} : {A : Type ℓ} {B : Type κ} → PhpResult A → (A → PhpResult B) → PhpResult B
returned a >>= f = f a
threw e >>= f = threw e
