-- ===== src/Ttl.antt =====
-- `Expiration`, `Concurrency` and `read_touch_ttl_from_percent` of lib.rs: the values that PHP sees as
-- numbers.
pub mod Trips
pub mod Tests
use aerospike_php_client.Common.{
  ℕ, Option, none, some, Bool, true, false, leb, ltb, ◌&&◌, ◌==◌, not, if◌then◌else◌,
}
use aerospike_php_client.Common.Int.{ℤ, pos, negsuc, u32_max}
use aerospike_php_client.Php.{PhpResult, returned, threw, bad_percent}

-- `aero::Expiration`.
pub data AeroExpiration : Type 0 where
  seconds : ℕ → AeroExpiration
  namespace_default : AeroExpiration
  never : AeroExpiration
  dont_update : AeroExpiration

abbrev pub namespace_default_code : ℕ
namespace_default_code = 0

abbrev pub never_expire_code : ℕ
never_expire_code = 0xffffffff

abbrev pub dont_update_code : ℕ
dont_update_code = 0xfffffffe

unfoldable pub get_ttl : AeroExpiration → Option ℕ
get_ttl (seconds n) = some n
get_ttl _ = none

unfoldable pub is_namespace_default : AeroExpiration → Bool
is_namespace_default namespace_default = true
is_namespace_default _ = false

unfoldable pub will_never_expire : AeroExpiration → Bool
will_never_expire never = true
will_never_expire _ = false

unfoldable pub will_update_expiration : AeroExpiration → Bool
will_update_expiration dont_update = false
will_update_expiration _ = true

-- `impl From<u32> for Expiration`.
unfoldable pub expiration_from_u32 : ℕ → AeroExpiration
expiration_from_u32 n =
    if n == namespace_default_code
    then namespace_default
    else if n == never_expire_code
    then never
    else if n == dont_update_code
    then dont_update
    else seconds n

pub data Concurrency : Type 0 where
  sequential : Concurrency
  parallel : Concurrency
  max_threads : ℕ → Concurrency

-- `impl From<&Concurrency> for u32`.
unfoldable pub concurrency_to_u32 : Concurrency → ℕ
concurrency_to_u32 sequential = 1
concurrency_to_u32 parallel = 0
concurrency_to_u32 (max_threads n) = n

-- `aero::policy::ReadTouchTTL`.
pub data ReadTouchTtl : Type 0 where
  percent : ℕ → ReadTouchTtl
  server_default : ReadTouchTtl
  dont_reset : ReadTouchTtl

unfoldable pub read_touch_ttl_from_percent : ℤ → PhpResult ReadTouchTtl
read_touch_ttl_from_percent (pos n) =
    if n == 0
    then returned server_default
    else if leb 1 n && leb n 100
    then returned (percent n)
    else threw (bad_percent (pos n))
read_touch_ttl_from_percent (negsuc n) =
    if n == 0 then returned dont_reset else threw (bad_percent (negsuc n))

-- The match of `ReadPolicy::get_read_touch_ttl_percent`.
unfoldable pub percent_of : ReadTouchTtl → ℤ
percent_of (percent n) = pos n
percent_of server_default = pos 0
percent_of dont_reset = negsuc 0
