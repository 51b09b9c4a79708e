-- ===== src/Records.antt =====
-- `Bin`, `Key`, `Record` and the wrappers of single values (`GeoJSON`, `Json`, `BLOB`, `HLL`) of lib.rs,
-- with what `$object->name` reads.
pub mod Bins
use Prim.Native.Char.{code}
use Prim.Native.String.{String, [], ◌∷◌}
use aerospike_php_client.Common.{
  ℕ, ◌%◌, ◌^◌, Bool, true, false, ◌||◌, List, [], ◌∷◌, Option, none, some, if◌then◌else◌,
}
use aerospike_php_client.Common.Int.{pos}
use aerospike_php_client.Common.Text.{Text, same, lookup}
use aerospike_php_client.Php.{
  PhpResult, returned, threw, panicked, invalid_key, unusable_array, ◌>>=◌, Thrown, invalid_arg,
}
use aerospike_php_client.Ttl.{AeroExpiration, get_ttl}
use aerospike_php_client.Values.Value.{PhpValue, Pairs, no_pairs, pair, Fields, no_fields, collect}
use aerospike_php_client.Values.Aero.{AeroValue}
use aerospike_php_client.Values.Store
use aerospike_php_client.Values.Store.{to_aero, to_php}
use aerospike_php_client.Values.Zval.{Zend, Object, Formats, as_string, set_zval}
use aerospike_php_client.Values.FromZval.{Taken, got, nothing, exhausted, pending_exception_or}

abbrev pub chars : String → Text
chars [] = []
chars (c ∷ s) = code c ∷ chars s

-- A name among these.
abbrev pub among : Text → List String → Bool
among name [] = false
among name (s ∷ ss) = same name (chars s) || among name ss

-- `aero::Bin`.
pub record Bin : Type 0 where
  pub name : Text
  pub value : AeroValue

-- `aero::Key`.
pub record Key : Type 0 where
  pub namespace : Text
  pub set_name : Text
  pub user_key : Option AeroValue
  pub digest : List ℕ

-- `aero::Record`; `time_to_live` is in seconds.
pub record Record : Type 0 where
  pub key : Option Key
  pub bins : List (Text × AeroValue)
  pub generation : ℕ
  pub time_to_live : Option ℕ

-- What `aero::Key::new` comes to.
pub data NewKey : Type 0 where
  key : Key → NewKey
  refused : String → NewKey
  panics : String → NewKey

-- What the classes call: the conversions' crate, `Key::new` and its `partition_id`, `hex::encode`, and
-- how PHP takes bytes, a key and an expiration.
pub record Crate (Z : Zend) : Type 0 where
  pub values : Store.Crate
  pub new_key : Text → Text → AeroValue → NewKey
  pub partition_of : Key → ℕ
  pub hex : List ℕ → Text
  pub set_binary : List ℕ → Z.Zval
  pub set_key : Key → PhpResult Z.Zval
  pub set_expiration : AeroExpiration → PhpResult Z.Zval

-- An optional number, as PHP's integer or null.
abbrev pub long_or_null : (Z : Zend) → Option ℕ → Z.Zval
long_or_null Z none = Z.set_null
long_or_null Z (some n) = Z.set_long (pos n)

-- The key of `Key::__construct`.
unfoldable pub key_result : NewKey → PhpResult Key
key_result (key k) = returned k
key_result (refused e) = threw (invalid_key e)
key_result (panics m) = threw (panicked m)

module _ {Z : Zend} (F : Formats) (K : Crate Z) where
  open K use {values}

  -- `Bin::__construct` of what `from_zval` gave; `none` is that the fuel ran out.
  unfoldable pub bin_construct : Text → Taken PhpValue → Option (PhpResult Bin)
  unfolding to_aero
  bin_construct name (got v) =
      some (returned (record { name = name; value = (to_aero values v).0 }))
  bin_construct name (nothing e) =
      some (threw (pending_exception_or e (invalid_arg "value" "Invalid input")))
  bin_construct name exhausted = none

  unfoldable pub bin_value : Bin → PhpValue
  unfolding to_php
  bin_value self = to_php values self.value

  -- `Bin::__get`.
  unfoldable pub bin_get : Text → Bin → PhpResult Z.Zval
  unfolding bin_value set_zval
  bin_get name self =
      if among name ("name" ∷ [])
      then Z.set_string self.name
      else if among name ("value" ∷ [])
      then set_zval Z F (bin_value self)
      else returned Z.set_null

  -- `Key::__construct`.
  unfoldable pub key_construct : Text → Text → PhpValue → PhpResult Key
  unfolding to_aero key_result
  key_construct namespace set v = key_result (K.new_key namespace set (to_aero values v).0)

  abbrev pub value_of : Option AeroValue → Option PhpValue
  value_of none = none
  value_of (some v) = some (to_php values v)

  unfoldable pub key_value : Key → Option PhpValue
  unfolding to_php
  key_value self = value_of self.user_key

  unfoldable pub get_digest : Key → Text
  get_digest self = K.hex self.digest

  unfoldable pub partition_id : Key → Option ℕ
  partition_id self = some (K.partition_of self)

  abbrev pub value_or_null : Option PhpValue → PhpResult Z.Zval
  value_or_null none = returned Z.set_null
  value_or_null (some v) = set_zval Z F v

  -- `Key::__get`.
  unfoldable pub key_get : Text → Key → PhpResult Z.Zval
  unfolding key_value get_digest set_zval
  key_get name self =
      if among name ("namespace" ∷ [])
      then Z.set_string self.namespace
      else if among name ("set" ∷ "setname" ∷ "setName" ∷ [])
      then Z.set_string self.set_name
      else if among name ("userKey" ∷ "user_key" ∷ "value" ∷ [])
      then value_or_null (key_value self)
      else if among name ("digest" ∷ [])
      then Z.set_string (get_digest self)
      else if among name ("digestBytes" ∷ "digest_bytes" ∷ [])
      then returned (K.set_binary self.digest)
      else returned Z.set_null

  -- `Record::bin`.
  unfoldable pub bin : Text → Record → Option PhpValue
  unfolding lookup to_php
  bin name self = value_of (lookup name self.bins)

  -- `From<&HashMap<String, aero::Value>> for PHPValue`.
  unfoldable pub named_values : List (Text × AeroValue) → Pairs
  unfolding to_php
  named_values [] = no_pairs
  named_values ((k, v) ∷ m) = pair (PhpValue.string k) (to_php values v) (named_values m)

  unfoldable pub get_bins : Record → Option PhpValue
  unfolding named_values collect
  get_bins self = some (PhpValue.hash_map (collect no_pairs (named_values self.bins)))

  unfoldable pub get_expiration : Record → AeroExpiration
  get_expiration self = elim self.time_to_live [
    | none ↦ AeroExpiration.never
    | some d ↦ AeroExpiration.seconds (d % 2 ^ 32)
  ]

  unfoldable pub get_remaining_ttl : Record → Option ℕ
  unfolding get_expiration get_ttl
  get_remaining_ttl self = get_ttl (get_expiration self)

  abbrev pub key_or_null : Option Key → PhpResult Z.Zval
  key_or_null none = returned Z.set_null
  key_or_null (some k) = K.set_key k

  -- `Record::__get`.
  unfoldable pub record_get : Text → Record → PhpResult Z.Zval
  unfolding get_bins get_remaining_ttl get_expiration set_zval
  record_get name self =
      if among name ("bins" ∷ [])
      then value_or_null (get_bins self)
      else if among name ("generation" ∷ [])
      then returned (long_or_null Z (some self.generation))
      else if among name ("ttl" ∷ [])
      then returned (long_or_null Z (get_remaining_ttl self))
      else if among name ("key" ∷ [])
      then key_or_null self.key
      else if among name ("expiration" ∷ [])
      then K.set_expiration (get_expiration self)
      else returned Z.set_null

-- `Json::__construct`.
unfoldable pub json_construct : Option Fields → Fields
json_construct none = no_fields
json_construct (some v) = v

-- The `as_string`s of `GeoJSON`, `Json`, `BLOB` and `HLL`.
unfoldable pub wrapped_text : Formats → Object → Option Text
unfolding as_string
wrapped_text F (Object.geo_json v) = some (as_string F (PhpValue.geo_json v))
wrapped_text F (Object.json v) = some (as_string F (PhpValue.json v))
wrapped_text F (Object.blob v) = some (as_string F (PhpValue.blob v))
wrapped_text F (Object.hll v) = some (as_string F (PhpValue.hll v))
wrapped_text F _ = none

-- `BLOB::equals`.
unfoldable pub equals : List ℕ → List ℕ → Bool
unfolding same
equals v w = same v w
