-- ===== src/Values/Zval.antt =====
-- `IntoZval for PHPValue` of lib.rs, with `insert_map_entry`, `insert_string_key` and `as_string`.
-- `Zend` is what ext-php-rs and the engine bring: the values and the tables of PHP.
pub mod Overflow
pub mod Reach
use Prim.Native.String.{String}
use aerospike_php_client.Common.{
  ℕ, ◌^◌, ◌%◌, Bool, true, false, List, [], ◌∷◌, ◌++◌, Option, none, some, leb, if◌then◌else◌,
}
use aerospike_php_client.Common.Int.{ℤ, pos, i64_max}
use aerospike_php_client.Common.Text.{Text}
use aerospike_php_client.Php.{PhpResult, returned, threw, ◌>>=◌, integer_overflow}
use aerospike_php_client.Values.Decimal.{show}
use aerospike_php_client.Values.NumericKey.{php_numeric_string_key}
use aerospike_php_client.Values.Canonical.{show_ℤ}
use aerospike_php_client.Values.Value.{
  PhpValue, Items, no_items, item, Pairs, no_pairs, pair, Fields, no_fields, field, count,
  count_fields,
}

-- `ArrayKey`; `text` stands for the three variants that carry a text.
pub data ArrayKey : Type 0 where
  long : ℤ → ArrayKey
  text : Text → ArrayKey

-- The objects of the classes that wrap a value, and any other object.
pub data Object : Type 0 where
  blob : List ℕ → Object
  hll : List ℕ → Object
  geo_json : Text → Object
  json : Fields → Object
  infinity : Object
  wildcard : Object
  other : Object

-- `Zval::get_type`, with what the accessor of that type gives.
pub data View (Table : Type 0) : Type 0 where
  object : Object → View Table
  null : View Table
  is_false : View Table
  is_true : View Table
  bool : Option Bool → View Table
  long : Option ℤ → View Table
  double : Option ℕ → View Table
  string : Option Text → View Table
  array : Option Table → View Table
  unsupported : View Table

pub record Zend : Type 1 where
  pub Zval : Type 0
  pub Table : Type 0
  pub set_null : Zval
  pub set_bool : Bool → Zval
  pub set_long : ℤ → Zval
  pub set_double : ℕ → Zval
  pub set_string : Text → PhpResult Zval
  -- `set_array` of a `Vec` whose items are converted.
  pub set_array : List Zval → PhpResult Zval
  pub set_hashtable : Table → Zval
  -- `into_zend_object` and `set_zval` of the object.
  pub set_object : Object → PhpResult Zval
  pub with_capacity : ℕ → Table
  pub insert_at_index : ℤ → Zval → Table → PhpResult Table
  pub insert : Text → Zval → Table → PhpResult Table
  pub dereference : Zval → Zval
  pub view : Zval → View Table
  pub has_sequential_keys : Table → Bool
  pub iter : Table → List (ArrayKey × Zval)

-- How Rust writes a float, and what it writes for `{:?}`.
pub record Formats : Type 0 where
  pub float : ℕ → Text
  pub debug_bytes : List ℕ → Text
  pub debug_items : Items → Text
  pub debug_map : Pairs → Text
  pub debug_pairs : Pairs → Text
  pub debug_fields : Fields → Text

-- `PHPValue::as_string`.
unfoldable pub as_string : Formats → PhpValue → Text
unfolding show show_ℤ
as_string F PhpValue.nil = b'<' ∷ b'n' ∷ b'u' ∷ b'l' ∷ b'l' ∷ b'>' ∷ []
as_string F (PhpValue.int i) = show_ℤ i
as_string F (PhpValue.uint u) = show u
as_string F (PhpValue.bool true) = b't' ∷ b'r' ∷ b'u' ∷ b'e' ∷ []
as_string F (PhpValue.bool false) = b'f' ∷ b'a' ∷ b'l' ∷ b's' ∷ b'e' ∷ []
as_string F (PhpValue.float f) = F.float f
as_string F (PhpValue.string s) = s
as_string F (PhpValue.geo_json s) =
    (b'G' ∷ b'e' ∷ b'o' ∷ b'J' ∷ b'S' ∷ b'O' ∷ b'N' ∷ b'(' ∷ 39 ∷ []) ++ (s ++ (39 ∷ b')' ∷ []))
as_string F (PhpValue.blob b) =
    (b'B' ∷ b'l' ∷ b'o' ∷ b'b' ∷ b'(' ∷ []) ++ (F.debug_bytes b ++ (b')' ∷ []))
as_string F (PhpValue.hll b) =
    (b'H' ∷ b'L' ∷ b'L' ∷ b'(' ∷ 39 ∷ []) ++ (F.debug_bytes b ++ (39 ∷ b')' ∷ []))
as_string F (PhpValue.list l) = F.debug_items l
as_string F (PhpValue.hash_map m) = F.debug_map m
as_string F (PhpValue.ordered_map m) = F.debug_pairs m
as_string F (PhpValue.json m) = F.debug_fields m
as_string F PhpValue.infinity =
    b'<' ∷ b'i' ∷ b'n' ∷ b'f' ∷ b'i' ∷ b'n' ∷ b'i' ∷ b't' ∷ b'y' ∷ b'>' ∷ []
as_string F PhpValue.wildcard =
    b'<' ∷ b'w' ∷ b'i' ∷ b'l' ∷ b'd' ∷ b'c' ∷ b'a' ∷ b'r' ∷ b'd' ∷ b'>' ∷ []

module _ (Z : Zend) (F : Formats) where
  open Z use {
    Zval, Table, set_null, set_bool, set_long, set_double, set_string, set_array, set_hashtable,
    set_object, with_capacity, insert_at_index, insert,
  }

  abbrev pub insert_under : Option ℤ → Text → Zval → Table → PhpResult Table
  insert_under none s z t = insert s z t
  insert_under (some i) s z t = insert_at_index i z t

  -- `insert_string_key`; the conversion of the value is done, or failed, before.
  unfoldable pub insert_string_key : Table → Text → PhpResult Zval → PhpResult Table
  insert_string_key t s z = z >>= λ z'. insert_under (php_numeric_string_key s) s z' t

  unfoldable pub insert_map_entry : Table → PhpValue → PhpResult Zval → PhpResult Table
  unfolding insert_string_key as_string
  insert_map_entry t (PhpValue.int i) z = z >>= λ z'. insert_at_index i z' t
  insert_map_entry t (PhpValue.uint u) z =
      if leb u i64_max then z >>= (λ z'. insert_at_index (pos u) z' t) else threw integer_overflow
  insert_map_entry t k z = insert_string_key t (as_string F k) z

  unfoldable mutual
    unfolding insert_map_entry insert_string_key count count_fields

    pub set_zval : PhpValue → PhpResult Zval
    set_zval PhpValue.nil = returned set_null
    set_zval (PhpValue.bool b) = returned (set_bool b)
    set_zval (PhpValue.int i) = returned (set_long i)
    set_zval (PhpValue.uint u) =
        if leb u i64_max then returned (set_long (pos u)) else threw integer_overflow
    set_zval (PhpValue.float f) = returned (set_double f)
    set_zval (PhpValue.string s) = set_string s
    set_zval (PhpValue.list l) = set_items l >>= set_array
    set_zval (PhpValue.json h) =
        set_fields h (with_capacity (count_fields h % 2 ^ 32)) >>= λ t. returned (set_hashtable t)
    set_zval (PhpValue.hash_map h) =
        set_pairs h (with_capacity (count h % 2 ^ 32)) >>= λ t. returned (set_hashtable t)
    set_zval (PhpValue.ordered_map h) =
        set_pairs h (with_capacity (count h % 2 ^ 32)) >>= λ t. returned (set_hashtable t)
    set_zval (PhpValue.geo_json s) = set_object (Object.geo_json s)
    set_zval (PhpValue.blob b) = set_object (Object.blob b)
    set_zval (PhpValue.hll b) = set_object (Object.hll b)
    set_zval PhpValue.infinity = set_object Object.infinity
    set_zval PhpValue.wildcard = set_object Object.wildcard

    pub set_items : Items → PhpResult (List Zval)
    set_items no_items = returned []
    set_items (item v l) = set_zval v >>= λ z. set_items l >>= λ zs. returned (z ∷ zs)

    -- The two loops over entries.
    pub set_pairs : Pairs → Table → PhpResult Table
    set_pairs no_pairs t = returned t
    set_pairs (pair k v h) t = insert_map_entry t k (set_zval v) >>= set_pairs h

    pub set_fields : Fields → Table → PhpResult Table
    set_fields no_fields t = returned t
    set_fields (field k v h) t = insert_string_key t k (set_zval v) >>= set_fields h
