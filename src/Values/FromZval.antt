-- ===== src/Values/FromZval.antt =====
-- `from_zval` of lib.rs, and what reads PHP arrays with it: `php_array_as_map`, `Value::map` and
-- `Value::blob`.
pub mod Cyclic
pub mod Laws
pub mod Reads
pub mod Puts
pub mod Fits
pub mod Trip
pub mod AsMap
use Prim.Native.String.{String}
use aerospike_php_client.Common.{
  ℕ, zero, suc, ◌+◌, Bool, true, false, List, [], ◌∷◌, Option, none, some, leb, if◌then◌else◌,
}
use aerospike_php_client.Common.Int.{ℤ, pos, negsuc}
use aerospike_php_client.Common.Text.{Text}
use aerospike_php_client.Php.{
  PhpResult, returned, threw, ◌>>=◌, Thrown, invalid_object, unsupported_type, not_utf8,
  unusable_array, requires_array, stored_as_list, blob_contract, blob_out_of_range,
}
use aerospike_php_client.Values.Value.{
  PhpValue, Items, no_items, item, Pairs, no_pairs, pair, Fields, no_fields, field, insert_pair,
  collect,
}
use aerospike_php_client.Values.Zval.{ArrayKey, Object, View, Zend}

-- What `from_zval` gives: a value, `None` with the exception that it threw, if it threw one, or that the
-- fuel ran out.
pub data Taken (A : Type 0) : Type 0 where
  got : A → Taken A
  nothing : Option Thrown → Taken A
  exhausted : Taken A

infixl 5 ◌>=>◌
abbrev pub ◌>=>◌ : {A B : Type 0} → Taken A → (A → Taken B) → Taken B
got a >=> f = f a
nothing e >=> f = nothing e
exhausted >=> f = exhausted

abbrev pub of_object : Object → Taken PhpValue
of_object (Object.blob b) = got (PhpValue.blob b)
of_object (Object.hll b) = got (PhpValue.hll b)
of_object (Object.geo_json s) = got (PhpValue.geo_json s)
of_object (Object.json h) = got (PhpValue.json h)
of_object Object.infinity = got PhpValue.infinity
of_object Object.wildcard = got PhpValue.wildcard
of_object Object.other = nothing (some invalid_object)

abbrev pub taken : {A : Type 0} → (A → PhpValue) → Option A → Taken PhpValue
taken c none = nothing none
taken c (some a) = got (c a)

abbrev pub of_text : Option Text → Taken PhpValue
of_text none = nothing (some not_utf8)
of_text (some s) = got (PhpValue.string s)

abbrev pub key_of : ArrayKey → PhpValue
key_of (ArrayKey.long i) = PhpValue.int i
key_of (ArrayKey.text s) = PhpValue.string s

module _ (Z : Zend) where
  open Z use {Zval, Table, dereference, view, has_sequential_keys, iter}

  -- The two loops over the elements of an array.
  unfoldable pub take_items : (Zval → Taken PhpValue) → List (ArrayKey × Zval) → Taken Items
  take_items from [] = got no_items
  take_items from ((k, z) ∷ es) = from z >=> λ v. take_items from es >=> λ l. got (item v l)

  unfoldable pub take_pairs : (Zval → Taken PhpValue) → Pairs → List (ArrayKey × Zval) → Taken Pairs
  unfolding insert_pair
  take_pairs from h [] = got h
  take_pairs from h ((k, z) ∷ es) = from z >=> λ v. take_pairs from (insert_pair (key_of k) v h) es

  unfoldable pub take_table : (Zval → Taken PhpValue) → Option Table → Taken PhpValue
  unfolding take_items take_pairs
  take_table from none = nothing none
  take_table from (some t) =
      if has_sequential_keys t
      then take_items from (iter t) >=> (λ l. got (PhpValue.list l))
      else take_pairs from no_pairs (iter t) >=> (λ h. got (PhpValue.hash_map h))

  unfoldable pub take_view : (Zval → Taken PhpValue) → View Table → Taken PhpValue
  unfolding take_table
  take_view from (View.object o) = of_object o
  take_view from View.null = got PhpValue.nil
  take_view from View.is_false = got (PhpValue.bool false)
  take_view from View.is_true = got (PhpValue.bool true)
  take_view from (View.bool b) = taken PhpValue.bool b
  take_view from (View.long i) = taken PhpValue.int i
  take_view from (View.double f) = taken PhpValue.float f
  take_view from (View.string s) = of_text s
  take_view from (View.array t) = take_table from t
  take_view from View.unsupported = nothing (some unsupported_type)

  -- `from_zval`; the fuel bounds the depth of the arrays.
  unfoldable pub from_zval : ℕ → Zval → Taken PhpValue
  unfolding take_view
  from_zval zero z = exhausted
  from_zval (suc fuel) z = take_view (from_zval fuel) (view (dereference z))

-- `pending_exception_or`.
abbrev pub pending_exception_or : Option Thrown → Thrown → Thrown
pending_exception_or none e = e
pending_exception_or (some pending) e = pending

-- `items.into_iter().enumerate()`.
unfoldable pub numbered : ℕ → Items → Pairs
numbered n no_items = no_pairs
numbered n (item v l) = pair (PhpValue.int (pos n)) v (numbered (suc n) l)

unfoldable pub named : Fields → Pairs
named no_fields = no_pairs
named (field k v h) = pair (PhpValue.string k) v (named h)

-- `php_array_as_map` of what `from_zval` gave; `none` is that the fuel ran out.
unfoldable pub array_as_map : String → Taken PhpValue → Option (PhpResult Pairs)
unfolding collect numbered named
array_as_map what (got (PhpValue.hash_map h)) = some (returned h)
array_as_map what (got (PhpValue.list l)) = some (returned (collect no_pairs (numbered 0 l)))
array_as_map what (got (PhpValue.json h)) = some (returned (collect no_pairs (named h)))
array_as_map what (got v) = some (threw (requires_array what))
array_as_map what (nothing e) = some (threw (pending_exception_or e (unusable_array what)))
array_as_map what exhausted = none

-- `Value::map` of what `from_zval` gave.
unfoldable pub value_map : Taken PhpValue → Option (PhpResult PhpValue)
value_map (got (PhpValue.hash_map h)) = some (returned (PhpValue.hash_map h))
value_map (got (PhpValue.json h)) = some (returned (PhpValue.json h))
value_map (got (PhpValue.list l)) = some (threw stored_as_list)
value_map (got v) = some (threw (requires_array "Value::map"))
value_map (nothing e) = some (threw (pending_exception_or e (unusable_array "Value::map")))
value_map exhausted = none

-- A byte of the array that `Value::blob` reads.
abbrev pub byte_of : Taken PhpValue → Option (PhpResult ℕ)
byte_of (got (PhpValue.int (pos b))) =
    some (if leb b 255 then returned b else threw (blob_out_of_range (pos b)))
byte_of (got (PhpValue.int (negsuc b))) = some (threw (blob_out_of_range (negsuc b)))
byte_of exhausted = none
byte_of _ = some (threw (blob_contract "got a non-integer array element"))

abbrev pub one_more :
    Option (PhpResult ℕ) → Option (PhpResult (List ℕ)) → Option (PhpResult (List ℕ))
one_more none rest = none
one_more (some (threw e)) rest = some (threw e)
one_more (some (returned b)) none = none
one_more (some (returned b)) (some (threw e)) = some (threw e)
one_more (some (returned b)) (some (returned bs)) = some (returned (b ∷ bs))

abbrev pub blob_of : Option (PhpResult (List ℕ)) → Option (PhpResult PhpValue)
blob_of none = none
blob_of (some bytes) = some (bytes >>= λ bs. returned (PhpValue.blob bs))

abbrev pub blob_of_text : Option (List ℕ) → Option (List ℕ) → PhpResult PhpValue
blob_of_text (some bin) s = returned (PhpValue.blob bin)
blob_of_text none (some s) = returned (PhpValue.blob s)
blob_of_text none none = threw (blob_contract "failed to read string contents")

module _ (Z : Zend) where
  open Z use {Zval, view, has_sequential_keys, iter}

  unfoldable pub php_array_as_map : ℕ → Zval → String → Option (PhpResult Pairs)
  unfolding array_as_map from_zval
  php_array_as_map fuel z what = array_as_map what (from_zval Z fuel z)

  unfoldable pub blob_bytes :
      (Zval → Taken PhpValue) → List (ArrayKey × Zval) → Option (PhpResult (List ℕ))
  blob_bytes from [] = some (returned [])
  blob_bytes from ((k, z) ∷ es) = one_more (byte_of (from z)) (blob_bytes from es)

  -- `Value::blob`; `binary` is `Zval::binary`, and `utf8` what `into_bytes` gives.
  unfoldable pub value_blob :
      (Zval → Option (List ℕ)) → (Text → List ℕ) → ℕ → Zval → Option (PhpResult PhpValue)
  unfolding from_zval blob_bytes
  value_blob binary utf8 fuel z = elim (view z) [
    | View.string s ↦
        some (blob_of_text (binary z) (elim s [ none ↦ none | some x ↦ some (utf8 x) ]))
    | View.array none ↦ some (threw (blob_contract "got a non-sequential array"))
    | View.array (some t) ↦
        if has_sequential_keys t
        then blob_of (blob_bytes (from_zval Z fuel) (iter t))
        else some (threw (blob_contract "got a non-sequential array"))
    | _ ↦ some (threw (blob_contract ""))
  ]
