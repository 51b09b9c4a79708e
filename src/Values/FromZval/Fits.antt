-- ===== src/Values/FromZval/Fits.antt =====
-- The values of lib.rs that PHP can hold, and what it gives back for them.
use aerospike_php_client.Common.{ℕ, suc, ◌≤◌, ◌≡◌, refl, ap, ◌∙◌, false, ◌||◌, none}
use Prim.Native.Nat.{max}
use aerospike_php_client.Common.Int.{pos, i64_max}
use aerospike_php_client.Common.Text.{Text, same}
use aerospike_php_client.Values.NumericKey.{php_numeric_string_key}
use aerospike_php_client.Values.Value.{
  PhpValue, Items, no_items, item, Pairs, no_pairs, pair, Fields, no_fields, field, same_value,
}
use aerospike_php_client.Values.Store.Keys.{string_key, has_key, has_name, IsKeyed}
use aerospike_php_client.Values.FromZval.Reads.{array_of}
use aerospike_php_client.Values.FromZval.Puts.{IsPhpKey, php-IsKey}

abbrev mutual
  -- A value whose unsigned integers fit and whose maps have the keys of PHP arrays, none of them twice.
  pub FitsPhp : PhpValue → Type 0
  FitsPhp (PhpValue.uint u) = u ≤ i64_max
  FitsPhp (PhpValue.list l) = FitPhp l
  FitsPhp (PhpValue.hash_map m) = FitPhpMap m
  FitsPhp (PhpValue.ordered_map m) = FitPhpMap m
  FitsPhp (PhpValue.json m) = FitPhpJson m
  FitsPhp _ = Unit

  pub FitPhp : Items → Type 0
  FitPhp no_items = Unit
  FitPhp (item v l) = FitsPhp v × FitPhp l

  pub FitPhpMap : Pairs → Type 0
  FitPhpMap no_pairs = Unit
  FitPhpMap (pair k v m) = IsPhpKey k × (has_key k m ≡ false) × FitsPhp v × FitPhpMap m

  pub FitPhpJson : Fields → Type 0
  FitPhpJson no_fields = Unit
  FitPhpJson (field k v m) =
      (php_numeric_string_key k ≡ none) × (has_name k m ≡ false) × FitsPhp v × FitPhpJson m

abbrev mutual
  -- The value that PHP gives back: unsigned integers are signed ones, and maps of every kind are plain
  -- maps, or lists when their keys are 0, 1, 2, … in this order.
  pub reread : PhpValue → PhpValue
  reread (PhpValue.uint u) = PhpValue.int (pos u)
  reread (PhpValue.list l) = PhpValue.list (reread_items l)
  reread (PhpValue.hash_map m) = array_of (reread_pairs m)
  reread (PhpValue.ordered_map m) = array_of (reread_pairs m)
  reread (PhpValue.json m) = array_of (reread_fields m)
  reread v = v

  pub reread_items : Items → Items
  reread_items no_items = no_items
  reread_items (item v l) = item (reread v) (reread_items l)

  pub reread_pairs : Pairs → Pairs
  reread_pairs no_pairs = no_pairs
  reread_pairs (pair k v m) = pair k (reread v) (reread_pairs m)

  pub reread_fields : Fields → Pairs
  reread_fields no_fields = no_pairs
  reread_fields (field k v m) = pair (PhpValue.string k) (reread v) (reread_fields m)

abbrev mutual
  -- How deep lists and maps stand in each other.
  pub depth : PhpValue → ℕ
  depth (PhpValue.list l) = suc (depth_items l)
  depth (PhpValue.hash_map m) = suc (depth_pairs m)
  depth (PhpValue.ordered_map m) = suc (depth_pairs m)
  depth (PhpValue.json m) = suc (depth_fields m)
  depth _ = 0

  pub depth_items : Items → ℕ
  depth_items no_items = 0
  depth_items (item v l) = max (depth v) (depth_items l)

  pub depth_pairs : Pairs → ℕ
  depth_pairs no_pairs = 0
  depth_pairs (pair k v m) = max (depth v) (depth_pairs m)

  pub depth_fields : Fields → ℕ
  depth_fields no_fields = 0
  depth_fields (field k v m) = max (depth v) (depth_fields m)

pub has_key-reread : (k : PhpValue) (m : Pairs) → has_key k (reread_pairs m) ≡ has_key k m
has_key-reread k no_pairs = refl
has_key-reread k (pair j v m) = ap (λ b. same_value j k || b) (has_key-reread k m)

pub has_key-fields :
    (k : Text) (m : Fields) → has_key (PhpValue.string k) (reread_fields m) ≡ has_name k m
unfolding same_value
has_key-fields k no_fields = refl
has_key-fields k (field j v m) = ap (λ b. same j k || b) (has_key-fields k m)

pub reread_pairs-IsKeyed : (m : Pairs) → FitPhpMap m → IsKeyed (reread_pairs m)
reread_pairs-IsKeyed no_pairs p = tt
reread_pairs-IsKeyed (pair k v m) (i, d, p, q) =
    (php-IsKey k i, has_key-reread k m ∙ d, reread_pairs-IsKeyed m q)

pub reread_fields-IsKeyed : (m : Fields) → FitPhpJson m → IsKeyed (reread_fields m)
reread_fields-IsKeyed no_fields p = tt
reread_fields-IsKeyed (field k v m) (i, d, p, q) =
    (string_key k, has_key-fields k m ∙ d, reread_fields-IsKeyed m q)
