-- ===== src/Values/Value.antt =====
-- `PHPValue` of lib.rs, with its derived equality and the insertion into a `HashMap<PHPValue, PHPValue>`,
-- and `aero::Value` of the aerospike crate. A text is the list of its code points, bytes are the list of
-- them, an `f64` or `f32` is its bit pattern, and a `HashMap` the list of its entries, whose order stands
-- for the unspecified order of iteration.
use aerospike_php_client.Common.{
  List, ℕ, suc, ◌*◌, ◌^◌, ◌%◌, Bool, true, false, ◌&&◌, ◌||◌, ◌==◌, ltb, if◌then◌else◌,
}
use aerospike_php_client.Common.Int.{ℤ, ℤ_beq}
use aerospike_php_client.Common.Text.{Text, same}

mutual
  pub data PhpValue : Type 0 where
    nil : PhpValue
    bool : Bool → PhpValue
    int : ℤ → PhpValue
    uint : ℕ → PhpValue
    float : ℕ → PhpValue
    string : Text → PhpValue
    blob : List ℕ → PhpValue
    list : Items → PhpValue
    hash_map : Pairs → PhpValue
    ordered_map : Pairs → PhpValue
    json : Fields → PhpValue
    geo_json : Text → PhpValue
    hll : List ℕ → PhpValue
    wildcard : PhpValue
    infinity : PhpValue

  -- `Vec<PHPValue>`.
  pub data Items : Type 0 where
    no_items : Items
    item : PhpValue → Items → Items

  -- `HashMap<PHPValue, PHPValue>` and `Vec<(PHPValue, PHPValue)>`.
  pub data Pairs : Type 0 where
    no_pairs : Pairs
    pair : PhpValue → PhpValue → Pairs → Pairs

  -- `HashMap<String, PHPValue>`.
  pub data Fields : Type 0 where
    no_fields : Fields
    field : Text → PhpValue → Fields → Fields

unfoldable pub is_nan : ℕ → Bool
is_nan bits = ltb (2047 * 2 ^ 52) (bits % 2 ^ 63)

-- `OrderedFloat`'s equality: that of `f64`, and every NaN equal to every other.
unfoldable pub same_float : ℕ → ℕ → Bool
unfolding is_nan
same_float a b = if is_nan a then is_nan b else (a == b) || ((a % 2 ^ 63 == 0) && (b % 2 ^ 63 == 0))

unfoldable pub same_bool : Bool → Bool → Bool
same_bool true b = b
same_bool false true = false
same_bool false false = true

unfoldable pub count : Pairs → ℕ
count no_pairs = 0
count (pair k v m) = suc (count m)

unfoldable pub count_fields : Fields → ℕ
count_fields no_fields = 0
count_fields (field k v m) = suc (count_fields m)

-- An entry whose key and value pass the two tests.
unfoldable pub has_entry : (PhpValue → Bool) → (PhpValue → Bool) → Pairs → Bool
has_entry p q no_pairs = false
has_entry p q (pair k v m) = (p k && q v) || has_entry p q m

unfoldable pub has_field : Text → (PhpValue → Bool) → Fields → Bool
has_field k q no_fields = false
has_field k q (field j v m) = (same k j && q v) || has_field k q m

-- `PartialEq`, derived; two `HashMap`s are equal when they are as long and each entry of the one stands
-- in the other.
unfoldable mutual
  unfolding same_float same_bool count count_fields has_entry has_field same ℤ_beq

  pub same_value : PhpValue → PhpValue → Bool
  same_value nil nil = true
  same_value (bool a) (bool b) = same_bool a b
  same_value (int a) (int b) = ℤ_beq a b
  same_value (uint a) (uint b) = a == b
  same_value (float a) (float b) = same_float a b
  same_value (string a) (string b) = same a b
  same_value (blob a) (blob b) = same a b
  same_value (list a) (list b) = same_items a b
  same_value (hash_map a) (hash_map b) = (count a == count b) && within a b
  same_value (ordered_map a) (ordered_map b) = same_pairs a b
  same_value (json a) (json b) = (count_fields a == count_fields b) && within_fields a b
  same_value (geo_json a) (geo_json b) = same a b
  same_value (hll a) (hll b) = same a b
  same_value wildcard wildcard = true
  same_value infinity infinity = true
  same_value _ _ = false

  pub same_items : Items → Items → Bool
  same_items no_items no_items = true
  same_items (item a l) (item b m) = same_value a b && same_items l m
  same_items _ _ = false

  pub same_pairs : Pairs → Pairs → Bool
  same_pairs no_pairs no_pairs = true
  same_pairs (pair k v l) (pair j w m) = same_value k j && same_value v w && same_pairs l m
  same_pairs _ _ = false

  pub within : Pairs → Pairs → Bool
  within no_pairs b = true
  within (pair k v l) b = has_entry (same_value k) (same_value v) b && within l b

  pub within_fields : Fields → Fields → Bool
  within_fields no_fields b = true
  within_fields (field k v l) b = has_field k (same_value v) b && within_fields l b

-- `HashMap::insert`.
unfoldable pub insert_pair : PhpValue → PhpValue → Pairs → Pairs
unfolding same_value
insert_pair k v no_pairs = pair k v no_pairs
insert_pair k v (pair j w m) = if same_value j k then pair j v m else pair j w (insert_pair k v m)

-- `collect` of entries, into a `HashMap` that holds some.
unfoldable pub collect : Pairs → Pairs → Pairs
unfolding insert_pair
collect m no_pairs = m
collect m (pair k v entries) = collect (insert_pair k v m) entries
