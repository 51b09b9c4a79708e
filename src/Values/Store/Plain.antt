-- ===== src/Values/Store/Plain.antt =====
-- The values of lib.rs that can be stored, and what becomes of them.
use aerospike_php_client.Common.{ℕ, ◌≡◌, ◌≢◌, false, ◌≤◌}
use aerospike_php_client.Common.Int.{ℤ, pos, i64_max}
use aerospike_php_client.Common.Text.{Text}
use aerospike_php_client.Values.Value.{
  PhpValue, Items, no_items, item, Pairs, no_pairs, pair, Fields, no_fields, field,
}
use aerospike_php_client.Values.Aero.{f64_bits, AeroValue, AeroPairs}
use aerospike_php_client.Values.Store.{Crate, pairs_to_aero}
use aerospike_php_client.Values.Store.Keys.{IsKey, has_key, has_name}

-- The keys that a PHP array can have, as the crate's values.
pub data IsAeroKey : AeroValue → Type 0 where
  aero_int : (i : ℤ) → IsAeroKey (AeroValue.int i)
  aero_string : (s : Text) → IsAeroKey (AeroValue.string s)

abbrev pub Lacks : AeroValue → AeroPairs → Type 0
Lacks k AeroPairs.no_pairs = Unit
Lacks k (AeroPairs.pair j v m) = (j ≢ k) × Lacks k m

-- Integers and texts as keys, none twice.
abbrev pub AreDistinct : AeroPairs → Type 0
AreDistinct AeroPairs.no_pairs = Unit
AreDistinct (AeroPairs.pair k v m) = IsAeroKey k × Lacks k m × AreDistinct m

-- Each key comes before all later ones.
abbrev pub Leads : (AeroValue → AeroValue → Type 0) → AeroValue → AeroPairs → Type 0
Leads before k AeroPairs.no_pairs = Unit
Leads before k (AeroPairs.pair j v m) = before k j × Leads before k m

abbrev pub Ascends : (AeroValue → AeroValue → Type 0) → AeroPairs → Type 0
Ascends before AeroPairs.no_pairs = Unit
Ascends before (AeroPairs.pair k v m) = Leads before k m × Ascends before m

-- A float keeps its bits, a `HashMap` keeps entries whose keys differ, and a `BTreeMap` those whose keys
-- ascend in the crate's order, `Precedes`, in which it gives them out.
pub record Keeps (K : Crate) : Type 1 where
  pub Precedes : AeroValue → AeroValue → Type 0
  pub float_bits : (b : ℕ) → K.float_value b ≡ f64_bits b
  pub kept : (m : AeroPairs) → AreDistinct m → K.hash_map_of m ≡ m
  pub sorted : (m : AeroPairs) → Ascends Precedes m → K.btree_map_of m ≡ m

module _ {K : Crate} (law : Keeps K) where
  abbrev mutual
    -- A value whose unsigned integers fit, whose ordered maps ascend in the order of the crate, and whose
    -- other maps have the keys of PHP arrays and none twice.
    pub IsPlain : PhpValue → Type 0
    IsPlain (PhpValue.uint u) = u ≤ i64_max
    IsPlain (PhpValue.list l) = ArePlain l
    IsPlain (PhpValue.hash_map m) = IsPlainMap m
    IsPlain (PhpValue.ordered_map m) = IsPlainOrdered m × Ascends law.Precedes (pairs_to_aero K m).0
    IsPlain (PhpValue.json m) = IsPlainJson m
    IsPlain _ = Unit

    pub ArePlain : Items → Type 0
    ArePlain no_items = Unit
    ArePlain (item v l) = IsPlain v × ArePlain l

    pub IsPlainMap : Pairs → Type 0
    IsPlainMap no_pairs = Unit
    IsPlainMap (pair k v m) = IsKey k × (has_key k m ≡ false) × IsPlain v × IsPlainMap m

    pub IsPlainOrdered : Pairs → Type 0
    IsPlainOrdered no_pairs = Unit
    IsPlainOrdered (pair k v m) = IsPlain k × IsPlain v × IsPlainOrdered m

    pub IsPlainJson : Fields → Type 0
    IsPlainJson no_fields = Unit
    IsPlainJson (field k v m) = (has_name k m ≡ false) × IsPlain v × IsPlainJson m

abbrev mutual
  -- The value that comes back: an unsigned integer as a signed one, and a JSON object as a map with texts
  -- as keys.
  pub stored : PhpValue → PhpValue
  stored (PhpValue.uint u) = PhpValue.int (pos u)
  stored (PhpValue.list l) = PhpValue.list (stored_items l)
  stored (PhpValue.hash_map m) = PhpValue.hash_map (stored_pairs m)
  stored (PhpValue.ordered_map m) = PhpValue.ordered_map (stored_ordered m)
  stored (PhpValue.json m) = PhpValue.hash_map (stored_fields m)
  stored v = v

  pub stored_items : Items → Items
  stored_items no_items = no_items
  stored_items (item v l) = item (stored v) (stored_items l)

  pub stored_pairs : Pairs → Pairs
  stored_pairs no_pairs = no_pairs
  stored_pairs (pair k v m) = pair k (stored v) (stored_pairs m)

  -- The keys of an ordered map are any values.
  pub stored_ordered : Pairs → Pairs
  stored_ordered no_pairs = no_pairs
  stored_ordered (pair k v m) = pair (stored k) (stored v) (stored_ordered m)

  pub stored_fields : Fields → Pairs
  stored_fields no_fields = no_pairs
  stored_fields (field k v m) = pair (PhpValue.string k) (stored v) (stored_fields m)
