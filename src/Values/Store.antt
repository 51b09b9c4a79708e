-- ===== src/Values/Store.antt =====
-- The two conversions of lib.rs between `PHPValue` and `aero::Value`.
pub mod Keys
pub mod Plain
pub mod Trip
use aerospike_php_client.Common.{ℕ, Bool, true, false, ◌||◌, leb, if◌then◌else◌}
use aerospike_php_client.Common.Int.{pos, i64_max}
use aerospike_php_client.Values.Value.{
  PhpValue, Items, no_items, item, Pairs, no_pairs, pair, Fields, no_fields, field, collect,
}
use aerospike_php_client.Values.Aero.{
  FloatValue, f32_bits, f64_bits, AeroValue, AeroItems, AeroPairs,
}

-- What the conversions call: `FloatValue::from(f64)`, `f64::from(f32)`, and the `collect`s into a
-- `HashMap` and a `BTreeMap` keyed by `aero::Value`, whose hash, equality and order are the crate's.
pub record Crate : Type 0 where
  pub float_value : ℕ → FloatValue
  pub widen : ℕ → ℕ
  pub hash_map_of : AeroPairs → AeroPairs
  pub btree_map_of : AeroPairs → AeroPairs

module _ (K : Crate) where
  open K use {float_value, widen, hash_map_of, btree_map_of}

  -- `From<PHPValue> for aero::Value`, with whether an exception is pending then.
  unfoldable mutual
    pub to_aero : PhpValue → AeroValue × Bool
    to_aero PhpValue.nil = (AeroValue.nil, false)
    to_aero (PhpValue.bool b) = (AeroValue.bool b, false)
    to_aero (PhpValue.int i) = (AeroValue.int i, false)
    to_aero (PhpValue.uint u) =
        if leb u i64_max then (AeroValue.int (pos u), false) else (AeroValue.nil, true)
    to_aero (PhpValue.float f) = (AeroValue.float (float_value f), false)
    to_aero (PhpValue.string s) = (AeroValue.string s, false)
    to_aero (PhpValue.blob b) = (AeroValue.blob b, false)
    to_aero (PhpValue.list l) = let (items, t) = items_to_aero l in (AeroValue.list items, t)
    to_aero (PhpValue.hash_map m) =
        let (es, t) = pairs_to_aero m in (AeroValue.hash_map (hash_map_of es), t)
    to_aero (PhpValue.ordered_map m) =
        let (es, t) = pairs_to_aero m in (AeroValue.ordered_map (btree_map_of es), t)
    to_aero (PhpValue.json m) =
        let (es, t) = fields_to_aero m in (AeroValue.hash_map (hash_map_of es), t)
    to_aero (PhpValue.geo_json s) = (AeroValue.geo_json s, false)
    to_aero (PhpValue.hll b) = (AeroValue.hll b, false)
    to_aero PhpValue.infinity = (AeroValue.infinity, false)
    to_aero PhpValue.wildcard = (AeroValue.wildcard, false)

    pub items_to_aero : Items → AeroItems × Bool
    items_to_aero no_items = (AeroItems.no_items, false)
    items_to_aero (item v l) =
        let (a, t) = to_aero v in
        let (items, u) = items_to_aero l in (AeroItems.item a items, t || u)

    pub pairs_to_aero : Pairs → AeroPairs × Bool
    pairs_to_aero no_pairs = (AeroPairs.no_pairs, false)
    pairs_to_aero (pair k v m) =
        let (a, s) = to_aero k in
        let (b, t) = to_aero v in
        let (es, u) = pairs_to_aero m in (AeroPairs.pair a b es, s || t || u)

    pub fields_to_aero : Fields → AeroPairs × Bool
    fields_to_aero no_fields = (AeroPairs.no_pairs, false)
    fields_to_aero (field k v m) =
        let (b, t) = to_aero v in
        let (es, u) = fields_to_aero m in (AeroPairs.pair (AeroValue.string k) b es, t || u)

  abbrev pub widened : FloatValue → ℕ
  widened (f32_bits b) = widen b
  widened (f64_bits b) = b

  -- `From<aero::Value> for PHPValue`.
  unfoldable mutual
    unfolding collect

    pub to_php : AeroValue → PhpValue
    to_php AeroValue.nil = PhpValue.nil
    to_php (AeroValue.bool b) = PhpValue.bool b
    to_php (AeroValue.int i) = PhpValue.int i
    to_php (AeroValue.float f) = PhpValue.float (widened f)
    to_php (AeroValue.string s) = PhpValue.string s
    to_php (AeroValue.blob b) = PhpValue.blob b
    to_php (AeroValue.list l) = PhpValue.list (items_to_php l)
    to_php (AeroValue.multi_result l) = PhpValue.list (items_to_php l)
    to_php (AeroValue.hash_map m) = PhpValue.hash_map (collect no_pairs (pairs_to_php m))
    to_php (AeroValue.ordered_map m) = PhpValue.ordered_map (pairs_to_php m)
    to_php (AeroValue.key_value_list m) = PhpValue.ordered_map (pairs_to_php m)
    to_php (AeroValue.geo_json s) = PhpValue.geo_json s
    to_php (AeroValue.hll b) = PhpValue.hll b
    to_php AeroValue.infinity = PhpValue.infinity
    to_php AeroValue.wildcard = PhpValue.wildcard

    pub items_to_php : AeroItems → Items
    items_to_php AeroItems.no_items = Items.no_items
    items_to_php (AeroItems.item a l) = Items.item (to_php a) (items_to_php l)

    pub pairs_to_php : AeroPairs → Pairs
    pairs_to_php AeroPairs.no_pairs = Pairs.no_pairs
    pairs_to_php (AeroPairs.pair a b m) = Pairs.pair (to_php a) (to_php b) (pairs_to_php m)
