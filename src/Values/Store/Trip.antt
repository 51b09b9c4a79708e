-- ===== src/Values/Store/Trip.antt =====
-- A value of lib.rs that is stored and read again.
use aerospike_php_client.Common.{◌≡◌, ◌≢◌, refl, ap, ap₂, ◌∙◌, false, ◌||◌, arith}
use aerospike_php_client.Common.Int.{ℤ_beq_iff}
use aerospike_php_client.Common.Text.{Text, same, same_iff}
use aerospike_php_client.Values.Value.{
  PhpValue, Items, no_items, item, Pairs, no_pairs, pair, Fields, no_fields, field, collect,
  same_value,
}
use aerospike_php_client.Values.Aero.{AeroValue, AeroPairs}
use aerospike_php_client.Values.Store.{
  Crate, widened, to_aero, to_php, pairs_to_aero, items_to_aero, fields_to_aero, pairs_to_php,
  items_to_php,
}
use aerospike_php_client.Values.Store.Keys.{
  IsKey, int_key, string_key, has_key, has_name, IsKeyed, collect-IsKeyed,
}
use aerospike_php_client.Values.Store.Plain.{
  IsAeroKey, aero_int, aero_string, Lacks, AreDistinct, Keeps, IsPlain, ArePlain, IsPlainMap,
  IsPlainOrdered, IsPlainJson, stored, stored_items, stored_pairs, stored_ordered, stored_fields,
}

has_key-stored : (k : PhpValue) (m : Pairs) → has_key k (stored_pairs m) ≡ has_key k m
has_key-stored k no_pairs = refl
has_key-stored k (pair j v m) = ap (λ b. same_value j k || b) (has_key-stored k m)

has_key-fields :
    (k : Text) (m : Fields) → has_key (PhpValue.string k) (stored_fields m) ≡ has_name k m
unfolding same_value
has_key-fields k no_fields = refl
has_key-fields k (field j v m) = ap (λ b. same j k || b) (has_key-fields k m)

module _ {K : Crate} (law : Keeps K) where
  stored_pairs-IsKeyed : (m : Pairs) → IsPlainMap law m → IsKeyed (stored_pairs m)
  stored_pairs-IsKeyed no_pairs p = tt
  stored_pairs-IsKeyed (pair k v m) (i, d, p, q) =
      (i, has_key-stored k m ∙ d, stored_pairs-IsKeyed m q)

  stored_fields-IsKeyed : (m : Fields) → IsPlainJson law m → IsKeyed (stored_fields m)
  stored_fields-IsKeyed no_fields p = tt
  stored_fields-IsKeyed (field k v m) (d, p, q) =
      (string_key k, has_key-fields k m ∙ d, stored_fields-IsKeyed m q)

  to_aero-IsAeroKey : (k : PhpValue) → IsKey k → IsAeroKey (to_aero K k).0
  unfolding to_aero
  to_aero-IsAeroKey _ (int_key i) = aero_int i
  to_aero-IsAeroKey _ (string_key s) = aero_string s

  key_differs :
      (j k : PhpValue)
      → IsKey j
      → IsKey k
      → same_value j k ≡ false
      → (to_aero K j).0 ≢ (to_aero K k).0
  unfolding to_aero same_value
  key_differs _ _ (int_key i) (int_key j) h e = ground (arith, ℤ_beq_iff i j)
  key_differs _ _ (int_key i) (string_key t) h e = ground arith
  key_differs _ _ (string_key s) (int_key j) h e = ground arith
  key_differs _ _ (string_key s) (string_key t) h e = ground (arith, same_iff s t)

  pairs-Lacks :
      (k : PhpValue) (m : Pairs)
      → IsKey k
      → has_key k m ≡ false
      → IsPlainMap law m
      → Lacks (to_aero K k).0 (pairs_to_aero K m).0
  unfolding to_aero
  pairs-Lacks k no_pairs i h p = tt
  pairs-Lacks k (pair j v m) i h (i', d, p, q) =
      (key_differs j k i' i (ground arith), pairs-Lacks k m i (ground arith) q)

  pairs-AreDistinct : (m : Pairs) → IsPlainMap law m → AreDistinct (pairs_to_aero K m).0
  unfolding to_aero
  pairs-AreDistinct no_pairs p = tt
  pairs-AreDistinct (pair k v m) (i, d, p, q) =
      (to_aero-IsAeroKey k i, pairs-Lacks k m i d q, pairs-AreDistinct m q)

  fields-Lacks :
      (k : Text) (m : Fields)
      → has_name k m ≡ false
      → Lacks (AeroValue.string k) (fields_to_aero K m).0
  unfolding to_aero
  fields-Lacks k no_fields h = tt
  fields-Lacks k (field j v m) h =
      (λ e. ground (arith, same_iff j k), fields-Lacks k m (ground arith))

  fields-AreDistinct : (m : Fields) → IsPlainJson law m → AreDistinct (fields_to_aero K m).0
  unfolding to_aero
  fields-AreDistinct no_fields p = tt
  fields-AreDistinct (field k v m) (d, p, q) =
      (aero_string k, fields-Lacks k m d, fields-AreDistinct m q)

  -- A map that is collected on the way to the crate and on the way back.
  both_ways :
      (m : AeroPairs) (s : Pairs)
      → AreDistinct m
      → IsKeyed s
      → pairs_to_php K m ≡ s
      → to_php K (AeroValue.hash_map (K.hash_map_of m)) ≡ PhpValue.hash_map s
  unfolding to_php
  both_ways m s d k e =
      ap (λ x. PhpValue.hash_map (collect no_pairs (pairs_to_php K x))) (law.kept m d)
      ∙ ap (λ x. PhpValue.hash_map (collect no_pairs x)) e
      ∙ ap PhpValue.hash_map (collect-IsKeyed s k)

  key_trip : (k : PhpValue) → IsKey k → to_php K (to_aero K k).0 ≡ k
  unfolding to_aero to_php
  key_trip _ (int_key i) = refl
  key_trip _ (string_key s) = refl

  mutual
    unfolding to_aero to_php

    trip : (v : PhpValue) → IsPlain law v → to_php K (to_aero K v).0 ≡ stored v
    trip PhpValue.nil p = refl
    trip (PhpValue.bool b) p = refl
    trip (PhpValue.int i) p = refl
    trip (PhpValue.uint u) p = ground arith
    trip (PhpValue.float f) p = ap (λ x. PhpValue.float (widened K x)) (law.float_bits f)
    trip (PhpValue.string s) p = refl
    trip (PhpValue.blob b) p = refl
    trip (PhpValue.list l) p = ap PhpValue.list (items_trip l p)
    trip (PhpValue.hash_map m) p =
        both_ways (pairs_to_aero K m).0 (stored_pairs m) (pairs-AreDistinct m p)
          (stored_pairs-IsKeyed m p) (pairs_trip m p)
    trip (PhpValue.ordered_map m) (p, q) =
        ap (λ x. PhpValue.ordered_map (pairs_to_php K x)) (law.sorted (pairs_to_aero K m).0 q)
        ∙ ap PhpValue.ordered_map (ordered_trip m p)
    trip (PhpValue.json m) p =
        both_ways (fields_to_aero K m).0 (stored_fields m) (fields-AreDistinct m p)
          (stored_fields-IsKeyed m p) (fields_trip m p)
    trip (PhpValue.geo_json s) p = refl
    trip (PhpValue.hll b) p = refl
    trip PhpValue.wildcard p = refl
    trip PhpValue.infinity p = refl

    items_trip :
        (l : Items) → ArePlain law l → items_to_php K (items_to_aero K l).0 ≡ stored_items l
    items_trip no_items p = refl
    items_trip (item v l) (p, q) = ap₂ Items.item (trip v p) (items_trip l q)

    pairs_trip :
        (m : Pairs) → IsPlainMap law m → pairs_to_php K (pairs_to_aero K m).0 ≡ stored_pairs m
    pairs_trip no_pairs p = refl
    pairs_trip (pair k v m) (i, d, p, q) = rw (key_trip k i, trip v p, pairs_trip m q) refl

    ordered_trip :
        (m : Pairs) → IsPlainOrdered law m → pairs_to_php K (pairs_to_aero K m).0 ≡ stored_ordered m
    ordered_trip no_pairs p = refl
    ordered_trip (pair k v m) (i, p, q) = rw (trip k i, trip v p, ordered_trip m q) refl

    fields_trip :
        (m : Fields) → IsPlainJson law m → pairs_to_php K (fields_to_aero K m).0 ≡ stored_fields m
    fields_trip no_fields p = refl
    fields_trip (field k v m) (d, p, q) = rw (trip v p, fields_trip m q) refl

  -- When a float keeps its bits, a `HashMap` entries with different keys and a `BTreeMap` entries with
  -- ascending keys, a value that is converted for the crate and back is the same, on these conditions:
  -- its unsigned integers fit an i64, its ordered maps have their keys in ascending order of the crate,
  -- and its other maps have integers and texts as keys, none twice. Only, an unsigned integer comes back
  -- as a signed one, and a JSON object as a map with texts as keys.
  pub to_php-to_aero : (v : PhpValue) → IsPlain law v → to_php K (to_aero K v).0 ≡ stored v
  to_php-to_aero v p = trip v p
