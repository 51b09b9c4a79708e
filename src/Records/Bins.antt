-- ===== src/Records/Bins.antt =====
-- The bins of a record of lib.rs, read one by one and all at once, and a bin that is made and read.
use aerospike_php_client.Common.{
  ◌≡◌, refl, ap, false, List, [], ◌∷◌, Option, none, some, if◌then◌else◌, inl, inr, Bool-cases,
  arith,
}
use aerospike_php_client.Common.Text.{Text, same, lookup, IsMap}
use aerospike_php_client.Php.{returned}
use aerospike_php_client.Values.Value.{PhpValue, Pairs, no_pairs, pair, same_value}
use aerospike_php_client.Values.Aero.{AeroValue}
use aerospike_php_client.Values.Store.{to_aero}
use aerospike_php_client.Values.Store.Keys.{IsKey, has_key, IsKeyed, collect-IsKeyed}
use aerospike_php_client.Values.Store.Plain.{Keeps, IsPlain, stored}
use aerospike_php_client.Values.Store.Trip.{to_php-to_aero}
use aerospike_php_client.Values.Zval.{Zend, Formats}
use aerospike_php_client.Values.FromZval.{got}
use aerospike_php_client.Records.{
  Bin, Record, Crate, bin_construct, bin_value, bin, value_of, named_values, get_bins,
}

-- The value under a text key.
abbrev pub value_at : Text → Pairs → Option PhpValue
value_at name no_pairs = none
value_at name (pair k v m) = if same_value k (PhpValue.string name) then some v else value_at name m

module _ {Z : Zend} (F : Formats) (K : Crate Z) where
  has_key-named :
      (name : Text) (m : List (Text × AeroValue))
      → lookup name m ≡ none
      → has_key (PhpValue.string name) (named_values F K m) ≡ false
  unfolding named_values lookup same_value
  has_key-named name [] h = refl
  has_key-named name ((k, v) ∷ m) h = ground (arith, has_key-named name m)

  named-IsKeyed : (m : List (Text × AeroValue)) → IsMap m → IsKeyed (named_values F K m)
  unfolding named_values
  named-IsKeyed [] p = tt
  named-IsKeyed ((k, v) ∷ m) (n, p) = (IsKey.string_key k, has_key-named k m n, named-IsKeyed m p)

  value_at-named :
      (name : Text) (m : List (Text × AeroValue))
      → value_at name (named_values F K m) ≡ value_of F K (lookup name m)
  unfolding named_values lookup same_value
  value_at-named name [] = refl
  value_at-named name ((k, v) ∷ m) = elim (Bool-cases (same k name)) [
    | inl e ↦ rw e refl
    | inr e ↦ rw (e, value_at-named name m) refl
  ]

  -- A record whose bins have different names gives all of them as one map, in which each name has the
  -- value that the record gives for this name alone, and no other name has one.
  pub get_bins-bin :
      (self : Record) (name : Text)
      → IsMap self.bins
      → (m : Pairs) × (get_bins F K self ≡ some (PhpValue.hash_map m))
        × (value_at name m ≡ bin F K name self)
  unfolding get_bins bin
  get_bins-bin self name p = (
    named_values F K self.bins,
    ap (λ x. some (PhpValue.hash_map x))
        (collect-IsKeyed (named_values F K self.bins) (named-IsKeyed self.bins p)),
    value_at-named name self.bins,
  )

  -- A bin made of a value that is stored as it is reads as that value.
  pub bin_value-bin_construct :
      (name : Text) (v : PhpValue)
      → (law : Keeps K.values) → IsPlain law v
      → (b : Bin) × (bin_construct F K name (got v) ≡ some (returned b))
        × (bin_value F K b ≡ stored v)
  unfolding bin_construct bin_value
  bin_value-bin_construct name v law p =
      (record { name = name; value = (to_aero K.values v).0 }, refl, to_php-to_aero law v p)
