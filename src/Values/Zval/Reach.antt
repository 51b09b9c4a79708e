-- ===== src/Values/Zval/Reach.antt =====
-- The keys under which lib.rs puts the entries of a map into a PHP array.
use aerospike_php_client.Common.{◌≡◌, refl, ap, Option, some}
use aerospike_php_client.Common.Int.{ℤ, IsI64}
use aerospike_php_client.Php.{PhpResult, ◌>>=◌}
use aerospike_php_client.Values.NumericKey.{php_numeric_string_key}
use aerospike_php_client.Values.Canonical.{show_ℤ, php_numeric_string_key_iff}
use aerospike_php_client.Values.Value.{PhpValue}
use aerospike_php_client.Values.Zval.{
  Zend, Formats, insert_under, insert_string_key, insert_map_entry, as_string,
}

module _ (Z : Zend) (F : Formats) where
  same_entry :
      (t : Z.Table) (i : ℤ) (r : PhpResult Z.Zval) (o : Option ℤ)
      → o ≡ some i
      → (r >>= λ z. insert_under Z F o (show_ℤ i) z t) ≡ (r >>= λ z. Z.insert_at_index i z t)
  same_entry t i r o e = ap (λ x. r >>= λ z. insert_under Z F x (show_ℤ i) z t) e

  -- The decimal writing of an `i64` as a key, and that number as a key are one key of
  -- the PHP array: the entry goes to the same place and replaces the same entry.
  pub insert_map_entry-show_ℤ :
      (t : Z.Table) (i : ℤ) (r : PhpResult Z.Zval)
      → IsI64 i
      → insert_map_entry Z F t (PhpValue.string (show_ℤ i)) r
        ≡ insert_map_entry Z F t (PhpValue.int i) r
  unfolding insert_map_entry insert_string_key as_string
  insert_map_entry-show_ℤ t i r h =
      same_entry t i r (php_numeric_string_key (show_ℤ i))
        ((php_numeric_string_key_iff (show_ℤ i) i).1 (refl, h))
