-- ===== src/Values/Tests.antt =====
-- A concrete key, and concrete values on their way to the crate, to PHP and back.
use aerospike_php_client.Common.{◌≡◌, ◌↔◌, refl, [], ◌∷◌, some, none, true, false, arith}
use aerospike_php_client.Common.Int.{pos, negsuc, IsI64}
use aerospike_php_client.Php.{returned}
use aerospike_php_client.Hosts.{all_digits}
use aerospike_php_client.Values.NumericKey.{php_numeric_string_key}
use aerospike_php_client.Values.Canonical.{show_ℤ, php_numeric_string_key_iff}
use aerospike_php_client.Values.Value.{
  PhpValue, Pairs, no_items, item, no_pairs, pair, no_fields, field, same_value,
}
use aerospike_php_client.Values.Aero.{AeroValue}
use aerospike_php_client.Values.Store.{to_aero, to_php, pairs_to_aero}
use aerospike_php_client.Values.Store.Keys.{IsKey, has_key}
use aerospike_php_client.Values.Store.Plain.{Leads, stored}
use aerospike_php_client.Values.Store.Trip.{to_php-to_aero}
use aerospike_php_client.Values.Zval.{ArrayKey, set_zval, insert_map_entry}
use aerospike_php_client.Values.Zval.Reach.{insert_map_entry-show_ℤ}
use aerospike_php_client.Values.FromZval.{got, exhausted, from_zval, php_array_as_map}
use aerospike_php_client.Values.FromZval.Cyclic.{from_zval-cyclic}
use aerospike_php_client.Values.FromZval.Puts.{IsPhpKey}
use aerospike_php_client.Values.FromZval.Fits.{FitPhpMap, reread, reread_pairs}
use aerospike_php_client.Values.FromZval.Trip.{from_zval-set_zval}
use aerospike_php_client.Values.FromZval.AsMap.{php_array_as_map-set_zval}
use aerospike_php_client.Values.Sample.{
  Zval, empty, zend, works, formats, crate, Precedes, keeps, cyclic,
}

php_numeric_string_key_iff_example :
    (php_numeric_string_key (b'4' ∷ b'2' ∷ []) ≡ some (pos 42))
    ↔ (((b'4' ∷ b'2' ∷ []) ≡ show_ℤ (pos 42)) × IsI64 (pos 42))
php_numeric_string_key_iff_example = php_numeric_string_key_iff (b'4' ∷ b'2' ∷ []) (pos 42)

-- [7 => [true, 5], "n" => {"x": null}], with the five unsigned.
abbrev entries : Pairs
entries =
    pair (PhpValue.int (pos 7))
      (PhpValue.list (item (PhpValue.bool true) (item (PhpValue.uint 5) no_items)))
      (pair (PhpValue.string (b'n' ∷ [])) (PhpValue.json (field (b'x' ∷ []) PhpValue.nil no_fields))
        no_pairs)

no_n :
    has_key (PhpValue.int (pos 7)) (
      pair
        (PhpValue.string (b'n' ∷ []))
        (PhpValue.json (field (b'x' ∷ []) PhpValue.nil no_fields))
        no_pairs)
    ≡ false
unfolding same_value
no_n = refl

n_text : php_numeric_string_key (b'n' ∷ []) ≡ none
unfolding php_numeric_string_key all_digits
n_text = refl

x_text : php_numeric_string_key (b'x' ∷ []) ≡ none
unfolding php_numeric_string_key all_digits
x_text = refl

fits : FitPhpMap entries
fits = (
  IsPhpKey.long (pos 7),
  no_n,
  (tt, (omega arith, tt)),
  (IsPhpKey.text (b'n' ∷ []) n_text, refl, (x_text, refl, tt, tt), tt),
)

-- The same with an ordered map beside it, whose keys are 2 and 9.
abbrev stored_twice : PhpValue
stored_twice = PhpValue.list (
    item (PhpValue.hash_map entries) (
      item
        (PhpValue.ordered_map (
          pair (PhpValue.int (pos 2)) (PhpValue.uint 5)
            (pair (PhpValue.uint 9) PhpValue.nil no_pairs)))
        no_items))

ascending :
    Leads Precedes
      (AeroValue.int (pos 2))
      (pairs_to_aero crate (pair (PhpValue.uint 9) PhpValue.nil no_pairs)).0
unfolding to_aero
ascending = (omega arith, tt)

to_php-to_aero_example : to_php crate (to_aero crate stored_twice).0 ≡ stored stored_twice
unfolding to_aero
to_php-to_aero_example = to_php-to_aero keeps stored_twice (
  (
    IsKey.int_key (pos 7),
    no_n,
    (tt, (omega arith, tt)),
    (IsKey.string_key (b'n' ∷ []), refl, (refl, tt, tt), tt),
  ),
  (((tt, omega arith, (omega arith, tt, tt)), (ascending, (tt, tt))), tt),
)

insert_map_entry-show_ℤ_example :
    insert_map_entry zend formats empty (PhpValue.string (show_ℤ (negsuc 0))) (returned Zval.null)
    ≡ insert_map_entry zend formats empty (PhpValue.int (negsuc 0)) (returned Zval.null)
insert_map_entry-show_ℤ_example =
    insert_map_entry-show_ℤ zend formats empty (negsuc 0) (returned Zval.null) (omega arith)

from_zval-set_zval_example :
    (z : Zval) × (set_zval zend formats (PhpValue.hash_map entries) ≡ returned z)
    × (from_zval zend 4 z ≡ got (reread (PhpValue.hash_map entries)))
from_zval-set_zval_example =
    from_zval-set_zval formats works 4 (PhpValue.hash_map entries) fits (omega arith)

php_array_as_map-set_zval_example :
    (z : Zval) × (set_zval zend formats (PhpValue.hash_map entries) ≡ returned z)
    × (php_array_as_map zend 4 z "map" ≡ some (returned (reread_pairs entries)))
php_array_as_map-set_zval_example =
    php_array_as_map-set_zval formats works 4 entries "map" fits (omega arith)

from_zval-cyclic_example : from_zval cyclic 100 tt ≡ exhausted
from_zval-cyclic_example =
    from_zval-cyclic cyclic 100 tt tt tt (ArrayKey.long (pos 0)) [] refl refl refl
