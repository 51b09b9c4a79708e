-- ===== src/Values/FromZval/AsMap.antt =====
-- `php_array_as_map` of lib.rs on the PHP arrays of maps.
use Prim.Native.String.{String}
use aerospike_php_client.Common.{
  ℕ, suc, ◌<◌, ◌≡◌, refl, ap, ◌∙◌, true, some, inl, inr, Bool-cases, arith,
}
use aerospike_php_client.Common.Int.{pos, ℤ_beq_iff}
use aerospike_php_client.Php.{returned}
use aerospike_php_client.Values.Value.{PhpValue, Pairs, no_pairs, pair, collect, same_value}
use aerospike_php_client.Values.Store.Keys.{IsKey, int_key, string_key, IsKeyed, collect-IsKeyed}
use aerospike_php_client.Values.Zval.{Zend, Formats, set_zval}
use aerospike_php_client.Values.FromZval.{got, numbered, array_as_map, php_array_as_map}
use aerospike_php_client.Values.FromZval.Laws.{Works}
use aerospike_php_client.Values.FromZval.Reads.{has_numbers, values, array_of}
use aerospike_php_client.Values.FromZval.Fits.{FitPhpMap, reread_pairs, depth, reread_pairs-IsKeyed}
use aerospike_php_client.Values.FromZval.Trip.{from_zval-set_zval}

number_key :
    (n : ℕ) (k : PhpValue)
    → IsKey k
    → same_value k (PhpValue.int (pos n)) ≡ true
    → k ≡ PhpValue.int (pos n)
unfolding same_value
number_key n _ (int_key i) h = ap PhpValue.int ((ℤ_beq_iff i (pos n)).0 h)
number_key n _ (string_key s) h = absurd (ground arith)

numbered-values :
    (n : ℕ) (m : Pairs) → IsKeyed m → has_numbers n m ≡ true → numbered n (values m) ≡ m
unfolding numbered
numbered-values n no_pairs k h = refl
numbered-values n (pair j v m) (i, d, k) h =
    let e : j ≡ PhpValue.int (pos n) = number_key n j i (ground arith) in
    let r : numbered (suc n) (values m) ≡ m = numbered-values (suc n) m k (ground arith) in
    rw (r, e) refl

array_of-map :
    (what : String) (m : Pairs)
    → IsKeyed m
    → array_as_map what (got (array_of m)) ≡ some (returned m)
unfolding array_as_map
array_of-map what m k = elim (Bool-cases (has_numbers 0 m)) [
  | inl list_like ↦ rw list_like (
      ap (λ x. some (returned (collect no_pairs x))) (numbered-values 0 m k list_like)
      ∙ ap (λ x. some (returned x)) (collect-IsKeyed m k))
  | inr keyed ↦ rw keyed refl
]

module _ {Z : Zend} (F : Formats) (law : Works Z) where
  -- With arrays as PHP documents them, `php_array_as_map` takes the PHP array of a map for that map,
  -- whatever its keys are, 0, 1, 2, … in this order and none at all included: its unsigned integers fit, its
  -- maps have the keys of PHP arrays, none twice, and there is more fuel than lists and maps stand deep.
  pub php_array_as_map-set_zval :
      (fuel : ℕ) (m : Pairs) (what : String)
      → FitPhpMap m
      → depth (PhpValue.hash_map m) < fuel
      → (z : Z.Zval) × (set_zval Z F (PhpValue.hash_map m) ≡ returned z)
        × (php_array_as_map Z fuel z what ≡ some (returned (reread_pairs m)))
  unfolding php_array_as_map
  php_array_as_map-set_zval fuel m what p d =
      let (z, e, h) = from_zval-set_zval F law fuel (PhpValue.hash_map m) p d in
      (
        z,
        e,
        ap (array_as_map what) h ∙ array_of-map what (reread_pairs m) (reread_pairs-IsKeyed m p),
      )
