-- ===== src/Values/FromZval/Puts.antt =====
-- The entries that `set_zval` of lib.rs puts into an array stand there in order.
use aerospike_php_client.Common.{
  ◌≡◌, refl, ap, ◌∙◌, Bool, false, ◌||◌, List, [], ◌∷◌, ◌++◌, none, arith,
}
use aerospike_php_client.Common.Int.{ℤ}
use aerospike_php_client.Common.Text.{Text}
use aerospike_php_client.Php.{returned}
use aerospike_php_client.Values.NumericKey.{php_numeric_string_key}
use aerospike_php_client.Values.Value.{PhpValue, Pairs, no_pairs, pair, same_value}
use aerospike_php_client.Values.Store.Keys.{
  IsKey, int_key, string_key, has_key, IsKeyed, different-key,
}
use aerospike_php_client.Values.Zval.{
  ArrayKey, Zend, Formats, insert_string_key, insert_map_entry, as_string,
}
use aerospike_php_client.Values.FromZval.{key_of}
use aerospike_php_client.Values.FromZval.Laws.{put, Works}
use aerospike_php_client.Values.FromZval.Reads.{same_array_key-same_value}

-- The keys that PHP arrays have: a text that PHP takes for a number is none of them.
pub data IsPhpKey : PhpValue → Type 0 where
  long : (i : ℤ) → IsPhpKey (PhpValue.int i)
  text : (s : Text) → php_numeric_string_key s ≡ none → IsPhpKey (PhpValue.string s)

pub php-IsKey : (k : PhpValue) → IsPhpKey k → IsKey k
php-IsKey _ (long i) = int_key i
php-IsKey _ (text s n) = string_key s

module _ {V : Type 0} where
  abbrev pub has_at : PhpValue → List (ArrayKey × V) → Bool
  has_at k [] = false
  has_at k ((a, z) ∷ es) = same_value (key_of a) k || has_at k es

  has_at-append :
      (k : PhpValue) (es fs : List (ArrayKey × V))
      → has_at k (es ++ fs) ≡ (has_at k es || has_at k fs)
  has_at-append k [] fs = refl
  has_at-append k ((a, z) ∷ es) fs = ground (arith, has_at-append k es fs)

  pub put-append :
      (a : ArrayKey) (z : V) (es : List (ArrayKey × V))
      → has_at (key_of a) es ≡ false
      → put a z es ≡ es ++ ((a, z) ∷ [])
  put-append a z [] h = refl
  put-append a z ((b, w) ∷ es) h = ground (arith, same_array_key-same_value b a, put-append a z es)

  -- None of the keys stands in the array.
  abbrev pub Fresh : Pairs → List (ArrayKey × V) → Type 0
  Fresh no_pairs es = Unit
  Fresh (pair k v m) es = (has_at k es ≡ false) × Fresh m es

  pub Fresh-empty : (m : Pairs) (es : List (ArrayKey × V)) → es ≡ [] → Fresh m es
  Fresh-empty no_pairs es e = tt
  Fresh-empty (pair k v m) es e = (ap (has_at k) e, Fresh-empty m es e)

  pub Fresh-put :
      (m : Pairs) (a : ArrayKey) (z : V) (es : List (ArrayKey × V))
      → IsKey (key_of a)
      → has_key (key_of a) m ≡ false
      → IsKeyed m
      → Fresh m es
      → Fresh m (es ++ ((a, z) ∷ []))
  Fresh-put no_pairs a z es i h k f = tt
  Fresh-put (pair j w m) a z es i h (p, d, k) (e, f) = (
    has_at-append j es ((a, z) ∷ []) ∙ ground (arith, different-key j (key_of a) p i),
    Fresh-put m a z es i (ground arith) k f,
  )

module _ {Z : Zend} (F : Formats) (law : Works Z) where
  -- An entry under such a key goes into the array under that key.
  pub insert_map_entry-put :
      (k : PhpValue) (z : Z.Zval) (t : Z.Table)
      → IsPhpKey k
      → (a : ArrayKey) × (u : Z.Table) × (key_of a ≡ k)
        × (insert_map_entry Z F t k (returned z) ≡ returned u)
        × (Z.iter u ≡ put a z (Z.iter t))
  unfolding insert_map_entry insert_string_key as_string
  insert_map_entry-put _ z t (long i) =
      let (u, e, p) = law.at_index i z t in (ArrayKey.long i, u, refl, e, p)
  insert_map_entry-put _ z t (text s n) =
      let (u, e, p) = law.at_key s z t in (ArrayKey.text s, u, refl, rw (n, e) refl, p)
