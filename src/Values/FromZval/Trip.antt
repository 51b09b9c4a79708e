-- ===== src/Values/FromZval/Trip.antt =====
-- A value of lib.rs that is given to PHP and taken from it again.
use aerospike_php_client.Common.{
  append_assoc, append-nil, ℕ, zero, suc, ◌<◌, ◌^◌, ◌%◌, ◌≡◌, refl, sym, ap, subst, ◌∙◌, true,
  false, List, [], ◌∷◌, ◌++◌, some, leb, arith,
}
use aerospike_php_client.Common.Int.{pos, i64_max}
use aerospike_php_client.Php.{PhpResult, returned, ◌>>=◌}
use aerospike_php_client.Values.Value.{
  PhpValue, Items, no_items, item, Pairs, no_pairs, pair, Fields, no_fields, field, count,
  count_fields,
}
use aerospike_php_client.Values.Store.Keys.{IsKey, has_key, IsKeyed}
use aerospike_php_client.Values.Zval.{
  ArrayKey, Object, View, Zend, Formats, insert_map_entry, set_zval, set_items, set_pairs,
  set_fields, as_string,
}
use aerospike_php_client.Values.FromZval.{got, of_object, take_view, from_zval}
use aerospike_php_client.Values.FromZval.Laws.{Works}
use aerospike_php_client.Values.FromZval.Fits.{
  FitsPhp, FitPhp, FitPhpMap, FitPhpJson, reread, reread_items, reread_pairs, reread_fields, depth,
  depth_items, depth_pairs, depth_fields, has_key-reread, has_key-fields, reread_pairs-IsKeyed,
  reread_fields-IsKeyed,
}
use aerospike_php_client.Values.FromZval.Reads.{
  array_of, Shows, ShowsItems, take_table-array_of, take_table-list,
}
use aerospike_php_client.Values.FromZval.Puts.{
  has_at, IsPhpKey, text, php-IsKey, put-append, Fresh, Fresh-empty, Fresh-put,
  insert_map_entry-put,
}

module _ {Z : Zend} (F : Formats) (law : Works Z) where
  -- PHP's value is there, and is taken for the given one.
  abbrev pub Rereads : ℕ → PhpResult Z.Zval → PhpValue → Type 0
  Rereads fuel r v = (z : Z.Zval) × (r ≡ returned z) × (from_zval Z fuel z ≡ got v)

  abbrev RereadsItems : ℕ → PhpResult (List Z.Zval) → Items → Type 0
  RereadsItems fuel r l =
      (zs : List Z.Zval) × (r ≡ returned zs) × ShowsItems (from_zval Z fuel) l zs

  -- The entries were added to the array.
  abbrev Adds : ℕ → PhpResult Z.Table → Z.Table → Pairs → Type 0
  Adds fuel r t m =
      (u : Z.Table) × (es : List (ArrayKey × Z.Zval)) × (r ≡ returned u)
      × (Z.iter u ≡ Z.iter t ++ es)
      × Shows (from_zval Z fuel) m es

  seen :
      (fuel : ℕ) (z : Z.Zval) (w : View Z.Table) (v : PhpValue)
      → Z.view (Z.dereference z) ≡ w
      → take_view Z (from_zval Z fuel) w ≡ got v
      → Rereads (suc fuel) (returned z) v
  unfolding from_zval
  seen fuel z w v e h = (z, refl, ap (take_view Z (from_zval Z fuel)) e ∙ h)

  seen_result :
      (fuel : ℕ) (r : PhpResult Z.Zval) (w : View Z.Table) (v : PhpValue)
      → ((z : Z.Zval) × (r ≡ returned z) × (Z.view (Z.dereference z) ≡ w))
      → take_view Z (from_zval Z fuel) w ≡ got v
      → Rereads (suc fuel) r v
  unfolding from_zval
  seen_result fuel r w v (z, e, s) h = (z, e, ap (take_view Z (from_zval Z fuel)) s ∙ h)

  object :
      (fuel : ℕ) (o : Object) (v : PhpValue)
      → of_object o ≡ got v
      → Rereads (suc fuel) (Z.set_object o) v
  unfolding take_view
  object fuel o v h = seen_result fuel (Z.set_object o) (View.object o) v (law.object o) h

  array :
      (fuel : ℕ) (r : PhpResult (List Z.Zval)) (l : Items)
      → RereadsItems fuel r l
      → Rereads (suc fuel) (r >>= Z.set_array) (PhpValue.list l)
  unfolding from_zval take_view
  array fuel r l (zs, e, s) =
      let (z, t, ez, vz, it) = law.array zs in
      (
        z,
        rw e ez,
        ap (take_view Z (from_zval Z fuel)) vz
            ∙ take_table-list Z (from_zval Z fuel) law t l zs it s,
      )

  table :
      (fuel n : ℕ) (r : PhpResult Z.Table) (m : Pairs)
      → IsKeyed m
      → Adds fuel r (Z.with_capacity n) m
      → Rereads (suc fuel) (r >>= λ t. returned (Z.set_hashtable t)) (array_of m)
  unfolding from_zval take_view
  table fuel n r m k (u, es, e, i, s) = rw e (
    Z.set_hashtable u,
    refl,
    ap (take_view Z (from_zval Z fuel)) (law.hashtable u)
        ∙ take_table-array_of Z (from_zval Z fuel) law u m es k
            (i ∙ ap (λ x. x ++ es) (law.empty n)) s,
  )

  one_more :
      (fuel : ℕ) (t : Z.Table) (k v : PhpValue) (m : Pairs) (r : PhpResult Z.Zval)
      (f : Z.Table → PhpResult Z.Table)
      → IsPhpKey k
      → has_key k m ≡ false
      → IsKeyed m
      → Fresh (pair k v m) (Z.iter t)
      → Rereads fuel r v
      → ((u : Z.Table) → Fresh m (Z.iter u) → Adds fuel (f u) u m)
      → Adds fuel (insert_map_entry Z F t k r >>= f) t (pair k v m)
  one_more fuel t k v m r f i d q (e, fresh) (z, p, h) g =
      let (a, u, ka, eu, iu) = insert_map_entry-put F law k z t i in
      let added : Z.iter u ≡ Z.iter t ++ ((a, z) ∷ []) =
        iu ∙ put-append a z (Z.iter t) (ap (λ x. has_at x (Z.iter t)) ka ∙ e) in
      let (w, es, ew, iw, s) = g u (
        subst (Fresh m) (sym added) (
          Fresh-put m a z (Z.iter t) (subst IsKey (sym ka) (php-IsKey k i))
            (ap (λ x. has_key x m) ka ∙ d) q fresh)) in
      (
        w,
        (a, z) ∷ es,
        rw (p, eu) ew,
        iw ∙ ap (λ x. x ++ es) added ∙ append_assoc (Z.iter t) ((a, z) ∷ []) es,
        (ka, h, s),
      )

  mutual
    unfolding set_zval insert_map_entry as_string take_view

    trip :
        (fuel : ℕ) (v : PhpValue)
        → FitsPhp v
        → depth v < fuel
        → Rereads fuel (set_zval Z F v) (reread v)
    trip zero v p d = absurd (omega arith)
    trip (suc fuel) PhpValue.nil p d = seen fuel Z.set_null View.null PhpValue.nil law.null refl
    trip (suc fuel) (PhpValue.bool true) p d =
        seen fuel (Z.set_bool true) View.is_true (PhpValue.bool true) law.bool_true refl
    trip (suc fuel) (PhpValue.bool false) p d =
        seen fuel (Z.set_bool false) View.is_false (PhpValue.bool false) law.bool_false refl
    trip (suc fuel) (PhpValue.int i) p d =
        seen fuel (Z.set_long i) (View.long (some i)) (PhpValue.int i) (law.long i) refl
    trip (suc fuel) (PhpValue.uint u) p d =
        let fits : leb u i64_max ≡ true = ground arith in
        rw fits (
          seen fuel (Z.set_long (pos u)) (View.long (some (pos u))) (PhpValue.int (pos u))
            (law.long (pos u)) refl)
    trip (suc fuel) (PhpValue.float f) p d =
        seen fuel (Z.set_double f) (View.double (some f)) (PhpValue.float f) (law.double f) refl
    trip (suc fuel) (PhpValue.string s) p d =
        seen_result fuel (Z.set_string s) (View.string (some s)) (PhpValue.string s) (law.string s)
          refl
    trip (suc fuel) (PhpValue.blob b) p d = object fuel (Object.blob b) (PhpValue.blob b) refl
    trip (suc fuel) (PhpValue.list l) p d =
        array fuel (set_items Z F l) (reread_items l) (items_trip fuel l p (omega arith))
    trip (suc fuel) (PhpValue.hash_map m) p d =
        table fuel (count m % 2 ^ 32) (set_pairs Z F m (Z.with_capacity (count m % 2 ^ 32)))
          (reread_pairs m) (reread_pairs-IsKeyed m p)
          (pairs_trip fuel m (Z.with_capacity (count m % 2 ^ 32)) p (omega arith) (
            Fresh-empty (reread_pairs m) (Z.iter (Z.with_capacity (count m % 2 ^ 32)))
              (law.empty (count m % 2 ^ 32))))
    trip (suc fuel) (PhpValue.ordered_map m) p d =
        table fuel (count m % 2 ^ 32) (set_pairs Z F m (Z.with_capacity (count m % 2 ^ 32)))
          (reread_pairs m) (reread_pairs-IsKeyed m p)
          (pairs_trip fuel m (Z.with_capacity (count m % 2 ^ 32)) p (omega arith) (
            Fresh-empty (reread_pairs m) (Z.iter (Z.with_capacity (count m % 2 ^ 32)))
              (law.empty (count m % 2 ^ 32))))
    trip (suc fuel) (PhpValue.json m) p d =
        table fuel (count_fields m % 2 ^ 32)
          (set_fields Z F m (Z.with_capacity (count_fields m % 2 ^ 32))) (reread_fields m)
          (reread_fields-IsKeyed m p)
          (fields_trip fuel m (Z.with_capacity (count_fields m % 2 ^ 32)) p (omega arith) (
            Fresh-empty (reread_fields m) (Z.iter (Z.with_capacity (count_fields m % 2 ^ 32)))
              (law.empty (count_fields m % 2 ^ 32))))
    trip (suc fuel) (PhpValue.geo_json s) p d =
        object fuel (Object.geo_json s) (PhpValue.geo_json s) refl
    trip (suc fuel) (PhpValue.hll b) p d = object fuel (Object.hll b) (PhpValue.hll b) refl
    trip (suc fuel) PhpValue.wildcard p d = object fuel Object.wildcard PhpValue.wildcard refl
    trip (suc fuel) PhpValue.infinity p d = object fuel Object.infinity PhpValue.infinity refl

    items_trip :
        (fuel : ℕ) (l : Items)
        → FitPhp l
        → depth_items l < fuel
        → RereadsItems fuel (set_items Z F l) (reread_items l)
    items_trip fuel no_items p d = ([], refl, tt)
    items_trip fuel (item v l) (p, q) d =
        let (z, e, h) = trip fuel v p (omega arith) in
        let (zs, es, s) = items_trip fuel l q (omega arith) in (z ∷ zs, rw (e, es) refl, (h, s))

    pairs_trip :
        (fuel : ℕ) (m : Pairs) (t : Z.Table)
        → FitPhpMap m
        → depth_pairs m < fuel
        → Fresh (reread_pairs m) (Z.iter t)
        → Adds fuel (set_pairs Z F m t) t (reread_pairs m)
    pairs_trip fuel no_pairs t p d f = (t, [], refl, sym (append-nil (Z.iter t)), tt)
    pairs_trip fuel (pair k v m) t (i, h, p, q) d f =
        one_more fuel t k (reread v) (reread_pairs m) (set_zval Z F v) (set_pairs Z F m) i
          (has_key-reread k m ∙ h) (reread_pairs-IsKeyed m q) f (trip fuel v p (omega arith))
          (λ u g. pairs_trip fuel m u q (omega arith) g)

    fields_trip :
        (fuel : ℕ) (m : Fields) (t : Z.Table)
        → FitPhpJson m
        → depth_fields m < fuel
        → Fresh (reread_fields m) (Z.iter t)
        → Adds fuel (set_fields Z F m t) t (reread_fields m)
    fields_trip fuel no_fields t p d f = (t, [], refl, sym (append-nil (Z.iter t)), tt)
    fields_trip fuel (field k v m) t (i, h, p, q) d f =
        one_more fuel t (PhpValue.string k) (reread v) (reread_fields m) (set_zval Z F v)
          (set_fields Z F m) (text k i) (has_key-fields k m ∙ h) (reread_fields-IsKeyed m q) f
          (trip fuel v p (omega arith)) (λ u g. fields_trip fuel m u q (omega arith) g)

  -- With arrays as PHP documents them, a value whose unsigned integers fit and whose maps have the keys of
  -- PHP arrays, none twice, converts to PHP, and `from_zval` takes what PHP then has for the same value,
  -- given more fuel than lists and maps stand deep: unsigned integers as signed ones, and a map as a map,
  -- or as the list of its values when its keys are 0, 1, 2, … in this order.
  pub from_zval-set_zval :
      (fuel : ℕ) (v : PhpValue)
      → FitsPhp v
      → depth v < fuel
      → (z : Z.Zval) × (set_zval Z F v ≡ returned z) × (from_zval Z fuel z ≡ got (reread v))
  from_zval-set_zval fuel v p d = trip fuel v p d
