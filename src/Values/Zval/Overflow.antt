-- ===== src/Values/Zval/Overflow.antt =====
-- The two ways out of a `PHPValue` of lib.rs, to PHP and to the crate, refuse the same values.
use aerospike_php_client.Common.{
  ℕ, ◌≡◌, refl, ap, subst, sym, inl, inr, Bool, true, false, ◌||◌, ◌%◌, ◌^◌, leb, List, ◌∷◌, some,
  none, Option, Bool-cases,
}
use aerospike_php_client.Common.Int.{ℤ, pos, i64_max}
use aerospike_php_client.Common.Text.{Text}
use aerospike_php_client.Php.{PhpResult, returned, threw, ◌>>=◌, integer_overflow}
use aerospike_php_client.Values.NumericKey.{php_numeric_string_key}
use aerospike_php_client.Values.Value.{
  PhpValue, Items, no_items, item, Pairs, no_pairs, pair, Fields, no_fields, field, count,
  count_fields,
}
use aerospike_php_client.Values.Store.{Crate, to_aero, items_to_aero, pairs_to_aero, fields_to_aero}
use aerospike_php_client.Values.Zval.{
  Zend, Object, Formats, insert_under, insert_string_key, insert_map_entry, as_string, set_zval,
  set_items, set_pairs, set_fields,
}

-- PHP refuses no text, no object, no list and no entry of a table.
pub record Accepts (Z : Zend) : Type 0 where
  pub text : (s : Text) → (z : Z.Zval) × (Z.set_string s ≡ returned z)
  pub list : (zs : List Z.Zval) → (z : Z.Zval) × (Z.set_array zs ≡ returned z)
  pub object : (o : Object) → (z : Z.Zval) × (Z.set_object o ≡ returned z)
  pub at_index :
      (i : ℤ) (z : Z.Zval) (t : Z.Table) → (u : Z.Table) × (Z.insert_at_index i z t ≡ returned u)
  pub at_key : (s : Text) (z : Z.Zval) (t : Z.Table) → (u : Z.Table) × (Z.insert s z t ≡ returned u)

-- Neither a list nor a map.
abbrev pub IsFlat : PhpValue → Type 0
IsFlat (PhpValue.list l) = ⊥
IsFlat (PhpValue.hash_map m) = ⊥
IsFlat (PhpValue.ordered_map m) = ⊥
IsFlat (PhpValue.json m) = ⊥
IsFlat _ = Unit

abbrev mutual
  -- No map inside has a list or a map as a key.
  pub HasFlatKeys : PhpValue → Type 0
  HasFlatKeys (PhpValue.list l) = HaveFlatKeys l
  HasFlatKeys (PhpValue.hash_map m) = AreFlatKeyed m
  HasFlatKeys (PhpValue.ordered_map m) = AreFlatKeyed m
  HasFlatKeys (PhpValue.json m) = AreFlatFields m
  HasFlatKeys _ = Unit

  pub HaveFlatKeys : Items → Type 0
  HaveFlatKeys no_items = Unit
  HaveFlatKeys (item v l) = HasFlatKeys v × HaveFlatKeys l

  pub AreFlatKeyed : Pairs → Type 0
  AreFlatKeyed no_pairs = Unit
  AreFlatKeyed (pair k v m) = IsFlat k × HasFlatKeys v × AreFlatKeyed m

  pub AreFlatFields : Fields → Type 0
  AreFlatFields no_fields = Unit
  AreFlatFields (field k v m) = HasFlatKeys v × AreFlatFields m

-- The result is the exception for an integer that does not fit exactly when the flag is set.
abbrev pub Agrees : {A : Type 0} → PhpResult A → Bool → Type 0
Agrees (returned a) b = b ≡ false
Agrees (threw e) b = (e ≡ integer_overflow) × (b ≡ true)

returned-Agrees : {A : Type 0} (r : PhpResult A) → ((a : A) × (r ≡ returned a)) → Agrees r false
returned-Agrees r (a, e) = subst (λ x. Agrees x false) (sym e) refl

bind-Agrees :
    {A B : Type 0} (r : PhpResult A) (f : A → PhpResult B) (b c : Bool)
    → Agrees r b
    → ((a : A) → Agrees (f a) c)
    → Agrees (r >>= f) (b || c)
bind-Agrees (returned a) f b c h g = subst (λ x. Agrees (f a) (x || c)) (sym h) (g a)
bind-Agrees (threw e) f b c h g = (h.0, ap (λ x. x || c) h.1)

last-Agrees :
    {A B : Type 0} (r : PhpResult A) (f : A → PhpResult B) (b : Bool)
    → Agrees r b
    → ((a : A) → (x : B) × (f a ≡ returned x))
    → Agrees (r >>= f) b
last-Agrees (returned a) f b h g = subst (Agrees (f a)) (sym h) (returned-Agrees (f a) (g a))
last-Agrees (threw e) f b h g = h

module _ {Z : Zend} (F : Formats) (K : Crate) (law : Accepts Z) where
  insert_under-accepted :
      (i : Option ℤ) (s : Text) (z : Z.Zval) (t : Z.Table)
      → (u : Z.Table) × (insert_under Z F i s z t ≡ returned u)
  insert_under-accepted none s z t = law.at_key s z t
  insert_under-accepted (some i) s z t = law.at_index i z t

  string_key-Agrees :
      (t : Z.Table) (s : Text) (z : PhpResult Z.Zval) (b : Bool)
      → Agrees z b
      → Agrees (insert_string_key Z F t s z) b
  unfolding insert_string_key
  string_key-Agrees t s z b h =
      last-Agrees z (λ x. insert_under Z F (php_numeric_string_key s) s x t) b h
        (λ x. insert_under-accepted (php_numeric_string_key s) s x t)

  uint_key-Agrees :
      (t : Z.Table) (u : ℕ) (z : PhpResult Z.Zval) (b : Bool)
      → Agrees z b
      → Agrees (insert_map_entry Z F t (PhpValue.uint u) z) ((to_aero K (PhpValue.uint u)).1 || b)
  unfolding insert_map_entry to_aero
  uint_key-Agrees t u z b h = elim (Bool-cases (leb u i64_max)) [
    | inl fits ↦
        rw fits
          (last-Agrees z (λ x. Z.insert_at_index (pos u) x t) b h (λ x. law.at_index (pos u) x t))
    | inr over ↦ rw over (refl, refl)
  ]

  entry-Agrees :
      (t : Z.Table) (k : PhpValue) (z : PhpResult Z.Zval) (b : Bool)
      → IsFlat k
      → Agrees z b
      → Agrees (insert_map_entry Z F t k z) ((to_aero K k).1 || b)
  unfolding insert_map_entry to_aero
  entry-Agrees t (PhpValue.int i) z b p h =
      last-Agrees z (λ x. Z.insert_at_index i x t) b h (λ x. law.at_index i x t)
  entry-Agrees t (PhpValue.uint u) z b p h = uint_key-Agrees t u z b h
  entry-Agrees t (PhpValue.list l) z b p h = absurd p
  entry-Agrees t (PhpValue.hash_map m) z b p h = absurd p
  entry-Agrees t (PhpValue.ordered_map m) z b p h = absurd p
  entry-Agrees t (PhpValue.json m) z b p h = absurd p
  entry-Agrees t k z b p h = string_key-Agrees t (as_string F k) z b h

  mutual
    unfolding to_aero set_zval

    value-Agrees : (v : PhpValue) → HasFlatKeys v → Agrees (set_zval Z F v) (to_aero K v).1
    value-Agrees PhpValue.nil p = refl
    value-Agrees (PhpValue.bool b) p = refl
    value-Agrees (PhpValue.int i) p = refl
    value-Agrees (PhpValue.uint u) p = elim (Bool-cases (leb u i64_max)) [
      | inl fits ↦ rw fits refl
      | inr over ↦ rw over (refl, refl)
    ]
    value-Agrees (PhpValue.float f) p = refl
    value-Agrees (PhpValue.string s) p = returned-Agrees (Z.set_string s) (law.text s)
    value-Agrees (PhpValue.blob b) p =
        returned-Agrees (Z.set_object (Object.blob b)) (law.object (Object.blob b))
    value-Agrees (PhpValue.list l) p =
        last-Agrees (set_items Z F l) Z.set_array (items_to_aero K l).1 (items-Agrees l p) law.list
    value-Agrees (PhpValue.hash_map m) p =
        last-Agrees (set_pairs Z F m (Z.with_capacity (count m % 2 ^ 32)))
          (λ t. returned (Z.set_hashtable t)) (pairs_to_aero K m).1
          (pairs-Agrees m (Z.with_capacity (count m % 2 ^ 32)) p) (λ t. (Z.set_hashtable t, refl))
    value-Agrees (PhpValue.ordered_map m) p =
        last-Agrees (set_pairs Z F m (Z.with_capacity (count m % 2 ^ 32)))
          (λ t. returned (Z.set_hashtable t)) (pairs_to_aero K m).1
          (pairs-Agrees m (Z.with_capacity (count m % 2 ^ 32)) p) (λ t. (Z.set_hashtable t, refl))
    value-Agrees (PhpValue.json m) p =
        last-Agrees (set_fields Z F m (Z.with_capacity (count_fields m % 2 ^ 32)))
          (λ t. returned (Z.set_hashtable t)) (fields_to_aero K m).1
          (fields-Agrees m (Z.with_capacity (count_fields m % 2 ^ 32)) p)
          (λ t. (Z.set_hashtable t, refl))
    value-Agrees (PhpValue.geo_json s) p =
        returned-Agrees (Z.set_object (Object.geo_json s)) (law.object (Object.geo_json s))
    value-Agrees (PhpValue.hll b) p =
        returned-Agrees (Z.set_object (Object.hll b)) (law.object (Object.hll b))
    value-Agrees PhpValue.wildcard p =
        returned-Agrees (Z.set_object Object.wildcard) (law.object Object.wildcard)
    value-Agrees PhpValue.infinity p =
        returned-Agrees (Z.set_object Object.infinity) (law.object Object.infinity)

    items-Agrees : (l : Items) → HaveFlatKeys l → Agrees (set_items Z F l) (items_to_aero K l).1
    items-Agrees no_items p = refl
    items-Agrees (item v l) (p, q) =
        bind-Agrees (set_zval Z F v) (λ z. set_items Z F l >>= λ zs. returned (z ∷ zs))
          (to_aero K v).1 (items_to_aero K l).1 (value-Agrees v p)
          (λ z.
            last-Agrees (set_items Z F l) (λ zs. returned (z ∷ zs)) (items_to_aero K l).1
              (items-Agrees l q) (λ zs. (z ∷ zs, refl)))

    pairs-Agrees :
        (m : Pairs) (t : Z.Table)
        → AreFlatKeyed m
        → Agrees (set_pairs Z F m t) (pairs_to_aero K m).1
    pairs-Agrees no_pairs t p = refl
    pairs-Agrees (pair k v m) t (i, p, q) =
        bind-Agrees (insert_map_entry Z F t k (set_zval Z F v)) (set_pairs Z F m)
          ((to_aero K k).1 || (to_aero K v).1) (pairs_to_aero K m).1
          (entry-Agrees t k (set_zval Z F v) (to_aero K v).1 i (value-Agrees v p))
          (λ u. pairs-Agrees m u q)

    fields-Agrees :
        (m : Fields) (t : Z.Table)
        → AreFlatFields m
        → Agrees (set_fields Z F m t) (fields_to_aero K m).1
    fields-Agrees no_fields t p = refl
    fields-Agrees (field k v m) t (p, q) =
        bind-Agrees (insert_string_key Z F t k (set_zval Z F v)) (set_fields Z F m) (to_aero K v).1
          (fields_to_aero K m).1
          (string_key-Agrees t k (set_zval Z F v) (to_aero K v).1 (value-Agrees v p))
          (λ u. fields-Agrees m u q)
