-- ===== src/Values/FromZval/Reads.antt =====
-- `from_zval` of lib.rs on an array, by the values of its elements.
use aerospike_php_client.Common.{
  ℕ, suc, ◌≡◌, refl, ap, ◌∙◌, Bool, true, ◌&&◌, List, [], ◌∷◌, some, if◌then◌else◌, inl, inr,
  Bool-cases,
}
use aerospike_php_client.Common.Int.{pos, ℤ_beq_iff}
use aerospike_php_client.Values.Value.{
  PhpValue, Items, no_items, item, Pairs, no_pairs, pair, insert_pair, collect, same_value,
}
use aerospike_php_client.Values.Store.Keys.{IsKeyed, collect-IsKeyed}
use aerospike_php_client.Values.Zval.{ArrayKey, Zend}
use aerospike_php_client.Values.FromZval.{Taken, got, take_items, take_pairs, take_table, key_of}
use aerospike_php_client.Values.FromZval.Laws.{same_array_key, in_order, enumerated, Works}

-- The keys 0, 1, 2, … from a number on, in this order.
abbrev pub has_numbers : ℕ → Pairs → Bool
has_numbers n no_pairs = true
has_numbers n (pair k v m) = same_value k (PhpValue.int (pos n)) && has_numbers (suc n) m

abbrev pub values : Pairs → Items
values no_pairs = no_items
values (pair k v m) = item v (values m)

-- The value that `from_zval` takes an array with these entries for.
abbrev pub array_of : Pairs → PhpValue
array_of m = if has_numbers 0 m then PhpValue.list (values m) else PhpValue.hash_map m

pub same_array_key-same_value :
    (a b : ArrayKey) → same_array_key a b ≡ same_value (key_of a) (key_of b)
unfolding same_value
same_array_key-same_value (ArrayKey.long i) (ArrayKey.long j) = refl
same_array_key-same_value (ArrayKey.long i) (ArrayKey.text t) = refl
same_array_key-same_value (ArrayKey.text s) (ArrayKey.long j) = refl
same_array_key-same_value (ArrayKey.text s) (ArrayKey.text t) = refl

module _ {V : Type 0} (from : V → Taken PhpValue) where
  -- The elements read as these entries, and as these items.
  abbrev pub Shows : Pairs → List (ArrayKey × V) → Type 0
  Shows no_pairs [] = Unit
  Shows (pair k v m) ((a, z) ∷ es) = (key_of a ≡ k) × (from z ≡ got v) × Shows m es
  Shows _ _ = ⊥

  abbrev pub ShowsItems : Items → List V → Type 0
  ShowsItems no_items [] = Unit
  ShowsItems (item v l) (z ∷ zs) = (from z ≡ got v) × ShowsItems l zs
  ShowsItems _ _ = ⊥

  in_order-has_numbers :
      (n : ℕ) (m : Pairs) (es : List (ArrayKey × V)) → Shows m es → in_order n es ≡ has_numbers n m
  in_order-has_numbers n no_pairs [] s = refl
  in_order-has_numbers n no_pairs (e ∷ es) s = absurd s
  in_order-has_numbers n (pair k v m) [] s = absurd s
  in_order-has_numbers n (pair k v m) ((a, z) ∷ es) (q, f, s) =
      rw
        (
          same_array_key-same_value a (ArrayKey.long (pos n)),
          q,
          in_order-has_numbers (suc n) m es s,
        )
        refl

in_order-enumerated : {V : Type 0} (n : ℕ) (zs : List V) → in_order n (enumerated n zs) ≡ true
in_order-enumerated n [] = refl
in_order-enumerated n (z ∷ zs) =
    rw ((ℤ_beq_iff (pos n) (pos n)).1 refl, in_order-enumerated (suc n) zs) refl

module _ (Z : Zend) (from : Z.Zval → Taken PhpValue) where
  take_pairs-collect :
      (h m : Pairs) (es : List (ArrayKey × Z.Zval))
      → Shows from m es
      → take_pairs Z from h es ≡ got (collect h m)
  unfolding take_pairs collect
  take_pairs-collect h no_pairs [] s = refl
  take_pairs-collect h no_pairs (e ∷ es) s = absurd s
  take_pairs-collect h (pair k v m) [] s = absurd s
  take_pairs-collect h (pair k v m) ((a, z) ∷ es) (q, f, s) =
      rw (f, q) (take_pairs-collect (insert_pair k v h) m es s)

  take_items-values :
      (m : Pairs) (es : List (ArrayKey × Z.Zval))
      → Shows from m es
      → take_items Z from es ≡ got (values m)
  unfolding take_items
  take_items-values no_pairs [] s = refl
  take_items-values no_pairs (e ∷ es) s = absurd s
  take_items-values (pair k v m) [] s = absurd s
  take_items-values (pair k v m) ((a, z) ∷ es) (q, f, s) = rw (f, take_items-values m es s) refl

  take_items-enumerated :
      (n : ℕ) (l : Items) (zs : List Z.Zval)
      → ShowsItems from l zs
      → take_items Z from (enumerated n zs) ≡ got l
  unfolding take_items
  take_items-enumerated n no_items [] s = refl
  take_items-enumerated n no_items (z ∷ zs) s = absurd s
  take_items-enumerated n (item v l) [] s = absurd s
  take_items-enumerated n (item v l) (z ∷ zs) (f, s) =
      rw (f, take_items-enumerated (suc n) l zs s) refl

  module _ (law : Works Z) where
    pub take_table-array_of :
        (t : Z.Table) (m : Pairs) (es : List (ArrayKey × Z.Zval))
        → IsKeyed m
        → Z.iter t ≡ es
        → Shows from m es
        → take_table Z from (some t) ≡ got (array_of m)
    unfolding take_table
    take_table-array_of t m es k i s =
        let q = law.sequential t ∙ ap (in_order 0) i ∙ in_order-has_numbers from 0 m es s in
        elim (Bool-cases (has_numbers 0 m)) [
          | inl list_like ↦ rw (q, i, list_like, take_items-values m es s) refl
          | inr keyed ↦
              rw (q, i, keyed, take_pairs-collect no_pairs m es s)
                (ap (λ x. got (PhpValue.hash_map x)) (collect-IsKeyed m k))
        ]

    pub take_table-list :
        (t : Z.Table) (l : Items) (zs : List Z.Zval)
        → Z.iter t ≡ enumerated 0 zs
        → ShowsItems from l zs
        → take_table Z from (some t) ≡ got (PhpValue.list l)
    unfolding take_table
    take_table-list t l zs i s =
        rw (law.sequential t, i, in_order-enumerated 0 zs, take_items-enumerated 0 l zs s) refl
