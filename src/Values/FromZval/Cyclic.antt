-- ===== src/Values/FromZval/Cyclic.antt =====
-- A PHP array that holds itself by reference, under `from_zval` of lib.rs.
use aerospike_php_client.Common.{
  ℕ, zero, suc, ◌≡◌, refl, ap, ◌∙◌, List, ◌∷◌, some, inl, inr, Bool-cases,
}
use aerospike_php_client.Values.Value.{PhpValue}
use aerospike_php_client.Values.Zval.{ArrayKey, View, Zend}
use aerospike_php_client.Values.FromZval.{
  Taken, exhausted, take_items, take_pairs, take_table, take_view, from_zval,
}

module _ (Z : Zend) where
  table_exhausted :
      (from : Z.Zval → Taken PhpValue) (t : Z.Table) (k : ArrayKey) (z : Z.Zval)
      (es : List (ArrayKey × Z.Zval))
      → Z.iter t ≡ (k, z) ∷ es
      → from z ≡ exhausted
      → take_table Z from (some t) ≡ exhausted
  unfolding take_table take_items take_pairs
  table_exhausted from t k z es i e = elim (Bool-cases (Z.has_sequential_keys t)) [
    | inl s ↦ rw (s, i, e) refl
    | inr s ↦ rw (s, i, e) refl
  ]

  -- An array whose first element is a reference to the array itself has no value: however deep `from_zval`
  -- goes, it does not come to an end.
  pub from_zval-cyclic :
      (fuel : ℕ) (self inner : Z.Zval) (t : Z.Table) (k : ArrayKey) (es : List (ArrayKey × Z.Zval))
      → Z.view (Z.dereference self) ≡ View.array (some t)
      → Z.iter t ≡ (k, inner) ∷ es
      → Z.dereference inner ≡ Z.dereference self
      → from_zval Z fuel self ≡ exhausted
  unfolding from_zval take_view
  from_zval-cyclic zero self inner t k es v i d = refl
  from_zval-cyclic (suc fuel) self inner t k es v i d =
      ap (take_view Z (from_zval Z fuel)) v
      ∙ table_exhausted (from_zval Z fuel) t k inner es i
          (from_zval-cyclic fuel inner inner t k es (ap Z.view d ∙ v) i refl)
