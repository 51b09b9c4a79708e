-- ===== src/Values/FromZval/Laws.antt =====
-- What lib.rs relies on in PHP's values and arrays, as their documentation has it.
use aerospike_php_client.Common.{
  ℕ, suc, ◌≡◌, Bool, true, false, ◌&&◌, List, [], ◌∷◌, some, if◌then◌else◌,
}
use aerospike_php_client.Common.Int.{ℤ, pos, ℤ_beq}
use aerospike_php_client.Common.Text.{Text, same}
use aerospike_php_client.Php.{returned}
use aerospike_php_client.Values.Zval.{ArrayKey, Object, View, Zend}

abbrev pub same_array_key : ArrayKey → ArrayKey → Bool
same_array_key (ArrayKey.long i) (ArrayKey.long j) = ℤ_beq i j
same_array_key (ArrayKey.text s) (ArrayKey.text t) = same s t
same_array_key _ _ = false

-- An array is in the order of insertion; an entry under a key that stands is written over.
abbrev pub put : {V : Type 0} → ArrayKey → V → List (ArrayKey × V) → List (ArrayKey × V)
put k v [] = (k, v) ∷ []
put k v ((j, w) ∷ es) = if same_array_key j k then (j, v) ∷ es else (j, w) ∷ put k v es

-- The keys 0, 1, 2, … from a number on, in this order.
abbrev pub in_order : {V : Type 0} → ℕ → List (ArrayKey × V) → Bool
in_order n [] = true
in_order n ((k, v) ∷ es) = same_array_key k (ArrayKey.long (pos n)) && in_order (suc n) es

abbrev pub enumerated : {V : Type 0} → ℕ → List V → List (ArrayKey × V)
enumerated n [] = []
enumerated n (v ∷ vs) = (ArrayKey.long (pos n), v) ∷ enumerated (suc n) vs

pub record Works (Z : Zend) : Type 0 where
  pub null : Z.view (Z.dereference Z.set_null) ≡ View.null
  pub bool_true : Z.view (Z.dereference (Z.set_bool true)) ≡ View.is_true
  pub bool_false : Z.view (Z.dereference (Z.set_bool false)) ≡ View.is_false
  pub long : (i : ℤ) → Z.view (Z.dereference (Z.set_long i)) ≡ View.long (some i)
  pub double : (f : ℕ) → Z.view (Z.dereference (Z.set_double f)) ≡ View.double (some f)
  pub string :
      (s : Text)
      → (z : Z.Zval) × (Z.set_string s ≡ returned z)
        × (Z.view (Z.dereference z) ≡ View.string (some s))
  pub object :
      (o : Object)
      → (z : Z.Zval) × (Z.set_object o ≡ returned z) × (Z.view (Z.dereference z) ≡ View.object o)
  pub hashtable : (t : Z.Table) → Z.view (Z.dereference (Z.set_hashtable t)) ≡ View.array (some t)
  pub array :
      (zs : List Z.Zval)
      → (z : Z.Zval) × (t : Z.Table) × (Z.set_array zs ≡ returned z)
        × (Z.view (Z.dereference z) ≡ View.array (some t))
        × (Z.iter t ≡ enumerated 0 zs)
  pub sequential : (t : Z.Table) → Z.has_sequential_keys t ≡ in_order 0 (Z.iter t)
  pub empty : (n : ℕ) → Z.iter (Z.with_capacity n) ≡ []
  pub at_index :
      (i : ℤ) (z : Z.Zval) (t : Z.Table)
      → (u : Z.Table) × (Z.insert_at_index i z t ≡ returned u)
        × (Z.iter u ≡ put (ArrayKey.long i) z (Z.iter t))
  pub at_key :
      (s : Text) (z : Z.Zval) (t : Z.Table)
      → (u : Z.Table) × (Z.insert s z t ≡ returned u)
        × (Z.iter u ≡ put (ArrayKey.text s) z (Z.iter t))
