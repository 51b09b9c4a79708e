-- ===== src/Values/Sample.antt =====
-- PHP's values and arrays as data: an array is the list of its entries, in the order of insertion.
use aerospike_php_client.Common.{
  ℕ, suc, ◌<◌, ◌≡◌, refl, ap, Bool, true, false, List, [], ◌∷◌, some, if◌then◌else◌, inl, inr,
  Bool-cases,
}
use aerospike_php_client.Common.Int.{ℤ, pos}
use aerospike_php_client.Common.Text.{Text}
use aerospike_php_client.Php.{returned}
use aerospike_php_client.Values.Aero.{f64_bits, AeroValue}
use aerospike_php_client.Values.Store.{Crate}
use aerospike_php_client.Values.Store.Plain.{Keeps}
use aerospike_php_client.Values.Zval.{ArrayKey, Object, View, Zend, Formats}
use aerospike_php_client.Values.Zval.Overflow.{Accepts}
use aerospike_php_client.Values.FromZval.Laws.{same_array_key, put, in_order, enumerated, Works}

mutual
  pub data Zval : Type 0 where
    null : Zval
    bool : Bool → Zval
    long : ℤ → Zval
    double : ℕ → Zval
    string : Text → Zval
    object : Object → Zval
    array : Table → Zval

  pub data Table : Type 0 where
    empty : Table
    entry : ArrayKey → Zval → Table → Table

abbrev pub view : Zval → View Table
view Zval.null = View.null
view (Zval.bool true) = View.is_true
view (Zval.bool false) = View.is_false
view (Zval.long i) = View.long (some i)
view (Zval.double f) = View.double (some f)
view (Zval.string s) = View.string (some s)
view (Zval.object o) = View.object o
view (Zval.array t) = View.array (some t)

abbrev pub iter : Table → List (ArrayKey × Zval)
iter empty = []
iter (entry k z t) = (k, z) ∷ iter t

abbrev pub put_at : ArrayKey → Zval → Table → Table
put_at k z empty = entry k z empty
put_at k z (entry j w t) = if same_array_key j k then entry j z t else entry j w (put_at k z t)

abbrev pub table_of : ℕ → List Zval → Table
table_of n [] = empty
table_of n (z ∷ zs) = entry (ArrayKey.long (pos n)) z (table_of (suc n) zs)

abbrev pub zend : Zend
zend = record {
  Zval = Zval;
  Table = Table;
  set_null = Zval.null;
  set_bool = Zval.bool;
  set_long = Zval.long;
  set_double = Zval.double;
  set_string = λ s. returned (Zval.string s);
  set_array = λ zs. returned (Zval.array (table_of 0 zs));
  set_hashtable = Zval.array;
  set_object = λ o. returned (Zval.object o);
  with_capacity = λ n. empty;
  insert_at_index = λ i z t. returned (put_at (ArrayKey.long i) z t);
  insert = λ s z t. returned (put_at (ArrayKey.text s) z t);
  dereference = λ z. z;
  view = view;
  has_sequential_keys = λ t. in_order 0 (iter t);
  iter = iter;
}

iter-put_at : (k : ArrayKey) (z : Zval) (t : Table) → iter (put_at k z t) ≡ put k z (iter t)
iter-put_at k z empty = refl
iter-put_at k z (entry j w t) = elim (Bool-cases (same_array_key j k)) [
  | inl e ↦ rw e refl
  | inr e ↦ rw (e, iter-put_at k z t) refl
]

iter-table_of : (n : ℕ) (zs : List Zval) → iter (table_of n zs) ≡ enumerated n zs
iter-table_of n [] = refl
iter-table_of n (z ∷ zs) = ap (λ l. (ArrayKey.long (pos n), z) ∷ l) (iter-table_of (suc n) zs)

pub works : Works zend
works = record {
  null = refl;
  bool_true = refl;
  bool_false = refl;
  long = λ i. refl;
  double = λ f. refl;
  string = λ s. (Zval.string s, refl, refl);
  object = λ o. (Zval.object o, refl, refl);
  hashtable = λ t. refl;
  array = λ zs. (Zval.array (table_of 0 zs), table_of 0 zs, refl, refl, iter-table_of 0 zs);
  sequential = λ t. refl;
  empty = λ n. refl;
  at_index = λ i z t. (put_at (ArrayKey.long i) z t, refl, iter-put_at (ArrayKey.long i) z t);
  at_key = λ s z t. (put_at (ArrayKey.text s) z t, refl, iter-put_at (ArrayKey.text s) z t);
}

pub accepts : Accepts zend
accepts = record {
  text = λ s. (Zval.string s, refl);
  list = λ zs. (Zval.array (table_of 0 zs), refl);
  object = λ o. (Zval.object o, refl);
  at_index = λ i z t. (put_at (ArrayKey.long i) z t, refl);
  at_key = λ s z t. (put_at (ArrayKey.text s) z t, refl);
}

-- No text is written for what the tests do not use as a key.
abbrev pub formats : Formats
formats = record {
  float = λ f. [];
  debug_bytes = λ b. [];
  debug_items = λ l. [];
  debug_map = λ m. [];
  debug_pairs = λ m. [];
  debug_fields = λ m. [];
}

abbrev pub crate : Crate
crate = record {
  float_value = f64_bits;
  widen = λ b. b;
  hash_map_of = λ m. m;
  btree_map_of = λ m. m;
}

abbrev pub Precedes : AeroValue → AeroValue → Type 0
Precedes (AeroValue.int (pos i)) (AeroValue.int (pos j)) = i < j
Precedes _ _ = ⊥

abbrev pub keeps : Keeps crate
keeps = record {
  Precedes = Precedes;
  float_bits = λ b. refl;
  kept = λ m d. refl;
  sorted = λ m a. refl;
}

-- An array that holds a reference to itself, and nothing else.
abbrev pub cyclic : Zend
cyclic = record {
  Zval = Unit;
  Table = Unit;
  set_null = tt;
  set_bool = λ b. tt;
  set_long = λ i. tt;
  set_double = λ f. tt;
  set_string = λ s. returned tt;
  set_array = λ zs. returned tt;
  set_hashtable = λ t. tt;
  set_object = λ o. returned tt;
  with_capacity = λ n. tt;
  insert_at_index = λ i z t. returned tt;
  insert = λ s z t. returned tt;
  dereference = λ z. tt;
  view = λ z. View.array (some tt);
  has_sequential_keys = λ t. true;
  iter = λ t. (ArrayKey.long (pos 0), tt) ∷ [];
}
