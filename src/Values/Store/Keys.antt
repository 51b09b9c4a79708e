-- ===== src/Values/Store/Keys.antt =====
-- The keys of maps in lib.rs: those that PHP arrays have, and `collect` of entries with different keys.
use aerospike_php_client.Common.{◌≡◌, refl, sym, ap, ◌∙◌, Bool, true, false, ◌||◌, arith}
use aerospike_php_client.Common.Int.{ℤ, ℤ_beq_iff}
use aerospike_php_client.Common.Text.{Text, same, same_iff}
use aerospike_php_client.Values.Value.{
  PhpValue, Pairs, no_pairs, pair, Fields, no_fields, field, collect, insert_pair, same_value,
}

-- The keys that a PHP array can have.
pub data IsKey : PhpValue → Type 0 where
  int_key : (i : ℤ) → IsKey (PhpValue.int i)
  string_key : (s : Text) → IsKey (PhpValue.string s)

abbrev pub has_key : PhpValue → Pairs → Bool
has_key k no_pairs = false
has_key k (pair j v m) = same_value j k || has_key k m

abbrev pub has_name : Text → Fields → Bool
has_name k no_fields = false
has_name k (field j v m) = same j k || has_name k m

-- Keys of PHP arrays, none twice.
abbrev pub IsKeyed : Pairs → Type 0
IsKeyed no_pairs = Unit
IsKeyed (pair k v m) = IsKey k × (has_key k m ≡ false) × IsKeyed m

pub same-key_refl : (k : PhpValue) → IsKey k → same_value k k ≡ true
unfolding same_value
same-key_refl _ (int_key i) = (ℤ_beq_iff i i).1 refl
same-key_refl _ (string_key s) = (same_iff s s).1 refl

pub different-key :
    (j k : PhpValue) → IsKey j → IsKey k → same_value j k ≡ false → same_value k j ≡ false
unfolding same_value
different-key _ _ (int_key i) (int_key j) h = ground (arith, ℤ_beq_iff i j, ℤ_beq_iff j i)
different-key _ _ (int_key i) (string_key t) h = refl
different-key _ _ (string_key s) (int_key j) h = refl
different-key _ _ (string_key s) (string_key t) h = ground (arith, same_iff s t, same_iff t s)

append : Pairs → Pairs → Pairs
append no_pairs b = b
append (pair k v a) b = pair k v (append a b)

insert-append :
    (k v : PhpValue) (a : Pairs)
    → has_key k a ≡ false
    → insert_pair k v a ≡ append a (pair k v no_pairs)
unfolding insert_pair append
insert-append k v no_pairs h = refl
insert-append k v (pair j w a) h = ground (arith, insert-append k v a)

append_assoc : (a b c : Pairs) → append (append a b) c ≡ append a (append b c)
unfolding append
append_assoc no_pairs b c = refl
append_assoc (pair k v a) b c = ap (pair k v) (append_assoc a b c)

append-empty : (a : Pairs) → append a no_pairs ≡ a
unfolding append
append-empty no_pairs = refl
append-empty (pair k v a) = ap (pair k v) (append-empty a)

has_key-append :
    (k : PhpValue) (a b : Pairs) → has_key k (append a b) ≡ (has_key k a || has_key k b)
unfolding append
has_key-append k no_pairs b = refl
has_key-append k (pair j v a) b = ground (arith, has_key-append k a b)

-- No key of the second stands in the first.
abbrev Fresh : Pairs → Pairs → Type 0
Fresh a no_pairs = Unit
Fresh a (pair k v m) = (has_key k a ≡ false) × Fresh a m

Fresh-append :
    (a m : Pairs) (k v : PhpValue)
    → IsKey k
    → has_key k m ≡ false
    → IsKeyed m
    → Fresh a m
    → Fresh (append a (pair k v no_pairs)) m
Fresh-append a no_pairs k v p h q f = tt
Fresh-append a (pair j w m) k v p h (i, d, q) (e, f) = (
  has_key-append j a (pair k v no_pairs) ∙ ground (arith, different-key j k i p),
  Fresh-append a m k v p (ground arith) q f,
)

collect-append : (a m : Pairs) → IsKeyed m → Fresh a m → collect a m ≡ append a m
unfolding collect append
collect-append a no_pairs q f = sym (append-empty a)
collect-append a (pair k v m) (i, d, q) (e, f) =
    ap (λ b. collect b m) (insert-append k v a e)
    ∙ collect-append (append a (pair k v no_pairs)) m q (Fresh-append a m k v i d q f)
    ∙ append_assoc a (pair k v no_pairs) m

Fresh-empty : (m : Pairs) → Fresh no_pairs m
Fresh-empty no_pairs = tt
Fresh-empty (pair k v m) = (refl, Fresh-empty m)

-- Entries with different keys are collected as they are.
pub collect-IsKeyed : (m : Pairs) → IsKeyed m → collect no_pairs m ≡ m
unfolding append
collect-IsKeyed m q = collect-append no_pairs m q (Fresh-empty m)
