-- ===== src/Values/Canonical.antt =====
-- `php_numeric_string_key` of lib.rs decides which texts are the decimal writing of an `i64`.
use mathlib.Core.Option.{some-injective}
use aerospike_php_client.Common.{
  ℕ, zero, suc, ◌-◌, ◌<◌, ◌≡◌, ◌≢◌, refl, ◌∙◌, sym, ◌↔◌, ◌⊎◌, inl, inr, [], ◌∷◌, some, true, false,
  arith, ◌==◌, Bool-cases,
}
use aerospike_php_client.Common.Int.{ℤ, pos, negsuc, IsI64}
use aerospike_php_client.Common.Text.{Text, same}
use aerospike_php_client.Hosts.{all_digits}
use aerospike_php_client.Values.Decimal.{
  show, read, read-show, show-digits, show-IsPositive, IsPositive, show-read_positive,
}
use aerospike_php_client.Values.NumericKey.{in_range, php_numeric_string_key}

-- The decimal writing of an integer.
unfoldable pub show_ℤ : ℤ → Text
show_ℤ (pos n) = show n
show_ℤ (negsuc n) = b'-' ∷ show (suc n)

key-positive :
    (t : Text)
    → all_digits t ≡ true
    → IsPositive t
    → php_numeric_string_key t ≡ in_range false (read 0 t)
unfolding php_numeric_string_key all_digits same
key-positive [] d p = absurd p
key-positive (c ∷ s) d p = ground arith

key-minus :
    (t : Text)
    → all_digits t ≡ true
    → IsPositive t
    → php_numeric_string_key (b'-' ∷ t) ≡ in_range true (read 0 t)
unfolding php_numeric_string_key all_digits same
key-minus [] d p = absurd p
key-minus (c ∷ s) d p = ground arith

key-minus_inv :
    (t : Text) {i : ℤ}
    → php_numeric_string_key (b'-' ∷ t) ≡ some i
    → (all_digits t ≡ true) × IsPositive t
unfolding php_numeric_string_key all_digits same
key-minus_inv [] h = absurd (ground arith)
key-minus_inv (c ∷ []) h = (ground arith, λ e. ground arith)
key-minus_inv (c ∷ d ∷ s) h = (ground arith, λ e. ground arith)

key-plain_inv :
    (c : ℕ) (s : Text) {i : ℤ}
    → c ≢ b'-'
    → php_numeric_string_key (c ∷ s) ≡ some i
    → (all_digits (c ∷ s) ≡ true) × ((c ≢ b'0') ⊎ (s ≡ []))
unfolding php_numeric_string_key all_digits same
key-plain_inv c [] n h = (ground arith, inr refl)
key-plain_inv c (d ∷ s) n h = (ground arith, inl (λ e. ground arith))

key-zero : (c : ℕ) → c ≡ b'0' → php_numeric_string_key (c ∷ []) ≡ some (pos 0)
unfolding php_numeric_string_key all_digits same read
key-zero c e = rw e

range-plain : (n : ℕ) {i : ℤ} → in_range false n ≡ some i → (i ≡ pos n) × IsI64 (pos n)
unfolding in_range
range-plain n h = ground arith

range-minus :
    (n : ℕ) {i : ℤ}
    → 0 < n
    → in_range true n ≡ some i
    → (i ≡ negsuc (n - 1)) × IsI64 (negsuc (n - 1))
unfolding in_range
range-minus n p h = ground arith

key_sound_minus :
    (t : Text) {i : ℤ}
    → php_numeric_string_key (b'-' ∷ t) ≡ some i
    → (b'-' ∷ t ≡ show_ℤ i) × IsI64 i
unfolding show_ℤ
key_sound_minus t {i} h =
    let (d, p) = key-minus_inv t h in
    let (w, q) = show-read_positive t d p in
    let (e, r) = range-minus (read 0 t) q (sym (key-minus t d p) ∙ h) in
    let f : suc (read 0 t - 1) ≡ read 0 t = omega arith in rw e (rw (f, w) refl, r)

key_sound_positive :
    (t : Text) {i : ℤ}
    → all_digits t ≡ true
    → IsPositive t
    → php_numeric_string_key t ≡ some i
    → (t ≡ show_ℤ i) × IsI64 i
unfolding show_ℤ
key_sound_positive t {i} d p h =
    let (w, q) = show-read_positive t d p in
    let (e, r) = range-plain (read 0 t) (sym (key-positive t d p) ∙ h) in rw e (sym w, r)

key_sound_zero :
    (c : ℕ) {i : ℤ}
    → c ≡ b'0'
    → php_numeric_string_key (c ∷ []) ≡ some i
    → (c ∷ [] ≡ show_ℤ i) × IsI64 i
unfolding show_ℤ show
key_sound_zero c {i} e h =
    let q : pos 0 ≡ i = some-injective _ _ (sym (key-zero c e) ∙ h) in
    rw (← q, e) (refl, omega arith)

key-empty : {i : ℤ} → php_numeric_string_key [] ≡ some i → ⊥
unfolding php_numeric_string_key
key-empty h = ground arith

key_sound : (s : Text) {i : ℤ} → php_numeric_string_key s ≡ some i → (s ≡ show_ℤ i) × IsI64 i
key_sound [] h = absurd (key-empty h)
key_sound (c ∷ s) {i} h = elim (Bool-cases (c == b'-')) [
  | inl m ↦ let e : c ≡ b'-' = ground arith in rw e (key_sound_minus s (rw e at h))
  | inr n ↦
      let (d, z) = key-plain_inv c s (ground arith) h in
      elim (Bool-cases (c == b'0')) [
        | inr other ↦ key_sound_positive (c ∷ s) d (ground arith) h
        | inl zero_first ↦
            let empty : s ≡ [] = ground arith in
            rw empty (key_sound_zero c (ground arith) (rw empty at h))
      ]
]

key_complete : (i : ℤ) → IsI64 i → php_numeric_string_key (show_ℤ i) ≡ some i
unfolding show_ℤ in_range show
key_complete (pos zero) r = key-zero b'0' refl
key_complete (pos (suc n)) r =
    key-positive (show (suc n)) (show-digits (suc n)) (show-IsPositive (suc n) (omega arith))
    ∙ rw (read-show (suc n)) (ground arith)
key_complete (negsuc n) r =
    key-minus (show (suc n)) (show-digits (suc n)) (show-IsPositive (suc n) (omega arith))
    ∙ rw (read-show (suc n)) (ground arith)

-- PHP's integer keys: a text has the integer key `i` exactly when it is the decimal writing of `i` and
-- `i` is an `i64`; so no leading zero, no `-0`, no sign `+`, no white space and no overflow.
pub php_numeric_string_key_iff :
    (s : Text) (i : ℤ) → (php_numeric_string_key s ≡ some i) ↔ ((s ≡ show_ℤ i) × IsI64 i)
php_numeric_string_key_iff s i = (key_sound s, λ h. rw h.0 (key_complete i h.1))
