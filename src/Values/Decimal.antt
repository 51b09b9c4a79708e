-- ===== src/Values/Decimal.antt =====
-- The decimal writing of a number, and its reading by Horner's rule: each undoes the other.
use aerospike_php_client.Common.{
  ℕ, zero, suc, ◌+◌, ◌-◌, ◌*◌, ◌/◌, ◌%◌, ◌<◌, ◌≤◌, ◌≡◌, ◌≢◌, refl, ◌∙◌, sym, inl, inr, [], ◌∷◌,
  ◌++◌, true, arith, ltb, if◌then◌else◌, Bool-cases, ltb→lt,
}
use mathlib.Core.List.{append-nil, append_assoc}
use aerospike_php_client.Common.Text.{Text}
use aerospike_php_client.Hosts.{all_digits}

unfoldable pub show_fuel : ℕ → ℕ → Text
show_fuel zero n = []
show_fuel (suc f) n =
    let more = show_fuel f (n / 10) ++ (b'0' + n % 10) ∷ [] in
    if ltb n 10 then (b'0' + n) ∷ [] else more

-- The decimal digits of a number; its own size is fuel enough.
unfoldable pub show : ℕ → Text
unfolding show_fuel
show n = show_fuel (suc n) n

-- The number that digits read from the left stand for, behind `acc`.
unfoldable pub read : ℕ → Text → ℕ
read acc [] = acc
read acc (c ∷ s) = read (acc * 10 + (c - b'0')) s

show_fuel-eq : (f g n : ℕ) → n < f → n < g → show_fuel f n ≡ show_fuel g n
unfolding show_fuel
show_fuel-eq zero g n h k = absurd (omega arith)
show_fuel-eq (suc f) zero n h k = absurd (omega arith)
show_fuel-eq (suc f) (suc g) n h k = ground (arith, show_fuel-eq f g (n / 10))

pub show-small : (n : ℕ) → n < 10 → show n ≡ (b'0' + n) ∷ []
unfolding show
show-small n h = ground arith

pub show-large : (n : ℕ) → 10 ≤ n → show n ≡ show (n / 10) ++ (b'0' + n % 10) ∷ []
unfolding show
show-large n h = ground (arith, show_fuel-eq n (suc (n / 10)) (n / 10))

show-digit : (a d : ℕ) → 0 < a → d < 10 → show (a * 10 + d) ≡ show a ++ (b'0' + d) ∷ []
show-digit a d h k =
    let q : (a * 10 + d) / 10 ≡ a = omega arith in
    let r : (a * 10 + d) % 10 ≡ d = omega arith in show-large (a * 10 + d) (omega arith) ∙ rw (q, r)

-- Digits read behind a positive number are written behind it.
pub show-read : (a : ℕ) (s : Text) → 0 < a → all_digits s ≡ true → show (read a s) ≡ show a ++ s
unfolding read all_digits
show-read a [] h d = sym (append-nil (show a))
show-read a (c ∷ s) h d =
    show-read (a * 10 + (c - b'0')) s (omega arith) (ground arith)
    ∙ rw (show-digit a (c - b'0') h (ground arith), append_assoc) (ground arith)

read-append : (a : ℕ) (s t : Text) → read a (s ++ t) ≡ read (read a s) t
unfolding read
read-append a [] t = refl
read-append a (c ∷ s) t = read-append (a * 10 + (c - b'0')) s t

read-show_below : (k n : ℕ) → n < k → read 0 (show n) ≡ n
unfolding read
read-show_below zero n h = absurd (omega arith)
read-show_below (suc k) n h = elim (Bool-cases (ltb n 10)) [
  | inl small ↦ rw (show-small n (ltb→lt _ _ small)) (omega arith)
  | inr large ↦
      rw
        (
          show-large n (ground arith),
          read-append 0 (show (n / 10)),
          read-show_below k (n / 10) (ground arith),
        )
        (omega arith)
]

pub read-show : (n : ℕ) → read 0 (show n) ≡ n
read-show n = read-show_below (suc n) n (omega arith)

-- The first digit is there and is not 0.
abbrev pub IsPositive : Text → Type 0
IsPositive [] = ⊥
IsPositive (c ∷ s) = c ≢ b'0'

append-IsPositive : (s t : Text) → IsPositive s → IsPositive (s ++ t)
append-IsPositive [] t h = absurd h
append-IsPositive (c ∷ s) t h = h

show-IsPositive_below : (k n : ℕ) → n < k → 0 < n → IsPositive (show n)
show-IsPositive_below zero n h p = absurd (omega arith)
show-IsPositive_below (suc k) n h p = elim (Bool-cases (ltb n 10)) [
  | inl small ↦ rw (show-small n (ltb→lt _ _ small)) (omega arith)
  | inr large ↦
      rw (show-large n (ground arith))
        (append-IsPositive _ _ (show-IsPositive_below k (n / 10) (ground arith) (ground arith)))
]

pub show-IsPositive : (n : ℕ) → 0 < n → IsPositive (show n)
show-IsPositive n p = show-IsPositive_below (suc n) n (omega arith) p

append-digits :
    (s t : Text) → all_digits s ≡ true → all_digits t ≡ true → all_digits (s ++ t) ≡ true
unfolding all_digits
append-digits [] t h k = k
append-digits (c ∷ s) t h k = ground (arith, append-digits s t)

digit-digits : (d : ℕ) → d < 10 → all_digits ((b'0' + d) ∷ []) ≡ true
unfolding all_digits
digit-digits d h = ground arith

show-digits_below : (k n : ℕ) → n < k → all_digits (show n) ≡ true
show-digits_below zero n h = absurd (omega arith)
show-digits_below (suc k) n h = elim (Bool-cases (ltb n 10)) [
  | inl small ↦ rw (show-small n (ltb→lt _ _ small)) (digit-digits n (ltb→lt _ _ small))
  | inr large ↦ rw (show-large n (ground arith)) (
      append-digits _ _ (show-digits_below k (n / 10) (ground arith))
        (digit-digits (n % 10) (omega arith)))
]

pub show-digits : (n : ℕ) → all_digits (show n) ≡ true
show-digits n = show-digits_below (suc n) n (omega arith)

read-pos : (a : ℕ) (s : Text) → 0 < a → 0 < read a s
unfolding read
read-pos a [] h = h
read-pos a (c ∷ s) h = read-pos (a * 10 + (c - b'0')) s (omega arith)

-- Digits with no leading zero are what their number is written as.
pub show-read_positive :
    (s : Text) → all_digits s ≡ true → IsPositive s → (show (read 0 s) ≡ s) × (0 < read 0 s)
unfolding read all_digits
show-read_positive [] d p = absurd p
show-read_positive (c ∷ s) d p = (
  (show-read (0 + (c - b'0')) s (ground arith) (ground arith)
      ∙ rw (show-small (0 + (c - b'0')) (ground arith)) (ground arith)),
  read-pos (0 + (c - b'0')) s (ground arith),
)
