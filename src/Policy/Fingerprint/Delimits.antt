-- ===== src/Policy/Fingerprint/Delimits.antt =====
-- What `ClientPolicy::fingerprint` of lib.rs feeds to the hasher for one field tells where it ends.
use Prim.Native.String.{String}
use aerospike_php_client.Common.{
  append_assoc, ℕ, zero, suc, ◌/◌, ◌%◌, ◌^◌, ◌<◌, ◌≡◌, ◌≢◌, refl, sym, ap, ap₂, ◌∙◌, Bool, true,
  false, List, [], ◌∷◌, ◌++◌, Option, none, some, length, All, arith,
}
use aerospike_php_client.Policy.Fingerprint.{
  Hashing, word, flag, str_bytes, optional, entries_bytes,
}

-- Texts have different bytes, none of which is 255; a hash has 64 bits.
pub record Utf8 (H : Hashing) : Type 0 where
  pub bytes_differ : (s t : String) → H.bytes s ≡ H.bytes t → s ≡ t
  pub no_mark : (s : String) → All (λ x. x ≢ 255) (H.bytes s)
  pub small : (s : String) → H.hash_one s < 256 ^ 8

pub cons_inv : (x y : ℕ) (xs ys : List ℕ) → x ∷ xs ≡ y ∷ ys → (x ≡ y) × (xs ≡ ys)
cons_inv x y xs ys h = (ground arith, ground arith)

pub append_cancel : (b r s : List ℕ) → b ++ r ≡ b ++ s → r ≡ s
append_cancel [] r s h = h
append_cancel (x ∷ b) r s h = append_cancel b r s (cons_inv x x (b ++ r) (b ++ s) h).1

word-bytes :
    (w a b : ℕ) (r s : List ℕ) → word w a ++ r ≡ word w b ++ s → (word w a ≡ word w b) × (r ≡ s)
unfolding word
word-bytes zero a b r s h = (refl, h)
word-bytes (suc w) a b r s h =
    let (e, t) = cons_inv (a % 256) (b % 256) (word w (a / 256) ++ r) (word w (b / 256) ++ s) h in
    let (f, u) = word-bytes w (a / 256) (b / 256) r s t in (ap₂ (λ x l. x ∷ l) e f, u)

word-injective : (w a b : ℕ) → a < 256 ^ w → b < 256 ^ w → word w a ≡ word w b → a ≡ b
unfolding word
word-injective zero a b p q h = omega arith
word-injective (suc w) a b p q h =
    let (e, t) = cons_inv (a % 256) (b % 256) (word w (a / 256)) (word w (b / 256)) h in
    let f : a / 256 ≡ b / 256 =
      word-injective w (a / 256) (b / 256) (omega arith) (omega arith) t in
    omega arith

pub word-delimits :
    (w a b : ℕ) (r s : List ℕ)
    → a < 256 ^ w
    → b < 256 ^ w
    → word w a ++ r ≡ word w b ++ s
    → (a ≡ b) × (r ≡ s)
word-delimits w a b r s p q h =
    let (e, t) = word-bytes w a b r s h in (word-injective w a b p q e, t)

pub flag-delimits : (a b : Bool) (r s : List ℕ) → flag a ++ r ≡ flag b ++ s → (a ≡ b) × (r ≡ s)
unfolding flag
flag-delimits false false r s h = (refl, (cons_inv 0 0 r s h).1)
flag-delimits false true r s h = absurd (ground arith)
flag-delimits true false r s h = absurd (ground arith)
flag-delimits true true r s h = (refl, (cons_inv 1 1 r s h).1)

mark-delimits :
    (xs ys r s : List ℕ)
    → All (λ x. x ≢ 255) xs
    → All (λ x. x ≢ 255) ys
    → xs ++ (255 ∷ r) ≡ ys ++ (255 ∷ s)
    → (xs ≡ ys) × (r ≡ s)
mark-delimits [] [] r s p q h = (refl, (cons_inv 255 255 r s h).1)
mark-delimits [] (y ∷ ys) r s p q h = absurd (q.0 (sym (cons_inv 255 y r (ys ++ (255 ∷ s)) h).0))
mark-delimits (x ∷ xs) [] r s p q h = absurd (p.0 (cons_inv x 255 (xs ++ (255 ∷ r)) s h).0)
mark-delimits (x ∷ xs) (y ∷ ys) r s p q h =
    let (e, t) = cons_inv x y (xs ++ (255 ∷ r)) (ys ++ (255 ∷ s)) h in
    let (f, u) = mark-delimits xs ys r s p.1 q.1 t in (ap₂ (λ z l. z ∷ l) e f, u)

module _ {H : Hashing} (law : Utf8 H) where
  pub str_bytes-delimits :
      (a b : String) (r s : List ℕ) → str_bytes H a ++ r ≡ str_bytes H b ++ s → (a ≡ b) × (r ≡ s)
  unfolding str_bytes
  str_bytes-delimits a b r s h =
      let (e, t) =
        mark-delimits (H.bytes a) (H.bytes b) r s (law.no_mark a) (law.no_mark b) (
          sym (append_assoc (H.bytes a) (255 ∷ []) r)
          ∙ h
          ∙ append_assoc (H.bytes b) (255 ∷ []) s) in
      (law.bytes_differ a b e, t)

  pub optional-delimits :
      (a b : Option String) (r s : List ℕ)
      → optional H a ++ r ≡ optional H b ++ s
      → (a ≡ b) × (r ≡ s)
  unfolding optional word
  optional-delimits none none r s h = (refl, append_cancel (word 8 0) r s h)
  optional-delimits none (some b) r s h = absurd (ground arith)
  optional-delimits (some a) none r s h = absurd (ground arith)
  optional-delimits (some a) (some b) r s h =
      let (e, t) = str_bytes-delimits a b r s (
        append_cancel (word 8 1) (str_bytes H a ++ r) (str_bytes H b ++ s) (
          sym (append_assoc (word 8 1) (str_bytes H a) r)
          ∙ h
          ∙ append_assoc (word 8 1) (str_bytes H b) s)) in
      (ap some e, t)

  pub entries-delimits :
      (es fs : List (String × String)) (r s : List ℕ)
      → length es ≡ length fs
      → entries_bytes H es ++ r ≡ entries_bytes H fs ++ s
      → (es ≡ fs) × (r ≡ s)
  unfolding entries_bytes
  entries-delimits [] [] r s n h = (refl, h)
  entries-delimits [] (f ∷ fs) r s n h = absurd (omega arith)
  entries-delimits (e ∷ es) [] r s n h = absurd (omega arith)
  entries-delimits ((a, b) ∷ es) ((c, d) ∷ fs) r s n h =
      let (e, t) =
        str_bytes-delimits a c ((str_bytes H b ++ entries_bytes H es) ++ r)
          ((str_bytes H d ++ entries_bytes H fs) ++ s)
          (sym (append_assoc (str_bytes H a) (str_bytes H b ++ entries_bytes H es) r)
            ∙ h
            ∙ append_assoc (str_bytes H c) (str_bytes H d ++ entries_bytes H fs) s) in
      let (f, u) = str_bytes-delimits b d (entries_bytes H es ++ r) (entries_bytes H fs ++ s) (
        sym (append_assoc (str_bytes H b) (entries_bytes H es) r)
        ∙ t
        ∙ append_assoc (str_bytes H d) (entries_bytes H fs) s) in
      let (g, v) = entries-delimits es fs r s (omega arith) u in
      (ap₂ (λ x l. x ∷ l) (ap₂ (λ x y. (x, y)) e f) g, v)
