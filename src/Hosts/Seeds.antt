-- ===== src/Hosts/Seeds.antt =====
-- The form of the parts that `normalize_hosts` of lib.rs joins, and why its closure leaves such a part
-- alone.
use aerospike_php_client.Common.{
  ℕ, ◌≡◌, ◌≢◌, refl, ap₂, inl, inr, [], ◌∷◌, ◌++◌, none, some, true, false, arith, Bool-cases,
  Option-cases,
}
use aerospike_php_client.Common.Text.{Text}
use aerospike_php_client.Hosts.{
  is_whitespace, trim, is_empty, all_digits, lower, to_ascii_lowercase, rsplit_once, default_port,
  with_port, canonical,
}
use aerospike_php_client.Hosts.Parts.{NoComma, StartsSolid, EndsSolid, trim-solid, EndsSolid-append}

-- The form of a part of the key: a host in lower case and a port of digits.
pub record Seed (p : Text) : Type 0 where
  pub host : Text
  pub port : Text
  pub shape : p ≡ host ++ b':' ∷ port
  pub in_lower : to_ascii_lowercase host ≡ host
  pub starts : StartsSolid host
  pub no_comma : NoComma host
  pub digits : all_digits port ≡ true
  pub has_port : is_empty port ≡ false

lower_idem : (c : ℕ) → lower (lower c) ≡ lower c
unfolding lower
lower_idem c = ground arith

to_ascii_lowercase_idem :
    (s : Text) → to_ascii_lowercase (to_ascii_lowercase s) ≡ to_ascii_lowercase s
unfolding to_ascii_lowercase
to_ascii_lowercase_idem [] = refl
to_ascii_lowercase_idem (c ∷ s) = ap₂ ◌∷◌ (lower_idem c) (to_ascii_lowercase_idem s)

lower-whitespace : (c : ℕ) → is_whitespace c ≡ false → is_whitespace (lower c) ≡ false
unfolding is_whitespace lower
lower-whitespace c h = ground arith

lowercase-StartsSolid : (s : Text) → StartsSolid s → StartsSolid (to_ascii_lowercase s)
unfolding to_ascii_lowercase
lowercase-StartsSolid [] h = h
lowercase-StartsSolid (c ∷ s) h = lower-whitespace c h

lower-comma : (c : ℕ) → c ≢ b',' → lower c ≢ b','
unfolding lower
lower-comma c h = ground arith

lowercase-NoComma : (s : Text) → NoComma s → NoComma (to_ascii_lowercase s)
unfolding to_ascii_lowercase
lowercase-NoComma [] h = tt
lowercase-NoComma (c ∷ s) h = (lower-comma c h.0, lowercase-NoComma s h.1)

rsplit_once-some :
    (s : Text) {head tail : Text} → rsplit_once s ≡ some (head, tail) → s ≡ head ++ b':' ∷ tail
unfolding rsplit_once
rsplit_once-some [] h = cc
rsplit_once-some (c ∷ s) {head} {tail} h = elim (Option-cases (rsplit_once s)) [
  | inl e ↦ ground (arith)
  | inr ((h', t'), e) ↦ ground (arith, rsplit_once-some s e)
]

rsplit_once-digits : (s : Text) → all_digits s ≡ true → rsplit_once s ≡ none
unfolding rsplit_once all_digits
rsplit_once-digits [] h = refl
rsplit_once-digits (c ∷ s) h = ground (arith, rsplit_once-digits s)

rsplit_once-append :
    (x port : Text) → all_digits port ≡ true → rsplit_once (x ++ b':' ∷ port) ≡ some (x, port)
unfolding rsplit_once
rsplit_once-append [] port h = rw (rsplit_once-digits port h)
rsplit_once-append (c ∷ x) port h = rw (rsplit_once-append x port h)

NoComma-head : (x y : Text) (c : ℕ) → NoComma (x ++ c ∷ y) → NoComma x
NoComma-head [] y c h = tt
NoComma-head (a ∷ x) y c h = (h.0, NoComma-head x y c h.1)

StartsSolid-head :
    (x y : Text) (c : ℕ) → StartsSolid (x ++ c ∷ y) → is_empty x ≡ false → StartsSolid x
StartsSolid-head [] y c h e = cc
StartsSolid-head (a ∷ x) y c h e = h

make-Seed :
    (h port : Text)
    → StartsSolid h
    → NoComma h
    → all_digits port ≡ true
    → is_empty port ≡ false
    → Seed (to_ascii_lowercase h ++ b':' ∷ port)
make-Seed h port s n d e = record {
  host = to_ascii_lowercase h;
  port = port;
  shape = refl;
  in_lower = to_ascii_lowercase_idem h;
  starts = lowercase-StartsSolid h s;
  no_comma = lowercase-NoComma h n;
  digits = d;
  has_port = e;
}

default-Seed :
    (h : Text) → StartsSolid h → NoComma h → Seed (to_ascii_lowercase h ++ b':' ∷ default_port)
unfolding all_digits
default-Seed h s n = make-Seed h default_port s n refl refl

split-Seed :
    (h head port : Text)
    → StartsSolid h
    → NoComma h
    → h ≡ head ++ b':' ∷ port
    → Seed (with_port h (some (head, port)))
unfolding with_port
split-Seed h head port s n e = elim (Bool-cases (is_empty port)) [
  | inl z ↦ rw (z, with_port) (default-Seed h s n)
  | inr p ↦ elim (Bool-cases (all_digits port)) [
    | inr z ↦ rw (p, z, with_port) (default-Seed h s n)
    | inl d ↦ elim (Bool-cases (is_empty head)) [
      | inl z ↦ rw (p, d, z, with_port) (default-Seed h s n)
      | inr q ↦
          rw (p, d, q, with_port)
            (make-Seed head port (StartsSolid-head head port b':' (rw e at s) q)
              (NoComma-head head port b':' (rw e at n)) d p)
    ]
  ]
]

pub canonical-Seed : (h : Text) → StartsSolid h → NoComma h → Seed (canonical h)
unfolding canonical with_port
canonical-Seed h s n = elim (Option-cases (rsplit_once h)) [
  | inl e ↦ rw (e, canonical) (default-Seed h s n)
  | inr ((head, port), e) ↦ rw (e, canonical) (split-Seed h head port s n (rsplit_once-some h e))
]

digit-solid : (c : ℕ) (s : Text) → all_digits (c ∷ s) ≡ true → is_whitespace c ≡ false
unfolding all_digits is_whitespace
digit-solid c s h = ground arith

digits-EndsSolid : (s : Text) → all_digits s ≡ true → is_empty s ≡ false → EndsSolid s
unfolding all_digits
digits-EndsSolid [] d e = cc
digits-EndsSolid (c ∷ []) d e = digit-solid c [] d
digits-EndsSolid (c ∷ c' ∷ s) d e = digits-EndsSolid (c' ∷ s) (ground arith) refl

colon-EndsSolid : (s : Text) → EndsSolid s → EndsSolid (b':' ∷ s)
colon-EndsSolid [] h = absurd h
colon-EndsSolid (c ∷ s) h = h

append-StartsSolid : (x y : Text) → StartsSolid x → StartsSolid (x ++ y)
append-StartsSolid [] y h = absurd h
append-StartsSolid (c ∷ x) y h = h

StartsSolid-not-empty : (x : Text) → StartsSolid x → is_empty x ≡ false
StartsSolid-not-empty [] h = absurd h
StartsSolid-not-empty (c ∷ x) h = refl

pub Seed-trim : {p : Text} → Seed p → trim p ≡ p
Seed-trim {p} s = rw s.shape (
    trim-solid _ (append-StartsSolid s.host (b':' ∷ s.port) s.starts) (
      EndsSolid-append s.host b':' s.port
        (colon-EndsSolid s.port (digits-EndsSolid s.port s.digits s.has_port))))

pub Seed-not-empty : {p : Text} → Seed p → is_empty p ≡ false
Seed-not-empty {p} s =
    rw s.shape (StartsSolid-not-empty _ (append-StartsSolid s.host (b':' ∷ s.port) s.starts))

pub Seed-canonical : {p : Text} → Seed p → canonical p ≡ p
unfolding canonical with_port
Seed-canonical {p} s = rw s.shape (
    rw (
      rsplit_once-append s.host s.port s.digits,
      s.digits,
      s.has_port,
      StartsSolid-not-empty s.host s.starts,
      s.in_lower,
      canonical,
    ))

digits-NoComma : (s : Text) → all_digits s ≡ true → NoComma s
unfolding all_digits
digits-NoComma [] h = tt
digits-NoComma (c ∷ s) h = (ground arith, digits-NoComma s (ground arith))

append-NoComma : (x y : Text) → NoComma x → NoComma y → NoComma (x ++ b':' ∷ y)
append-NoComma [] y h k = (omega arith, k)
append-NoComma (c ∷ x) y h k = (h.0, append-NoComma x y h.1 k)

pub Seed-NoComma : {p : Text} → Seed p → NoComma p
Seed-NoComma {p} s =
    rw s.shape (append-NoComma s.host s.port s.no_comma (digits-NoComma s.port s.digits))
