-- ===== src/Policy/Fingerprint/IpMap.antt =====
-- The IP map and the TLS fields in what `ClientPolicy::fingerprint` of lib.rs hashes.
use Prim.Native.String.{String}
use aerospike_php_client.Common.{
  append_assoc, ℕ, zero, suc, ◌/◌, ◌^◌, ◌<◌, ◌≡◌, refl, sym, ap, ◌∙◌, Bool, true, false, List, [],
  ◌++◌, Option, none, some, length, length-append, arith,
}
use aerospike_php_client.Policy.Fingerprint.{
  Hashing, word, flag, entries_bytes, ip_map_bytes, sort_entries,
}
use aerospike_php_client.Policy.Fingerprint.Delimits.{Utf8, word-delimits, entries-delimits}

module _ {H : Hashing} (law : Utf8 H) where
  -- The same entries, whatever order they were iterated in.
  abbrev pub SameMap : Option (List (String × String)) → Option (List (String × String)) → Type 0
  SameMap none none = Unit
  SameMap (some m) (some n) = sort_entries H m ≡ sort_entries H n
  SameMap _ _ = ⊥

  -- An IP map has a number of entries that fits 64 bits.
  abbrev pub IsShort : Option (List (String × String)) → Type 0
  IsShort none = Unit
  IsShort (some m) = length (sort_entries H m) < 256 ^ 8

  unfoldable pub tail : Bool → ℕ → List ℕ
  tail b n = flag b ++ (word 8 n ++ [])

  length-word : (w n : ℕ) → length (word w n) ≡ w
  unfolding word
  length-word zero n = refl
  length-word (suc w) n = omega (arith, length-word w (n / 256))

  length-flag : (b : Bool) → length (flag b) ≡ 1
  unfolding flag
  length-flag true = refl
  length-flag false = refl

  length-tail : (b : Bool) (n : ℕ) → length (tail b n) ≡ 9
  unfolding tail
  length-tail b n = omega (
    arith,
    length-append (flag b) (word 8 n ++ []),
    length-append (word 8 n) [],
    length-word 8 n,
    length-flag b,
  )

  longer :
      (m : List (String × String)) (b c : Bool) (i j : ℕ)
      → ip_map_bytes H (some m) ++ tail b i ≡ tail c j
      → ⊥
  unfolding ip_map_bytes
  longer m b c i j h = omega (
    arith,
    ap length h,
    length-tail b i,
    length-tail c j,
    length-append (word 8 (length (sort_entries H m)) ++ entries_bytes H (sort_entries H m))
        (tail b i),
    length-append (word 8 (length (sort_entries H m))) (entries_bytes H (sort_entries H m)),
    length-word 8 (length (sort_entries H m)),
  )

  pub map-delimits :
      (a b : Option (List (String × String))) (c d : Bool) (i j : ℕ)
      → IsShort a
      → IsShort b
      → ip_map_bytes H a ++ tail c i ≡ ip_map_bytes H b ++ tail d j
      → SameMap a b × (tail c i ≡ tail d j)
  unfolding ip_map_bytes
  map-delimits none none c d i j p q h = (tt, h)
  map-delimits none (some n) c d i j p q h = absurd (longer n d c j i (sym h))
  map-delimits (some m) none c d i j p q h = absurd (longer m c d i j h)
  map-delimits (some m) (some n) c d i j p q h =
      let (e, t) =
        word-delimits 8 (length (sort_entries H m)) (length (sort_entries H n))
          (entries_bytes H (sort_entries H m) ++ tail c i)
          (entries_bytes H (sort_entries H n) ++ tail d j) p q
          (sym (
              append_assoc (word 8 (length (sort_entries H m))) (entries_bytes H (sort_entries H m))
                (tail c i))
            ∙ h
            ∙ append_assoc (word 8 (length (sort_entries H n))) (entries_bytes H (sort_entries H n))
                (tail d j)) in
      entries-delimits law (sort_entries H m) (sort_entries H n) (tail c i) (tail d j) e t
