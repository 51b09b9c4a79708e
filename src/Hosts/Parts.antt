-- ===== src/Hosts/Parts.antt =====
-- `split` undoes `join`, and what `split` and `trim` leave in each part.
use aerospike_php_client.Common.{
  ℕ, ◌≡◌, ◌≢◌, refl, ◌∙◌, ap, inl, inr, List, [], ◌∷◌, ◌++◌, false, arith, All, Bool-cases, ◌==◌,
}
use aerospike_php_client.Common.Text.{Text}
use aerospike_php_client.Hosts.{
  prepend, split, is_whitespace, trim_start, put_back, trim_end, trim, is_empty, join,
}

abbrev pub NoComma : Text → Type 0
NoComma = All (λ c. c ≢ b',')

split-prefix : (x s : Text) → NoComma x → split (x ++ b',' ∷ s) ≡ x ∷ split s
unfolding split
split-prefix [] s h = refl
split-prefix (c ∷ x) s h = ground (arith, split-prefix x s h.1)

split-whole : (x : Text) → NoComma x → split x ≡ x ∷ []
unfolding split
split-whole [] h = refl
split-whole (c ∷ x) h = ground (arith, split-whole x h.1)

-- A list of at least one text, none with a comma, comes back from its join.
pub split-join : (x : Text) (l : List Text) → All NoComma (x ∷ l) → split (join (x ∷ l)) ≡ x ∷ l
unfolding join
split-join x [] h = split-whole x h.0
split-join x (y ∷ l) h = split-prefix x (join (y ∷ l)) h.0 ∙ ap (◌∷◌ x) (split-join y l h.1)

prepend-NoComma : (c : ℕ) (ws : List Text) → c ≢ b',' → All NoComma ws → All NoComma (prepend c ws)
unfolding prepend
prepend-NoComma c [] n h = ((n, tt), tt)
prepend-NoComma c (w ∷ ws) n h = ((n, h.0), h.1)

pub split-NoComma : (s : Text) → All NoComma (split s)
unfolding split
split-NoComma [] = (tt, tt)
split-NoComma (c ∷ s) = elim (Bool-cases (c == b',')) [
  | inl e ↦ rw e (tt, split-NoComma s)
  | inr n ↦ rw n (prepend-NoComma c (split s) (ground arith) (split-NoComma s))
]

module _ (P : ℕ → Type 0) where
  trim_start-All : (s : Text) → All P s → All P (trim_start s)
  unfolding trim_start
  trim_start-All [] h = tt
  trim_start-All (c ∷ s) h = elim (Bool-cases (is_whitespace c)) [
    | inl e ↦ rw e (trim_start-All s h.1)
    | inr n ↦ rw n h
  ]

  put_back-All : (c : ℕ) (s : Text) → P c → All P s → All P (put_back c s)
  unfolding put_back
  put_back-All c [] pc h = elim (Bool-cases (is_whitespace c)) [
    | inl e ↦ rw e tt
    | inr n ↦ rw n (pc, tt)
  ]
  put_back-All c (d ∷ s) pc h = (pc, h)

  trim_end-All : (s : Text) → All P s → All P (trim_end s)
  unfolding trim_end
  trim_end-All [] h = tt
  trim_end-All (c ∷ s) h = put_back-All c (trim_end s) h.0 (trim_end-All s h.1)

  pub trim-All : (s : Text) → All P s → All P (trim s)
  unfolding trim
  trim-All s h = trim_end-All (trim_start s) (trim_start-All s h)

-- The text is not empty and begins with no white space.
abbrev pub StartsSolid : Text → Type 0
StartsSolid [] = ⊥
StartsSolid (c ∷ s) = is_whitespace c ≡ false

-- The text is not empty and ends with no white space.
abbrev pub EndsSolid : Text → Type 0
EndsSolid [] = ⊥
EndsSolid (c ∷ []) = is_whitespace c ≡ false
EndsSolid (c ∷ d ∷ s) = EndsSolid (d ∷ s)

trim_end-solid : (s : Text) → EndsSolid s → trim_end s ≡ s
unfolding trim_end
trim_end-solid [] h = refl
trim_end-solid (c ∷ []) h = rw h
trim_end-solid (c ∷ d ∷ s) h = rw (trim_end-solid (d ∷ s) h)

pub trim-solid : (s : Text) → StartsSolid s → EndsSolid s → trim s ≡ s
unfolding trim trim_start
trim-solid [] h k = refl
trim-solid (c ∷ s) h k = rw h (trim_end-solid (c ∷ s) k)

pub EndsSolid-append :
    (xs : Text) (y : ℕ) (ys : Text) → EndsSolid (y ∷ ys) → EndsSolid (xs ++ y ∷ ys)
EndsSolid-append [] y ys h = h
EndsSolid-append (x ∷ []) y ys h = h
EndsSolid-append (x ∷ x' ∷ xs) y ys h = EndsSolid-append (x' ∷ xs) y ys h

abbrev StartsSolidIf : Text → Type 0
StartsSolidIf s = is_empty s ≡ false → StartsSolid s

put_back-StartsSolid : (c : ℕ) (s : Text) → is_whitespace c ≡ false → StartsSolid (put_back c s)
unfolding put_back
put_back-StartsSolid c [] h = rw h h
put_back-StartsSolid c (d ∷ s) h = h

trim_end-StartsSolid : (s : Text) → StartsSolid s → StartsSolid (trim_end s)
unfolding trim_end
trim_end-StartsSolid [] h = absurd h
trim_end-StartsSolid (c ∷ s) h = put_back-StartsSolid c (trim_end s) h

-- What is left of a text, if anything is, begins with no white space.
pub trim-StartsSolid : (s : Text) → is_empty (trim s) ≡ false → StartsSolid (trim s)
unfolding trim trim_start
trim-StartsSolid [] h = absurd (ground (arith, h))
trim-StartsSolid (c ∷ s) h = elim (Bool-cases (is_whitespace c)) [
  | inl e ↦ rw (e, trim_start) (trim-StartsSolid s (rw e at h))
  | inr n ↦ rw (n, trim_start) (trim_end-StartsSolid (c ∷ s) n)
]
