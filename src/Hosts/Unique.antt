-- ===== src/Hosts/Unique.antt =====
-- What `sort` and `dedup` make of a list of texts: the one strictly increasing list with its members.
use aerospike_php_client.Common.{
  ◌≡◌, refl, ◌∙◌, sym, ap₂, inl, inr, List, [], ◌∷◌, Bool, true, false, ◌||◌, arith, All, All-mono,
  Bool-cases,
}
use aerospike_php_client.Common.Text.{Text, same, same_iff, same_refl}
use aerospike_php_client.Hosts.{le_text, insert_text, sort, cons_new, dedup}
use aerospike_php_client.Hosts.Order.{le_text_total, le_text_antisymm, le_text_trans}

unfoldable pub mem : Text → List Text → Bool
mem p [] = false
mem p (x ∷ l) = same x p || mem p l

mem-insert_text : (p x : Text) (l : List Text) → mem p (insert_text x l) ≡ (same x p || mem p l)
unfolding mem insert_text
mem-insert_text p x [] = refl
mem-insert_text p x (y ∷ l) = ground (arith, mem-insert_text p x l)

mem-sort : (p : Text) (l : List Text) → mem p (sort l) ≡ mem p l
unfolding mem sort
mem-sort p [] = refl
mem-sort p (x ∷ l) = ground (arith, mem-insert_text p x (sort l), mem-sort p l)

mem-cons_new : (p x : Text) (l : List Text) → mem p (cons_new x l) ≡ (same x p || mem p l)
unfolding mem cons_new
mem-cons_new p x [] = refl
mem-cons_new p x (y ∷ l) = ground (arith, same_iff x y, same_iff x p, same_iff y p)

mem-dedup : (p : Text) (l : List Text) → mem p (dedup l) ≡ mem p l
unfolding mem dedup
mem-dedup p [] = refl
mem-dedup p (x ∷ l) = ground (arith, mem-cons_new p x (dedup l), mem-dedup p l)

abbrev Le : Text → Text → Type 0
Le x y = le_text x y ≡ true

abbrev Lt : Text → Text → Type 0
Lt x y = (le_text x y ≡ true) × (same x y ≡ false)

abbrev Sorted : List Text → Type 0
Sorted [] = Unit
Sorted (x ∷ l) = All (Le x) l × Sorted l

-- Each text is less than all that follow it.
abbrev IsStrict : List Text → Type 0
IsStrict [] = Unit
IsStrict (x ∷ l) = All (Lt x) l × IsStrict l

module _ (P : Text → Type 0) where
  insert_text-All : (x : Text) (l : List Text) → P x → All P l → All P (insert_text x l)
  unfolding insert_text
  insert_text-All x [] px h = (px, tt)
  insert_text-All x (y ∷ l) px h = elim (Bool-cases (le_text x y)) [
    | inl le ↦ rw le (px, h)
    | inr gt ↦ rw gt (h.0, insert_text-All x l px h.1)
  ]

  cons_new-All : (x : Text) (l : List Text) → P x → All P l → All P (cons_new x l)
  unfolding cons_new
  cons_new-All x [] px h = (px, tt)
  cons_new-All x (y ∷ l) px h = elim (Bool-cases (same x y)) [
    | inl e ↦ rw e h
    | inr n ↦ rw n (px, h)
  ]

  pub sort-All : (l : List Text) → All P l → All P (sort l)
  unfolding sort
  sort-All [] h = tt
  sort-All (x ∷ l) h = insert_text-All x (sort l) h.0 (sort-All l h.1)

  pub dedup-All : (l : List Text) → All P l → All P (dedup l)
  unfolding dedup
  dedup-All [] h = tt
  dedup-All (x ∷ l) h = cons_new-All x (dedup l) h.0 (dedup-All l h.1)

insert_text-Sorted : (x : Text) (l : List Text) → Sorted l → Sorted (insert_text x l)
unfolding insert_text
insert_text-Sorted x [] s = (tt, tt)
insert_text-Sorted x (y ∷ l) s = elim (Bool-cases (le_text x y)) [
  | inl le ↦ rw le ((le, All-mono (Le y) (Le x) (λ z h. le_text_trans x y z le h) l s.0), s)
  | inr gt ↦ rw gt (
    insert_text-All (Le y) x l (ground (arith, le_text_total x y)) s.0,
    insert_text-Sorted x l s.1,
  )
]

sort-Sorted : (l : List Text) → Sorted (sort l)
unfolding sort
sort-Sorted [] = tt
sort-Sorted (x ∷ l) = insert_text-Sorted x (sort l) (sort-Sorted l)

Lt_trans : (x y z : Text) → Lt x y → Lt y z → Lt x z
Lt_trans x y z h k =
    (le_text_trans x y z h.0 k.0, ground (arith, same_iff x z, same_iff x y, le_text_antisymm x y))

cons_new-IsStrict : (x : Text) (l : List Text) → All (Le x) l → IsStrict l → IsStrict (cons_new x l)
unfolding cons_new
cons_new-IsStrict x [] h s = (tt, tt)
cons_new-IsStrict x (y ∷ l) h s = elim (Bool-cases (same x y)) [
  | inl e ↦ rw e s
  | inr n ↦ rw n (((h.0, n), All-mono (Lt y) (Lt x) (λ z k. Lt_trans x y z (h.0, n) k) l s.0), s)
]

dedup-IsStrict : (l : List Text) → Sorted l → IsStrict (dedup l)
unfolding dedup
dedup-IsStrict [] s = tt
dedup-IsStrict (x ∷ l) s =
    cons_new-IsStrict x (dedup l) (dedup-All (Le x) l s.0) (dedup-IsStrict l s.1)

dedup-sort-IsStrict : (l : List Text) → IsStrict (dedup (sort l))
dedup-sort-IsStrict l = dedup-IsStrict (sort l) (sort-Sorted l)

pub mem-dedup-sort : (p : Text) (l : List Text) → mem p (dedup (sort l)) ≡ mem p l
mem-dedup-sort p l = mem-dedup p (sort l) ∙ mem-sort p l

Lt-mem : (x p : Text) (l : List Text) → All (Lt x) l → mem p l ≡ true → Lt x p
unfolding mem
Lt-mem x p [] h m = cc
Lt-mem x p (y ∷ l) h m = elim (Bool-cases (same y p)) [
  | inl e ↦ rw (← (same_iff y p).0 e) h.0
  | inr n ↦ Lt-mem x p l h.1 (ground arith)
]

not-Lt-both : (x y : Text) → Lt x y → Lt y x → ⊥
not-Lt-both x y h k = ground (arith, same_iff x y, le_text_antisymm x y)

mem-tail-false : (x : Text) (l : List Text) → All (Lt x) l → mem x l ≡ false
mem-tail-false x l h = elim (Bool-cases (mem x l)) [
  | inl m ↦ ground (arith, (Lt-mem x x l h m).1, same_refl x)
  | inr n ↦ n
]

heads-eq :
    (x y : Text) (xs ys : List Text)
    → All (Lt x) xs
    → All (Lt y) ys
    → mem x (y ∷ ys) ≡ true
    → mem y (x ∷ xs) ≡ true
    → x ≡ y
unfolding mem
heads-eq x y xs ys h k m n = elim (Bool-cases (same x y)) [
  | inl e ↦ (same_iff x y).0 e
  | inr d ↦ absurd (
      not-Lt-both x y (Lt-mem x y xs h (ground (arith, same_iff x y)))
        (Lt-mem y x ys k (ground (arith, same_iff y x, same_iff x y))))
]

tails-mem :
    (x y p : Text) (xs ys : List Text)
    → All (Lt x) xs
    → All (Lt y) ys
    → x ≡ y
    → mem p (x ∷ xs) ≡ mem p (y ∷ ys)
    → mem p xs ≡ mem p ys
unfolding mem
tails-mem x y p xs ys s t e h =
    ground (arith, same_iff x p, same_iff y p, mem-tail-false x xs s, mem-tail-false y ys t)

-- Strictly increasing lists with the same members are equal.
IsStrict-ext :
    (xs ys : List Text) → IsStrict xs → IsStrict ys → ((p : Text) → mem p xs ≡ mem p ys) → xs ≡ ys
unfolding mem
IsStrict-ext [] [] s t h = refl
IsStrict-ext [] (y ∷ ys) s t h = ground (arith, h y, same_refl y)
IsStrict-ext (x ∷ xs) [] s t h = ground (arith, h x, same_refl x)
IsStrict-ext (x ∷ xs) (y ∷ ys) s t h =
    let e : x ≡ y =
      heads-eq x y xs ys s.0 t.0 (ground (arith, h x, same_refl x))
        (ground (arith, h y, same_refl y)) in
    ap₂ ◌∷◌ e (IsStrict-ext xs ys s.1 t.1 (λ p. tails-mem x y p xs ys s.0 t.0 e (h p)))

-- Lists with the same members are sorted and deduplicated to the same list.
pub dedup-sort-ext :
    (xs ys : List Text) → ((p : Text) → mem p xs ≡ mem p ys) → dedup (sort xs) ≡ dedup (sort ys)
dedup-sort-ext xs ys h =
    IsStrict-ext _ _ (dedup-sort-IsStrict xs) (dedup-sort-IsStrict ys)
      (λ p. mem-dedup-sort p xs ∙ h p ∙ sym (mem-dedup-sort p ys))
