-- ===== src/Common/Text.antt =====
-- Texts as the lists of their code points, their equality, and dictionaries keyed by texts
-- (`HashMap<String, V>`; the order of the list stands for the unspecified order of iteration).
use mathlib.Core.List.{Perm}
use mathlib.Core.List.Perm
use aerospike_php_client.Common.{
  ℕ, ◌≡◌, refl, ◌↔◌, inl, inr, Bool, true, false, ◌&&◌, List, [], ◌∷◌, map, Option, none, some,
  arith, ◌==◌, if◌then◌else◌, length, Bool-cases, suc,
}

abbrev pub Text : Type 0
Text = List ℕ

unfoldable pub same : Text → Text → Bool
same [] [] = true
same (a ∷ s) (b ∷ t) = (a == b) && same s t
same _ _ = false

pub same_iff : (s t : Text) → (same s t ≡ true) ↔ (s ≡ t)
unfolding same
same_iff [] [] = ground arith
same_iff [] (b ∷ t) = ground arith
same_iff (a ∷ s) [] = ground arith
same_iff (a ∷ s) (b ∷ t) = ground (arith, same_iff s t)

pub same_refl : (s : Text) → same s s ≡ true
same_refl s = (same_iff s s).1 refl

module _ {ℓ} {V : Type ℓ} where
  unfoldable pub lookup : Text → List (Text × V) → Option V
  lookup k [] = none
  lookup k ((j, v) ∷ m) = if same j k then some v else lookup k m

  unfoldable pub insert : Text → V → List (Text × V) → List (Text × V)
  insert k v [] = (k, v) ∷ []
  insert k v ((j, w) ∷ m) = if same j k then (k, v) ∷ m else (j, w) ∷ insert k v m

  unfoldable pub remove : Text → List (Text × V) → List (Text × V)
  remove k [] = []
  remove k ((j, w) ∷ m) = if same j k then m else (j, w) ∷ remove k m

  abbrev pub values : List (Text × V) → List V
  values = map (λ e. e.1)

  -- No key stands twice.
  abbrev pub IsMap : List (Text × V) → Type ℓ
  IsMap [] = Unit
  IsMap ((k, v) ∷ m) = (lookup k m ≡ none) × IsMap m

  pub lookup-insert :
      (k j : Text) (v : V) (m : List (Text × V))
      → lookup j (insert k v m) ≡ (if same k j then some v else lookup j m)
  unfolding lookup insert
  lookup-insert k j v [] = refl
  lookup-insert k j v ((i, w) ∷ m) =
      ground (arith, same_iff k j, same_iff i k, same_iff i j, lookup-insert k j v m)

  pub lookup-remove :
      (k j : Text) (m : List (Text × V))
      → IsMap m
      → lookup j (remove k m) ≡ (if same k j then none else lookup j m)
  unfolding lookup remove
  lookup-remove k j [] d = ground arith
  lookup-remove k j ((i, w) ∷ m) d =
      ground (arith, same_iff k j, same_iff i k, same_iff i j, lookup-remove k j m d.1)

  pub insert-IsMap : (k : Text) (v : V) (m : List (Text × V)) → IsMap m → IsMap (insert k v m)
  unfolding lookup insert
  insert-IsMap k v [] d = (refl, tt)
  insert-IsMap k v ((i, w) ∷ m) d =
      ground (arith, same_iff i k, same_iff k i, lookup-insert k i v m, insert-IsMap k v m d.1)

  pub remove-IsMap : (k : Text) (m : List (Text × V)) → IsMap m → IsMap (remove k m)
  unfolding lookup remove
  remove-IsMap k [] d = tt
  remove-IsMap k ((i, w) ∷ m) d =
      ground (arith, same_iff i k, same_iff k i, lookup-remove k i m d.1, remove-IsMap k m d.1)

  pub remove-perm :
      (k : Text) (m : List (Text × V)) (v : V)
      → lookup k m ≡ some v
      → Perm (values m) (v ∷ values (remove k m))
  unfolding lookup remove
  remove-perm k [] v e = cc
  remove-perm k ((j, w) ∷ m) v e = elim (Bool-cases (same j k)) [
    | inl hit ↦ rw (hit, remove) (Perm.cons' (ground arith) Perm.rfl)
    | inr miss ↦
        rw (miss, remove)
          (Perm.trans (Perm.cons w (remove-perm k m v (ground arith))) (Perm.swap v w _))
  ]

  pub length-remove :
      (k : Text) (m : List (Text × V)) (v : V)
      → lookup k m ≡ some v
      → length m ≡ suc (length (remove k m))
  unfolding lookup remove
  length-remove k [] v e = cc
  length-remove k ((j, w) ∷ m) v e = ground (arith, length-remove k m v)
