-- ===== src/Hosts/Order.antt =====
-- The order of texts is a total order.
use aerospike_php_client.Common.{◌≡◌, refl, ◌⊎◌, inl, inr, [], ◌∷◌, true, arith}
use aerospike_php_client.Common.Text.{Text}
use aerospike_php_client.Hosts.{le_text}

pub le_text_refl : (s : Text) → le_text s s ≡ true
unfolding le_text
le_text_refl [] = refl
le_text_refl (a ∷ s) = ground (arith, le_text_refl s)

pub le_text_total : (s t : Text) → (le_text s t ≡ true) ⊎ (le_text t s ≡ true)
unfolding le_text
le_text_total [] t = inl refl
le_text_total (a ∷ s) [] = inr refl
le_text_total (a ∷ s) (b ∷ t) = ground (arith, le_text_total s t)

pub le_text_antisymm : (s t : Text) → le_text s t ≡ true → le_text t s ≡ true → s ≡ t
unfolding le_text
le_text_antisymm [] [] h k = refl
le_text_antisymm [] (b ∷ t) h k = cc
le_text_antisymm (a ∷ s) [] h k = cc
le_text_antisymm (a ∷ s) (b ∷ t) h k = ground (arith, le_text_antisymm s t)

pub le_text_trans : (s t u : Text) → le_text s t ≡ true → le_text t u ≡ true → le_text s u ≡ true
unfolding le_text
le_text_trans [] t u h k = refl
le_text_trans (a ∷ s) [] u h k = cc
le_text_trans (a ∷ s) (b ∷ t) [] h k = cc
le_text_trans (a ∷ s) (b ∷ t) (c ∷ u) h k = ground (arith, le_text_trans s t u)
