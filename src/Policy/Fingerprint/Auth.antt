-- ===== src/Policy/Fingerprint/Auth.antt =====
-- The authentication of a policy in what `ClientPolicy::fingerprint` of lib.rs hashes.
use Prim.Native.Nat.{Ordering}
use Prim.Native.String.{String, compare, count}
use aerospike_php_client.Common.{
  ℕ, ◌≡◌, refl, sym, ap, ap₂, ◌∙◌, List, ◌++◌, Option, none, some, arith,
}
use aerospike_php_client.Policy.Cluster.{
  AuthMode, no_auth, internal, external, pki, ClientPolicy, get_auth_mode, get_user,
}
use aerospike_php_client.Policy.Fingerprint.{Hashing, word, str_bytes, user_bytes, password_bytes}
use aerospike_php_client.Policy.Fingerprint.Delimits.{Utf8, word-delimits, str_bytes-delimits}

module _ {H : Hashing} (law : Utf8 H) where
  -- The same mode and user, and passwords with the same hash.
  abbrev pub SameAuth : AuthMode → AuthMode → Type 0
  SameAuth no_auth no_auth = Unit
  SameAuth pki pki = Unit
  SameAuth (internal u p) (internal v q) = (u ≡ v) × (H.hash_one p ≡ H.hash_one q)
  SameAuth (external u p) (external v q) = (u ≡ v) × (H.hash_one p ≡ H.hash_one q)
  SameAuth _ _ = ⊥

  abbrev mode_of : AuthMode → String
  mode_of no_auth = "none"
  mode_of (internal u p) = "internal"
  mode_of (external u p) = "external"
  mode_of pki = "pki"

  abbrev user_of : AuthMode → Option String
  user_of no_auth = none
  user_of (internal u p) = some u
  user_of (external u p) = some u
  user_of pki = none

  get_auth_mode_of :
      {T : Type 0} (p : ClientPolicy T) (a : AuthMode)
      → p.auth_mode ≡ a
      → get_auth_mode p ≡ mode_of a
  unfolding get_auth_mode
  get_auth_mode_of p no_auth e = rw e refl
  get_auth_mode_of p (internal u w) e = rw e refl
  get_auth_mode_of p (external u w) e = rw e refl
  get_auth_mode_of p pki e = rw e refl

  get_user_of :
      {T : Type 0} (p : ClientPolicy T) (a : AuthMode) → p.auth_mode ≡ a → get_user p ≡ user_of a
  unfolding get_user
  get_user_of p no_auth e = rw e refl
  get_user_of p (internal u w) e = rw e refl
  get_user_of p (external u w) e = rw e refl
  get_user_of p pki e = rw e refl

  secret-delimits :
      (u v p q : String) (r s : List ℕ)
      → str_bytes H u ++ (word 8 (H.hash_one p) ++ r)
        ≡ str_bytes H v ++ (word 8 (H.hash_one q) ++ s)
      → ((u ≡ v) × (H.hash_one p ≡ H.hash_one q)) × (r ≡ s)
  secret-delimits u v p q r s h =
      let (e, t) =
        str_bytes-delimits law u v (word 8 (H.hash_one p) ++ r) (word 8 (H.hash_one q) ++ s) h in
      let (f, w) =
        word-delimits 8 (H.hash_one p) (H.hash_one q) r s (law.small p) (law.small q) t in
      ((e, f), w)

  -- A number that tells the four modes apart.
  abbrev tag : String → ℕ
  tag s = elim (compare s "internal") [
    | Ordering.lt ↦ count s
    | Ordering.eq ↦ 0
    | Ordering.gt ↦ count s
  ]

  user-delimits :
      (a b : AuthMode) (r s : List ℕ)
      → mode_of a ≡ mode_of b
      → user_bytes H (user_of a) ++ (password_bytes H a ++ r)
        ≡ user_bytes H (user_of b) ++ (password_bytes H b ++ s)
      → SameAuth a b × (r ≡ s)
  unfolding user_bytes password_bytes
  user-delimits no_auth no_auth r s e h = (tt, h)
  user-delimits pki pki r s e h = (tt, h)
  user-delimits (internal u p) (internal v q) r s e h = secret-delimits u v p q r s h
  user-delimits (external u p) (external v q) r s e h = secret-delimits u v p q r s h
  user-delimits no_auth (internal v q) r s e h = absurd (omega (arith, ap tag e))
  user-delimits no_auth (external v q) r s e h = absurd (omega (arith, ap tag e))
  user-delimits no_auth pki r s e h = absurd (omega (arith, ap tag e))
  user-delimits pki no_auth r s e h = absurd (omega (arith, ap tag e))
  user-delimits pki (internal v q) r s e h = absurd (omega (arith, ap tag e))
  user-delimits pki (external v q) r s e h = absurd (omega (arith, ap tag e))
  user-delimits (internal u p) no_auth r s e h = absurd (omega (arith, ap tag e))
  user-delimits (internal u p) (external v q) r s e h = absurd (omega (arith, ap tag e))
  user-delimits (internal u p) pki r s e h = absurd (omega (arith, ap tag e))
  user-delimits (external u p) no_auth r s e h = absurd (omega (arith, ap tag e))
  user-delimits (external u p) (internal v q) r s e h = absurd (omega (arith, ap tag e))
  user-delimits (external u p) pki r s e h = absurd (omega (arith, ap tag e))

  auth-delimits :
      (a b : AuthMode) (r s : List ℕ)
      → str_bytes H (mode_of a) ++ (user_bytes H (user_of a) ++ (password_bytes H a ++ r))
        ≡ str_bytes H (mode_of b) ++ (user_bytes H (user_of b) ++ (password_bytes H b ++ s))
      → SameAuth a b × (r ≡ s)
  auth-delimits a b r s h =
      let (e, t) =
        str_bytes-delimits law (mode_of a) (mode_of b)
          (user_bytes H (user_of a) ++ (password_bytes H a ++ r))
          (user_bytes H (user_of b) ++ (password_bytes H b ++ s)) h in
      user-delimits a b r s e t

  pub policy-auth :
      {T : Type 0} (p q : ClientPolicy T) (r s : List ℕ)
      → str_bytes H (get_auth_mode p)
          ++ (user_bytes H (get_user p) ++ (password_bytes H p.auth_mode ++ r))
        ≡ str_bytes H (get_auth_mode q)
          ++ (user_bytes H (get_user q) ++ (password_bytes H q.auth_mode ++ s))
      → SameAuth p.auth_mode q.auth_mode × (r ≡ s)
  policy-auth p q r s h = auth-delimits p.auth_mode q.auth_mode r s (sym (head p r) ∙ h ∙ head q s)
    where
      head :
          {T : Type 0} (p : ClientPolicy T) (r : List ℕ)
          → str_bytes H (get_auth_mode p)
              ++ (user_bytes H (get_user p) ++ (password_bytes H p.auth_mode ++ r))
            ≡ str_bytes H (mode_of p.auth_mode)
              ++ (user_bytes H (user_of p.auth_mode) ++ (password_bytes H p.auth_mode ++ r))
      head p r =
          ap₂ (λ m u. str_bytes H m ++ (user_bytes H u ++ (password_bytes H p.auth_mode ++ r)))
            (get_auth_mode_of p p.auth_mode refl) (get_user_of p p.auth_mode refl)
