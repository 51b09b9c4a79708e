-- ===== src/Policy/Fingerprint.antt =====
-- `ClientPolicy::fingerprint` of lib.rs. What is hashed is the list of bytes that the `Hash`
-- implementations of the standard library feed to the hasher. `rack_ids`, which no method of the class
-- sets, is taken to be `None`.
pub mod Delimits
pub mod Auth
pub mod IpMap
pub mod Injective
pub mod Tests
use Prim.Native.String.{String}
use aerospike_php_client.Common.{
  ℕ, zero, suc, ◌/◌, ◌%◌, Bool, true, false, List, [], ◌∷◌, ◌++◌, Option, none, some, ltb, ◌==◌,
  if◌then◌else◌, length,
}
use aerospike_php_client.Policy.Cluster.{
  AuthMode, no_auth, internal, external, pki, ClientPolicy, get_auth_mode, get_user,
  get_tls_enabled,
}

-- `String::as_bytes`, the hash of a password under `PASSWORD_HASH_STATE`, and the bytes of
-- `buffer_reclaim_threshold`, which is the same for every policy, as no method of the class sets it.
pub record Hashing : Type 0 where
  pub bytes : String → List ℕ
  pub hash_one : String → ℕ
  pub reclaim_threshold : List ℕ

-- An integer of so many bytes.
unfoldable pub word : ℕ → ℕ → List ℕ
word zero n = []
word (suc w) n = n % 256 ∷ word w (n / 256)

unfoldable pub flag : Bool → List ℕ
flag false = 0 ∷ []
flag true = 1 ∷ []

-- The order of byte strings.
unfoldable pub before : List ℕ → List ℕ → Bool
before [] ys = true
before (x ∷ xs) [] = false
before (x ∷ xs) (y ∷ ys) = if ltb x y then true else (if x == y then before xs ys else false)

abbrev pub joined : List (List ℕ) → List ℕ
joined [] = []
joined (b ∷ bs) = b ++ joined bs

module _ (H : Hashing) where
  open H use {bytes, hash_one, reclaim_threshold}

  unfoldable pub str_bytes : String → List ℕ
  str_bytes s = bytes s ++ (255 ∷ [])

  -- A discriminant is an `isize`.
  unfoldable pub optional : Option String → List ℕ
  unfolding word str_bytes
  optional none = word 8 0
  optional (some s) = word 8 1 ++ str_bytes s

  unfoldable pub user_bytes : Option String → List ℕ
  unfolding str_bytes
  user_bytes none = []
  user_bytes (some user) = str_bytes user

  unfoldable pub password_bytes : AuthMode → List ℕ
  unfolding word
  password_bytes (internal user password) = word 8 (hash_one password)
  password_bytes (external user password) = word 8 (hash_one password)
  password_bytes _ = []

  -- Pairs of texts in their order.
  unfoldable pub entry_before : String × String → String × String → Bool
  unfolding before
  entry_before (a, b) (c, d) =
      if before (bytes a) (bytes c)
      then (if before (bytes c) (bytes a) then before (bytes b) (bytes d) else true)
      else false

  unfoldable pub insert_entry : String × String → List (String × String) → List (String × String)
  unfolding entry_before
  insert_entry e [] = e ∷ []
  insert_entry e (f ∷ es) = if entry_before e f then e ∷ f ∷ es else f ∷ insert_entry e es

  unfoldable pub sort_entries : List (String × String) → List (String × String)
  unfolding insert_entry
  sort_entries [] = []
  sort_entries (e ∷ es) = insert_entry e (sort_entries es)

  unfoldable pub entries_bytes : List (String × String) → List ℕ
  unfolding str_bytes
  entries_bytes [] = []
  entries_bytes ((a, b) ∷ es) = str_bytes a ++ (str_bytes b ++ entries_bytes es)

  unfoldable pub ip_map_bytes : Option (List (String × String)) → List ℕ
  unfolding word sort_entries entries_bytes
  ip_map_bytes none = []
  ip_map_bytes (some m) = let es = sort_entries m in word 8 (length es) ++ entries_bytes es

  -- What `fingerprint` feeds to the hasher.
  unfoldable pub fed : {T : Type 0} → ClientPolicy T → List ℕ
  unfolding word flag str_bytes optional user_bytes password_bytes ip_map_bytes get_auth_mode
      get_user get_tls_enabled
  fed p = joined (
      str_bytes (get_auth_mode p)
      ∷ user_bytes (get_user p)
      ∷ password_bytes p.auth_mode
      ∷ optional p.cluster_name
      ∷ word 4 p.timeout
      ∷ word 4 p.idle_timeout
      ∷ word 8 p.min_conns_per_node
      ∷ word 8 p.max_conns_per_node
      ∷ word 1 p.conn_pools_per_node
      ∷ flag p.use_services_alternate
      ∷ flag p.fail_if_not_connected
      ∷ word 4 p.tend_interval
      ∷ reclaim_threshold
      ∷ optional p.application_id
      ∷ ip_map_bytes p.ip_map
      ∷ flag (get_tls_enabled p)
      ∷ word 8 p.tls_fingerprint
      ∷ [])

  -- `fingerprint`, by the hasher's `finish` and the sixteen hexadecimal digits of its number.
  unfoldable pub fingerprint : {T : Type 0} → (List ℕ → ℕ) → (ℕ → String) → ClientPolicy T → String
  unfolding fed
  fingerprint finish hex p = hex (finish (fed p))
