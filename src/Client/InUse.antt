-- ===== src/Client/InUse.antt =====
-- `connect` of lib.rs makes room in the cache without closing a client that is in use.
use aerospike_php_client.Common.{
  ℕ, ◌<◌, ◌≡◌, refl, subst, ap, ◌∙◌, ◌⊎◌, inl, inr, List, [], ◌∷◌, map, true, false, none, some,
  arith, has, All, Option, Option-cases, Bool-cases, ◌==◌,
}
use aerospike_php_client.Common.Text.{Text, lookup, values}
use aerospike_php_client.Cache.Entry.{ClientEntry}
use aerospike_php_client.Cache.Lru.{evict_idle_clients-Evicted}
use aerospike_php_client.Runtime.{tokio_rt}
use aerospike_php_client.Client.World.{World, count_of, strong_count, clients_lock, cache_key}
use aerospike_php_client.Client.Guards.{connect_guard, release_connect_guard}
use aerospike_php_client.Client.Connect
use aerospike_php_client.Client.Connect.{
  Env, NewClient, new_ok, new_failed, new_panicked, ConnectPolicy, use_runtime, log_close,
  close_each, close_client_entries, hit, store, store_locked, build_client, miss, connect_locked,
  fingerprint_of, is_refused, connect_keyed, connect,
}
use aerospike_php_client.Client.Cached.{Entries}
use aerospike_php_client.Client.Invariant.{
  Inv, Locked, clients_lock-Locked, connect_guard-Inv, use_runtime-Locked,
}
use aerospike_php_client.Client.Connects.{ids, lock_own}
use aerospike_php_client.Client.Connected.{Handle-cases, NewClient-cases}

-- A PHP object of class `Client` or of class `Recordset` holds the client.
abbrev pub IsHeld : World → ℕ → Type 0
IsHeld w c = (has c (map (λ o. o.client) w.objects) ≡ true) ⊎ (has c w.recordsets ≡ true)

has-count_of : (c : ℕ) (l : List ℕ) → has c l ≡ true → 0 < count_of c l
unfolding has count_of
has-count_of c [] h = absurd (ground arith)
has-count_of c (d ∷ l) h = ground (arith, has-count_of c l)

-- An entry of the cache is one reference.
cached-count_of :
    (k : Text) (m : Entries) (e : ClientEntry)
    → lookup k m ≡ some e
    → 0 < count_of e.client (map (λ x. x.client) (values m))
unfolding lookup count_of
cached-count_of k [] e h = absurd (ground arith)
cached-count_of k ((j, x) ∷ m) e h = ground (arith, cached-count_of k m e)

-- A client that is cached and held has two references at the least.
IsHeld-strong_count :
    (w : World) (c : ℕ)
    → 0 < count_of c (map (λ x. x.client) (values w.cache.map))
    → IsHeld w c
    → 1 < strong_count w c
unfolding strong_count
IsHeld-strong_count w c h (inl o) =
    omega (arith, h, has-count_of c (map (λ x. x.client) w.objects) o)
IsHeld-strong_count w c h (inr r) = omega (arith, h, has-count_of c w.recordsets r)

module _ (env : Env) (c : ℕ) where
  -- Nothing was closed yet, and `c` is not among what is to be closed.
  abbrev Spares : World → Connect.Locked → Type 0
  Spares w (w', result, evicted) = (w'.close_calls ≡ w.close_calls) × (has c (ids evicted) ≡ false)

  log_close-other :
      (d : ℕ) (w : World)
      → (d == c) ≡ false
      → has c (log_close env d w).close_calls ≡ has c w.close_calls
  unfolding log_close has
  log_close-other d w h = rw h refl

  close_each-other :
      (es : List ClientEntry) (w : World)
      → has c (ids es) ≡ false
      → has c (close_each env es w).close_calls ≡ has c w.close_calls
  unfolding close_each has
  close_each-other [] w h = refl
  close_each-other (e ∷ es) w h =
      close_each-other es (log_close env e.client w) (ground arith)
      ∙ log_close-other e.client w (ground arith)

  close_entries-other :
      (es : List ClientEntry) (w : World)
      → has c (ids es) ≡ false
      → has c (close_client_entries env es w).close_calls ≡ has c w.close_calls
  unfolding close_client_entries use_runtime
  close_entries-other [] w h = refl
  close_entries-other (e ∷ es) w h =
      elim (Handle-cases (tokio_rt w.pid env.ini_worker_threads env.build w.runtime).1) [
        | inl (rt, q) ↦
            rw (q, close_client_entries, use_runtime)
              (close_each-other (e ∷ es) (use_runtime env w).0 h)
        | inr (inl (x, q)) ↦ rw (q, close_client_entries, use_runtime) refl
        | inr (inr q) ↦ rw (q, close_client_entries, use_runtime) refl
      ]

  not_evicted :
      (w : World) (m' : Entries) (es : List ClientEntry)
      → IsHeld w c
      → All (λ e. strong_count w e.client ≡ 1) es
      → All (λ e. (k : Text) × (lookup k w.cache.map ≡ some e) × (lookup k m' ≡ none)) es
      → has c (ids es) ≡ false
  unfolding has
  not_evicted w m' [] held idle gone = refl
  not_evicted w m' (e ∷ es) held idle gone = elim (Bool-cases (e.client == c)) [
    | inl same ↦ absurd (
        omega (
          arith,
          idle.0,
          IsHeld-strong_count w e.client (cached-count_of gone.0.0 w.cache.map e gone.0.1)
              (subst (IsHeld w) (ground arith) held),
        ))
    | inr other ↦ rw other (not_evicted w m' es held idle.1 gone.1)
  ]

  store_locked-Spares :
      (key hosts fp : Text) (w : World)
      → IsHeld w c
      → Locked [] w
      → Spares w (store_locked env key hosts fp w)
  unfolding store_locked
  store_locked-Spares key hosts fp w held v =
      let r =
        evict_idle_clients-Evicted env.max_cached_clients (strong_count w) w.cache.map
          v.cached.is_map in
      (refl, not_evicted w _ _ held r.idle r.gone)

  build_client-Spares :
      (key hosts fp : Text) (w : World)
      → IsHeld w c
      → Locked [] w
      → Spares w (build_client env key hosts fp w)
  unfolding build_client store has
  build_client-Spares key hosts fp w held v = elim (NewClient-cases env.new_client) [
    | inl q ↦
        rw (q, build_client, store, lock_own w v.owner) (store_locked-Spares key hosts fp w held v)
    | inr (inl (e, q)) ↦ rw (q, build_client) (refl, refl)
    | inr (inr (m, q)) ↦ rw (q, build_client) (refl, refl)
  ]

  miss-Spares :
      (key hosts fp : Text) (w : World)
      → IsHeld w c
      → Locked [] w
      → Spares w (miss env key hosts fp w)
  unfolding miss use_runtime has
  miss-Spares key hosts fp w held v =
      elim (Handle-cases (tokio_rt w.pid env.ini_worker_threads env.build w.runtime).1) [
        | inl (rt, q) ↦
            rw (q, miss, use_runtime)
              (build_client-Spares key hosts fp (use_runtime env w).0 held
                (use_runtime-Locked env [] w v))
        | inr (inl (x, q)) ↦ rw (q, miss, use_runtime) (refl, refl)
        | inr (inr q) ↦ rw (q, miss, use_runtime) (refl, refl)
      ]

  lock_keeps :
      (w : World)
      → (IsHeld w c → IsHeld (clients_lock w) c) × ((clients_lock w).close_calls ≡ w.close_calls)
  unfolding clients_lock
  lock_keeps w = (λ h. h, refl)

  connect_locked-Spares :
      (key hosts fp : Text) (w : World)
      → IsHeld w c
      → Inv w
      → Spares w (connect_locked env key hosts fp w)
  unfolding connect_locked hit has
  connect_locked-Spares key hosts fp w held v =
      let k = lock_keeps w in
      elim (Option-cases (lookup key (clients_lock w).cache.map)) [
        | inl absent ↦
            let s =
              miss-Spares key hosts fp (clients_lock w) (k.0 held) (clients_lock-Locked w v) in
            rw (absent, connect_locked) (s.0 ∙ k.1, s.1)
        | inr (e, found) ↦ rw (found, connect_locked) (k.1, refl)
      ]

  guard_keeps :
      (key : Text) (w : World)
      → (IsHeld w c → IsHeld (connect_guard key w) c)
        × ((connect_guard key w).close_calls ≡ w.close_calls)
        × ((release_connect_guard key w).close_calls ≡ w.close_calls)
  unfolding connect_guard release_connect_guard
  guard_keeps key w = (λ h. h, refl, refl)

  connect_keyed-spares :
      (key hosts fp : Text) (w : World)
      → IsHeld w c
      → Inv w
      → has c (connect_keyed env key hosts fp w).0.close_calls ≡ has c w.close_calls
  unfolding connect_keyed
  connect_keyed-spares key hosts fp w held v =
      let g = guard_keeps key w in
      let l = connect_locked env key hosts fp (connect_guard key w) in
      let s =
        connect_locked-Spares key hosts fp (connect_guard key w) (g.0 held)
          (connect_guard-Inv key w v) in
      close_entries-other l.2 (release_connect_guard key l.0) s.1
      ∙ ap (has c) ((guard_keeps key l.0).2 ∙ s.0 ∙ g.1)

-- In a state with the invariant, `connect` calls `close()` on no client that a PHP object or a recordset
-- holds, whatever the outside world answers and however small the cap of the cache is.
pub connect_spares_held :
    (env : Env) (hosts : Text) (policy : Option ConnectPolicy) (w : World) (c : ℕ)
    → Inv w
    → IsHeld w c
    → has c (connect env hosts policy w).0.close_calls ≡ has c w.close_calls
unfolding connect
connect_spares_held env hosts policy w c v held = elim (Bool-cases (is_refused policy)) [
  | inl r ↦ rw (r, connect) refl
  | inr r ↦
      rw (r, connect)
        (connect_keyed-spares env c (cache_key hosts (fingerprint_of policy)) hosts
          (fingerprint_of policy) w held v)
]
