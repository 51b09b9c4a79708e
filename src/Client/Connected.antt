-- ===== src/Client/Connected.antt =====
-- What `connect` of lib.rs hands back, and that it keeps the invariant.
use aerospike_php_client.Common.{
  ◌≤◌, ◌≡◌, refl, ◌⊎◌, inl, inr, List, [], ◌∷◌, false, none, some, arith, has, Option-cases,
}
use aerospike_php_client.Common.Text.{Text, lookup, lookup-insert, same_refl}
use Prim.Native.String.{String}
use aerospike_php_client.Errors.{Error}
use aerospike_php_client.Cache.Entry.{ClientEntry}
use aerospike_php_client.Cache.Evict.{evict_idle_clients}
use aerospike_php_client.Cache.Lru.{evict_idle_clients-Evicted}
use aerospike_php_client.Php.{PhpResult, returned, threw, Thrown}
use aerospike_php_client.Runtime.{Tokio, Handle, tokio_rt}
use aerospike_php_client.Runtime
use aerospike_php_client.Client.World.{World, Client, clients_lock, strong_count, cache_key}
use aerospike_php_client.Client.Guards.{connect_guard, release_connect_guard}
use aerospike_php_client.Client.Connect
use aerospike_php_client.Client.Connect.{
  Env, NewClient, new_ok, new_failed, new_panicked, ConnectPolicy, object_of, use_runtime,
  log_close, came_back, close_each, close_client_entries, hit, or_insert, store, store_locked,
  build_client, miss, connect_locked, fingerprint_of, is_refused, connect_keyed, connect,
}
use aerospike_php_client.Client.Cached.{Entries}
use aerospike_php_client.Client.Invariant.{
  Inv, Locked, clients_lock-Locked, connect_guard-Inv, release_connect_guard-Locked,
  use_runtime-Locked, tokio_rt-ready,
}
use aerospike_php_client.Client.Connects.{
  ids, close_client_entries-Locked, hit-Locked, store_locked-Locked, or_insert-absent, lock_own,
  kept-none,
}

abbrev pub Stands : Text → Entries → PhpResult Client → Type 0
Stands key m (returned o) = (e : ClientEntry) × (lookup key m ≡ some e) × (o ≡ object_of e)
Stands key m (threw e) = Unit

abbrev Step : Text → Connect.Locked → Type 0
Step key (w, result, evicted) = Locked (ids evicted) w × Stands key w.cache.map result

-- An object whose client stands under the key in the cache of its process, was built by that process
-- and has not been closed; the object knows the key.
pub record IsLive (key : Text) (w : World) (o : Client) : Type 0 where
  pub owner : w.cache.pid ≡ w.pid
  pub entry : ClientEntry
  pub stands : lookup key w.cache.map ≡ some entry
  pub its : entry.client ≡ o.client
  pub known : key ≡ cache_key o.hosts o.policy_fingerprint
  pub own : w.born ≤ o.client
  pub open_still : has o.client w.closed ≡ false

pub Handle-cases :
    (h : Handle)
    → ((rt : Tokio) × (h ≡ Runtime.runtime rt))
      ⊎ ((x : Thrown) × (h ≡ Runtime.refused x))
      ⊎ (h ≡ Runtime.null_deref)
Handle-cases (Runtime.runtime rt) = inl (rt, refl)
Handle-cases (Runtime.refused x) = inr (inl (x, refl))
Handle-cases Runtime.null_deref = inr (inr refl)

pub NewClient-cases :
    (o : NewClient)
    → (o ≡ new_ok) ⊎ ((e : Error) × (o ≡ new_failed e)) ⊎ ((m : String) × (o ≡ new_panicked m))
NewClient-cases new_ok = inl refl
NewClient-cases (new_failed e) = inr (inl (e, refl))
NewClient-cases (new_panicked m) = inr (inr (m, refl))

module _ (env : Env) where
  hit-Step :
      (key : Text) (entry : ClientEntry) (w : World)
      → lookup key w.cache.map ≡ some entry
      → Locked [] w
      → Step key (hit env key entry w)
  unfolding hit
  hit-Step key entry w found v = (hit-Locked env key entry w found v, stands)
    where
      stands : Stands key (hit env key entry w).0.cache.map (hit env key entry w).1
      stands = (
        record entry { last_used = env.now },
        ground (
          arith,
          lookup-insert key key (record entry { last_used = env.now }) w.cache.map,
          same_refl key,
        ),
        refl,
      )

  store_locked-Step :
      (key hosts fp : Text) (w : World)
      → key ≡ cache_key hosts fp
      → lookup key w.cache.map ≡ none
      → w.runtime.pid ≡ w.pid
      → Locked [] w
      → Step key (store_locked env key hosts fp w)
  unfolding store_locked
  store_locked-Step key hosts fp w is_key absent there v =
      (store_locked-Locked env key hosts fp w is_key absent there v, stands)
    where
      stands :
          Stands key
            (store_locked env key hosts fp w).0.cache.map
            (store_locked env key hosts fp w).1
      stands =
          let r =
            evict_idle_clients-Evicted env.max_cached_clients (strong_count w) w.cache.map
              v.cached.is_map in
          let e : ClientEntry = record {
            client = w.built;
            hosts = hosts;
            policy_fingerprint = fp;
            last_used = env.now;
          } in
          rw (or_insert-absent key e _ (kept-none key w.cache.map _ r.kept absent)) (
            e,
            ground (
              arith,
              lookup-insert key key e
                  (evict_idle_clients env.max_cached_clients (strong_count w) w.cache.map).0,
              same_refl key,
            ),
            refl,
          )

  store-Step :
      (key hosts fp : Text) (w : World)
      → key ≡ cache_key hosts fp
      → lookup key w.cache.map ≡ none
      → w.runtime.pid ≡ w.pid
      → Locked [] w
      → Step key (store env key hosts fp w)
  unfolding store
  store-Step key hosts fp w is_key absent there v =
      rw (lock_own w v.owner) (store_locked-Step key hosts fp w is_key absent there v)

  build_client-Step :
      (key hosts fp : Text) (w : World)
      → key ≡ cache_key hosts fp
      → lookup key w.cache.map ≡ none
      → w.runtime.pid ≡ w.pid
      → Locked [] w
      → Step key (build_client env key hosts fp w)
  unfolding build_client
  build_client-Step key hosts fp w is_key absent there v = elim (NewClient-cases env.new_client) [
    | inl q ↦ rw (q, build_client) (store-Step key hosts fp w is_key absent there v)
    | inr (inl (e, q)) ↦ rw (q, build_client) (v, tt)
    | inr (inr (m, q)) ↦ rw (q, build_client) (v, tt)
  ]

  miss-Step :
      (key hosts fp : Text) (w : World)
      → key ≡ cache_key hosts fp
      → lookup key w.cache.map ≡ none
      → Locked [] w
      → Step key (miss env key hosts fp w)
  unfolding miss use_runtime
  miss-Step key hosts fp w is_key absent v =
      let t = tokio_rt w.pid env.ini_worker_threads env.build w.runtime in
      let u = use_runtime-Locked env [] w v in
      elim (Handle-cases t.1) [
        | inl (rt, q) ↦
            rw (q, miss, use_runtime)
              (build_client-Step key hosts fp (use_runtime env w).0 is_key absent
                (tokio_rt-ready w.pid env.ini_worker_threads env.build w.runtime q) u)
        | inr (inl (x, q)) ↦ rw (q, miss, use_runtime) (u, tt)
        | inr (inr q) ↦ rw (q, miss, use_runtime) (u, tt)
      ]

  connect_locked-Step :
      (key hosts fp : Text) (w : World)
      → key ≡ cache_key hosts fp
      → Inv w
      → Step key (connect_locked env key hosts fp w)
  unfolding connect_locked
  connect_locked-Step key hosts fp w is_key v =
      let l = clients_lock-Locked w v in
      elim (Option-cases (lookup key (clients_lock w).cache.map)) [
        | inl absent ↦
            rw (absent, connect_locked) (miss-Step key hosts fp (clients_lock w) is_key absent l)
        | inr (e, found) ↦ rw (found, connect_locked) (hit-Step key e (clients_lock w) found l)
      ]

abbrev pub Kept : World → World → Type 0
Kept w w' = (w'.cache ≡ w.cache) × (w'.born ≡ w.born) × (w'.built ≡ w.built)

close_each-Kept : (env : Env) (es : List ClientEntry) (w : World) → Kept w (close_each env es w)
unfolding close_each log_close
close_each-Kept env [] w = (refl, refl, refl)
close_each-Kept env (e ∷ es) w = close_each-Kept env es (log_close env e.client w)

pub close_entries-Kept :
    (env : Env) (es : List ClientEntry) (w : World) → Kept w (close_client_entries env es w)
unfolding close_client_entries use_runtime
close_entries-Kept env [] w = (refl, refl, refl)
close_entries-Kept env (e ∷ es) w =
    elim (Handle-cases (tokio_rt w.pid env.ini_worker_threads env.build w.runtime).1) [
      | inl (rt, q) ↦
          rw (q, close_client_entries, use_runtime)
            (close_each-Kept env (e ∷ es) (use_runtime env w).0)
      | inr (inl (x, q)) ↦ rw (q, close_client_entries, use_runtime) (refl, refl, refl)
      | inr (inr q) ↦ rw (q, close_client_entries, use_runtime) (refl, refl, refl)
    ]

pub live :
    (key : Text) (w : World) (o : Client)
    → Locked [] w
    → Stands key w.cache.map (returned o)
    → IsLive key w o
unfolding object_of
live key w o v (e, l, q) = record {
  owner = v.owner;
  entry = e;
  stands = l;
  its = ground arith;
  known = ground (arith, v.cached.keyed key e l);
  own = ground (arith, v.cached.own key e l);
  open_still = ground (arith, v.cached.open_still key e l);
}

guard_cache : (key : Text) (w : World) → (release_connect_guard key w).cache ≡ w.cache
unfolding release_connect_guard
guard_cache key w = refl

pub connect_keyed-Step :
    (env : Env) (key hosts fp : Text) (w : World)
    → key ≡ cache_key hosts fp
    → Inv w
    → Locked [] (connect_keyed env key hosts fp w).0
      × Stands key
          (connect_keyed env key hosts fp w).0.cache.map
          (connect_keyed env key hosts fp w).1
unfolding connect_keyed
connect_keyed-Step env key hosts fp w is_key v =
    let s =
      connect_locked-Step env key hosts fp (connect_guard key w) is_key
        (connect_guard-Inv key w v) in
    let l = connect_locked env key hosts fp (connect_guard key w) in
    (
      close_client_entries-Locked env l.2 (release_connect_guard key l.0)
          (release_connect_guard-Locked key (ids l.2) l.0 s.0),
      rw ((close_entries-Kept env l.2 (release_connect_guard key l.0)).0, guard_cache key l.0) s.1,
    )
