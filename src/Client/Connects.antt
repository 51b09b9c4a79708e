-- ===== src/Client/Connects.antt =====
-- The steps within `connect` of lib.rs keep the invariant.
use aerospike_php_client.Common.{
  ℕ, suc, ◌<◌, ◌≤◌, ◌≡◌, refl, List, [], ◌∷◌, map, false, Option, none, some, arith, has, All,
  All-mono,
}
use aerospike_php_client.Common.Text.{Text, lookup, insert, lookup-insert, same_iff}
use aerospike_php_client.Cache.Entry.{ClientEntry}
use aerospike_php_client.Cache.Lru.{Evicted, evict_idle_clients-Evicted}
use aerospike_php_client.Runtime.Fork.{tokio_rt-there}
use aerospike_php_client.Client.World.{World, clients_lock, strong_count, cache_key}
use aerospike_php_client.Client.Connect.{
  Env, object_of, use_runtime, log_close, came_back, close_each, close_client_entries, hit,
  or_insert, store_locked,
}
use aerospike_php_client.Client.Cached.{
  Entries, refresh-Cached, insert-Cached, close-Cached, evict-Cached, refresh-Knows, insert-Knows,
  shrink-Knows,
}
use aerospike_php_client.Client.Invariant.{Locked, use_runtime-Locked}

abbrev pub ids : List ClientEntry → List ℕ
ids = map (λ e. e.client)

pub or_insert-absent :
    (key : Text) (entry : ClientEntry) (m : Entries)
    → lookup key m ≡ none
    → or_insert key entry m ≡ (insert key entry m, entry)
unfolding or_insert
or_insert-absent key entry m n = rw (n, or_insert) refl

not-some : (o : Option ClientEntry) → ((x : ClientEntry) → o ≡ some x → ⊥) → o ≡ none
not-some none h = refl
not-some (some x) h = absurd (h x refl)

pub kept-none :
    (k : Text) (m m' : Entries)
    → ((k : Text) (e : ClientEntry) → lookup k m' ≡ some e → lookup k m ≡ some e)
    → lookup k m ≡ none
    → lookup k m' ≡ none
kept-none k m m' sub n = not-some (lookup k m') (λ x l. ground (arith, sub k x l))

pub lock_own : (w : World) → w.cache.pid ≡ w.pid → clients_lock w ≡ w
unfolding clients_lock
lock_own w e = ground arith

module _ (env : Env) where
  log_close-Locked :
      (c : ℕ) (leaving : List ℕ) (w : World)
      → Locked (c ∷ leaving) w
      → Locked leaving (log_close env c w)
  unfolding log_close has
  log_close-Locked c leaving w v = record {
    pid_pos = v.pid_pos;
    sound = v.sound;
    ready = v.ready;
    range = v.range;
    fresh = λ d h. ground (arith, v.fresh d h, v.going.0.1);
    owner = v.owner;
    cached = close-Cached c (came_back (env.close_outcome c)) v.cached;
    going = v.going.1;
    objects = v.objects;
  }

  close_each-Locked :
      (es : List ClientEntry) (w : World) → Locked (ids es) w → Locked [] (close_each env es w)
  unfolding close_each
  close_each-Locked [] w v = v
  close_each-Locked (e ∷ es) w v =
      close_each-Locked es (log_close env e.client w) (log_close-Locked e.client (ids es) w v)

  pub close_client_entries-Locked :
      (es : List ClientEntry) (w : World)
      → Locked (ids es) w
      → Locked [] (close_client_entries env es w)
  unfolding close_client_entries
  close_client_entries-Locked [] w v = v
  close_client_entries-Locked (e ∷ es) w v =
      let q =
        tokio_rt-there w.pid env.ini_worker_threads env.build w.runtime v.pid_pos v.sound
          (v.ready (omega (arith, v.going.0.0, v.going.0.1))) in
      rw (q.1, close_client_entries)
        (close_each-Locked (e ∷ es) (use_runtime env w).0
          (use_runtime-Locked env (ids (e ∷ es)) w v))

  pub hit-Locked :
      (key : Text) (entry : ClientEntry) (w : World)
      → lookup key w.cache.map ≡ some entry
      → Locked [] w
      → Locked [] (hit env key entry w).0
  unfolding hit
  hit-Locked key entry w found v = record {
    pid_pos = v.pid_pos;
    sound = v.sound;
    ready = v.ready;
    range = v.range;
    fresh = v.fresh;
    owner = v.owner;
    cached = refresh-Cached key entry _ found refl refl refl v.cached;
    going = tt;
    objects = (
      record {
        below = (v.cached.own key entry found).1;
        key = λ k x l q. ground (
          arith,
          lookup-insert key k (record entry { last_used = env.now }) w.cache.map,
          same_iff key k,
          v.cached.keyed key entry found,
          v.cached.distinct k key x entry,
        );
      },
      All-mono _ _ (λ o n. refresh-Knows w.built w.cache.map key entry _ o found refl n) w.objects
          v.objects,
    );
  }

  -- The state with the new client in the map, the evicted ones on their way out.
  stored-Locked :
      (key hosts fp : Text) (w : World) (kept : Entries) (evicted : List ClientEntry)
      → key ≡ cache_key hosts fp
      → lookup key w.cache.map ≡ none
      → w.runtime.pid ≡ w.pid
      → Evicted env.max_cached_clients (strong_count w) w.cache.map kept evicted
      → Locked [] w
      → let entry : ClientEntry = record {
        client = w.built;
        hosts = hosts;
        policy_fingerprint = fp;
        last_used = env.now;
      } in
        Locked (ids evicted) (record w {
          cache = record { pid = w.cache.pid; map = insert key entry kept };
          objects = object_of entry ∷ w.objects;
          built = suc w.built;
        })
  unfolding object_of has
  stored-Locked key hosts fp w kept evicted is_key absent there r v = record {
    pid_pos = v.pid_pos;
    sound = v.sound;
    ready = λ _. there;
    range = omega (arith, v.range);
    fresh = λ c h. v.fresh c (omega arith);
    owner = v.owner;
    cached =
        insert-Cached key hosts fp env.now is_key (kept-none key w.cache.map kept r.kept absent)
          v.range (v.fresh w.built (omega arith)) (not-evicted evicted r.gone)
          (evict-Cached env.max_cached_clients (strong_count w) kept evicted r v.cached);
    going = leave evicted r.gone;
    objects = (
      record {
        below = omega arith;
        key = λ k x l q. ground (
          arith,
          lookup-insert key k
              (record {
                client = w.built;
                hosts = hosts;
                policy_fingerprint = fp;
                last_used = env.now;
              })
              kept,
          same_iff key k,
          r.kept k x,
          v.cached.own k x,
        );
      },
      All-mono _ _
          (λ o n.
            insert-Knows w.built kept key _ o refl
              (shrink-Knows w.built w.cache.map kept o r.kept n))
          w.objects v.objects,
    );
  }
    where
      not-evicted :
          (es : List ClientEntry)
          → All (λ e. (k : Text) × (lookup k w.cache.map ≡ some e) × (lookup k kept ≡ none)) es
          → has w.built (ids es) ≡ false
      not-evicted [] g = refl
      not-evicted (e ∷ es) g = ground (arith, v.cached.own g.0.0 e g.0.1, not-evicted es g.1)

      leave :
          (es : List ClientEntry)
          → All (λ e. (k : Text) × (lookup k w.cache.map ≡ some e) × (lookup k kept ≡ none)) es
          → All (λ c. (w.born ≤ c) × (c < suc w.built)) (ids es)
      leave [] g = tt
      leave (e ∷ es) g = (omega (arith, v.cached.own g.0.0 e g.0.1), leave es g.1)

  pub store_locked-Locked :
      (key hosts fp : Text) (w : World)
      → key ≡ cache_key hosts fp
      → lookup key w.cache.map ≡ none
      → w.runtime.pid ≡ w.pid
      → Locked [] w
      → Locked (ids (store_locked env key hosts fp w).2) (store_locked env key hosts fp w).0
  unfolding store_locked
  store_locked-Locked key hosts fp w is_key absent there v =
      let r =
        evict_idle_clients-Evicted env.max_cached_clients (strong_count w) w.cache.map
          v.cached.is_map in
      rw
        (or_insert-absent key
          (record { client = w.built; hosts = hosts; policy_fingerprint = fp; last_used = env.now })
          _ (kept-none key w.cache.map _ r.kept absent))
        (stored-Locked key hosts fp w _ _ is_key absent there r v)
