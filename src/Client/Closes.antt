-- ===== src/Client/Closes.antt =====
-- What `Client::close` of lib.rs does to the shared state.
use mathlib.Core.List.{Memᴰ}
use aerospike_php_client.Common.{
  ℕ, subst, ◌<◌, ◌≤◌, ◌≡◌, ◌≢◌, refl, sym, ◌∙◌, List, [], ◌∷◌, true, false, some, arith, has, All,
  All-mono,
}
use aerospike_php_client.Common.Text.{Text, lookup, IsMap, lookup-remove, remove-IsMap, same_iff}
use aerospike_php_client.Cache.Entry.{ClientEntry}
use aerospike_php_client.Runtime.Fork.{tokio_rt-IsSound}
use aerospike_php_client.Client.World.{World, Client, clients_lock, cache_key}
use aerospike_php_client.Client.Connect.{Env, use_runtime, log_close, came_back}
use aerospike_php_client.Client.Close.{evict_own, forget}
use aerospike_php_client.Client.Cached.{Entries, Cached, Knows, IsIn, shrink-Knows}
use aerospike_php_client.Client.Invariant.{Inv, Locked, clients_lock-Locked, tokio_rt-same}

-- What `cache.map.remove` leaves, in a map where only this key can hold the client.
record Forgotten (c : ℕ) (m m' : Entries) : Type 0 where
  is_map : IsMap m'
  kept : (k : Text) (e : ClientEntry) → lookup k m' ≡ some e → lookup k m ≡ some e
  rest : (k : Text) (e : ClientEntry) → lookup k m ≡ some e → e.client ≢ c → lookup k m' ≡ some e
  gone : (k : Text) (e : ClientEntry) → lookup k m' ≡ some e → e.client ≢ c

evict_own-Forgotten :
    (key : Text) (c : ℕ) (m : Entries)
    → IsMap m
    → ((k : Text) (e : ClientEntry) → lookup k m ≡ some e → e.client ≡ c → k ≡ key)
    → Forgotten c m (evict_own key c m)
unfolding evict_own
evict_own-Forgotten key c m d only = record {
  is_map = ground (arith, remove-IsMap key m d);
  kept = λ k e l. ground (arith, lookup-remove key k m d);
  rest = λ k e l n. ground (arith, lookup-remove key k m d, same_iff key k);
  gone = λ k e l. ground (arith, lookup-remove key k m d, same_iff key k, only k e);
}

module _ {born built : ℕ} {m : Entries} {closed close_calls : List ℕ} where
  forget-Cached :
      (c : ℕ) (m' : Entries)
      → Forgotten c m m'
      → Cached born built m [] closed close_calls
      → Cached born built m' [] (c ∷ closed) (c ∷ close_calls)
  unfolding has
  forget-Cached c m' f v = record {
    is_map = f.is_map;
    own = λ k e l. v.own k e (f.kept k e l);
    keyed = λ k e l. v.keyed k e (f.kept k e l);
    distinct = λ k j e g l n. v.distinct k j e g (f.kept k e l) (f.kept j g n);
    open_still = λ k e l. ground (arith, v.open_still k e (f.kept k e l), f.gone k e l);
    staying = λ k e l. refl;
    held = λ d b u h l. stays d (v.held d b u (ground arith) refl) (ground arith);
  }
    where
      stays : (d : ℕ) → IsIn d m → d ≢ c → IsIn d m'
      stays d (k, e, l, q) n = (k, e, f.rest k e l (λ p. n (sym q ∙ p)), q)

  call-Cached :
      (c : ℕ)
      → Cached born built m [] closed close_calls
      → Cached born built m [] closed (c ∷ close_calls)
  unfolding has
  call-Cached c v = record {
    is_map = v.is_map;
    own = v.own;
    keyed = v.keyed;
    distinct = v.distinct;
    open_still = v.open_still;
    staying = v.staying;
    held = λ d b u h l. v.held d b u (ground arith) refl;
  }

pub All-Mem : (P : Client → Type 0) {o : Client} {os : List Client} → All P os → Memᴰ o os → P o
All-Mem P h (Memᴰ.head q) = subst P (sym q) h.0
All-Mem P h (Memᴰ.tail m) = All-Mem P h.1 m

pub use_runtime-Inv : (env : Env) (w : World) → Inv w → Inv (use_runtime env w).0
unfolding use_runtime
use_runtime-Inv env w v = record {
  pid_pos = v.pid_pos;
  sound = tokio_rt-IsSound w.pid env.ini_worker_threads env.build w.runtime v.sound;
  ready = λ h. tokio_rt-same w.pid env.ini_worker_threads env.build w.runtime (v.ready h);
  range = v.range;
  fresh = v.fresh;
  below = v.below;
  cached = v.cached;
  foreign = v.foreign;
}

-- The state of a call that fails in a panic: `close()` was called and nothing is known of it.
pub panic-Inv :
    (env : Env) (c : ℕ) (w : World)
    → came_back (env.close_outcome c) ≡ false
    → Inv w
    → Inv (log_close env c w)
unfolding log_close
panic-Inv env c w p v = rw p (record {
  pid_pos = v.pid_pos;
  sound = v.sound;
  ready = v.ready;
  range = v.range;
  fresh = v.fresh;
  below = v.below;
  cached = λ q. (call-Cached c (v.cached q).0, (v.cached q).1);
  foreign = v.foreign;
})

own_key :
    (self : Client) (w : World)
    → Inv w
    → Memᴰ self w.objects
    → Knows w.built (clients_lock w).cache.map self
unfolding clients_lock
own_key self w v held = All-Mem _ (clients_lock-Locked w v).objects held

forget_world-Forgotten :
    (env : Env) (self : Client) (w : World)
    → Inv w
    → Memᴰ self w.objects
    → Forgotten self.client
        (clients_lock w).cache.map
        (forget
          (cache_key self.hosts self.policy_fingerprint)
          self.client
          (log_close env self.client w)).cache.map
unfolding forget log_close clients_lock
forget_world-Forgotten env self w v held =
    evict_own-Forgotten _ self.client _ (clients_lock-Locked w v).cached.is_map
      (λ k e l q. (own_key self w v held).key k e l q)

fresh_after :
    (d c n : ℕ) (closed : List ℕ)
    → n ≤ c
    → d < n
    → has c closed ≡ false
    → has c (d ∷ closed) ≡ false
unfolding has
fresh_after d c n closed h b q = ground arith

pub forget-Locked :
    (env : Env) (self : Client) (w : World)
    → came_back (env.close_outcome self.client) ≡ true
    → Inv w
    → Memᴰ self w.objects
    → Locked [] (
        forget
          (cache_key self.hosts self.policy_fingerprint)
          self.client
          (log_close env self.client w))
unfolding forget log_close clients_lock
forget-Locked env self w back v held =
    let l = clients_lock-Locked w v in
    let f = forget_world-Forgotten env self w v held in
    rw back (record {
      pid_pos = l.pid_pos;
      sound = l.sound;
      ready = l.ready;
      range = l.range;
      fresh = λ c h.
          fresh_after self.client c w.built w.closed h (own_key self w v held).below (v.fresh c h);
      owner = l.owner;
      cached = forget-Cached self.client _ f l.cached;
      going = tt;
      objects = All-mono _ _ (λ o n. shrink-Knows w.built _ _ o f.kept n) w.objects l.objects;
    })

-- What a `close()` that came back has done: the client is closed; it stands in the cache no longer;
-- and every other entry of this process is where it was.
pub record Gone (self : Client) (before after : World) : Type 0 where
  pub closed : has self.client after.closed ≡ true
  pub gone :
      (k : Text) (e : ClientEntry) → lookup k after.cache.map ≡ some e → e.client ≢ self.client
  pub kept :
      (k : Text) (e : ClientEntry)
      → lookup k after.cache.map ≡ some e
      → lookup k (clients_lock before).cache.map ≡ some e
  pub rest :
      (k : Text) (e : ClientEntry)
      → lookup k (clients_lock before).cache.map ≡ some e
      → e.client ≢ self.client
      → lookup k after.cache.map ≡ some e

forget_closed :
    (env : Env) (self : Client) (w : World)
    → came_back (env.close_outcome self.client) ≡ true
    → has self.client
        (forget
          (cache_key self.hosts self.policy_fingerprint)
          self.client
          (log_close env self.client w)).closed
      ≡ true
unfolding forget log_close has clients_lock
forget_closed env self w back = rw back (ground arith)

pub forget-Gone :
    (env : Env) (self : Client) (w : World)
    → came_back (env.close_outcome self.client) ≡ true
    → Inv w
    → Memᴰ self w.objects
    → Gone self w (
        forget
          (cache_key self.hosts self.policy_fingerprint)
          self.client
          (log_close env self.client w))
forget-Gone env self w back v held =
    let f = forget_world-Forgotten env self w v held in
    record { closed = is_closed; gone = f.gone; kept = f.kept; rest = f.rest }
  where
    is_closed :
        has self.client
          (forget
            (cache_key self.hosts self.policy_fingerprint)
            self.client
            (log_close env self.client w)).closed
        ≡ true
    is_closed = forget_closed env self w back
