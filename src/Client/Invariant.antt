-- ===== src/Client/Invariant.antt =====
-- The invariant of the client's state of lib.rs, between calls and within one.
use aerospike_php_client.Common.{
  ℕ, suc, ◌<◌, ◌≤◌, ◌≡◌, ◌≢◌, refl, sym, inl, inr, List, [], ◌∷◌, false, Option, arith, has, All,
  All-mono, Bool-cases, ◌==◌,
}
use aerospike_php_client.Common.Text.{Text, lookup}
use aerospike_php_client.Runtime.{
  Tokio, Runtime, Build, built, build_failed, build_panicked, tokio_rt,
}
use aerospike_php_client.Runtime
use aerospike_php_client.Runtime.Fork.{IsSound, tokio_rt-IsSound}
use aerospike_php_client.Client.World.{World, Client, clients_lock, fork, drop_at, drop_object}
use aerospike_php_client.Client.Guards.{connect_guard, release_connect_guard}
use aerospike_php_client.Client.Connect.{Env, use_runtime}
use aerospike_php_client.Client.Cached.{Cached, Knows, empty-Cached}

-- Between calls. A cache that another process left says nothing; then this one has built nothing.
pub record Inv (w : World) : Type 0 where
  pub pid_pos : 0 < w.pid
  pub sound : IsSound w.runtime
  pub ready : w.born < w.built → w.runtime.pid ≡ w.pid
  pub range : w.born ≤ w.built
  pub fresh : (c : ℕ) → w.built ≤ c → has c w.closed ≡ false
  pub below : All (λ o. o.client < w.built) w.objects
  pub cached :
      w.cache.pid ≡ w.pid
      → Cached w.born w.built w.cache.map [] w.closed w.close_calls
        × All (Knows w.built w.cache.map) w.objects
  pub foreign : w.cache.pid ≢ w.pid → w.born ≡ w.built

-- Within a call that has locked the cache, with the clients that are leaving it.
pub record Locked (leaving : List ℕ) (w : World) : Type 0 where
  pub pid_pos : 0 < w.pid
  pub sound : IsSound w.runtime
  pub ready : w.born < w.built → w.runtime.pid ≡ w.pid
  pub range : w.born ≤ w.built
  pub fresh : (c : ℕ) → w.built ≤ c → has c w.closed ≡ false
  pub owner : w.cache.pid ≡ w.pid
  pub cached : Cached w.born w.built w.cache.map leaving w.closed w.close_calls
  pub going : All (λ c. (w.born ≤ c) × (c < w.built)) leaving
  pub objects : All (Knows w.built w.cache.map) w.objects

pub Locked-Inv : (w : World) → Locked [] w → Inv w
Locked-Inv w v = record {
  pid_pos = v.pid_pos;
  sound = v.sound;
  ready = v.ready;
  range = v.range;
  fresh = v.fresh;
  below = All-mono _ _ (λ o n. n.below) w.objects v.objects;
  cached = λ e. (v.cached, v.objects);
  foreign = λ n. absurd (n v.owner);
}

empty-Knows : (n : ℕ) (o : Client) → o.client < n → Knows n [] o
unfolding lookup
empty-Knows n o h = record { below = h; key = λ k e l q. cc }

pub clients_lock-Locked : (w : World) → Inv w → Locked [] (clients_lock w)
unfolding clients_lock
clients_lock-Locked w v = elim (Bool-cases (w.cache.pid == w.pid)) [
  | inl e ↦
      let own : w.cache.pid ≡ w.pid = ground arith in
      rw e (record {
        pid_pos = v.pid_pos;
        sound = v.sound;
        ready = v.ready;
        range = v.range;
        fresh = v.fresh;
        owner = own;
        cached = (v.cached own).0;
        going = tt;
        objects = (v.cached own).1;
      })
  | inr n ↦
      let other : w.cache.pid ≢ w.pid = λ q. ground arith in
      rw n (record {
        pid_pos = v.pid_pos;
        sound = v.sound;
        ready = v.ready;
        range = v.range;
        fresh = v.fresh;
        owner = refl;
        cached = empty-Cached (v.foreign other);
        going = tt;
        objects = All-mono _ _ (empty-Knows w.built) w.objects v.below;
      })
]

-- The guards are no part of it.
pub connect_guard-Inv : (key : Text) (w : World) → Inv w → Inv (connect_guard key w)
unfolding connect_guard
connect_guard-Inv key w v = record {
  pid_pos = v.pid_pos;
  sound = v.sound;
  ready = v.ready;
  range = v.range;
  fresh = v.fresh;
  below = v.below;
  cached = v.cached;
  foreign = v.foreign;
}

pub release_connect_guard-Locked :
    (key : Text) (leaving : List ℕ) (w : World)
    → Locked leaving w
    → Locked leaving (release_connect_guard key w)
unfolding release_connect_guard
release_connect_guard-Locked key leaving w v = record {
  pid_pos = v.pid_pos;
  sound = v.sound;
  ready = v.ready;
  range = v.range;
  fresh = v.fresh;
  owner = v.owner;
  cached = v.cached;
  going = v.going;
  objects = v.objects;
}

pub tokio_rt-same :
    (pid : ℕ) (ini : Option ℕ) (b : Build) (r : Runtime)
    → r.pid ≡ pid
    → (tokio_rt pid ini b r).0.pid ≡ pid
unfolding tokio_rt
tokio_rt-same pid ini b r e = ground arith

pub tokio_rt-ready :
    (pid : ℕ) (ini : Option ℕ) (b : Build) (r : Runtime) {rt : Tokio}
    → (tokio_rt pid ini b r).1 ≡ Runtime.runtime rt
    → (tokio_rt pid ini b r).0.pid ≡ pid
unfolding tokio_rt
tokio_rt-ready pid ini built r h = ground arith
tokio_rt-ready pid ini (build_failed e) r h = ground arith
tokio_rt-ready pid ini (build_panicked e) r h = ground arith

pub use_runtime-Locked :
    (env : Env) (leaving : List ℕ) (w : World)
    → Locked leaving w
    → Locked leaving (use_runtime env w).0
unfolding use_runtime
use_runtime-Locked env leaving w v = record {
  pid_pos = v.pid_pos;
  sound = tokio_rt-IsSound w.pid env.ini_worker_threads env.build w.runtime v.sound;
  ready = λ h. tokio_rt-same w.pid env.ini_worker_threads env.build w.runtime (v.ready h);
  range = v.range;
  fresh = v.fresh;
  owner = v.owner;
  cached = v.cached;
  going = v.going;
  objects = v.objects;
}

drop_at-All : (P : Client → Type 0) (n : ℕ) (os : List Client) → All P os → All P (drop_at n os)
unfolding drop_at
drop_at-All P n [] h = tt
drop_at-All P ℕ.zero (o ∷ os) h = h.1
drop_at-All P (suc n) (o ∷ os) h = (h.0, drop_at-All P n os h.1)

pub drop_object-Inv : (n : ℕ) (w : World) → Inv w → Inv (drop_object n w)
unfolding drop_object
drop_object-Inv n w v = record {
  pid_pos = v.pid_pos;
  sound = v.sound;
  ready = v.ready;
  range = v.range;
  fresh = v.fresh;
  below = drop_at-All _ n w.objects v.below;
  cached = λ e. ((v.cached e).0, drop_at-All _ n w.objects (v.cached e).1);
  foreign = v.foreign;
}

-- A child whose process id is not the one that the statics remember.
pub fork-Inv :
    (child : ℕ) (w : World) → 0 < child → child ≢ w.cache.pid → Inv w → Inv (fork child w)
unfolding fork
fork-Inv child w p n v = record {
  pid_pos = p;
  sound = v.sound;
  ready = λ h. absurd (omega arith);
  range = omega arith;
  fresh = v.fresh;
  below = v.below;
  cached = λ e. absurd (n (sym e));
  foreign = λ q. refl;
}
