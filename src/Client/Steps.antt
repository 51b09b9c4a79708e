-- ===== src/Client/Steps.antt =====
-- Whole histories of the calls of lib.rs that share the client cache: `connect`, `close`, `query`, the
-- freeing of a PHP object, and `fork`, in any order, with any answers of the outside world.
use mathlib.Core.List.{Memᴰ}
use aerospike_php_client.Common.{
  ℕ, ◌<◌, ◌≤◌, ◌≡◌, ◌≢◌, refl, [], Option, none, some, false, has, inl, arith,
}
use aerospike_php_client.Common.Text.{Text, lookup}
use aerospike_php_client.Cache.Entry.{ClientEntry}
use aerospike_php_client.Client.World.{World, Client, drop_object, drop_recordset, fork, cache_key}
use aerospike_php_client.Client.Connect.{Env, ConnectPolicy, connect}
use aerospike_php_client.Client.Close.{close}
use aerospike_php_client.Recordset.{Crate}
use aerospike_php_client.Client.Query.{Queried, query}
use aerospike_php_client.Client.Queries.{query-Inv, drop_recordset-Inv}
use aerospike_php_client.Client.Invariant.{Inv, drop_object-Inv, fork-Inv}
use aerospike_php_client.Client.Sharing.{connect-Inv}
use aerospike_php_client.Client.Closed.{close-Inv}

-- The statics as the module is loaded with them, in process `pid`.
abbrev pub start : ℕ → World
start pid = record {
  pid = pid;
  cache = record { pid = 0; map = [] };
  guards = record { pid = 0; map = [] };
  runtime = record { ptr = none; pid = 0 };
  objects = [];
  recordsets = [];
  born = 0;
  built = 0;
  close_calls = [];
  closed = [];
}

-- A PHP script can call `close` and `query` on an object that it holds only; the system gives a child a process
-- id that the process which last locked the cache does not have.
pub data Reached : World → Type 1 where
  started : (pid : ℕ) → 0 < pid → Reached (start pid)
  connected :
      {w : World} (env : Env) (hosts : Text) (policy : Option ConnectPolicy)
      → Reached w
      → Reached (connect env hosts policy w).0
  closed_one :
      {w : World} (env : Env) (self : Client)
      → Memᴰ self w.objects
      → Reached w
      → Reached (close env self w).0
  queried :
      {w : World} (K : Crate) (env : Env) (self : Client) (max_records : ℕ) (pf : Option K.Filter)
      (crate_query : K.Filter → Queried K.Stream)
      → Memᴰ self w.objects
      → Reached w
      → Reached (query K env self max_records pf crate_query w).0
  recordset_freed : {w : World} (n : ℕ) → Reached w → Reached (drop_recordset n w)
  freed : {w : World} (n : ℕ) → Reached w → Reached (drop_object n w)
  forked :
      {w : World} (child : ℕ) → 0 < child → child ≢ w.cache.pid → Reached w → Reached (fork child w)

start-Inv : (pid : ℕ) → 0 < pid → Inv (start pid)
unfolding has
start-Inv pid p = record {
  pid_pos = p;
  sound = inl refl;
  ready = λ h. absurd (omega arith);
  range = omega arith;
  fresh = λ c h. refl;
  below = tt;
  cached = λ q. absurd (omega arith);
  foreign = λ q. refl;
}

pub reached-Inv : {w : World} → Reached w → Inv w
reached-Inv (started pid p) = start-Inv pid p
reached-Inv (connected {w} env hosts policy r) = connect-Inv env hosts policy w (reached-Inv r)
reached-Inv (closed_one {w} env self held r) = close-Inv env self w (reached-Inv r) held
reached-Inv (queried {w} K env self max_records pf crate_query held r) =
    query-Inv K env self max_records pf crate_query w (reached-Inv r)
reached-Inv (recordset_freed {w} n r) = drop_recordset-Inv n w (reached-Inv r)
reached-Inv (freed {w} n r) = drop_object-Inv n w (reached-Inv r)
reached-Inv (forked {w} child p n r) = fork-Inv child w p n (reached-Inv r)

-- In every history, an entry of the cache, when the cache belongs to the running process, has a
-- client that this process built and on which no `close()` came back, and it stands under the key
-- of its own hosts and policy.
pub reached-own :
    {w : World} (k : Text) (e : ClientEntry)
    → Reached w
    → w.cache.pid ≡ w.pid
    → lookup k w.cache.map ≡ some e
    → (w.born ≤ e.client)
      × (e.client < w.built)
      × (has e.client w.closed ≡ false)
      × (k ≡ cache_key e.hosts e.policy_fingerprint)
reached-own k e r own l =
    let c = ((reached-Inv r).cached own).0 in
    ((c.own k e l).0, (c.own k e l).1, c.open_still k e l, c.keyed k e l)

-- In every history, no client stands under two keys of the cache, when the cache belongs to the
-- running process.
pub reached-distinct :
    {w : World} (k j : Text) (e f : ClientEntry)
    → Reached w
    → w.cache.pid ≡ w.pid
    → lookup k w.cache.map ≡ some e
    → lookup j w.cache.map ≡ some f
    → e.client ≡ f.client
    → k ≡ j
reached-distinct k j e f r own = ((reached-Inv r).cached own).0.distinct k j e f

-- In every history, when the cache belongs to the running process, a client that this process
-- built and on which `close()` was never called stands in it.
pub reached-held :
    {w : World}
    → Reached w
    → w.cache.pid ≡ w.pid
    → (c : ℕ) → w.born ≤ c
    → c < w.built
    → has c w.close_calls ≡ false
    → (k : Text) × (e : ClientEntry) × (lookup k w.cache.map ≡ some e) × (e.client ≡ c)
unfolding has
reached-held {w} r own c lo hi never = ((reached-Inv r).cached own).0.held c lo hi never refl
