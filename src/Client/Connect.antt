-- ===== src/Client/Connect.antt =====
-- `Client::connect` of lib.rs, with `close_client_entries`. What the outside world answers in the
-- course of a call is an argument.
use Prim.Native.String.{String}
use aerospike_php_client.Common.{
  ℕ, suc, List, [], ◌∷◌, Bool, true, false, ◌&&◌, not, Option, none, some, if◌then◌else◌,
}
use aerospike_php_client.Common.Text.{Text, lookup, insert}
use aerospike_php_client.Cache.Entry.{ClientEntry}
use aerospike_php_client.Cache.Evict.{evict_idle_clients}
use aerospike_php_client.Errors.{Error}
use aerospike_php_client.Php.{
  PhpResult, returned, threw, panicked, client_error, external_needs_tls,
}
use aerospike_php_client.Runtime.{Runtime, Build, Handle, tokio_rt}
use aerospike_php_client.Runtime
use aerospike_php_client.Client.World.{World, Client, strong_count, cache_key, clients_lock}
use aerospike_php_client.Client.Guards.{connect_guard, release_connect_guard}

-- The outcome of `aero::Client::new` under `catch_panic`.
pub data NewClient : Type 0 where
  new_ok : NewClient
  new_failed : Error → NewClient
  new_panicked : String → NewClient

-- The outcome of `close()` on a client, under `catch_unwind` or `catch_panic`.
pub data CloseOutcome : Type 0 where
  close_ok : CloseOutcome
  close_failed : Error → CloseOutcome
  close_panicked : String → CloseOutcome

abbrev pub came_back : CloseOutcome → Bool
came_back (close_panicked m) = false
came_back _ = true

-- What a call meets: the time, the INI values, and the outcomes of building the runtime and the client
-- and of each `close()`.
pub record Env : Type 0 where
  pub now : ℕ
  pub ini_worker_threads : Option ℕ
  pub max_cached_clients : ℕ
  pub build : Build
  pub new_client : NewClient
  pub close_outcome : ℕ → CloseOutcome

-- What `connect` reads of a `ClientPolicy`: `fingerprint()`, whether `auth_mode` is `External` and
-- whether `tls_config` is set.
pub record ConnectPolicy : Type 0 where
  pub fingerprint : Text
  pub is_external : Bool
  pub has_tls : Bool

-- `zval_from_entry`: a new PHP object for an entry's client.
unfoldable pub object_of : ClientEntry → Client
object_of e = record {
  client = e.client;
  hosts = e.hosts;
  policy_fingerprint = e.policy_fingerprint;
}

-- `tokio_rt` in the world.
unfoldable pub use_runtime : Env → World → World × Handle
unfolding tokio_rt
use_runtime env w =
    let (r, h) = tokio_rt w.pid env.ini_worker_threads env.build w.runtime in
    (record w { runtime = r }, h)

unfoldable pub log_close : Env → ℕ → World → World
log_close env c w = record w {
  close_calls = c ∷ w.close_calls;
  closed = if came_back (env.close_outcome c) then c ∷ w.closed else w.closed;
}

unfoldable pub close_each : Env → List ClientEntry → World → World
unfolding log_close
close_each env [] w = w
close_each env (e ∷ es) w = close_each env es (log_close env e.client w)

-- `close_client_entries`.
unfoldable pub close_client_entries : Env → List ClientEntry → World → World
unfolding use_runtime close_each
close_client_entries env [] w = w
close_client_entries env (e ∷ es) w =
    let (w', h) = use_runtime env w in
    elim h [
      | Runtime.runtime rt ↦ close_each env (e ∷ es) w'
      | Runtime.refused x ↦ w'
      | Runtime.null_deref ↦ w'
    ]

-- A call under the guard gives the new state, the result and the entries to be closed afterwards.
abbrev pub Locked : Type 0
Locked = World × PhpResult Client × List ClientEntry

-- The cache hit: the entry's time is brought up to date.
unfoldable pub hit : Env → Text → ClientEntry → World → Locked
unfolding object_of insert
hit env key entry w =
    let entry' : ClientEntry = record entry { last_used = env.now } in
    (
      record w {
        cache = record { pid = w.cache.pid; map = insert key entry' w.cache.map };
        objects = object_of entry' ∷ w.objects;
      },
      returned (object_of entry'),
      [],
    )

-- `entry(key).or_insert(entry)`: the map and the entry that stands there.
unfoldable pub or_insert :
    Text → ClientEntry → List (Text × ClientEntry) → List (Text × ClientEntry) × ClientEntry
unfolding lookup insert
or_insert key entry m = elim (lookup key m) [
  | none ↦ (insert key entry m, entry)
  | some old ↦ (m, old)
]

-- The insertion of a client just built, under the lock of the cache.
unfoldable pub store_locked : Env → Text → Text → Text → World → Locked
store_locked env key hosts fp w =
    let (kept, evicted) = evict_idle_clients env.max_cached_clients (strong_count w) w.cache.map in
    let entry : ClientEntry = record {
      client = w.built;
      hosts = hosts;
      policy_fingerprint = fp;
      last_used = env.now;
    } in
    let (m, inserted) = or_insert key entry kept in
    (
      record w {
        cache = record { pid = w.cache.pid; map = m };
        objects = object_of inserted ∷ w.objects;
        built = suc w.built;
      },
      returned (object_of inserted),
      evicted,
    )

unfoldable pub store : Env → Text → Text → Text → World → Locked
store env key hosts fp w = store_locked env key hosts fp (clients_lock w)

unfoldable pub build_client : Env → Text → Text → Text → World → Locked
build_client env key hosts fp w = elim env.new_client [
  | new_ok ↦ store env key hosts fp w
  | new_failed e ↦ (w, threw (client_error e), [])
  | new_panicked m ↦ (w, threw (panicked m), [])
]

-- The cache miss. (A read through a null pointer is undefined behaviour: its result here is arbitrary.)
unfoldable pub miss : Env → Text → Text → Text → World → Locked
miss env key hosts fp w =
    let (w', h) = use_runtime env w in
    elim h [
      | Runtime.runtime rt ↦ build_client env key hosts fp w'
      | Runtime.refused x ↦ (w', threw x, [])
      | Runtime.null_deref ↦ (w', threw (panicked ""), [])
    ]

-- The closure that `connect` runs under the guard of the key.
unfoldable pub connect_locked : Env → Text → Text → Text → World → Locked
connect_locked env key hosts fp w =
    let w' = clients_lock w in
    elim (lookup key w'.cache.map) [
      | some entry ↦ hit env key entry w'
      | none ↦ miss env key hosts fp w'
    ]

unfoldable pub fingerprint_of : Option ConnectPolicy → Text
fingerprint_of none = []
fingerprint_of (some p) = p.fingerprint

unfoldable pub is_refused : Option ConnectPolicy → Bool
is_refused none = false
is_refused (some p) = p.is_external && not p.has_tls

unfoldable pub connect_keyed : Env → Text → Text → Text → World → World × PhpResult Client
connect_keyed env key hosts fp w =
    let (w', result, evicted) = connect_locked env key hosts fp (connect_guard key w) in
    (close_client_entries env evicted (release_connect_guard key w'), result)

unfoldable pub connect : Env → Text → Option ConnectPolicy → World → World × PhpResult Client
connect env hosts policy w =
    if is_refused policy
    then (w, threw external_needs_tls)
    else connect_keyed env (cache_key hosts (fingerprint_of policy)) hosts (fingerprint_of policy) w
