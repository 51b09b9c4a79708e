-- ===== src/Client/Close.antt =====
-- `Client::close` and the shutdown hook of lib.rs.
use aerospike_php_client.Common.{ℕ, List, [], Option, none, some, ◌==◌, if◌then◌else◌}
use aerospike_php_client.Common.Text.{Text, lookup, remove, values}
use aerospike_php_client.Cache.Entry.{ClientEntry}
use aerospike_php_client.Php.{PhpResult, returned, threw, panicked, client_error}
use aerospike_php_client.Runtime.{Tokio, take_tokio_rt}
use aerospike_php_client.Runtime
use aerospike_php_client.Client.World.{World, Client, cache_key, clients_lock}
use aerospike_php_client.Client.Guards.{connect_guard, release_connect_guard}
use aerospike_php_client.Client.Connect.{
  Env, close_ok, close_failed, close_panicked, use_runtime, log_close, close_client_entries,
}

-- `cache.map.remove(&cache_key)`, if the entry there is of this very client (`Arc::ptr_eq`).
unfoldable pub evict_own : Text → ℕ → List (Text × ClientEntry) → List (Text × ClientEntry)
unfolding lookup remove
evict_own key c m = elim (lookup key m) [
  | none ↦ m
  | some entry ↦ if entry.client == c then remove key m else m
]

unfoldable pub forget : Text → ℕ → World → World
unfolding clients_lock evict_own
forget key c w =
    let w' = clients_lock w in
    record w' { cache = record { pid = w'.cache.pid; map = evict_own key c w'.cache.map } }

-- `rt_call(|| self.client.close())` once the runtime is there, and the eviction that follows.
unfoldable pub close_client : Env → Text → ℕ → World → World × PhpResult (Unit {0})
unfolding log_close forget
close_client env key c w = elim (env.close_outcome c) [
  | close_ok ↦ (forget key c (log_close env c w), returned tt)
  | close_failed e ↦ (forget key c (log_close env c w), threw (client_error e))
  | close_panicked m ↦ (log_close env c w, threw (panicked m))
]

unfoldable pub close_locked : Env → Text → ℕ → World → World × PhpResult (Unit {0})
unfolding use_runtime close_client
close_locked env key c w =
    let (w', h) = use_runtime env w in
    elim h [
      | Runtime.runtime rt ↦ close_client env key c w'
      | Runtime.refused x ↦ (w', threw x)
      | Runtime.null_deref ↦ (w', threw (panicked ""))
    ]

-- `Client::close`. (The result where the runtime's pointer is null is arbitrary, as in `connect`.)
unfoldable pub close : Env → Client → World → World × PhpResult (Unit {0})
unfolding cache_key connect_guard close_locked release_connect_guard
close env self w =
    let key = cache_key self.hosts self.policy_fingerprint in
    let (w', result) = close_locked env key self.client (connect_guard key w) in
    (release_connect_guard key w', result)

-- `aerospike_php_shutdown`: the cache is emptied and its clients are closed, then the runtime is taken.
unfoldable pub shutdown : Env → World → World × Option Tokio
unfolding clients_lock close_client_entries take_tokio_rt
shutdown env w =
    let w' = clients_lock w in
    let emptied : World = record w' { cache = record { pid = w'.cache.pid; map = [] } } in
    let w'' = close_client_entries env (values w'.cache.map) emptied in
    let (r, taken) = take_tokio_rt w''.pid w''.runtime in (record w'' { runtime = r }, taken)
