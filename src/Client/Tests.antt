-- ===== src/Client/Tests.antt =====
-- A run of one process: it connects once, and what the theorems on the client say of it.
use mathlib.Core.List.{Memᴰ}
use aerospike_php_client.Common.{
  ◌≡◌, refl, [], ◌∷◌, none, some, true, false, has, inr, ◌<◌, ◌≤◌, arith,
}
use aerospike_php_client.Common.Text.{Text, lookup, insert, same}
use aerospike_php_client.Cache.Entry.{ClientEntry}
use aerospike_php_client.Cache.Evict.{evict_idle_clients}
use aerospike_php_client.Hosts.{normalize_hosts, is_whitespace}
use aerospike_php_client.Php.{returned}
use aerospike_php_client.Runtime.{built, tokio_rt}
use aerospike_php_client.Client.World.{World, Client, cache_key, clients_lock}
use aerospike_php_client.Client.Guards.{connect_guard, release_connect_guard}
use aerospike_php_client.Client.Connect.{
  Env, new_ok, close_ok, connect, fingerprint_of, is_refused, connect_keyed, connect_locked, miss,
  build_client, store, store_locked, or_insert, object_of, close_client_entries, use_runtime,
}
use aerospike_php_client.Client.Close.{close, close_locked, close_client, shutdown}
use aerospike_php_client.Client.Connected.{IsLive}
use aerospike_php_client.Client.Sharing.{connect-IsLive, connect-shares}
use aerospike_php_client.Client.Closes.{Gone}
use aerospike_php_client.Client.Closed.{Answered, close-Gone}
use aerospike_php_client.Client.Shutdown.{shutdown-closes}
use aerospike_php_client.Recordset.{Crate}
use aerospike_php_client.Client.World.{drop_object}
use aerospike_php_client.Client.Query.{streams, opened, with_handle, query}
use aerospike_php_client.Client.Queries.{query-Inv}
use aerospike_php_client.Client.Invariant.{Inv, drop_object-Inv}
use aerospike_php_client.Client.InUse.{IsHeld, connect_spares_held}
use aerospike_php_client.Client.Steps.{
  start, Reached, reached-Inv, reached-own, reached-distinct, reached-held,
}

abbrev env : Env
env = record {
  now = 5;
  ini_worker_threads = none;
  max_cached_clients = 8;
  build = built;
  new_client = new_ok;
  close_outcome = λ c. close_ok;
}

abbrev hosts : Text
hosts = b'h' ∷ []

abbrev first : Client
first = record { client = 0; hosts = hosts; policy_fingerprint = [] }

abbrev connected : World
connected = (connect env hosts none (start 7)).0

abbrev key : Text
key = cache_key hosts []

abbrev entry : ClientEntry
entry = record { client = 0; hosts = hosts; policy_fingerprint = []; last_used = 5 }

reached : Reached connected
reached = Reached.connected env hosts none (Reached.started 7 (omega arith))

returned_first : (connect env hosts none (start 7)).1 ≡ returned first
unfolding connect fingerprint_of is_refused cache_key connect_keyed connect_locked connect_guard
    clients_lock lookup miss use_runtime tokio_rt build_client store store_locked or_insert
    object_of evict_idle_clients
returned_first = refl

connect-IsLive_example : IsLive (cache_key hosts (fingerprint_of none)) connected first
connect-IsLive_example =
    connect-IsLive env hosts none (start 7) first (reached-Inv (Reached.started 7 (omega arith)))
      returned_first

first-IsLive : IsLive key connected first
unfolding fingerprint_of
first-IsLive =
    connect-IsLive env hosts none (start 7) first (reached-Inv (Reached.started 7 (omega arith)))
      returned_first

same_hosts : normalize_hosts (b' ' ∷ b'H' ∷ []) ≡ normalize_hosts hosts
unfolding normalize_hosts is_whitespace
same_hosts = refl

no_fingerprint : fingerprint_of none ≡ []
unfolding fingerprint_of
no_fingerprint = refl

no_refusal : is_refused none ≡ false
unfolding is_refused
no_refusal = refl

connect-shares_example :
    (p : Client) × ((connect env (b' ' ∷ b'H' ∷ []) none connected).1 ≡ returned p)
    × (p.client ≡ 0)
    × ((connect env (b' ' ∷ b'H' ∷ []) none connected).0.built ≡ connected.built)
connect-shares_example =
    connect-shares env (b' ' ∷ b'H' ∷ []) none connected first first-IsLive same_hosts
      no_fingerprint no_refusal

held_first : Memᴰ first connected.objects
unfolding connect fingerprint_of is_refused cache_key connect_keyed connect_locked connect_guard
    clients_lock lookup miss use_runtime tokio_rt build_client store store_locked or_insert
    object_of evict_idle_clients release_connect_guard close_client_entries
held_first = Memᴰ.head refl

answered : Answered (close env first connected).1
unfolding connect fingerprint_of is_refused cache_key connect_keyed connect_locked connect_guard
    clients_lock lookup miss use_runtime tokio_rt build_client store store_locked or_insert
    object_of evict_idle_clients release_connect_guard close_client_entries close close_locked
    close_client
answered = tt

close-Gone_example : Gone first connected (close env first connected).0
close-Gone_example = close-Gone env first connected (reached-Inv reached) held_first answered

owner : connected.cache.pid ≡ connected.pid
unfolding connect fingerprint_of is_refused cache_key connect_keyed connect_locked connect_guard
    clients_lock lookup miss use_runtime tokio_rt build_client store store_locked or_insert
    object_of evict_idle_clients release_connect_guard close_client_entries
owner = refl

stands : lookup key connected.cache.map ≡ some entry
unfolding connect fingerprint_of is_refused cache_key connect_keyed connect_locked connect_guard
    clients_lock lookup miss use_runtime tokio_rt build_client store store_locked or_insert
    object_of evict_idle_clients release_connect_guard close_client_entries normalize_hosts insert
    same is_whitespace
stands = refl

built_first : connected.built ≡ 1
unfolding connect fingerprint_of is_refused cache_key connect_keyed connect_locked connect_guard
    clients_lock lookup miss use_runtime tokio_rt build_client store store_locked or_insert
    object_of evict_idle_clients release_connect_guard close_client_entries
built_first = refl

born_first : connected.born ≡ 0
unfolding connect fingerprint_of is_refused cache_key connect_keyed connect_locked connect_guard
    clients_lock lookup miss use_runtime tokio_rt build_client store store_locked or_insert
    object_of evict_idle_clients release_connect_guard close_client_entries
born_first = refl

never_closed : has 0 connected.close_calls ≡ false
unfolding has connect fingerprint_of is_refused cache_key connect_keyed connect_locked connect_guard
    clients_lock lookup miss use_runtime tokio_rt build_client store store_locked or_insert
    object_of evict_idle_clients release_connect_guard close_client_entries
never_closed = refl

from_first : connected.born ≤ 0
from_first = omega (arith, born_first)

below_built : 0 < connected.built
below_built = omega (arith, built_first)

reached-own_example :
    (connected.born ≤ 0)
    × (0 < connected.built)
    × (has 0 connected.closed ≡ false)
    × (key ≡ cache_key hosts [])
reached-own_example = reached-own key entry reached owner stands

reached-distinct_example : key ≡ key
reached-distinct_example = reached-distinct key key entry entry reached owner stands stands refl

reached-held_example :
    (k : Text) × (e : ClientEntry) × (lookup k connected.cache.map ≡ some e) × (e.client ≡ 0)
reached-held_example = reached-held reached owner 0 from_first below_built never_closed

shutdown-closes_example : has 0 (shutdown env connected).0.close_calls ≡ true
shutdown-closes_example =
    shutdown-closes env connected 0 (reached-Inv reached) from_first below_built

-- A crate whose streams have nothing to say.
abbrev silent : Crate
silent = record {
  Stream = Unit;
  Record = Unit;
  Filter = Unit;
  next_record = λ s. (s, none);
  is_active = λ s. false;
  strong_count = λ s. 1;
  close_stream = λ s. s;
  partition_filter = λ s. (s, none);
  meanwhile = λ s. s;
  asleep = λ d s. s;
  now = λ s. 0;
}

-- `$rs = Client::connect("h")->query(...)`: the client's object is gone, the recordset is not.
abbrev streaming : World
streaming = drop_object 0 (query silent env first 0 (some tt) (λ pf. streams tt) connected).0

streaming-Inv : Inv streaming
streaming-Inv =
    drop_object-Inv 0 _
      (query-Inv silent env first 0 (some tt) (λ pf. streams tt) connected (reached-Inv reached))

first-IsHeld : IsHeld streaming 0
unfolding drop_object query use_runtime tokio_rt with_handle opened connect fingerprint_of
    is_refused cache_key connect_keyed connect_locked connect_guard release_connect_guard
    clients_lock lookup miss build_client store store_locked or_insert object_of evict_idle_clients
    close_client_entries has
first-IsHeld = inr refl

-- There is room for one client, and the script connects elsewhere.
abbrev tight : Env
tight = record env { now = 6; max_cached_clients = 1 }

connect_spares_held_example :
    has 0 (connect tight (b'g' ∷ []) none streaming).0.close_calls ≡ has 0 streaming.close_calls
connect_spares_held_example =
    connect_spares_held tight (b'g' ∷ []) none streaming 0 streaming-Inv first-IsHeld
