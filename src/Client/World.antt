-- ===== src/Client/World.antt =====
-- The state that `connect` and `close` of lib.rs share: one process at a time, with its statics, the
-- PHP objects that hold clients, and what has been done to the clients.
use aerospike_php_client.Common.{ℕ, suc, ◌+◌, List, [], ◌∷◌, ◌++◌, map, ◌==◌, if◌then◌else◌}
use aerospike_php_client.Common.Text.{Text, values}
use aerospike_php_client.Cache.Entry.{ClientCache}
use aerospike_php_client.Hosts.{normalize_hosts}
use aerospike_php_client.Runtime.{Runtime, process_forked}

-- The PHP class `Client`.
pub record Client : Type 0 where
  pub client : ℕ
  pub hosts : Text
  pub policy_fingerprint : Text

-- `ConnectGuards`: each guard with the number of `Arc`s to it, the map's own counted.
pub record ConnectGuards : Type 0 where
  pub pid : ℕ
  pub map : List (Text × ℕ)

-- `objects` are the PHP objects of class `Client` alive, and `recordsets` the clients that the live
-- objects of class `Recordset` hold, one for each. Clients are numbered in the order in which they are built:
-- `built` have been, the first `born` of them in ancestors of this process. `close_calls` are the
-- clients on which `close()` was called, `closed` those on which it came back.
pub record World : Type 0 where
  pub pid : ℕ
  pub cache : ClientCache
  pub guards : ConnectGuards
  pub runtime : Runtime
  pub objects : List Client
  pub recordsets : List ℕ
  pub born : ℕ
  pub built : ℕ
  pub close_calls : List ℕ
  pub closed : List ℕ

unfoldable pub count_of : ℕ → List ℕ → ℕ
count_of c [] = 0
count_of c (d ∷ ds) = if d == c then suc (count_of c ds) else count_of c ds

-- `Arc::strong_count` of a client: the cache's references and those of the PHP objects of both classes.
unfoldable pub strong_count : World → ℕ → ℕ
unfolding count_of
strong_count w c =
    count_of c (map (λ e. e.client) (values w.cache.map))
    + count_of c (map (λ o. o.client) w.objects)
    + count_of c w.recordsets

-- The key under which `connect` and `close` look a client up.
unfoldable pub cache_key : Text → Text → Text
cache_key hosts fp = normalize_hosts hosts ++ b'|' ∷ fp

-- `clients_lock`: what a parent process left in the cache is forgotten, and not closed.
unfoldable pub clients_lock : World → World
unfolding process_forked
clients_lock w =
    let (stored, forked) = process_forked w.pid w.cache.pid in
    record w { cache = record { pid = stored; map = if forked then [] else w.cache.map } }

-- `fork()`, as the child sees it: everything is inherited but the process id.
unfoldable pub fork : ℕ → World → World
fork child w = record w { pid = child; born = w.built }

unfoldable pub drop_at {ℓ} : {A : Type ℓ} → ℕ → List A → List A
drop_at n [] = []
drop_at ℕ.zero (x ∷ xs) = xs
drop_at (suc n) (x ∷ xs) = x ∷ drop_at n xs

-- PHP frees its `n`-th `Client`: the `Arc` goes, and the client stays as it is.
unfoldable pub drop_object : ℕ → World → World
unfolding drop_at
drop_object n w = record w { objects = drop_at n w.objects }

-- PHP frees its `n`-th `Recordset`: its `Arc` goes too.
unfoldable pub drop_recordset : ℕ → World → World
unfolding drop_at
drop_recordset n w = record w { recordsets = drop_at n w.recordsets }
