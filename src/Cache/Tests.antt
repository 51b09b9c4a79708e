-- ===== src/Cache/Tests.antt =====
-- A map of two clients over a limit of one.
use aerospike_php_client.Common.{[], ◌∷◌, refl, List}
use aerospike_php_client.Common.Text.{Text, same, lookup, IsMap}
use aerospike_php_client.Cache.Entry.{ClientEntry}
use aerospike_php_client.Cache.Evict.{evict_idle_clients}
use aerospike_php_client.Cache.Lru.{Evicted, evict_idle_clients-Evicted}

abbrev two_clients : List (Text × ClientEntry)
two_clients =
    (b'a' ∷ [], record { client = 0; hosts = []; policy_fingerprint = []; last_used = 4 })
    ∷ (b'b' ∷ [], record { client = 1; hosts = []; policy_fingerprint = []; last_used = 2 })
    ∷ []

two_clients-IsMap : IsMap two_clients
unfolding lookup same
two_clients-IsMap = (refl, (refl, tt))

evict_idle_clients-Evicted_example :
    Evicted 2
      (λ c. 1)
      two_clients
      (evict_idle_clients 2 (λ c. 1) two_clients).0
      (evict_idle_clients 2 (λ c. 1) two_clients).1
evict_idle_clients-Evicted_example =
    evict_idle_clients-Evicted 2 (λ c. 1) two_clients two_clients-IsMap
