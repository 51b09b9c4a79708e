-- ===== src/Cache/Evict.antt =====
-- `evict_idle_clients` of lib.rs. The reference count of a client (`Arc::strong_count`) and the cap
-- (`max_cached_clients`) are arguments.
use aerospike_php_client.Common.{
  ℕ, List, [], ◌∷◌, none, some, true, false, ltb, leb, ◌==◌, if◌then◌else◌, length,
}
use aerospike_php_client.Common.Text.{Text, lookup, remove}
use aerospike_php_client.Cache.Entry.{ClientEntry}

-- The `filter` and `map` that collect the idle entries: those whose only reference is the cache's.
unfoldable pub idle_entries : (ℕ → ℕ) → List (Text × ClientEntry) → List (Text × ℕ)
idle_entries strong_count [] = []
idle_entries strong_count ((k, e) ∷ m) =
    if strong_count e.client == 1
    then (k, e.last_used) ∷ idle_entries strong_count m
    else idle_entries strong_count m

unfoldable pub insert_by_time : Text × ℕ → List (Text × ℕ) → List (Text × ℕ)
insert_by_time (k, t) [] = (k, t) ∷ []
insert_by_time (k, t) ((j, u) ∷ l) =
    if leb t u then (k, t) ∷ (j, u) ∷ l else (j, u) ∷ insert_by_time (k, t) l

-- `sort_by_key(|(_, t)| *t)`, which is stable.
unfoldable pub sort_by_time : List (Text × ℕ) → List (Text × ℕ)
unfolding insert_by_time
sort_by_time [] = []
sort_by_time (x ∷ l) = insert_by_time x (sort_by_time l)

-- The loop over the idle keys; beside the map stands the vector `evicted`, in the order of `push`.
unfoldable pub evict_loop :
    ℕ → List (Text × ℕ) → List (Text × ClientEntry) → List (Text × ClientEntry) × List ClientEntry
evict_loop limit [] map = (map, [])
evict_loop limit ((key, t) ∷ idle) map = elim (ltb (length map) limit) [
  | true ↦ (map, [])
  | false ↦ elim (lookup key map) [
    | none ↦ evict_loop limit idle map
    | some entry ↦
        let (rest, evicted) = evict_loop limit idle (remove key map) in (rest, entry ∷ evicted)
  ]
]

unfoldable pub evict_idle_clients :
    ℕ → (ℕ → ℕ) → List (Text × ClientEntry) → List (Text × ClientEntry) × List ClientEntry
evict_idle_clients limit strong_count map =
    if ltb (length map) limit
    then (map, [])
    else evict_loop limit (sort_by_time (idle_entries strong_count map)) map
