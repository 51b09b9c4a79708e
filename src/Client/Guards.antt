-- ===== src/Client/Guards.antt =====
-- The per-key connect locks of lib.rs: `connect_guard` and `release_connect_guard`.
use aerospike_php_client.Common.{ℕ, suc, ◌-◌, List, [], none, some, ◌==◌, if◌then◌else◌}
use aerospike_php_client.Common.Text.{Text, lookup, insert, remove}
use aerospike_php_client.Runtime.{process_forked}
use aerospike_php_client.Client.World.{World}

-- `entry(..).or_default().clone()`: the new guard or the one more `Arc` of an old one.
unfoldable pub clone_guard : Text → List (Text × ℕ) → List (Text × ℕ)
unfolding lookup insert
clone_guard key guards = elim (lookup key guards) [
  | none ↦ insert key 2 guards
  | some n ↦ insert key (suc n) guards
]

-- `connect_guard`.
unfoldable pub connect_guard : Text → World → World
unfolding process_forked clone_guard
connect_guard key w =
    let (stored, forked) = process_forked w.pid w.guards.pid in
    let inherited : List (Text × ℕ) = if forked then [] else w.guards.map in
    record w { guards = record { pid = stored; map = clone_guard key inherited } }

-- `drop(key_guard)`.
unfoldable pub drop_guard : Text → List (Text × ℕ) → List (Text × ℕ)
unfolding lookup insert
drop_guard key guards = elim (lookup key guards) [
  | none ↦ guards
  | some n ↦ insert key (n - 1) guards
]

unfoldable pub remove_unused : Text → List (Text × ℕ) → List (Text × ℕ)
unfolding lookup remove
remove_unused key guards = elim (lookup key guards) [
  | none ↦ guards
  | some n ↦ if n == 1 then remove key guards else guards
]

-- `drop(key_guard)` and then `release_connect_guard`.
unfoldable pub release_connect_guard : Text → World → World
unfolding process_forked drop_guard remove_unused
release_connect_guard key w = record w {
  guards = record { pid = w.guards.pid; map = remove_unused key (drop_guard key w.guards.map) };
}
