-- ===== src/Client/Shutdown.antt =====
-- The module shutdown of lib.rs closes what the process built.
use aerospike_php_client.Common.{
  ◌≡◌, ap, ◌<◌, ◌≤◌, refl, [], ◌∷◌, List, ℕ, some, true, false, arith, has, All, All-mono,
  Bool-cases, inl, inr,
}
use aerospike_php_client.Common.Text.{Text, lookup, values, IsMap, same_iff}
use aerospike_php_client.Cache.Entry.{ClientEntry}
use aerospike_php_client.Client.World.{World, clients_lock}
use aerospike_php_client.Client.Connect.{Env, close_client_entries}
use aerospike_php_client.Client.Close.{shutdown}
use aerospike_php_client.Client.Cached.{Entries, IsIn, shrink-Knows}
use aerospike_php_client.Client.Invariant.{Inv, Locked, clients_lock-Locked}
use aerospike_php_client.Client.Connected.{close_entries-Kept}
use aerospike_php_client.Client.Connects.{ids, close_client_entries-Locked}

All-values :
    (P : ClientEntry → Type 0) (m : Entries)
    → IsMap m
    → ((k : Text) (e : ClientEntry) → lookup k m ≡ some e → P e)
    → All P (values m)
unfolding lookup
All-values P [] d h = tt
All-values P ((k, e) ∷ m) d h = (
  h k e (ground (arith, same_iff k k)),
  All-values P m d.1 (λ j f l. h j f (ground (arith, same_iff k j, d.0))),
)

has-values :
    (k : Text) (e : ClientEntry) (m : Entries)
    → lookup k m ≡ some e
    → has e.client (ids (values m)) ≡ true
unfolding lookup has
has-values k e [] l = ground arith
has-values k e ((j, f) ∷ m) l = ground (arith, same_iff j k, has-values k e m)

ids-All : (P : ℕ → Type 0) (es : List ClientEntry) → All (λ e. P e.client) es → All P (ids es)
ids-All P [] h = tt
ids-All P (e ∷ es) h = (h.0, ids-All P es h.1)

emptied-Locked :
    (w : World)
    → Locked [] w
    → Locked
        (ids (values w.cache.map))
        (record w { cache = record { pid = w.cache.pid; map = [] } })
unfolding lookup has
emptied-Locked w v = record {
  pid_pos = v.pid_pos;
  sound = v.sound;
  ready = v.ready;
  range = v.range;
  fresh = v.fresh;
  owner = v.owner;
  cached = record {
    is_map = tt;
    own = λ k e l. cc;
    keyed = λ k e l. cc;
    distinct = λ k j e f l q. cc;
    open_still = λ k e l. cc;
    staying = λ k e l. cc;
    held = λ c b u h n. absurd (left c n (v.cached.held c b u h refl));
  };
  going = ids-All _ _ (All-values _ w.cache.map v.cached.is_map v.cached.own);
  objects =
      All-mono _ _ (λ o n. shrink-Knows w.built w.cache.map [] o (λ k e l. cc) n) w.objects
        v.objects;
}
  where
    left : (c : ℕ) → has c (ids (values w.cache.map)) ≡ false → IsIn c w.cache.map → ⊥
    left c n (k, e, l, q) = ground (arith, has-values k e w.cache.map)

abbrev After : World → World → Type 0
After w w' =
    (w'.cache.map ≡ []) × ((c : ℕ) → w.born ≤ c → c < w.built → has c w'.close_calls ≡ true)

closing-After :
    (w w' : World)
    → Locked [] w'
    → w'.cache.map ≡ []
    → w'.born ≡ w.born
    → w'.built ≡ w.built
    → After w w'
unfolding lookup has
closing-After w w' v e b u = (
  e,
  λ c lo hi. elim (Bool-cases (has c w'.close_calls)) [
    | inl yes_called ↦ yes_called
    | inr not_called ↦ absurd (nowhere c (v.cached.held c (rw b lo) (rw u hi) not_called refl))
  ],
)
  where
    nowhere : (c : ℕ) → IsIn c w'.cache.map → ⊥
    nowhere c (k, f, l, q) = ground arith

shutdown-After : (env : Env) (w : World) → Inv w → After w (shutdown env w).0
unfolding shutdown clients_lock
shutdown-After env w v =
    let l = clients_lock-Locked w v in
    let es = values (clients_lock w).cache.map in
    let emptied : World = record (clients_lock w) {
      cache = record { pid = (clients_lock w).cache.pid; map = [] };
    } in
    let k = close_entries-Kept env es emptied in
    closing-After w (close_client_entries env es emptied)
      (close_client_entries-Locked env es emptied (emptied-Locked (clients_lock w) l))
      (ap (λ m. m.map) k.0) k.1 k.2

-- In a state with the invariant, after the module shutdown `close()` has been called on every
-- client that the process built.
pub shutdown-closes :
    (env : Env) (w : World) (c : ℕ)
    → Inv w
    → w.born ≤ c
    → c < w.built
    → has c (shutdown env w).0.close_calls ≡ true
shutdown-closes env w c v lo hi = (shutdown-After env w v).1 c lo hi
