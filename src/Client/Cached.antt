-- ===== src/Client/Cached.antt =====
-- The invariant of the client cache of lib.rs, for a cache that belongs to the process, and what the
-- changes of the map do to it.
use aerospike_php_client.Common.{
  ℕ, suc, ◌<◌, ◌≤◌, ◌≡◌, ◌≢◌, has, refl, inl, inr, List, [], ◌∷◌, map, Bool, false, none, some,
  arith, Bool-cases, All, if◌then◌else◌,
}
use aerospike_php_client.Common.Text.{
  Text, same, same_iff, same_refl, lookup, insert, IsMap, lookup-insert, insert-IsMap,
}
use native.Mathlib.Decide.{dec_lt}
use aerospike_php_client.Cache.Entry.{ClientEntry}
use aerospike_php_client.Cache.Lru.{Evicted}
use aerospike_php_client.Client.World.{Client, cache_key}

abbrev pub Entries : Type 0
Entries = List (Text × ClientEntry)

abbrev pub IsIn : ℕ → Entries → Type 0
IsIn c m = (k : Text) × (e : ClientEntry) × (lookup k m ≡ some e) × (e.client ≡ c)

-- `leaving` are the clients just taken out of the map and not closed yet.
pub record Cached (born built : ℕ) (m : Entries) (leaving closed close_calls : List ℕ)
    : Type 0 where
  pub is_map : IsMap m
  pub own :
      (k : Text) (e : ClientEntry) → lookup k m ≡ some e → (born ≤ e.client) × (e.client < built)
  pub keyed :
      (k : Text) (e : ClientEntry)
      → lookup k m ≡ some e
      → k ≡ cache_key e.hosts e.policy_fingerprint
  pub distinct :
      (k j : Text) (e f : ClientEntry)
      → lookup k m ≡ some e
      → lookup j m ≡ some f
      → e.client ≡ f.client
      → k ≡ j
  pub open_still : (k : Text) (e : ClientEntry) → lookup k m ≡ some e → has e.client closed ≡ false
  pub staying : (k : Text) (e : ClientEntry) → lookup k m ≡ some e → has e.client leaving ≡ false
  pub held :
      (c : ℕ) → born ≤ c → c < built → has c close_calls ≡ false → has c leaving ≡ false → IsIn c m

-- The object's own key is where its client stands, if it stands in the map at all.
pub record Knows (built : ℕ) (m : Entries) (o : Client) : Type 0 where
  pub below : o.client < built
  pub key :
      (k : Text) (e : ClientEntry)
      → lookup k m ≡ some e
      → e.client ≡ o.client
      → k ≡ cache_key o.hosts o.policy_fingerprint

-- Nothing has been built in a process whose cache is still empty.
pub empty-Cached :
    {born built : ℕ} {closed close_calls : List ℕ}
    → born ≡ built
    → Cached born built [] [] closed close_calls
unfolding lookup
empty-Cached e = record {
  is_map = tt;
  own = λ k e h. cc;
  keyed = λ k e h. cc;
  distinct = λ k j e f h. cc;
  open_still = λ k e h. cc;
  staying = λ k e h. cc;
  held = λ c b u h l. absurd (omega arith);
}

refresh-IsIn :
    (m : Entries) (key : Text) (e e' : ClientEntry)
    → lookup key m ≡ some e
    → e'.client ≡ e.client
    → (c : ℕ) → IsIn c m
    → IsIn c (insert key e' m)
refresh-IsIn m key e e' found same_client c (k, x, l, q) = elim (Bool-cases (same key k)) [
  | inl hit ↦ (
    key,
    e',
    ground (arith, lookup-insert key key e' m, same_refl key),
    ground (arith, same_iff key k),
  )
  | inr miss ↦ (k, x, ground (arith, lookup-insert key k e' m), q)
]

evicted-staying :
    (before after : Entries) (c : ℕ) (evicted : List ClientEntry)
    → All (λ e. (k : Text) × (lookup k before ≡ some e) × (lookup k after ≡ none)) evicted
    → ((k : Text) (e : ClientEntry)
        → lookup k before ≡ some e
        → lookup k after ≡ none
        → e.client ≢ c)
    → has c (map (λ x. x.client) evicted) ≡ false
unfolding has
evicted-staying b a c [] g h = refl
evicted-staying b a c (e ∷ es) g h =
    ground (arith, h g.0.0 e g.0.1 g.0.2, evicted-staying b a c es g.1 h)

module _ {born built : ℕ} {m : Entries} {leaving closed close_calls : List ℕ} where
  -- A hit changes the entry's time alone.
  pub refresh-Cached :
      (key : Text) (e e' : ClientEntry)
      → lookup key m ≡ some e
      → e'.client ≡ e.client
      → e'.hosts ≡ e.hosts
      → e'.policy_fingerprint ≡ e.policy_fingerprint
      → Cached born built m leaving closed close_calls
      → Cached born built (insert key e' m) leaving closed close_calls
  refresh-Cached key e e' found c h f v = record {
    is_map = insert-IsMap key e' m v.is_map;
    own = λ k x l. ground (arith, lookup-insert key k e' m, v.own key e found, v.own k x);
    keyed = λ k x l.
        ground (arith, lookup-insert key k e' m, same_iff key k, v.keyed key e found, v.keyed k x);
    distinct = λ k j x y l r q. ground (
      arith,
      lookup-insert key k e' m,
      lookup-insert key j e' m,
      same_iff key k,
      same_iff key j,
      v.distinct k j x y,
      v.distinct key j e y,
      v.distinct k key x e,
    );
    open_still =
        λ k x l. ground (arith, lookup-insert key k e' m, v.open_still key e, v.open_still k x);
    staying = λ k x l. ground (arith, lookup-insert key k e' m, v.staying key e, v.staying k x);
    held = λ d b u h l. refresh-IsIn m key e e' found c d (v.held d b u h l);
  }

  -- A new client under a new key.
  pub insert-Cached :
      (key hosts fp : Text) (now : ℕ)
      → key ≡ cache_key hosts fp
      → lookup key m ≡ none
      → born ≤ built
      → has built closed ≡ false
      → has built leaving ≡ false
      → Cached born built m leaving closed close_calls
      → Cached born
          (suc built)
          (insert key
            (record { client = built; hosts = hosts; policy_fingerprint = fp; last_used = now })
            m)
          leaving
          closed
          close_calls
  insert-Cached key hosts fp now is_key absent b not_closed not_leaving v = record {
    is_map = insert-IsMap key e m v.is_map;
    own = λ k x l. ground (arith, lookup-insert key k e m, v.own k x);
    keyed = λ k x l. ground (arith, lookup-insert key k e m, same_iff key k, v.keyed k x);
    distinct = λ k j x y l r q. ground (
      arith,
      lookup-insert key k e m,
      lookup-insert key j e m,
      same_iff key k,
      same_iff key j,
      v.distinct k j x y,
      v.own k x,
      v.own j y,
    );
    open_still = λ k x l. ground (arith, lookup-insert key k e m, v.open_still k x);
    staying = λ k x l. ground (arith, lookup-insert key k e m, v.staying k x);
    held = λ c lo hi h l. elim (dec_lt c built) [
      | yes old ↦ insert-IsIn c (v.held c lo old h l)
      | no new ↦ (key, e, ground (arith, lookup-insert key key e m, same_refl key), omega arith)
    ];
  }
    where
      e : ClientEntry
      e = record { client = built; hosts = hosts; policy_fingerprint = fp; last_used = now }

      insert-IsIn : (c : ℕ) → IsIn c m → IsIn c (insert key e m)
      insert-IsIn c (k, x, l, q) =
          (k, x, ground (arith, lookup-insert key k e m, same_iff key k), q)

  -- `close()` on a client that has left.
  pub close-Cached :
      (c : ℕ) (back : Bool)
      → Cached born built m (c ∷ leaving) closed close_calls
      → Cached born built m leaving (if back then c ∷ closed else closed) (c ∷ close_calls)
  unfolding has
  close-Cached c back v = record {
    is_map = v.is_map;
    own = v.own;
    keyed = v.keyed;
    distinct = v.distinct;
    open_still = λ k e l. ground (arith, v.open_still k e l, v.staying k e l);
    staying = λ k e l. ground (arith, v.staying k e l);
    held = λ d b u h l. v.held d b u (ground arith) (ground arith);
  }

module _ {born built : ℕ} {m : Entries} {closed close_calls : List ℕ} where
  -- The evicted entries leave, and nothing else changes.
  pub evict-Cached :
      (limit : ℕ) (count : ℕ → ℕ) (m' : Entries) (evicted : List ClientEntry)
      → Evicted limit count m m' evicted
      → Cached born built m [] closed close_calls
      → Cached born built m' (map (λ x. x.client) evicted) closed close_calls
  unfolding has
  evict-Cached limit count m' evicted r v = record {
    is_map = r.is_map;
    own = λ k e l. v.own k e (r.kept k e l);
    keyed = λ k e l. v.keyed k e (r.kept k e l);
    distinct = λ k j e f l n. v.distinct k j e f (r.kept k e l) (r.kept j f n);
    open_still = λ k e l. v.open_still k e (r.kept k e l);
    staying = λ k e l.
        evicted-staying m m' e.client evicted r.gone
          (λ j f n g q. ground (arith, v.distinct j k f e n (r.kept k e l) q));
    held = λ c b u h l. evict-IsIn c (v.held c b u h refl) l;
  }
    where
      evict-IsIn : (c : ℕ) → IsIn c m → has c (map (λ x. x.client) evicted) ≡ false → IsIn c m'
      evict-IsIn c (k, e, l, q) n = (k, e, ground (arith, r.rest k e l), q)

-- The three changes of the map, as an object sees them.
pub refresh-Knows :
    (built : ℕ) (m : Entries) (key : Text) (e e' : ClientEntry) (o : Client)
    → lookup key m ≡ some e
    → e'.client ≡ e.client
    → Knows built m o
    → Knows built (insert key e' m) o
refresh-Knows built m key e e' o found c n = record {
  below = n.below;
  key = λ k x l q. ground (arith, lookup-insert key k e' m, same_iff key k, n.key key e, n.key k x);
}

pub insert-Knows :
    (built : ℕ) (m : Entries) (key : Text) (e : ClientEntry) (o : Client)
    → e.client ≡ built
    → Knows built m o
    → Knows (suc built) (insert key e m) o
insert-Knows built m key e o c n = record {
  below = omega (arith, n.below);
  key = λ k x l q. ground (arith, lookup-insert key k e m, n.below, n.key k x);
}

pub shrink-Knows :
    (built : ℕ) (m m' : Entries) (o : Client)
    → ((k : Text) (e : ClientEntry) → lookup k m' ≡ some e → lookup k m ≡ some e)
    → Knows built m o
    → Knows built m' o
shrink-Knows built m m' o sub n = record {
  below = n.below;
  key = λ k e l q. n.key k e (sub k e l) q;
}
