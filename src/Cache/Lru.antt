-- ===== src/Cache/Lru.antt =====
-- What `evict_idle_clients` of lib.rs removes, and in which order.
use mathlib.Core.List.{Perm}
use mathlib.Core.List.Perm
use aerospike_php_client.Common.{
  ℕ, ◌≡◌, ◌≢◌, refl, ◌∙◌, ◌⊎◌, inl, inr, List, [], ◌∷◌, ◌++◌, Option, none, some, true, ltb, leb,
  ◌==◌, if◌then◌else◌, length, has, map, All-mono, ◌+◌, ◌<◌, ◌≤◌, All, arith, Bool-cases,
  Option-cases, ltb→lt,
}
use aerospike_php_client.Common.Text.{
  Text, same, same_iff, same_refl, lookup, remove, values, IsMap, lookup-remove, remove-IsMap,
  remove-perm, length-remove,
}
use aerospike_php_client.Cache.Entry.{ClientEntry}
use aerospike_php_client.Cache.Evict.{
  idle_entries, insert_by_time, sort_by_time, evict_loop, evict_idle_clients,
}

-- Oldest first, for a list that is a map.
abbrev Sorted : List (Text × ℕ) → Type 0
Sorted [] = Unit
Sorted ((k, t) ∷ l) = ((j : Text) (u : ℕ) → lookup j l ≡ some u → t ≤ u) × Sorted l

lookup-insert_by_time :
    (k j : Text) (t : ℕ) (l : List (Text × ℕ))
    → lookup k l ≡ none
    → lookup j (insert_by_time (k, t) l) ≡ (if same k j then some t else lookup j l)
unfolding lookup insert_by_time
lookup-insert_by_time k j t [] n = refl
lookup-insert_by_time k j t ((i, u) ∷ l) n =
    ground (arith, same_iff k j, same_iff i k, same_iff i j, lookup-insert_by_time k j t l)

insert_by_time-IsMap :
    (k : Text) (t : ℕ) (l : List (Text × ℕ))
    → lookup k l ≡ none
    → IsMap l
    → IsMap (insert_by_time (k, t) l)
unfolding lookup insert_by_time
insert_by_time-IsMap k t [] n d = (refl, tt)
insert_by_time-IsMap k t ((i, u) ∷ l) n d =
    ground
      (arith, same_iff i k, same_iff k i, lookup-insert_by_time k i t l, insert_by_time-IsMap k t l)

insert_by_time-Sorted :
    (k : Text) (t : ℕ) (l : List (Text × ℕ))
    → lookup k l ≡ none
    → IsMap l
    → Sorted l
    → Sorted (insert_by_time (k, t) l)
unfolding lookup insert_by_time
insert_by_time-Sorted k t [] n d s = ((λ j u e. cc), tt)
insert_by_time-Sorted k t ((i, u) ∷ l) n d s = elim (Bool-cases (leb t u)) [
  | inl le ↦ rw le ((λ j v e. ground (arith, s.0 j v)), s)
  | inr gt ↦ rw gt (
    (λ j v e. ground (arith, lookup-insert_by_time k j t l, s.0 j v)),
    insert_by_time-Sorted k t l (ground arith) d.1 s.1,
  )
]

-- The state of the loop: the list holds the keys and times of the map's idle entries.
abbrev idle_time : (ℕ → ℕ) → Option ClientEntry → Option ℕ
idle_time strong_count none = none
idle_time strong_count (some e) = if strong_count e.client == 1 then some e.last_used else none

abbrev Agree : (ℕ → ℕ) → List (Text × ℕ) → List (Text × ClientEntry) → Type 0
Agree strong_count idle map = (k : Text) → lookup k idle ≡ idle_time strong_count (lookup k map)

module _ (strong_count : ℕ → ℕ) where
  idle_entries-Agree :
      (m : List (Text × ClientEntry)) → IsMap m → Agree strong_count (idle_entries strong_count m) m
  unfolding lookup idle_entries
  idle_entries-Agree [] d k = refl
  idle_entries-Agree ((j, e) ∷ m) d k =
      ground (arith, same_iff j k, idle_entries-Agree m d.1 k, idle_entries-Agree m d.1 j)

  idle_entries-IsMap :
      (m : List (Text × ClientEntry)) → IsMap m → IsMap (idle_entries strong_count m)
  unfolding idle_entries
  idle_entries-IsMap [] d = tt
  idle_entries-IsMap ((j, e) ∷ m) d =
      ground (arith, idle_entries-Agree m d.1 j, idle_entries-IsMap m d.1)

record SortedMap (l : List (Text × ℕ)) (s : List (Text × ℕ)) : Type 0 where
  same_lookup : (k : Text) → lookup k s ≡ lookup k l
  is_map : IsMap s
  sorted : Sorted s

sort_by_time-SortedMap : (l : List (Text × ℕ)) → IsMap l → SortedMap l (sort_by_time l)
unfolding lookup sort_by_time
sort_by_time-SortedMap [] d = record { same_lookup = λ k. refl; is_map = tt; sorted = tt }
sort_by_time-SortedMap ((k, t) ∷ l) d =
    let r : SortedMap l (sort_by_time l) = sort_by_time-SortedMap l d.1 in
    let n : lookup k (sort_by_time l) ≡ none = r.same_lookup k ∙ d.0 in
    record {
      same_lookup = λ j. lookup-insert_by_time k j t (sort_by_time l) n ∙ rw (r.same_lookup j);
      is_map = insert_by_time-IsMap k t (sort_by_time l) n r.is_map;
      sorted = insert_by_time-Sorted k t (sort_by_time l) n r.is_map r.sorted;
    }

module _ (limit : ℕ) (strong_count : ℕ → ℕ) where
  -- What becomes of a map whose evicted entries are `evicted`: nothing else is lost or changed, only
  -- idle entries go, the least recently used first, until the map is below the limit or has no idle
  -- entry left, and no more of them than that takes.
  pub record Evicted (before after : List (Text × ClientEntry)) (evicted : List ClientEntry)
      : Type 0 where
    pub is_map : IsMap after
    pub kept : (k : Text) (r : ClientEntry) → lookup k after ≡ some r → lookup k before ≡ some r
    pub rest :
        (k : Text) (e : ClientEntry)
        → lookup k before ≡ some e
        → (lookup k after ≡ some e) ⊎ (has e.client (map (λ x. x.client) evicted) ≡ true)
    pub gone : All (λ e. (k : Text) × (lookup k before ≡ some e) × (lookup k after ≡ none)) evicted
    pub parts : Perm (values before) (evicted ++ values after)
    pub count : length before ≡ length evicted + length after
    pub idle : All (λ e. strong_count e.client ≡ 1) evicted
    pub oldest :
        All
          (λ e.
            (k : Text) (r : ClientEntry)
            → lookup k after ≡ some r
            → strong_count r.client ≡ 1
            → e.last_used ≤ r.last_used)
          evicted
    pub enough :
        (length after < limit)
        ⊎ ((k : Text) (r : ClientEntry) → lookup k after ≡ some r → strong_count r.client ≢ 1)
    pub needed : (evicted ≡ []) ⊎ (limit ≤ length after + 1)

  nothing-Evicted :
      (m : List (Text × ClientEntry))
      → IsMap m
      → (length m < limit)
        ⊎ ((k : Text) (r : ClientEntry) → lookup k m ≡ some r → strong_count r.client ≢ 1)
      → Evicted m m []
  nothing-Evicted m d stop = record {
    is_map = d;
    kept = λ k r e. e;
    rest = λ k e h. inl h;
    gone = tt;
    parts = Perm.rfl;
    count = omega arith;
    idle = tt;
    oldest = tt;
    enough = stop;
    needed = inl refl;
  }

  not-some : (o : Option ClientEntry) → ((x : ClientEntry) → o ≡ some x → ⊥) → o ≡ none
  not-some none h = refl
  not-some (some x) h = absurd (h x refl)

  one-Evicted :
      (key : Text) (t : ℕ) (idle : List (Text × ℕ)) (e : ClientEntry)
      (m m' : List (Text × ClientEntry)) (evicted : List ClientEntry)
      → IsMap m
      → Sorted ((key, t) ∷ idle)
      → Agree strong_count ((key, t) ∷ idle) m
      → lookup key m ≡ some e
      → limit ≤ length m
      → Evicted (remove key m) m' evicted
      → Evicted m m' (e ∷ evicted)
  unfolding lookup has
  one-Evicted key t idle e m m' evicted d s a found big r = record {
    is_map = r.is_map;
    kept = λ k x h. ground (arith, r.kept k x h, lookup-remove key k m d);
    rest = λ k x h. ground (arith, r.rest k x, lookup-remove key k m d, same_iff key k);
    gone = (
      (
        key,
        found,
        not-some _
            (λ x h. ground (arith, r.kept key x h, lookup-remove key key m d, same_refl key)),
      ),
      All-mono _ _ (λ x p. (p.0, ground (arith, p.1, lookup-remove key p.0 m d), p.2)) evicted
          r.gone,
    );
    parts = Perm.trans (remove-perm key m e found) (Perm.cons e r.parts);
    count = omega (arith, length-remove key m e found, r.count);
    idle = (ground (arith, a key, same_refl key), r.idle);
    oldest = (
      (λ k x h c. ground (
        arith,
        a key,
        a k,
        same_refl key,
        s.0 k x.last_used,
        r.kept k x h,
        lookup-remove key k m d,
      )),
      r.oldest,
    );
    enough = r.enough;
    needed = inr (ground (arith, length-remove key m e found, r.count));
  }

  next-Agree :
      (key : Text) (t : ℕ) (idle : List (Text × ℕ)) (m : List (Text × ClientEntry))
      → IsMap m
      → IsMap ((key, t) ∷ idle)
      → Agree strong_count ((key, t) ∷ idle) m
      → Agree strong_count idle (remove key m)
  unfolding lookup
  next-Agree key t idle m d i a k = ground (arith, a k, lookup-remove key k m d, same_iff key k)

  evict_loop-Evicted :
      (idle : List (Text × ℕ)) (m : List (Text × ClientEntry))
      → IsMap m
      → IsMap idle
      → Sorted idle
      → Agree strong_count idle m
      → Evicted m (evict_loop limit idle m).0 (evict_loop limit idle m).1
  unfolding lookup evict_loop
  evict_loop-Evicted [] m d i s a = nothing-Evicted m d (inr (λ k r h c. ground (arith, a k)))
  evict_loop-Evicted ((key, t) ∷ idle) m d i s a = elim (Bool-cases (ltb (length m) limit)) [
    | inl small ↦ rw (small, evict_loop) (nothing-Evicted m d (inl (ltb→lt _ _ small)))
    | inr big ↦ elim (Option-cases (lookup key m)) [
      | inl gone ↦ absurd (ground (arith, a key, same_refl key))
      | inr (e, found) ↦
          rw (big, found, evict_loop)
            (one-Evicted key t idle e m _ _ d s a found (ground arith) (
              evict_loop-Evicted idle (remove key m) (remove-IsMap key m d) i.1 s.1
                (next-Agree key t idle m d i a)))
    ]
  ]

  -- `evict_idle_clients` on a map with distinct keys removes idle entries only, every one of them
  -- used no later than any idle entry that it leaves; it loses and changes no other entry; it
  -- stops below the cap, or when no idle entry is left; and it removes nothing more than that
  -- takes: a map already below the cap is returned whole, and one from which an entry was removed
  -- is at most one entry below the cap.
  pub evict_idle_clients-Evicted :
      (m : List (Text × ClientEntry))
      → IsMap m
      → Evicted m
          (evict_idle_clients limit strong_count m).0
          (evict_idle_clients limit strong_count m).1
  unfolding evict_idle_clients
  evict_idle_clients-Evicted m d = elim (Bool-cases (ltb (length m) limit)) [
    | inl small ↦ rw (small, evict_idle_clients) (nothing-Evicted m d (inl (ltb→lt _ _ small)))
    | inr big ↦
        let s : SortedMap _ _ =
          sort_by_time-SortedMap (idle_entries strong_count m)
            (idle_entries-IsMap strong_count m d) in
        rw (big, evict_idle_clients)
          (evict_loop-Evicted _ m d s.is_map s.sorted
            (λ k. s.same_lookup k ∙ idle_entries-Agree strong_count m d k))
  ]
