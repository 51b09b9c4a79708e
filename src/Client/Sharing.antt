-- ===== src/Client/Sharing.antt =====
-- What a caller of `Client::connect` of lib.rs may count on.
use aerospike_php_client.Common.{
  ◌≡◌, refl, ◌∙◌, inl, inr, false, Option, some, arith, Bool-cases, subst, ap,
}
use aerospike_php_client.Common.Text.{Text, lookup}
use aerospike_php_client.Cache.Entry.{ClientEntry}
use aerospike_php_client.Hosts.{normalize_hosts}
use aerospike_php_client.Php.{PhpResult, returned}
use aerospike_php_client.Client.World.{World, Client, cache_key}
use aerospike_php_client.Client.Guards.{connect_guard, release_connect_guard}
use aerospike_php_client.Client.Connect.{
  Env, ConnectPolicy, object_of, hit, fingerprint_of, is_refused, connect_locked, connect_keyed,
  connect, close_client_entries,
}
use aerospike_php_client.Client.Invariant.{Inv, Locked-Inv}
use aerospike_php_client.Client.Connects.{lock_own}
use aerospike_php_client.Client.Connected.{Stands, IsLive, live, connect_keyed-Step}

-- `connect` keeps the invariant, whatever the outside world answers.
pub connect-Inv :
    (env : Env) (hosts : Text) (policy : Option ConnectPolicy) (w : World)
    → Inv w
    → Inv (connect env hosts policy w).0
unfolding connect
connect-Inv env hosts policy w v = elim (Bool-cases (is_refused policy)) [
  | inl r ↦ rw (r, connect) v
  | inr r ↦
      rw (r, connect)
        (Locked-Inv _
          (connect_keyed-Step env (cache_key hosts (fingerprint_of policy)) hosts
            (fingerprint_of policy) w refl v).0)
]

same_key :
    (hosts : Text) (policy : Option ConnectPolicy) (o : Client)
    → normalize_hosts hosts ≡ normalize_hosts o.hosts
    → fingerprint_of policy ≡ o.policy_fingerprint
    → cache_key hosts (fingerprint_of policy) ≡ cache_key o.hosts o.policy_fingerprint
unfolding cache_key
same_key hosts policy o h f = rw (h, f) refl

guard_owner :
    (key : Text) (w : World)
    → w.cache.pid ≡ w.pid
    → (connect_guard key w).cache.pid ≡ (connect_guard key w).pid
unfolding connect_guard
guard_owner key w q = q

guard_found :
    (key : Text) (w : World) (e : ClientEntry)
    → lookup key w.cache.map ≡ some e
    → lookup key (connect_guard key w).cache.map ≡ some e
unfolding connect_guard
guard_found key w e q = q

hit_locked :
    (env : Env) (key hosts fp : Text) (w : World) (e : ClientEntry)
    → w.cache.pid ≡ w.pid
    → lookup key w.cache.map ≡ some e
    → connect_locked env key hosts fp w ≡ hit env key e w
unfolding connect_locked
hit_locked env key hosts fp w e own found =
    rw (ap (λ v. lookup key v.cache.map) (lock_own w own) ∙ found, connect_locked)
      (ap (hit env key e) (lock_own w own))

abbrev Shares : World → Client → World × PhpResult Client → Type 0
Shares w o (w', result) =
    (p : Client) × (result ≡ returned p) × (p.client ≡ o.client) × (w'.built ≡ w.built)

hit-Shares :
    (env : Env) (key : Text) (w : World) (o : Client) (e : ClientEntry)
    → e.client ≡ o.client
    → Shares w o (
      close_client_entries env
          (hit env key e (connect_guard key w)).2
          (release_connect_guard key (hit env key e (connect_guard key w)).0),
      (hit env key e (connect_guard key w)).1,
    )
unfolding hit object_of connect_guard release_connect_guard close_client_entries
hit-Shares env key w o e q = (_, refl, q, refl)

keyed-Shares :
    (env : Env) (key hosts fp : Text) (w : World) (o : Client)
    → IsLive key w o
    → Shares w o (connect_keyed env key hosts fp w)
unfolding connect_keyed
keyed-Shares env key hosts fp w o i =
    rw
      (hit_locked env key hosts fp (connect_guard key w) i.entry (guard_owner key w i.owner)
        (guard_found key w i.entry i.stands))
      (hit-Shares env key w o i.entry i.its)

-- In a state with the invariant, whenever `connect` returns an object, that object's client stands
-- in the cache of the running process under the key of the given hosts and policy, was built by
-- that process and is not closed, and the object knows that key.
pub connect-IsLive :
    (env : Env) (hosts : Text) (policy : Option ConnectPolicy) (w : World) (o : Client)
    → Inv w
    → (connect env hosts policy w).1 ≡ returned o
    → IsLive (cache_key hosts (fingerprint_of policy)) (connect env hosts policy w).0 o
unfolding connect
connect-IsLive env hosts policy w o v = elim (Bool-cases (is_refused policy)) [
  | inl r ↦ rw (r, connect) (λ q. ground arith)
  | inr r ↦
      let s =
        connect_keyed-Step env (cache_key hosts (fingerprint_of policy)) hosts
          (fingerprint_of policy) w refl v in
      rw (r, connect) (λ q. live _ _ o s.0 (subst (Stands _ _) q s.1))
]

-- As long as an object's client is live under the object's own key, `connect` with hosts that
-- normalise to the same list and a policy of the same fingerprint that is not refused returns an
-- object of the same client, and builds no other.
pub connect-shares :
    (env : Env) (hosts : Text) (policy : Option ConnectPolicy) (w : World) (o : Client)
    → IsLive (cache_key o.hosts o.policy_fingerprint) w o
    → normalize_hosts hosts ≡ normalize_hosts o.hosts
    → fingerprint_of policy ≡ o.policy_fingerprint
    → is_refused policy ≡ false
    → (p : Client) × ((connect env hosts policy w).1 ≡ returned p)
      × (p.client ≡ o.client)
      × ((connect env hosts policy w).0.built ≡ w.built)
unfolding connect
connect-shares env hosts policy w o i h f r =
    rw (r, same_key hosts policy o h f, connect)
      (keyed-Shares env (cache_key o.hosts o.policy_fingerprint) hosts (fingerprint_of policy) w o
        i)
