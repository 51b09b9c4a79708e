-- ===== src/Client/Closed.antt =====
-- `Client::close` of lib.rs from the caller's side.
use mathlib.Core.List.{Memᴰ}
use Prim.Native.String.{String}
use aerospike_php_client.Common.{◌≡◌, refl, ap, ◌⊎◌, inl, inr, true, arith, ℕ, Option}
use aerospike_php_client.Common.Text.{Text}
use aerospike_php_client.Errors.{Error}
use aerospike_php_client.Php.{PhpResult, returned, threw, client_error, Thrown}
use aerospike_php_client.Runtime.{
  Tokio, Handle, tokio_rt, Runtime, Build, built, build_failed, build_panicked,
}
use aerospike_php_client.Runtime
use aerospike_php_client.Client.World.{World, Client, clients_lock, cache_key}
use aerospike_php_client.Client.Guards.{connect_guard, release_connect_guard}
use aerospike_php_client.Client.Connect.{
  Env, use_runtime, log_close, came_back, close_ok, close_failed, close_panicked, CloseOutcome,
}
use aerospike_php_client.Client.Close.{forget, close_client, close_locked, close}
use aerospike_php_client.Client.Invariant.{Inv, Locked-Inv, connect_guard-Inv}
use aerospike_php_client.Client.Connected.{Handle-cases}
use aerospike_php_client.Client.Closes.{
  use_runtime-Inv, panic-Inv, forget-Locked, forget-Gone, Gone,
}

-- `close()` came back, with or without an error of the client library.
abbrev pub Answered : PhpResult (Unit {0}) → Type 0
Answered (returned x) = Unit
Answered (threw (client_error e)) = Unit
Answered _ = ⊥

abbrev Done : Client → World → World × PhpResult (Unit {0}) → Type 0
Done self w (w', result) = Inv w' × (Answered result → Gone self w w')

CloseOutcome-cases :
    (o : CloseOutcome)
    → (o ≡ close_ok)
      ⊎ ((e : Error) × (o ≡ close_failed e))
      ⊎ ((m : String) × (o ≡ close_panicked m))
CloseOutcome-cases close_ok = inl refl
CloseOutcome-cases (close_failed e) = inr (inl (e, refl))
CloseOutcome-cases (close_panicked m) = inr (inr (m, refl))

module _ (env : Env) (self : Client) where
  abbrev own_key : Text
  own_key = cache_key self.hosts self.policy_fingerprint

  close_client-Done :
      (w : World)
      → Inv w
      → Memᴰ self w.objects
      → Done self w (close_client env own_key self.client w)
  unfolding close_client
  close_client-Done w v held = elim (CloseOutcome-cases (env.close_outcome self.client)) [
    | inl q ↦ rw (q, close_client) (after (ap came_back q))
    | inr (inl (e, q)) ↦ rw (q, close_client) (after (ap came_back q))
    | inr (inr (m, q)) ↦
        rw (q, close_client) (panic-Inv env self.client w (ap came_back q) v, λ a. absurd a)
  ]
    where
      after :
          came_back (env.close_outcome self.client) ≡ true
          → Inv (forget own_key self.client (log_close env self.client w))
            × (Unit {0} → Gone self w (forget own_key self.client (log_close env self.client w)))
      after back = (
        Locked-Inv _ (forget-Locked env self w back v held),
        λ a. forget-Gone env self w back v held,
      )

not-Answered :
    (pid : ℕ) (ini : Option ℕ) (b : Build) (r : Runtime) (x : Thrown)
    → (tokio_rt pid ini b r).1 ≡ Runtime.refused x
    → Answered (threw x)
    → ⊥
unfolding tokio_rt
not-Answered pid ini built r x q = ground arith
not-Answered pid ini (build_failed e) r x q = ground arith
not-Answered pid ini (build_panicked e) r x q = ground arith

from_runtime :
    (env : Env) (self : Client) (w w' : World) → Gone self (use_runtime env w).0 w' → Gone self w w'
unfolding use_runtime clients_lock
from_runtime env self w w' g = record {
  closed = g.closed;
  gone = g.gone;
  kept = g.kept;
  rest = g.rest;
}

held_still :
    (env : Env) (self : Client) (w : World)
    → Memᴰ self w.objects
    → Memᴰ self (use_runtime env w).0.objects
unfolding use_runtime
held_still env self w m = m

close_locked-Done :
    (env : Env) (self : Client) (w : World)
    → Inv w
    → Memᴰ self w.objects
    → Done self w (close_locked env (cache_key self.hosts self.policy_fingerprint) self.client w)
unfolding close_locked use_runtime
close_locked-Done env self w v held =
    elim (Handle-cases (tokio_rt w.pid env.ini_worker_threads env.build w.runtime).1) [
      | inl (rt, q) ↦
          let d =
            close_client-Done env self (use_runtime env w).0 (use_runtime-Inv env w v)
              (held_still env self w held) in
          rw (q, close_locked, use_runtime) (d.0, λ a. from_runtime env self w _ (d.1 a))
      | inr (inl (x, q)) ↦
          rw (q, close_locked, use_runtime)
            (
              use_runtime-Inv env w v,
              λ a. absurd (not-Answered w.pid env.ini_worker_threads env.build w.runtime x q a),
            )
      | inr (inr q) ↦ rw (q, close_locked, use_runtime) (use_runtime-Inv env w v, λ a. absurd a)
    ]

release_connect_guard-Inv : (key : Text) (w : World) → Inv w → Inv (release_connect_guard key w)
unfolding release_connect_guard
release_connect_guard-Inv key w v = record {
  pid_pos = v.pid_pos;
  sound = v.sound;
  ready = v.ready;
  range = v.range;
  fresh = v.fresh;
  below = v.below;
  cached = v.cached;
  foreign = v.foreign;
}

close-Done :
    (env : Env) (self : Client) (w : World)
    → Inv w
    → Memᴰ self w.objects
    → Done self w (close env self w)
unfolding close connect_guard release_connect_guard clients_lock
close-Done env self w v held =
    let key = cache_key self.hosts self.policy_fingerprint in
    let d = close_locked-Done env self (connect_guard key w) (connect_guard-Inv key w v) held in
    (
      release_connect_guard-Inv key _ d.0,
      λ a.
          let g = d.1 a in
          record { closed = g.closed; gone = g.gone; kept = g.kept; rest = g.rest },
    )

-- `close` on an object that is alive keeps the invariant, whatever the outside world answers.
pub close-Inv :
    (env : Env) (self : Client) (w : World) → Inv w → Memᴰ self w.objects → Inv (close env self w).0
close-Inv env self w v held = (close-Done env self w v held).0

-- In a state with the invariant, when `close` on an object that is alive returns, or throws an
-- error of the client library's `close()`, the client is closed and is in the cache no longer, and
-- every other entry of the process's cache is there as before.
pub close-Gone :
    (env : Env) (self : Client) (w : World)
    → Inv w
    → Memᴰ self w.objects
    → Answered (close env self w).1
    → Gone self w (close env self w).0
close-Gone env self w v held = (close-Done env self w v held).1
