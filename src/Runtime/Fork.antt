-- ===== src/Runtime/Fork.antt =====
-- The runtime of lib.rs across `fork()` and shutdown.
use aerospike_php_client.Common.{
  ℕ, ◌<◌, ◌≡◌, refl, ◌∙◌, inl, inr, true, false, Option, none, some, arith, ◌==◌, Bool-cases, List,
  [], ◌∷◌, ◌⊎◌,
}
use aerospike_php_client.Runtime.{
  Tokio, Runtime, Build, built, build_failed, build_panicked, Handle, runtime, refused, null_deref,
  deref, build_runtime, tokio_rt, take_tokio_rt,
}

-- A stored pid other than 0 comes with a runtime that the process of that pid built.
abbrev pub IsHomed : ℕ → Option Tokio → Type 0
IsHomed pid none = ⊥
IsHomed pid (some rt) = rt.home ≡ pid

abbrev pub IsSound : Runtime → Type 0
IsSound r = (r.pid ≡ 0) ⊎ IsHomed r.pid r.ptr

-- What a process gets from `tokio_rt`: a runtime of its own, never one inherited from a parent and
-- never a null pointer.
abbrev pub IsOwn : ℕ → Handle → Type 0
IsOwn pid (runtime rt) = rt.home ≡ pid
IsOwn pid (refused e) = Unit
IsOwn pid null_deref = ⊥

pub tokio_rt-IsSound :
    (pid : ℕ) (ini : Option ℕ) (b : Build) (r : Runtime)
    → IsSound r
    → IsSound (tokio_rt pid ini b r).0
unfolding tokio_rt
tokio_rt-IsSound pid ini built r s = ground arith
tokio_rt-IsSound pid ini (build_failed e) r s = ground arith
tokio_rt-IsSound pid ini (build_panicked e) r s = ground arith

deref-IsOwn : (pid q : ℕ) (o : Option Tokio) → q ≡ pid → IsHomed q o → IsOwn pid (deref o)
unfolding deref
deref-IsOwn pid q none e h = absurd h
deref-IsOwn pid q (some rt) e h = h ∙ e

build_runtime-IsOwn :
    (pid : ℕ) (ini : Option ℕ) (b : Build) (r : Runtime) → IsOwn pid (build_runtime pid ini b r).1
unfolding build_runtime
build_runtime-IsOwn pid ini built r = refl
build_runtime-IsOwn pid ini (build_failed e) r = tt
build_runtime-IsOwn pid ini (build_panicked e) r = tt

tokio_rt-IsOwn :
    (pid : ℕ) (ini : Option ℕ) (b : Build) (r : Runtime)
    → 0 < pid
    → IsSound r
    → IsOwn pid (tokio_rt pid ini b r).1
unfolding tokio_rt
tokio_rt-IsOwn pid ini b r p (inl z) =
    let n : (r.pid == pid) ≡ false = ground arith in rw n (build_runtime-IsOwn pid ini b r)
tokio_rt-IsOwn pid ini b r p (inr h) = elim (Bool-cases (r.pid == pid)) [
  | inl e ↦ rw e (deref-IsOwn pid r.pid r.ptr (ground arith) h)
  | inr n ↦ rw n (build_runtime-IsOwn pid ini b r)
]

take_tokio_rt-IsSound : (pid : ℕ) (r : Runtime) → IsSound r → IsSound (take_tokio_rt pid r).0
unfolding take_tokio_rt
take_tokio_rt-IsSound pid r s = ground arith

-- What happens to the runtime's two variables: calls of `tokio_rt` and of `take_tokio_rt` in any
-- process. A `fork()` changes neither, so the child's calls go on from the parent's values.
pub data Event : Type 0 where
  use_in : ℕ → Option ℕ → Build → Event
  shut_in : ℕ → Event

unfoldable pub after : Runtime → List Event → Runtime
after r [] = r
after r (use_in pid ini b ∷ es) = after (tokio_rt pid ini b r).0 es
after r (shut_in pid ∷ es) = after (take_tokio_rt pid r).0 es

after-IsSound : (r : Runtime) (es : List Event) → IsSound r → IsSound (after r es)
unfolding after
after-IsSound r [] s = s
after-IsSound r (use_in pid ini b ∷ es) s =
    after-IsSound (tokio_rt pid ini b r).0 es (tokio_rt-IsSound pid ini b r s)
after-IsSound r (shut_in pid ∷ es) s =
    after-IsSound (take_tokio_rt pid r).0 es (take_tokio_rt-IsSound pid r s)

-- The statics as the module is loaded.
abbrev pub unset : Runtime
unset = record { ptr = none; pid = 0 }

-- After any calls in any processes, `tokio_rt` gives a process, whose id is not 0, a runtime that
-- the process itself built, or throws: never an inherited runtime, and never a read through a null
-- pointer.
pub tokio_rt-after :
    (es : List Event) (pid : ℕ) (ini : Option ℕ) (b : Build)
    → 0 < pid
    → IsOwn pid (tokio_rt pid ini b (after unset es)).1
tokio_rt-after es pid ini b p =
    tokio_rt-IsOwn pid ini b (after unset es) p (after-IsSound unset es (inl refl))

-- What shutdown is handed: this process's own runtime or none.
abbrev pub IsOwnOrNone : ℕ → Option Tokio → Type 0
IsOwnOrNone pid none = Unit
IsOwnOrNone pid (some rt) = rt.home ≡ pid

own_or_none : (pid q : ℕ) (o : Option Tokio) → q ≡ pid → IsHomed q o → IsOwnOrNone pid o
own_or_none pid q none e h = tt
own_or_none pid q (some rt) e h = h ∙ e

take-own : (pid : ℕ) (r : Runtime) → 0 < pid → IsSound r → IsOwnOrNone pid (take_tokio_rt pid r).1
unfolding take_tokio_rt
take-own pid r p (inl z) = let n : (r.pid == pid) ≡ false = ground arith in rw n tt
take-own pid r p (inr h) = elim (Bool-cases (r.pid == pid)) [
  | inl e ↦ rw e (own_or_none pid r.pid r.ptr (ground arith) h)
  | inr n ↦ rw n tt
]

-- Shutdown in a process whose id is not 0 takes at most the process's own runtime, whatever came
-- before, and takes it once: a second call right after it gets nothing.
pub take_tokio_rt_once :
    (es : List Event) (pid : ℕ)
    → 0 < pid
    → IsOwnOrNone pid (take_tokio_rt pid (after unset es)).1
      × ((take_tokio_rt pid (take_tokio_rt pid (after unset es)).0).1 ≡ none)
unfolding take_tokio_rt
take_tokio_rt_once es pid p =
    (take-own pid (after unset es) p (after-IsSound unset es (inl refl)), ground arith)

deref-there : (pid : ℕ) (o : Option Tokio) → IsHomed pid o → (rt : Tokio) × (deref o ≡ runtime rt)
unfolding deref
deref-there pid none h = absurd h
deref-there pid (some rt) h = (rt, refl)

-- A process that has its runtime is given that one, whatever a build would come to.
pub tokio_rt-there :
    (pid : ℕ) (ini : Option ℕ) (b : Build) (r : Runtime)
    → 0 < pid
    → IsSound r
    → r.pid ≡ pid
    → (rt : Tokio) × (tokio_rt pid ini b r ≡ (r, runtime rt))
unfolding tokio_rt
tokio_rt-there pid ini b r p (inl z) e = absurd (omega arith)
tokio_rt-there pid ini b r p (inr h) e =
    let same : (r.pid == pid) ≡ true = ground arith in
    let (rt, q) = deref-there r.pid r.ptr h in (rt, rw (same, q))
