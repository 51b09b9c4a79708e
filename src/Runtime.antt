-- ===== src/Runtime.antt =====
-- The process-wide Tokio runtime of lib.rs: `tokio_rt`, `take_tokio_rt` and `process_forked`. The two
-- atomics are the fields of `Runtime`; a runtime is known by the process that built it and its number
-- of worker threads. The process id, the INI value and the outcome of the build are arguments.
pub mod Fork
pub mod Tests
use Prim.Native.String.{String}
use aerospike_php_client.Common.{ℕ, Bool, true, false, Option, none, some, min, ◌==◌, if◌then◌else◌}
use aerospike_php_client.Php.{PhpResult, returned, threw, Thrown, runtime_failed, panicked}

-- `TOKIO_WORKER_THREADS_DEFAULT` and `TOKIO_WORKER_THREADS_MAX`.
abbrev pub worker_threads_default : ℕ
worker_threads_default = 2

abbrev pub worker_threads_max : ℕ
worker_threads_max = 64

pub record Tokio : Type 0 where
  pub home : ℕ
  pub worker_threads : ℕ

-- `TOKIO_RT_PTR` (`none` for null) and `TOKIO_RT_PID`.
pub record Runtime : Type 0 where
  pub ptr : Option Tokio
  pub pid : ℕ

-- The outcome of `Builder::build` under `catch_panic`.
pub data Build : Type 0 where
  built : Build
  build_failed : String → Build
  build_panicked : String → Build

-- What `tokio_rt` comes to; `null_deref` is the undefined behaviour of reading through a null pointer.
pub data Handle : Type 0 where
  runtime : Tokio → Handle
  refused : Thrown → Handle
  null_deref : Handle

unfoldable pub deref : Option Tokio → Handle
deref none = null_deref
deref (some rt) = runtime rt

unfoldable pub worker_threads : Option ℕ → ℕ
worker_threads none = worker_threads_default
worker_threads (some v) = min v worker_threads_max

unfoldable pub build_runtime : ℕ → Option ℕ → Build → Runtime → Runtime × Handle
unfolding worker_threads
build_runtime pid ini built r =
    let rt : Tokio = record { home = pid; worker_threads = worker_threads ini } in
    (record { ptr = some rt; pid = pid }, runtime rt)
build_runtime pid ini (build_failed e) r = (r, refused (runtime_failed e))
build_runtime pid ini (build_panicked e) r = (r, refused (panicked e))

-- `tokio_rt`. The pid is read again under the lock: no other thread comes between in this model.
unfoldable pub tokio_rt : ℕ → Option ℕ → Build → Runtime → Runtime × Handle
unfolding deref build_runtime
tokio_rt pid ini b r =
    if r.pid == pid
    then (r, deref r.ptr)
    else if r.pid == pid
    then (r, deref r.ptr)
    else build_runtime pid ini b r

-- `take_tokio_rt`.
unfoldable pub take_tokio_rt : ℕ → Runtime → Runtime × Option Tokio
take_tokio_rt pid r = if r.pid == pid then (record { ptr = none; pid = 0 }, r.ptr) else (r, none)

-- `process_forked`: the new stored pid, and whether it changed.
unfoldable pub process_forked : ℕ → ℕ → ℕ × Bool
process_forked pid stored = if stored == pid then (stored, false) else (pid, true)
