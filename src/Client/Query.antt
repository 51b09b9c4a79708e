-- ===== src/Client/Query.antt =====
-- `Client::query` of lib.rs: how a recordset comes to hold its client.
use Prim.Native.String.{String}
use aerospike_php_client.Common.{ℕ, ◌∷◌, Option, none, some, false}
use aerospike_php_client.Errors.{Error}
use aerospike_php_client.Php.{PhpResult, returned, threw, panicked, client_error, poisoned_filter}
use aerospike_php_client.Runtime.{Handle}
use aerospike_php_client.Runtime
use aerospike_php_client.Recordset.{Crate, Recordset}
use aerospike_php_client.Client.World.{World, Client}
use aerospike_php_client.Client.Connect.{Env, use_runtime}

-- The outcome of `aero::Client::query` under `catch_panic`.
pub data Queried (S : Type 0) : Type 0 where
  streams : S → Queried S
  query_failed : Error → Queried S
  query_panicked : String → Queried S

module _ (K : Crate) where
  -- The match on what the crate gave.
  unfoldable pub opened :
      Client → ℕ → K.Filter → Queried K.Stream → World → World × PhpResult (Recordset K)
  opened self max_records pf (streams s) w = (
    record w { recordsets = self.client ∷ w.recordsets },
    returned (record {
      stream = some s;
      max_records = max_records;
      cursor = some pf;
      pf_synced = false;
      client = some self.client;
    }),
  )
  opened self max_records pf (query_failed e) w = (w, threw (client_error e))
  opened self max_records pf (query_panicked m) w = (w, threw (panicked m))

  unfoldable pub with_handle :
      Handle
      → Client
      → ℕ
      → K.Filter
      → (K.Filter → Queried K.Stream)
      → World
      → World × PhpResult (Recordset K)
  unfolding opened
  with_handle (Runtime.runtime rt) self max_records pf crate_query w =
      opened self max_records pf (crate_query pf) w
  with_handle (Runtime.refused x) self max_records pf crate_query w = (w, threw x)
  with_handle Runtime.null_deref self max_records pf crate_query w = (w, threw (panicked ""))

  -- `Client::query`, with what the crate answers under the policy and the statement, and what the lock of
  -- the partition filter gives: none when it is poisoned. (The result where the runtime's pointer is null
  -- is arbitrary, as in `connect`.)
  unfoldable pub query :
      Env
      → Client
      → ℕ
      → Option K.Filter
      → (K.Filter → Queried K.Stream)
      → World
      → World × PhpResult (Recordset K)
  unfolding use_runtime with_handle
  query env self max_records none crate_query w = (w, threw poisoned_filter)
  query env self max_records (some pf) crate_query w =
      let (w', h) = use_runtime env w in with_handle h self max_records pf crate_query w'
