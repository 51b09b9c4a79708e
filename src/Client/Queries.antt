-- ===== src/Client/Queries.antt =====
-- Recordsets of lib.rs come and go without touching the client cache.
use aerospike_php_client.Common.{ℕ, List, Option, none, some}
use aerospike_php_client.Runtime.{Handle}
use aerospike_php_client.Runtime
use aerospike_php_client.Recordset.{Crate}
use aerospike_php_client.Client.World.{World, Client, drop_recordset}
use aerospike_php_client.Client.Connect.{Env}
use aerospike_php_client.Client.Query.{
  Queried, streams, query_failed, query_panicked, opened, with_handle, query,
}
use aerospike_php_client.Client.Invariant.{Inv}
use aerospike_php_client.Client.Closes.{use_runtime-Inv}

recordsets-Inv : (cs : List ℕ) (w : World) → Inv w → Inv (record w { recordsets = cs })
recordsets-Inv cs w v = record {
  pid_pos = v.pid_pos;
  sound = v.sound;
  ready = v.ready;
  range = v.range;
  fresh = v.fresh;
  below = v.below;
  cached = v.cached;
  foreign = v.foreign;
}

pub drop_recordset-Inv : (n : ℕ) (w : World) → Inv w → Inv (drop_recordset n w)
unfolding drop_recordset
drop_recordset-Inv n w v = recordsets-Inv _ w v

module _ (K : Crate) where
  opened-Inv :
      (self : Client) (max_records : ℕ) (pf : K.Filter) (answer : Queried K.Stream) (w : World)
      → Inv w
      → Inv (opened K self max_records pf answer w).0
  unfolding opened
  opened-Inv self max_records pf (streams s) w v = recordsets-Inv _ w v
  opened-Inv self max_records pf (query_failed e) w v = v
  opened-Inv self max_records pf (query_panicked m) w v = v

  with_handle-Inv :
      (h : Handle) (self : Client) (max_records : ℕ) (pf : K.Filter)
      (crate_query : K.Filter → Queried K.Stream) (w : World)
      → Inv w
      → Inv (with_handle K h self max_records pf crate_query w).0
  unfolding with_handle
  with_handle-Inv (Runtime.runtime rt) self max_records pf crate_query w v =
      opened-Inv self max_records pf (crate_query pf) w v
  with_handle-Inv (Runtime.refused x) self max_records pf crate_query w v = v
  with_handle-Inv Runtime.null_deref self max_records pf crate_query w v = v

  pub query-Inv :
      (env : Env) (self : Client) (max_records : ℕ) (pf : Option K.Filter)
      (crate_query : K.Filter → Queried K.Stream) (w : World)
      → Inv w
      → Inv (query K env self max_records pf crate_query w).0
  unfolding query
  query-Inv env self max_records none crate_query w v = v
  query-Inv env self max_records (some pf) crate_query w v =
      with_handle-Inv _ self max_records pf crate_query _ (use_runtime-Inv env w v)
