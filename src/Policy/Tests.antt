-- ===== src/Policy/Tests.antt =====
-- Policies with concrete values, over a crate whose opaque values are numbers.
use aerospike_php_client.Common.{ℕ, ◌≡◌, none, true, false, Option, arith}
use aerospike_php_client.Ttl.{server_default, seconds}
use aerospike_php_client.Policy.Cluster.{ClientPolicy, no_auth}
use aerospike_php_client.Policy.{Crate}
use aerospike_php_client.Policy.Base.{
  BasePolicy, BaseSetter, base_set, base_view, base_call, viewed, base_set-reads,
}
use aerospike_php_client.Policy.Write.{
  WritePolicy, WriteSetter, write_set, write_view, write_call, write_seen, write_set-reads,
}
use aerospike_php_client.Policy.Query.{
  QueryPolicy, QuerySetter, query_set, query_view, query_call, query_seen, query_set-reads,
}
use aerospike_php_client.Policy.Scan.{
  ScanPolicy, ScanSetter, scan_set, scan_view, scan_call, scan_seen, scan_set-reads,
}

abbrev crate : Crate
crate = record {
  level = ℕ;
  filter = ℕ;
  replica = ℕ;
  exists_action = ℕ;
  generation_policy = ℕ;
  commit_level = ℕ;
  duration = ℕ;
  zval = Option ℕ;
  is_null = λ z. false;
  expression = λ z. z;
}

abbrev base : BasePolicy crate
base = record {
  max_retries = 2;
  total_timeout = 1000;
  socket_timeout = 3000;
  consistency_level = 0;
  sleep_between_retries = 1;
  timeout_delay = 0;
  filter_expression = none;
  read_touch_ttl = server_default;
}

abbrev write : WritePolicy crate
write = record {
  base_policy = base;
  record_exists_action = 0;
  generation_policy = 0;
  commit_level = 0;
  generation = 0;
  expiration = seconds 60;
  respond_per_each_op = false;
  durable_delete = false;
  send_key = false;
}

abbrev query : QueryPolicy crate
query = record {
  base_policy = base;
  expected_duration = 0;
  max_concurrent_nodes = 0;
  record_queue_size = 1024;
  max_records = 0;
  records_per_second = 0;
  replica = 0;
}

abbrev scan : ScanPolicy crate
scan = record {
  base_policy = base;
  max_records = 0;
  max_concurrent_nodes = 0;
  record_queue_size = 1024;
  records_per_second = 0;
  replica = 0;
}

base_set-reads_example :
    viewed (base_set (BaseSetter.total_timeout 4294967296) base)
    ≡ base_call (BaseSetter.total_timeout 4294967296) (base_view base)
base_set-reads_example = base_set-reads (BaseSetter.total_timeout 4294967296) base tt

write_set-reads_example :
    write_seen (write_set (WriteSetter.generation 7) write)
    ≡ write_call (WriteSetter.generation 7) (write_view write)
write_set-reads_example = write_set-reads (WriteSetter.generation 7) write tt

query_set-reads_example :
    query_seen (query_set (QuerySetter.record_queue_size 0) query)
    ≡ query_call (QuerySetter.record_queue_size 0) (query_view query)
query_set-reads_example = query_set-reads (QuerySetter.record_queue_size 0) query (omega arith)

scan_set-reads_example :
    scan_seen (scan_set (ScanSetter.max_concurrent_nodes 4) scan)
    ≡ scan_call (ScanSetter.max_concurrent_nodes 4) (scan_view scan)
scan_set-reads_example = scan_set-reads (ScanSetter.max_concurrent_nodes 4) scan (omega arith)

abbrev cluster : ClientPolicy ℕ
cluster = record {
  auth_mode = no_auth;
  tls_config = none;
  tls_fingerprint = 0;
  conn_pools_per_node = 1;
  ip_map = none;
  cluster_name = none;
  timeout = 1000;
  idle_timeout = 0;
  min_conns_per_node = 0;
  max_conns_per_node = 64;
  fail_if_not_connected = true;
  tend_interval = 1000;
  use_services_alternate = false;
  application_id = none;
}
