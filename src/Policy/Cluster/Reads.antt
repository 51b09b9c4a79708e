-- ===== src/Policy/Cluster/Reads.antt =====
-- What PHP reads of a `ClientPolicy` of lib.rs.
use Prim.Native.String.{String}
use aerospike_php_client.Common.{
  ℕ, ◌≤◌, Option, none, some, List, Bool, true, false, ◌==◌, if◌then◌else◌, min,
}
use aerospike_php_client.Common.Int.{u32_max}
use aerospike_php_client.Php.{PhpResult, returned, threw, must_be_positive}
use aerospike_php_client.Policy.Cluster.{
  ClientPolicy, get_tls_enabled, get_user, get_auth_mode, get_conn_pools_per_node, get_ip_map,
  get_cluster_name, get_timeout, get_idle_timeout, get_min_conns_per_node, get_max_conns_per_node,
  get_fail_if_not_connected, get_tend_interval, get_use_services_alternate, get_application_id,
  set_auth, set_auth_external, set_auth_pki, set_auth_none, set_tls, set_tls_none,
  set_conn_pools_per_node, set_ip_map, set_cluster_name, set_timeout, set_idle_timeout,
  set_min_conns_per_node, set_max_conns_per_node, set_fail_if_not_connected, set_tend_interval,
  set_use_services_alternate, set_application_id,
}

-- One call of a setter.
pub data ClusterSetter (T : Type 0) : Type 0 where
  auth : String → String → ClusterSetter T
  auth_external : String → String → ClusterSetter T
  auth_pki : ClusterSetter T
  auth_none : ClusterSetter T
  tls : PhpResult T → ℕ → ClusterSetter T
  tls_none : ClusterSetter T
  conn_pools_per_node : ℕ → ClusterSetter T
  ip_map : List (String × String) → ClusterSetter T
  cluster_name : Option String → ClusterSetter T
  timeout : ℕ → ClusterSetter T
  idle_timeout : ℕ → ClusterSetter T
  min_conns_per_node : ℕ → ClusterSetter T
  max_conns_per_node : ℕ → ClusterSetter T
  fail_if_not_connected : Bool → ClusterSetter T
  tend_interval : ℕ → ClusterSetter T
  use_services_alternate : Bool → ClusterSetter T
  application_id : Option String → ClusterSetter T

unfoldable pub cluster_set :
    {T : Type 0} → ClusterSetter T → ClientPolicy T → ClientPolicy T × PhpResult (Unit {0})
unfolding set_auth set_auth_external set_auth_pki set_auth_none set_tls set_tls_none
    set_conn_pools_per_node set_ip_map set_cluster_name set_timeout set_idle_timeout
    set_min_conns_per_node set_max_conns_per_node set_fail_if_not_connected set_tend_interval
    set_use_services_alternate set_application_id
cluster_set (ClusterSetter.auth u w) p = (set_auth u w p, returned tt)
cluster_set (ClusterSetter.auth_external u w) p = (set_auth_external u w p, returned tt)
cluster_set ClusterSetter.auth_pki p = (set_auth_pki p, returned tt)
cluster_set ClusterSetter.auth_none p = (set_auth_none p, returned tt)
cluster_set (ClusterSetter.tls cfg n) p = set_tls cfg n p
cluster_set ClusterSetter.tls_none p = (set_tls_none p, returned tt)
cluster_set (ClusterSetter.conn_pools_per_node n) p = set_conn_pools_per_node n p
cluster_set (ClusterSetter.ip_map m) p = (set_ip_map m p, returned tt)
cluster_set (ClusterSetter.cluster_name x) p = (set_cluster_name x p, returned tt)
cluster_set (ClusterSetter.timeout x) p = (set_timeout x p, returned tt)
cluster_set (ClusterSetter.idle_timeout x) p = (set_idle_timeout x p, returned tt)
cluster_set (ClusterSetter.min_conns_per_node x) p = (set_min_conns_per_node x p, returned tt)
cluster_set (ClusterSetter.max_conns_per_node x) p = (set_max_conns_per_node x p, returned tt)
cluster_set (ClusterSetter.fail_if_not_connected x) p = (set_fail_if_not_connected x p, returned tt)
cluster_set (ClusterSetter.tend_interval x) p = (set_tend_interval x p, returned tt)
cluster_set (ClusterSetter.use_services_alternate x) p =
    (set_use_services_alternate x p, returned tt)
cluster_set (ClusterSetter.application_id x) p = (set_application_id x p, returned tt)

-- What PHP can read of the policy.
pub record ClusterView : Type 0 where
  pub mode : String
  pub user : Option String
  pub tls_on : Bool
  pub pools : ℕ
  pub ips : List (String × String)
  pub the_cluster_name : Option String
  pub the_timeout : ℕ
  pub the_idle_timeout : ℕ
  pub the_min_conns_per_node : ℕ
  pub the_max_conns_per_node : ℕ
  pub the_fail_if_not_connected : Bool
  pub the_tend_interval : ℕ
  pub the_use_services_alternate : Bool
  pub the_application_id : Option String

unfoldable pub cluster_view : {T : Type 0} → ClientPolicy T → ClusterView
unfolding get_tls_enabled get_user get_auth_mode get_conn_pools_per_node get_ip_map get_cluster_name
    get_timeout get_idle_timeout get_min_conns_per_node get_max_conns_per_node
    get_fail_if_not_connected get_tend_interval get_use_services_alternate get_application_id
cluster_view p = record {
  mode = get_auth_mode p;
  user = get_user p;
  tls_on = get_tls_enabled p;
  pools = get_conn_pools_per_node p;
  ips = get_ip_map p;
  the_cluster_name = get_cluster_name p;
  the_timeout = get_timeout p;
  the_idle_timeout = get_idle_timeout p;
  the_min_conns_per_node = get_min_conns_per_node p;
  the_max_conns_per_node = get_max_conns_per_node p;
  the_fail_if_not_connected = get_fail_if_not_connected p;
  the_tend_interval = get_tend_interval p;
  the_use_services_alternate = get_use_services_alternate p;
  the_application_id = get_application_id p;
}

-- The arguments that PHP can pass: connection counts are `u32`.
abbrev pub IsClusterCall : {T : Type 0} → ClusterSetter T → Type 0
IsClusterCall (ClusterSetter.min_conns_per_node n) = n ≤ u32_max
IsClusterCall (ClusterSetter.max_conns_per_node n) = n ≤ u32_max
IsClusterCall _ = Unit

abbrev tls_call : {T : Type 0} → PhpResult T → ClusterView → ClusterView × PhpResult (Unit {0})
tls_call (returned c) v = (record v { tls_on = true }, returned tt)
tls_call (threw e) v = (v, threw e)

abbrev pub cluster_call :
    {T : Type 0} → ClusterSetter T → ClusterView → ClusterView × PhpResult (Unit {0})
cluster_call (ClusterSetter.auth u w) v =
    (record v { mode = "internal"; user = some u }, returned tt)
cluster_call (ClusterSetter.auth_external u w) v =
    (record v { mode = "external"; user = some u }, returned tt)
cluster_call ClusterSetter.auth_pki v = (record v { mode = "pki"; user = none }, returned tt)
cluster_call ClusterSetter.auth_none v = (record v { mode = "none"; user = none }, returned tt)
cluster_call (ClusterSetter.tls cfg n) v = tls_call cfg v
cluster_call ClusterSetter.tls_none v = (record v { tls_on = false }, returned tt)
cluster_call (ClusterSetter.conn_pools_per_node n) v =
    if n == 0
    then (v, threw (must_be_positive "setConnPoolsPerNode"))
    else (record v { pools = min n 255 }, returned tt)
cluster_call (ClusterSetter.ip_map m) v = (record v { ips = m }, returned tt)
cluster_call (ClusterSetter.cluster_name x) v = (record v { the_cluster_name = x }, returned tt)
cluster_call (ClusterSetter.timeout x) v = (record v { the_timeout = x }, returned tt)
cluster_call (ClusterSetter.idle_timeout x) v = (record v { the_idle_timeout = x }, returned tt)
cluster_call (ClusterSetter.min_conns_per_node x) v =
    (record v { the_min_conns_per_node = x }, returned tt)
cluster_call (ClusterSetter.max_conns_per_node x) v =
    (record v { the_max_conns_per_node = x }, returned tt)
cluster_call (ClusterSetter.fail_if_not_connected x) v =
    (record v { the_fail_if_not_connected = x }, returned tt)
cluster_call (ClusterSetter.tend_interval x) v = (record v { the_tend_interval = x }, returned tt)
cluster_call (ClusterSetter.use_services_alternate x) v =
    (record v { the_use_services_alternate = x }, returned tt)
cluster_call (ClusterSetter.application_id x) v = (record v { the_application_id = x }, returned tt)

abbrev pub cluster_seen :
    {T : Type 0} → ClientPolicy T × PhpResult (Unit {0}) → ClusterView × PhpResult (Unit {0})
cluster_seen (p, r) = (cluster_view p, r)
