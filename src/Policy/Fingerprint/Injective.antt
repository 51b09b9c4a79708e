-- ===== src/Policy/Fingerprint/Injective.antt =====
-- What `ClientPolicy::fingerprint` of lib.rs feeds to the hasher tells the settings of the policy.
use aerospike_php_client.Common.{◌^◌, ◌<◌, ◌≡◌, []}
use aerospike_php_client.Policy.Cluster.{ClientPolicy, get_tls_enabled}
use aerospike_php_client.Policy.Fingerprint.{Hashing, fed}
use aerospike_php_client.Policy.Fingerprint.Delimits.{
  Utf8, append_cancel, word-delimits, flag-delimits, optional-delimits,
}
use aerospike_php_client.Policy.Fingerprint.Auth.{SameAuth, policy-auth}
use aerospike_php_client.Policy.Fingerprint.IpMap.{SameMap, IsShort, tail, map-delimits}

module _ {H : Hashing} (law : Utf8 H) where
  -- The fields hold numbers of their types.
  pub record IsSized {T : Type 0} (p : ClientPolicy T) : Type 0 where
    pub timeout : p.timeout < 256 ^ 4
    pub idle_timeout : p.idle_timeout < 256 ^ 4
    pub min_conns_per_node : p.min_conns_per_node < 256 ^ 8
    pub max_conns_per_node : p.max_conns_per_node < 256 ^ 8
    pub conn_pools_per_node : p.conn_pools_per_node < 256 ^ 1
    pub tend_interval : p.tend_interval < 256 ^ 4
    pub tls_fingerprint : p.tls_fingerprint < 256 ^ 8
    pub ip_map : IsShort law p.ip_map

  -- The same settings, but for what only hashes tell: passwords, and the files of a TLS identity.
  pub record SameSettings {T : Type 0} (p q : ClientPolicy T) : Type 0 where
    pub auth : SameAuth law p.auth_mode q.auth_mode
    pub cluster_name : p.cluster_name ≡ q.cluster_name
    pub timeout : p.timeout ≡ q.timeout
    pub idle_timeout : p.idle_timeout ≡ q.idle_timeout
    pub min_conns_per_node : p.min_conns_per_node ≡ q.min_conns_per_node
    pub max_conns_per_node : p.max_conns_per_node ≡ q.max_conns_per_node
    pub conn_pools_per_node : p.conn_pools_per_node ≡ q.conn_pools_per_node
    pub use_services_alternate : p.use_services_alternate ≡ q.use_services_alternate
    pub fail_if_not_connected : p.fail_if_not_connected ≡ q.fail_if_not_connected
    pub tend_interval : p.tend_interval ≡ q.tend_interval
    pub application_id : p.application_id ≡ q.application_id
    pub ip_map : SameMap law p.ip_map q.ip_map
    pub tls_enabled : get_tls_enabled p ≡ get_tls_enabled q
    pub tls_fingerprint : p.tls_fingerprint ≡ q.tls_fingerprint

  -- When texts have different bytes and each number fits its type, two policies that feed the hasher the
  -- same bytes have the same settings: mode, user and the hash of the password, every other field that a
  -- method sets, and the entries of the IP map; of a TLS configuration, whether there is one, and the
  -- number for its files.
  pub fed-SameSettings :
      {T : Type 0} (p q : ClientPolicy T)
      → IsSized p
      → IsSized q
      → fed H p ≡ fed H q
      → SameSettings p q
  unfolding fed tail
  fed-SameSettings p q m n h =
      let (auth, h1) = policy-auth law p q _ _ h in
      let (cluster_name, h2) = optional-delimits law p.cluster_name q.cluster_name _ _ h1 in
      let (timeout, h3) = word-delimits 4 p.timeout q.timeout _ _ m.timeout n.timeout h2 in
      let (idle, h4) =
        word-delimits 4 p.idle_timeout q.idle_timeout _ _ m.idle_timeout n.idle_timeout h3 in
      let (least, h5) =
        word-delimits 8 p.min_conns_per_node q.min_conns_per_node _ _ m.min_conns_per_node
          n.min_conns_per_node h4 in
      let (most, h6) =
        word-delimits 8 p.max_conns_per_node q.max_conns_per_node _ _ m.max_conns_per_node
          n.max_conns_per_node h5 in
      let (pools, h7) =
        word-delimits 1 p.conn_pools_per_node q.conn_pools_per_node _ _ m.conn_pools_per_node
          n.conn_pools_per_node h6 in
      let (alternate, h8) =
        flag-delimits p.use_services_alternate q.use_services_alternate _ _ h7 in
      let (fail, h9) = flag-delimits p.fail_if_not_connected q.fail_if_not_connected _ _ h8 in
      let (tend, h10) =
        word-delimits 4 p.tend_interval q.tend_interval _ _ m.tend_interval n.tend_interval h9 in
      let (id, h11) =
        optional-delimits law p.application_id q.application_id _ _
          (append_cancel H.reclaim_threshold _ _ h10) in
      let (map, h12) =
        map-delimits law p.ip_map q.ip_map (get_tls_enabled p) (get_tls_enabled q) p.tls_fingerprint
          q.tls_fingerprint m.ip_map n.ip_map h11 in
      let (tls, h13) = flag-delimits (get_tls_enabled p) (get_tls_enabled q) _ _ h12 in
      let (files, h14) =
        word-delimits 8 p.tls_fingerprint q.tls_fingerprint [] [] m.tls_fingerprint
          n.tls_fingerprint h13 in
      record {
        auth = auth;
        cluster_name = cluster_name;
        timeout = timeout;
        idle_timeout = idle;
        min_conns_per_node = least;
        max_conns_per_node = most;
        conn_pools_per_node = pools;
        use_services_alternate = alternate;
        fail_if_not_connected = fail;
        tend_interval = tend;
        application_id = id;
        ip_map = map;
        tls_enabled = tls;
        tls_fingerprint = files;
      }
