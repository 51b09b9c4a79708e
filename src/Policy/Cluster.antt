-- ===== src/Policy/Cluster.antt =====
-- `ClientPolicy` of lib.rs. `build_tls_config` and `tls_material_fingerprint`, which read files, are
-- what `set_tls` is given: the outcome of the one and the number of the other.
pub mod Reads
use Prim.Native.String.{String}
use aerospike_php_client.Common.{
  ℕ, ◌≤◌, ◌≡◌, refl, Option, none, some, List, [], ◌∷◌, Bool, true, false, min,
}
use aerospike_php_client.Common.Int.{u32_max}
use aerospike_php_client.Php.{PhpResult, returned, threw, must_be_positive}
use aerospike_php_client.Ini.{Ini, ini_long_positive, tend_interval, connect_timeout}
use aerospike_php_client.Policy.{assign, as_u32, positive_arg}
use aerospike_php_client.Policy.Base.{as_u32-fits}

-- `aero::AuthMode`.
pub data AuthMode : Type 0 where
  no_auth : AuthMode
  internal : String → String → AuthMode
  external : String → String → AuthMode
  pki : AuthMode

-- The fields of `aero::ClientPolicy` that the class reads and writes, with `tls_fingerprint`; `T` is
-- the type of a TLS configuration. A map is the list of its entries.
pub record ClientPolicy (T : Type 0) : Type 0 where
  pub auth_mode : AuthMode
  pub tls_config : Option T
  pub tls_fingerprint : ℕ
  pub conn_pools_per_node : ℕ
  pub ip_map : Option (List (String × String))
  pub cluster_name : Option String
  pub timeout : ℕ
  pub idle_timeout : ℕ
  pub min_conns_per_node : ℕ
  pub max_conns_per_node : ℕ
  pub fail_if_not_connected : Bool
  pub tend_interval : ℕ
  pub use_services_alternate : Bool
  pub application_id : Option String

-- The two overrides of `ClientPolicy::__construct`.
abbrev override {ℓ} : {A : Type ℓ} → Option ℕ → A → (ℕ → A) → A
override none old set = old
override (some v) old set = set v

module _ {T : Type 0} where
  -- `ClientPolicy::__construct` on thread `tid`, from the client library's default.
  unfoldable pub construct : ClientPolicy T → ℕ → Ini → ClientPolicy T
  unfolding ini_long_positive
  construct default tid ini =
      let p =
        override (ini_long_positive tid tend_interval ini) default
          (λ v. record default { tend_interval = v }) in
      override (ini_long_positive tid connect_timeout ini) p (λ v. record p { timeout = v })

  unfoldable pub set_auth : String → String → ClientPolicy T → ClientPolicy T
  set_auth user password p = record p { auth_mode = internal user password }

  unfoldable pub set_auth_external : String → String → ClientPolicy T → ClientPolicy T
  set_auth_external user password p = record p { auth_mode = external user password }

  unfoldable pub set_auth_pki : ClientPolicy T → ClientPolicy T
  set_auth_pki p = record p { auth_mode = pki }

  unfoldable pub set_auth_none : ClientPolicy T → ClientPolicy T
  set_auth_none p = record p { auth_mode = no_auth }

  unfoldable pub set_tls : PhpResult T → ℕ → ClientPolicy T → ClientPolicy T × PhpResult (Unit {0})
  set_tls cfg fingerprint p =
      assign (λ c. record p { tls_fingerprint = fingerprint; tls_config = some c }) p cfg

  unfoldable pub set_tls_none : ClientPolicy T → ClientPolicy T
  set_tls_none p = record p { tls_config = none; tls_fingerprint = 0 }

  unfoldable pub get_tls_enabled : ClientPolicy T → Bool
  get_tls_enabled p = elim p.tls_config [ none ↦ false | some c ↦ true ]

  unfoldable pub get_user : ClientPolicy T → Option String
  get_user p = elim p.auth_mode [
    | no_auth ↦ none
    | internal user password ↦ some user
    | external user password ↦ some user
    | pki ↦ none
  ]

  unfoldable pub get_auth_mode : ClientPolicy T → String
  get_auth_mode p = elim p.auth_mode [
    | no_auth ↦ "none"
    | internal user password ↦ "internal"
    | external user password ↦ "external"
    | pki ↦ "pki"
  ]

  unfoldable pub get_conn_pools_per_node : ClientPolicy T → ℕ
  get_conn_pools_per_node p = p.conn_pools_per_node

  unfoldable pub set_conn_pools_per_node :
      ℕ → ClientPolicy T → ClientPolicy T × PhpResult (Unit {0})
  unfolding positive_arg
  set_conn_pools_per_node n p =
      assign (λ v. record p { conn_pools_per_node = min v 255 }) p
        (positive_arg n "setConnPoolsPerNode")

  unfoldable pub get_ip_map : ClientPolicy T → List (String × String)
  get_ip_map p = elim p.ip_map [ none ↦ [] | some entries ↦ entries ]

  unfoldable pub set_ip_map : List (String × String) → ClientPolicy T → ClientPolicy T
  set_ip_map [] p = record p { ip_map = none }
  set_ip_map (e ∷ es) p = record p { ip_map = some (e ∷ es) }

  unfoldable pub get_cluster_name : ClientPolicy T → Option String
  get_cluster_name p = p.cluster_name

  unfoldable pub set_cluster_name : Option String → ClientPolicy T → ClientPolicy T
  set_cluster_name value p = record p { cluster_name = value }

  unfoldable pub get_timeout : ClientPolicy T → ℕ
  get_timeout p = p.timeout

  unfoldable pub set_timeout : ℕ → ClientPolicy T → ClientPolicy T
  set_timeout value p = record p { timeout = value }

  unfoldable pub get_idle_timeout : ClientPolicy T → ℕ
  get_idle_timeout p = p.idle_timeout

  unfoldable pub set_idle_timeout : ℕ → ClientPolicy T → ClientPolicy T
  set_idle_timeout value p = record p { idle_timeout = value }

  unfoldable pub get_min_conns_per_node : ClientPolicy T → ℕ
  get_min_conns_per_node p = as_u32 p.min_conns_per_node

  unfoldable pub set_min_conns_per_node : ℕ → ClientPolicy T → ClientPolicy T
  set_min_conns_per_node n p = record p { min_conns_per_node = n }

  unfoldable pub get_max_conns_per_node : ClientPolicy T → ℕ
  get_max_conns_per_node p = as_u32 p.max_conns_per_node

  unfoldable pub set_max_conns_per_node : ℕ → ClientPolicy T → ClientPolicy T
  set_max_conns_per_node n p = record p { max_conns_per_node = n }

  unfoldable pub get_fail_if_not_connected : ClientPolicy T → Bool
  get_fail_if_not_connected p = p.fail_if_not_connected

  unfoldable pub set_fail_if_not_connected : Bool → ClientPolicy T → ClientPolicy T
  set_fail_if_not_connected value p = record p { fail_if_not_connected = value }

  unfoldable pub get_tend_interval : ClientPolicy T → ℕ
  get_tend_interval p = p.tend_interval

  unfoldable pub set_tend_interval : ℕ → ClientPolicy T → ClientPolicy T
  set_tend_interval value p = record p { tend_interval = value }

  unfoldable pub get_use_services_alternate : ClientPolicy T → Bool
  get_use_services_alternate p = p.use_services_alternate

  unfoldable pub set_use_services_alternate : Bool → ClientPolicy T → ClientPolicy T
  set_use_services_alternate value p = record p { use_services_alternate = value }

  unfoldable pub get_application_id : ClientPolicy T → Option String
  get_application_id p = p.application_id

  unfoldable pub set_application_id : Option String → ClientPolicy T → ClientPolicy T
  set_application_id value p = record p { application_id = value }
