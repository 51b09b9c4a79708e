-- ===== src/Policy/Read.antt =====
-- `ReadPolicy` of lib.rs.
use aerospike_php_client.Common.{ℕ, none, some}
use aerospike_php_client.Common.Int.{ℤ}
use aerospike_php_client.Php.{PhpResult}
use aerospike_php_client.Ini.{Ini, ini_long_positive, read_timeout}
use aerospike_php_client.Ttl.{read_touch_ttl_from_percent, percent_of}
use aerospike_php_client.Policy.{Crate, assign}
use aerospike_php_client.Policy.Base.{BasePolicy}

-- The fields of the client library's policy that the class reads and writes.
pub record ReadPolicy (K : Crate) : Type 0 where
  pub base_policy : BasePolicy K
  pub replica : K.replica

module _ {K : Crate} where
  -- `ReadPolicy::__construct` on thread `tid`, from the client library's default.
  unfoldable pub construct : ReadPolicy K → ℕ → Ini → ReadPolicy K
  unfolding ini_long_positive
  construct default tid ini = elim (ini_long_positive tid read_timeout ini) [
    | none ↦ default
    | some v ↦ record default { base_policy = record (default.base_policy) { total_timeout = v } }
  ]

  unfoldable pub get_read_touch_ttl_percent : ReadPolicy K → ℤ
  unfolding percent_of
  get_read_touch_ttl_percent p = percent_of p.base_policy.read_touch_ttl

  unfoldable pub set_read_touch_ttl_percent : ℤ → ReadPolicy K → ReadPolicy K × PhpResult (Unit {0})
  unfolding read_touch_ttl_from_percent
  set_read_touch_ttl_percent percent p =
      assign (λ t. record p { base_policy = record (p.base_policy) { read_touch_ttl = t } }) p
        (read_touch_ttl_from_percent percent)

  unfoldable pub get_replica : ReadPolicy K → K.replica
  get_replica p = p.replica

  unfoldable pub set_replica : K.replica → ReadPolicy K → ReadPolicy K
  set_replica replica p = record p { replica = replica }
