-- ===== src/Cache/Entry.antt =====
-- `ClientEntry` and `ClientCache` of lib.rs. A client (`Arc<aero::Client>`) is named by a number, the
-- identity that `Arc::ptr_eq` compares; an `Instant` is a number.
use aerospike_php_client.Common.{ℕ, List}
use aerospike_php_client.Common.Text.{Text}

pub record ClientEntry : Type 0 where
  pub client : ℕ
  pub hosts : Text
  pub policy_fingerprint : Text
  pub last_used : ℕ

-- `pid` is the process that the contents belong to.
pub record ClientCache : Type 0 where
  pub pid : ℕ
  pub map : List (Text × ClientEntry)
