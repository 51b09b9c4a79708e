-- ===== src/Policy/Scan.antt =====
-- `ScanPolicy` of lib.rs.
use aerospike_php_client.Common.{ℕ, ◌≤◌, ◌≡◌, refl, ap, inl, inr, Bool-cases, ◌==◌, if◌then◌else◌}
use aerospike_php_client.Common.Int.{u32_max}
use aerospike_php_client.Php.{PhpResult, returned, threw, must_be_positive}
use aerospike_php_client.Policy.{Crate, assign, as_u32, positive_arg}
use aerospike_php_client.Policy.Base.{
  BasePolicy, BaseSetter, base_set, BaseView, base_view, IsBaseCall, base_call, base_set-reads,
  as_u32-fits,
}

-- The fields of the client library's policy that the class reads and writes.
pub record ScanPolicy (K : Crate) : Type 0 where
  pub base_policy : BasePolicy K
  pub max_records : ℕ
  pub max_concurrent_nodes : ℕ
  pub record_queue_size : ℕ
  pub records_per_second : ℕ
  pub replica : K.replica

module _ {K : Crate} where
  -- `ScanPolicy::default`, from the client library's default for queries.
  unfoldable pub default_scan : ScanPolicy K → ScanPolicy K
  default_scan qp = record qp { base_policy = record (qp.base_policy) { total_timeout = 0 } }

  unfoldable pub get_max_records : ScanPolicy K → ℕ
  get_max_records p = p.max_records

  unfoldable pub set_max_records : ℕ → ScanPolicy K → ScanPolicy K
  set_max_records max_records p = record p { max_records = max_records }

  unfoldable pub get_max_concurrent_nodes : ScanPolicy K → ℕ
  get_max_concurrent_nodes p = as_u32 p.max_concurrent_nodes

  unfoldable pub set_max_concurrent_nodes : ℕ → ScanPolicy K → ScanPolicy K
  set_max_concurrent_nodes max_concurrent_nodes p = record p {
    max_concurrent_nodes = max_concurrent_nodes;
  }

  unfoldable pub get_record_queue_size : ScanPolicy K → ℕ
  get_record_queue_size p = as_u32 p.record_queue_size

  unfoldable pub set_record_queue_size : ℕ → ScanPolicy K → ScanPolicy K × PhpResult (Unit {0})
  unfolding positive_arg
  set_record_queue_size record_queue_size p =
      assign (λ v. record p { record_queue_size = v }) p
        (positive_arg record_queue_size "setRecordQueueSize")

  unfoldable pub get_records_per_second : ScanPolicy K → ℕ
  get_records_per_second p = p.records_per_second

  unfoldable pub set_records_per_second : ℕ → ScanPolicy K → ScanPolicy K
  set_records_per_second records_per_second p = record p { records_per_second = records_per_second }

  unfoldable pub get_replica : ScanPolicy K → K.replica
  get_replica p = p.replica

  unfoldable pub set_replica : K.replica → ScanPolicy K → ScanPolicy K
  set_replica replica p = record p { replica = replica }

-- One call of a setter.
pub data ScanSetter (K : Crate) : Type 0 where
  base : BaseSetter K → ScanSetter K
  max_records : ℕ → ScanSetter K
  max_concurrent_nodes : ℕ → ScanSetter K
  record_queue_size : ℕ → ScanSetter K
  records_per_second : ℕ → ScanSetter K
  replica : K.replica → ScanSetter K

abbrev on_base :
    {K : Crate}
    → ScanPolicy K
    → BasePolicy K × PhpResult (Unit {0})
    → ScanPolicy K × PhpResult (Unit {0})
on_base p (b, r) = (record p { base_policy = b }, r)

unfoldable pub scan_set :
    {K : Crate} → ScanSetter K → ScanPolicy K → ScanPolicy K × PhpResult (Unit {0})
unfolding set_max_records set_max_concurrent_nodes set_record_queue_size set_records_per_second
    set_replica
scan_set (ScanSetter.base s) p = on_base p (base_set s p.base_policy)
scan_set (ScanSetter.max_records x) p = (set_max_records x p, returned tt)
scan_set (ScanSetter.max_concurrent_nodes x) p = (set_max_concurrent_nodes x p, returned tt)
scan_set (ScanSetter.record_queue_size x) p = set_record_queue_size x p
scan_set (ScanSetter.records_per_second x) p = (set_records_per_second x p, returned tt)
scan_set (ScanSetter.replica x) p = (set_replica x p, returned tt)

-- What PHP can read of the policy.
pub record ScanView (K : Crate) : Type 0 where
  pub base : BaseView K
  pub the_max_records : ℕ
  pub the_max_concurrent_nodes : ℕ
  pub the_record_queue_size : ℕ
  pub the_records_per_second : ℕ
  pub the_replica : K.replica

unfoldable pub scan_view : {K : Crate} → ScanPolicy K → ScanView K
unfolding get_max_records get_max_concurrent_nodes get_record_queue_size get_records_per_second
    get_replica
scan_view p = record {
  base = base_view p.base_policy;
  the_max_records = get_max_records p;
  the_max_concurrent_nodes = get_max_concurrent_nodes p;
  the_record_queue_size = get_record_queue_size p;
  the_records_per_second = get_records_per_second p;
  the_replica = get_replica p;
}

-- The arguments that PHP can pass: those of type `u32` are at most its greatest value.
abbrev pub IsScanCall : {K : Crate} → ScanSetter K → Type 0
IsScanCall (ScanSetter.base s) = IsBaseCall s
IsScanCall (ScanSetter.max_concurrent_nodes x) = x ≤ u32_max
IsScanCall (ScanSetter.record_queue_size x) = x ≤ u32_max
IsScanCall _ = Unit

abbrev in_base :
    {K : Crate} → ScanView K → BaseView K × PhpResult (Unit {0}) → ScanView K × PhpResult (Unit {0})
in_base v (b, r) = (record v { base = b }, r)

abbrev pub scan_call : {K : Crate} → ScanSetter K → ScanView K → ScanView K × PhpResult (Unit {0})
scan_call (ScanSetter.base s) v = in_base v (base_call s v.base)
scan_call (ScanSetter.max_records x) v = (record v { the_max_records = x }, returned tt)
scan_call (ScanSetter.max_concurrent_nodes x) v =
    (record v { the_max_concurrent_nodes = x }, returned tt)
scan_call (ScanSetter.record_queue_size x) v =
    if x == 0
    then (v, threw (must_be_positive "setRecordQueueSize"))
    else (record v { the_record_queue_size = x }, returned tt)
scan_call (ScanSetter.records_per_second x) v =
    (record v { the_records_per_second = x }, returned tt)
scan_call (ScanSetter.replica x) v = (record v { the_replica = x }, returned tt)

abbrev pub scan_seen :
    {K : Crate} → ScanPolicy K × PhpResult (Unit {0}) → ScanView K × PhpResult (Unit {0})
scan_seen (p, r) = (scan_view p, r)

-- A scan policy behaves as a record of its readings: after any setter, the base's among them,
-- called as PHP can call it, PHP reads that setter's value there and every other reading
-- unchanged, and after a setter that throws (a record queue of size 0, a time that does not fit in
-- `u32`, an argument that is no filter) all of them.
pub scan_set-reads :
    {K : Crate} (s : ScanSetter K) (p : ScanPolicy K)
    → IsScanCall s
    → scan_seen (scan_set s p) ≡ scan_call s (scan_view p)
unfolding scan_set scan_view
scan_set-reads (ScanSetter.base s) p h =
    ap (in_base (scan_view p)) (base_set-reads s p.base_policy h)
scan_set-reads (ScanSetter.max_records x) p h = refl
scan_set-reads (ScanSetter.max_concurrent_nodes x) p h = rw (as_u32-fits x h) refl
scan_set-reads (ScanSetter.record_queue_size x) p h = elim (Bool-cases (x == 0)) [
  | inl zero_size ↦ rw zero_size refl
  | inr size ↦ rw (size, as_u32-fits x h) refl
]
scan_set-reads (ScanSetter.records_per_second x) p h = refl
scan_set-reads (ScanSetter.replica x) p h = refl
