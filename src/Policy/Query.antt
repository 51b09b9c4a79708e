-- ===== src/Policy/Query.antt =====
-- `QueryPolicy` of lib.rs.
use aerospike_php_client.Common.{ℕ, ◌≤◌, ◌≡◌, refl, ap, inl, inr, Bool-cases, ◌==◌, if◌then◌else◌}
use aerospike_php_client.Common.Int.{u32_max}
use aerospike_php_client.Php.{PhpResult, returned, threw, must_be_positive}
use aerospike_php_client.Policy.{Crate, assign, as_u32, positive_arg}
use aerospike_php_client.Policy.Base.{
  BasePolicy, BaseSetter, base_set, BaseView, base_view, IsBaseCall, base_call, base_set-reads,
  as_u32-fits,
}

-- The fields of the client library's policy that the class reads and writes.
pub record QueryPolicy (K : Crate) : Type 0 where
  pub base_policy : BasePolicy K
  pub expected_duration : K.duration
  pub max_concurrent_nodes : ℕ
  pub record_queue_size : ℕ
  pub max_records : ℕ
  pub records_per_second : ℕ
  pub replica : K.replica

module _ {K : Crate} where
  unfoldable pub get_expected_duration : QueryPolicy K → K.duration
  get_expected_duration p = p.expected_duration

  unfoldable pub set_expected_duration : K.duration → QueryPolicy K → QueryPolicy K
  set_expected_duration expected_duration p = record p { expected_duration = expected_duration }

  unfoldable pub get_max_concurrent_nodes : QueryPolicy K → ℕ
  get_max_concurrent_nodes p = as_u32 p.max_concurrent_nodes

  unfoldable pub set_max_concurrent_nodes : ℕ → QueryPolicy K → QueryPolicy K
  set_max_concurrent_nodes max_concurrent_nodes p = record p {
    max_concurrent_nodes = max_concurrent_nodes;
  }

  unfoldable pub get_record_queue_size : QueryPolicy K → ℕ
  get_record_queue_size p = as_u32 p.record_queue_size

  unfoldable pub set_record_queue_size : ℕ → QueryPolicy K → QueryPolicy K × PhpResult (Unit {0})
  unfolding positive_arg
  set_record_queue_size record_queue_size p =
      assign (λ v. record p { record_queue_size = v }) p
        (positive_arg record_queue_size "setRecordQueueSize")

  unfoldable pub get_max_records : QueryPolicy K → ℕ
  get_max_records p = p.max_records

  unfoldable pub set_max_records : ℕ → QueryPolicy K → QueryPolicy K
  set_max_records max_records p = record p { max_records = max_records }

  unfoldable pub get_records_per_second : QueryPolicy K → ℕ
  get_records_per_second p = p.records_per_second

  unfoldable pub set_records_per_second : ℕ → QueryPolicy K → QueryPolicy K
  set_records_per_second records_per_second p = record p { records_per_second = records_per_second }

  unfoldable pub get_replica : QueryPolicy K → K.replica
  get_replica p = p.replica

  unfoldable pub set_replica : K.replica → QueryPolicy K → QueryPolicy K
  set_replica replica p = record p { replica = replica }

-- One call of a setter.
pub data QuerySetter (K : Crate) : Type 0 where
  base : BaseSetter K → QuerySetter K
  expected_duration : K.duration → QuerySetter K
  max_concurrent_nodes : ℕ → QuerySetter K
  record_queue_size : ℕ → QuerySetter K
  max_records : ℕ → QuerySetter K
  records_per_second : ℕ → QuerySetter K
  replica : K.replica → QuerySetter K

abbrev on_base :
    {K : Crate}
    → QueryPolicy K
    → BasePolicy K × PhpResult (Unit {0})
    → QueryPolicy K × PhpResult (Unit {0})
on_base p (b, r) = (record p { base_policy = b }, r)

unfoldable pub query_set :
    {K : Crate} → QuerySetter K → QueryPolicy K → QueryPolicy K × PhpResult (Unit {0})
unfolding set_expected_duration set_max_concurrent_nodes set_record_queue_size set_max_records
    set_records_per_second set_replica
query_set (QuerySetter.base s) p = on_base p (base_set s p.base_policy)
query_set (QuerySetter.expected_duration x) p = (set_expected_duration x p, returned tt)
query_set (QuerySetter.max_concurrent_nodes x) p = (set_max_concurrent_nodes x p, returned tt)
query_set (QuerySetter.record_queue_size x) p = set_record_queue_size x p
query_set (QuerySetter.max_records x) p = (set_max_records x p, returned tt)
query_set (QuerySetter.records_per_second x) p = (set_records_per_second x p, returned tt)
query_set (QuerySetter.replica x) p = (set_replica x p, returned tt)

-- What PHP can read of the policy.
pub record QueryView (K : Crate) : Type 0 where
  pub base : BaseView K
  pub the_expected_duration : K.duration
  pub the_max_concurrent_nodes : ℕ
  pub the_record_queue_size : ℕ
  pub the_max_records : ℕ
  pub the_records_per_second : ℕ
  pub the_replica : K.replica

unfoldable pub query_view : {K : Crate} → QueryPolicy K → QueryView K
unfolding get_expected_duration get_max_concurrent_nodes get_record_queue_size get_max_records
    get_records_per_second get_replica
query_view p = record {
  base = base_view p.base_policy;
  the_expected_duration = get_expected_duration p;
  the_max_concurrent_nodes = get_max_concurrent_nodes p;
  the_record_queue_size = get_record_queue_size p;
  the_max_records = get_max_records p;
  the_records_per_second = get_records_per_second p;
  the_replica = get_replica p;
}

-- The arguments that PHP can pass: those of type `u32` are at most its greatest value.
abbrev pub IsQueryCall : {K : Crate} → QuerySetter K → Type 0
IsQueryCall (QuerySetter.base s) = IsBaseCall s
IsQueryCall (QuerySetter.max_concurrent_nodes x) = x ≤ u32_max
IsQueryCall (QuerySetter.record_queue_size x) = x ≤ u32_max
IsQueryCall _ = Unit

abbrev in_base :
    {K : Crate}
    → QueryView K
    → BaseView K × PhpResult (Unit {0})
    → QueryView K × PhpResult (Unit {0})
in_base v (b, r) = (record v { base = b }, r)

abbrev pub query_call :
    {K : Crate} → QuerySetter K → QueryView K → QueryView K × PhpResult (Unit {0})
query_call (QuerySetter.base s) v = in_base v (base_call s v.base)
query_call (QuerySetter.expected_duration x) v =
    (record v { the_expected_duration = x }, returned tt)
query_call (QuerySetter.max_concurrent_nodes x) v =
    (record v { the_max_concurrent_nodes = x }, returned tt)
query_call (QuerySetter.record_queue_size x) v =
    if x == 0
    then (v, threw (must_be_positive "setRecordQueueSize"))
    else (record v { the_record_queue_size = x }, returned tt)
query_call (QuerySetter.max_records x) v = (record v { the_max_records = x }, returned tt)
query_call (QuerySetter.records_per_second x) v =
    (record v { the_records_per_second = x }, returned tt)
query_call (QuerySetter.replica x) v = (record v { the_replica = x }, returned tt)

abbrev pub query_seen :
    {K : Crate} → QueryPolicy K × PhpResult (Unit {0}) → QueryView K × PhpResult (Unit {0})
query_seen (p, r) = (query_view p, r)

-- A query policy behaves as a record of its readings: after any setter, the base's among them,
-- called as PHP can call it, PHP reads that setter's value there and every other reading
-- unchanged, and after a setter that throws (a record queue of size 0, a time that does not fit in
-- `u32`, an argument that is no filter) all of them.
pub query_set-reads :
    {K : Crate} (s : QuerySetter K) (p : QueryPolicy K)
    → IsQueryCall s
    → query_seen (query_set s p) ≡ query_call s (query_view p)
unfolding query_set query_view
query_set-reads (QuerySetter.base s) p h =
    ap (in_base (query_view p)) (base_set-reads s p.base_policy h)
query_set-reads (QuerySetter.expected_duration x) p h = refl
query_set-reads (QuerySetter.max_concurrent_nodes x) p h = rw (as_u32-fits x h) refl
query_set-reads (QuerySetter.record_queue_size x) p h = elim (Bool-cases (x == 0)) [
  | inl zero_size ↦ rw zero_size refl
  | inr size ↦ rw (size, as_u32-fits x h) refl
]
query_set-reads (QuerySetter.max_records x) p h = refl
query_set-reads (QuerySetter.records_per_second x) p h = refl
query_set-reads (QuerySetter.replica x) p h = refl
