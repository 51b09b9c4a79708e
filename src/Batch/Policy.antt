-- ===== src/Batch/Policy.antt =====
-- `BatchPolicy` of lib.rs.
use aerospike_php_client.Common.{
  ℕ, ◌≡◌, refl, Option, Bool, inl, inr, Bool-cases, if◌then◌else◌, leb,
}
use aerospike_php_client.Php.{PhpResult, returned}
use aerospike_php_client.Ttl.{Concurrency, sequential, parallel, max_threads}
use aerospike_php_client.Policy.{Crate, assign, opt_arg, seen, seen-assign}
use aerospike_php_client.Policy.Base.{BasePolicy}

-- `aero::Concurrency`.
pub data AeroConcurrency : Type 0 where
  one_by_one : AeroConcurrency
  at_once : AeroConcurrency

abbrev pub aero_concurrency : Concurrency → AeroConcurrency
aero_concurrency sequential = one_by_one
aero_concurrency parallel = at_once
aero_concurrency (max_threads n) = at_once

-- The fields of the client library's policy that the class reads and writes. `filter_expression` is that of the batch policy, not that of its base policy.
pub record BatchPolicy (K : Crate) : Type 0 where
  pub base_policy : BasePolicy K
  pub concurrency : AeroConcurrency
  pub allow_inline : Bool
  pub allow_inline_ssd : Bool
  pub respond_all_keys : Bool
  pub replica : K.replica
  pub filter_expression : Option K.filter

module _ {K : Crate} where
  unfoldable pub get_allow_inline : BatchPolicy K → Bool
  get_allow_inline p = p.allow_inline

  unfoldable pub set_allow_inline : Bool → BatchPolicy K → BatchPolicy K
  set_allow_inline allow_inline p = record p { allow_inline = allow_inline }

  unfoldable pub get_allow_inline_ssd : BatchPolicy K → Bool
  get_allow_inline_ssd p = p.allow_inline_ssd

  unfoldable pub set_allow_inline_ssd : Bool → BatchPolicy K → BatchPolicy K
  set_allow_inline_ssd allow_inline_ssd p = record p { allow_inline_ssd = allow_inline_ssd }

  unfoldable pub get_respond_all_keys : BatchPolicy K → Bool
  get_respond_all_keys p = p.respond_all_keys

  unfoldable pub set_respond_all_keys : Bool → BatchPolicy K → BatchPolicy K
  set_respond_all_keys respond_all_keys p = record p { respond_all_keys = respond_all_keys }

  unfoldable pub get_replica : BatchPolicy K → K.replica
  get_replica p = p.replica

  unfoldable pub set_replica : K.replica → BatchPolicy K → BatchPolicy K
  set_replica replica p = record p { replica = replica }

  unfoldable pub set_concurrent_nodes : ℕ → BatchPolicy K → BatchPolicy K
  set_concurrent_nodes n p = record p { concurrency = if leb n 1 then one_by_one else at_once }

  unfoldable pub get_concurrent_nodes : BatchPolicy K → ℕ
  get_concurrent_nodes p = elim p.concurrency [ one_by_one ↦ 1 | at_once ↦ 0 ]

  unfoldable pub set_concurrency : Concurrency → BatchPolicy K → BatchPolicy K
  set_concurrency c p = record p { concurrency = aero_concurrency c }

  unfoldable pub get_concurrency : BatchPolicy K → Concurrency
  get_concurrency p = elim p.concurrency [ one_by_one ↦ sequential | at_once ↦ parallel ]

  unfoldable pub get_filter_expression : BatchPolicy K → Option K.filter
  get_filter_expression p = p.filter_expression

  unfoldable pub set_filter_expression :
      Option K.zval → BatchPolicy K → BatchPolicy K × PhpResult (Unit {0})
  unfolding opt_arg
  set_filter_expression filter_expression p =
      assign (λ v. record p { filter_expression = v }) p
        (opt_arg K.is_null K.expression filter_expression "$filter_expression" "an Expression")

-- What PHP can read of the policy; its base policy apart.
pub record BatchView (K : Crate) : Type 0 where
  pub the_concurrent_nodes : ℕ
  pub the_concurrency : Concurrency
  pub the_allow_inline : Bool
  pub the_allow_inline_ssd : Bool
  pub the_respond_all_keys : Bool
  pub the_replica : K.replica
  pub the_filter_expression : Option K.filter

unfoldable pub batch_view : {K : Crate} → BatchPolicy K → BatchView K
unfolding get_concurrent_nodes get_concurrency get_allow_inline get_allow_inline_ssd
    get_respond_all_keys get_replica get_filter_expression
batch_view p = record {
  the_concurrent_nodes = get_concurrent_nodes p;
  the_concurrency = get_concurrency p;
  the_allow_inline = get_allow_inline p;
  the_allow_inline_ssd = get_allow_inline_ssd p;
  the_respond_all_keys = get_respond_all_keys p;
  the_replica = get_replica p;
  the_filter_expression = get_filter_expression p;
}

-- One call of a setter.
pub data BatchSetter (K : Crate) : Type 0 where
  concurrent_nodes : ℕ → BatchSetter K
  concurrency : Concurrency → BatchSetter K
  allow_inline : Bool → BatchSetter K
  allow_inline_ssd : Bool → BatchSetter K
  respond_all_keys : Bool → BatchSetter K
  replica : K.replica → BatchSetter K
  filter_expression : Option K.zval → BatchSetter K

unfoldable pub batch_set :
    {K : Crate} → BatchSetter K → BatchPolicy K → BatchPolicy K × PhpResult (Unit {0})
unfolding set_concurrent_nodes set_concurrency set_allow_inline set_allow_inline_ssd
    set_respond_all_keys set_replica set_filter_expression
batch_set (BatchSetter.concurrent_nodes x) p = (set_concurrent_nodes x p, returned tt)
batch_set (BatchSetter.concurrency x) p = (set_concurrency x p, returned tt)
batch_set (BatchSetter.allow_inline x) p = (set_allow_inline x p, returned tt)
batch_set (BatchSetter.allow_inline_ssd x) p = (set_allow_inline_ssd x p, returned tt)
batch_set (BatchSetter.respond_all_keys x) p = (set_respond_all_keys x p, returned tt)
batch_set (BatchSetter.replica x) p = (set_replica x p, returned tt)
batch_set (BatchSetter.filter_expression x) p = set_filter_expression x p

-- What a call does to what PHP can read.
abbrev pub batch_call :
    {K : Crate} → BatchSetter K → BatchView K → BatchView K × PhpResult (Unit {0})
batch_call (BatchSetter.concurrent_nodes n) v = (
  record v {
    the_concurrent_nodes = if leb n 1 then 1 else 0;
    the_concurrency = if leb n 1 then sequential else parallel;
  },
  returned tt,
)
batch_call (BatchSetter.concurrency sequential) v =
    (record v { the_concurrent_nodes = 1; the_concurrency = sequential }, returned tt)
batch_call (BatchSetter.concurrency c) v =
    (record v { the_concurrent_nodes = 0; the_concurrency = parallel }, returned tt)
batch_call (BatchSetter.allow_inline x) v = (record v { the_allow_inline = x }, returned tt)
batch_call (BatchSetter.allow_inline_ssd x) v = (record v { the_allow_inline_ssd = x }, returned tt)
batch_call (BatchSetter.respond_all_keys x) v = (record v { the_respond_all_keys = x }, returned tt)
batch_call (BatchSetter.replica x) v = (record v { the_replica = x }, returned tt)
batch_call {K} (BatchSetter.filter_expression x) v =
    assign (λ f. record v { the_filter_expression = f }) v
      (opt_arg K.is_null K.expression x "$filter_expression" "an Expression")

-- Every call of a setter changes what PHP can read as it says, and nothing else: the value is read back,
-- and an argument that is refused throws and changes nothing. A number of nodes up to 1 is sequential
-- and reads as 1, a greater one is parallel and reads as 0, and so does a number of threads.
pub batch_set-reads :
    {K : Crate} (s : BatchSetter K) (p : BatchPolicy K)
    → seen batch_view (batch_set s p) ≡ batch_call s (batch_view p)
unfolding batch_set batch_view
batch_set-reads (BatchSetter.concurrent_nodes n) p = elim (Bool-cases (leb n 1)) [
  | inl e ↦ rw e refl
  | inr e ↦ rw e refl
]
batch_set-reads (BatchSetter.concurrency sequential) p = refl
batch_set-reads (BatchSetter.concurrency parallel) p = refl
batch_set-reads (BatchSetter.concurrency (max_threads n)) p = refl
batch_set-reads (BatchSetter.allow_inline x) p = refl
batch_set-reads (BatchSetter.allow_inline_ssd x) p = refl
batch_set-reads (BatchSetter.respond_all_keys x) p = refl
batch_set-reads (BatchSetter.replica x) p = refl
batch_set-reads {K} (BatchSetter.filter_expression x) p =
    seen-assign batch_view (λ f. record p { filter_expression = f })
      (λ f. record (batch_view p) { the_filter_expression = f }) p
      (opt_arg K.is_null K.expression x "$filter_expression" "an Expression") (λ f. refl)
