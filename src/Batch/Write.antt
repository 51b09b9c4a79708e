-- ===== src/Batch/Write.antt =====
-- `BatchWritePolicy` of lib.rs.
use aerospike_php_client.Common.{ℕ, ◌≡◌, refl, Option, Bool}
use aerospike_php_client.Php.{PhpResult, returned}
use aerospike_php_client.Ttl.{AeroExpiration}
use aerospike_php_client.Policy.{Crate, assign, opt_arg, seen, seen-assign}

-- The fields of the client library's policy that the class reads and writes.
pub record BatchWritePolicy (K : Crate) : Type 0 where
  pub record_exists_action : K.exists_action
  pub generation_policy : K.generation_policy
  pub commit_level : K.commit_level
  pub generation : ℕ
  pub expiration : AeroExpiration
  pub send_key : Bool
  pub durable_delete : Bool
  pub filter_expression : Option K.filter

module _ {K : Crate} where
  unfoldable pub get_record_exists_action : BatchWritePolicy K → K.exists_action
  get_record_exists_action p = p.record_exists_action

  unfoldable pub set_record_exists_action :
      K.exists_action → BatchWritePolicy K → BatchWritePolicy K
  set_record_exists_action record_exists_action p = record p {
    record_exists_action = record_exists_action;
  }

  unfoldable pub get_generation_policy : BatchWritePolicy K → K.generation_policy
  get_generation_policy p = p.generation_policy

  unfoldable pub set_generation_policy :
      K.generation_policy → BatchWritePolicy K → BatchWritePolicy K
  set_generation_policy generation_policy p = record p { generation_policy = generation_policy }

  unfoldable pub get_commit_level : BatchWritePolicy K → K.commit_level
  get_commit_level p = p.commit_level

  unfoldable pub set_commit_level : K.commit_level → BatchWritePolicy K → BatchWritePolicy K
  set_commit_level commit_level p = record p { commit_level = commit_level }

  unfoldable pub get_generation : BatchWritePolicy K → ℕ
  get_generation p = p.generation

  unfoldable pub set_generation : ℕ → BatchWritePolicy K → BatchWritePolicy K
  set_generation generation p = record p { generation = generation }

  unfoldable pub get_expiration : BatchWritePolicy K → AeroExpiration
  get_expiration p = p.expiration

  unfoldable pub set_expiration : AeroExpiration → BatchWritePolicy K → BatchWritePolicy K
  set_expiration expiration p = record p { expiration = expiration }

  unfoldable pub get_send_key : BatchWritePolicy K → Bool
  get_send_key p = p.send_key

  unfoldable pub set_send_key : Bool → BatchWritePolicy K → BatchWritePolicy K
  set_send_key send_key p = record p { send_key = send_key }

  unfoldable pub get_durable_delete : BatchWritePolicy K → Bool
  get_durable_delete p = p.durable_delete

  unfoldable pub set_durable_delete : Bool → BatchWritePolicy K → BatchWritePolicy K
  set_durable_delete durable_delete p = record p { durable_delete = durable_delete }

  unfoldable pub get_filter_expression : BatchWritePolicy K → Option K.filter
  get_filter_expression p = p.filter_expression

  unfoldable pub set_filter_expression :
      Option K.zval → BatchWritePolicy K → BatchWritePolicy K × PhpResult (Unit {0})
  unfolding opt_arg
  set_filter_expression filter_expression p =
      assign (λ v. record p { filter_expression = v }) p
        (opt_arg K.is_null K.expression filter_expression "$filter_expression" "an Expression")

-- What PHP can read of the policy.
pub record BatchWriteView (K : Crate) : Type 0 where
  pub the_record_exists_action : K.exists_action
  pub the_generation_policy : K.generation_policy
  pub the_commit_level : K.commit_level
  pub the_generation : ℕ
  pub the_expiration : AeroExpiration
  pub the_send_key : Bool
  pub the_durable_delete : Bool
  pub the_filter_expression : Option K.filter

unfoldable pub batch_write_view : {K : Crate} → BatchWritePolicy K → BatchWriteView K
unfolding get_record_exists_action get_generation_policy get_commit_level get_generation
    get_expiration get_send_key get_durable_delete get_filter_expression
batch_write_view p = record {
  the_record_exists_action = get_record_exists_action p;
  the_generation_policy = get_generation_policy p;
  the_commit_level = get_commit_level p;
  the_generation = get_generation p;
  the_expiration = get_expiration p;
  the_send_key = get_send_key p;
  the_durable_delete = get_durable_delete p;
  the_filter_expression = get_filter_expression p;
}

-- One call of a setter.
pub data BatchWriteSetter (K : Crate) : Type 0 where
  record_exists_action : K.exists_action → BatchWriteSetter K
  generation_policy : K.generation_policy → BatchWriteSetter K
  commit_level : K.commit_level → BatchWriteSetter K
  generation : ℕ → BatchWriteSetter K
  expiration : AeroExpiration → BatchWriteSetter K
  send_key : Bool → BatchWriteSetter K
  durable_delete : Bool → BatchWriteSetter K
  filter_expression : Option K.zval → BatchWriteSetter K

unfoldable pub batch_write_set :
    {K : Crate}
    → BatchWriteSetter K
    → BatchWritePolicy K
    → BatchWritePolicy K × PhpResult (Unit {0})
unfolding set_record_exists_action set_generation_policy set_commit_level set_generation
    set_expiration set_send_key set_durable_delete set_filter_expression
batch_write_set (BatchWriteSetter.record_exists_action x) p =
    (set_record_exists_action x p, returned tt)
batch_write_set (BatchWriteSetter.generation_policy x) p = (set_generation_policy x p, returned tt)
batch_write_set (BatchWriteSetter.commit_level x) p = (set_commit_level x p, returned tt)
batch_write_set (BatchWriteSetter.generation x) p = (set_generation x p, returned tt)
batch_write_set (BatchWriteSetter.expiration x) p = (set_expiration x p, returned tt)
batch_write_set (BatchWriteSetter.send_key x) p = (set_send_key x p, returned tt)
batch_write_set (BatchWriteSetter.durable_delete x) p = (set_durable_delete x p, returned tt)
batch_write_set (BatchWriteSetter.filter_expression x) p = set_filter_expression x p

-- What a call does to what PHP can read.
abbrev pub batch_write_call :
    {K : Crate} → BatchWriteSetter K → BatchWriteView K → BatchWriteView K × PhpResult (Unit {0})
batch_write_call (BatchWriteSetter.record_exists_action x) v =
    (record v { the_record_exists_action = x }, returned tt)
batch_write_call (BatchWriteSetter.generation_policy x) v =
    (record v { the_generation_policy = x }, returned tt)
batch_write_call (BatchWriteSetter.commit_level x) v =
    (record v { the_commit_level = x }, returned tt)
batch_write_call (BatchWriteSetter.generation x) v = (record v { the_generation = x }, returned tt)
batch_write_call (BatchWriteSetter.expiration x) v = (record v { the_expiration = x }, returned tt)
batch_write_call (BatchWriteSetter.send_key x) v = (record v { the_send_key = x }, returned tt)
batch_write_call (BatchWriteSetter.durable_delete x) v =
    (record v { the_durable_delete = x }, returned tt)
batch_write_call {K} (BatchWriteSetter.filter_expression x) v =
    assign (λ f. record v { the_filter_expression = f }) v
      (opt_arg K.is_null K.expression x "$filter_expression" "an Expression")

-- Every call of a setter changes what PHP can read as it says, and nothing else: the value is read back,
-- and an argument that is refused throws and changes nothing.
pub batch_write_set-reads :
    {K : Crate} (s : BatchWriteSetter K) (p : BatchWritePolicy K)
    → seen batch_write_view (batch_write_set s p) ≡ batch_write_call s (batch_write_view p)
unfolding batch_write_set batch_write_view
batch_write_set-reads (BatchWriteSetter.record_exists_action x) p = refl
batch_write_set-reads (BatchWriteSetter.generation_policy x) p = refl
batch_write_set-reads (BatchWriteSetter.commit_level x) p = refl
batch_write_set-reads (BatchWriteSetter.generation x) p = refl
batch_write_set-reads (BatchWriteSetter.expiration x) p = refl
batch_write_set-reads (BatchWriteSetter.send_key x) p = refl
batch_write_set-reads (BatchWriteSetter.durable_delete x) p = refl
batch_write_set-reads {K} (BatchWriteSetter.filter_expression x) p =
    seen-assign batch_write_view (λ f. record p { filter_expression = f })
      (λ f. record (batch_write_view p) { the_filter_expression = f }) p
      (opt_arg K.is_null K.expression x "$filter_expression" "an Expression") (λ f. refl)
