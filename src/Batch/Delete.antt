-- ===== src/Batch/Delete.antt =====
-- `BatchDeletePolicy` of lib.rs.
use aerospike_php_client.Common.{ℕ, ◌≡◌, refl, Option, Bool}
use aerospike_php_client.Php.{PhpResult, returned}
use aerospike_php_client.Policy.{Crate, assign, opt_arg, seen, seen-assign}

-- The fields of the client library's policy that the class reads and writes.
pub record BatchDeletePolicy (K : Crate) : Type 0 where
  pub generation_policy : K.generation_policy
  pub commit_level : K.commit_level
  pub generation : ℕ
  pub send_key : Bool
  pub durable_delete : Bool
  pub filter_expression : Option K.filter

module _ {K : Crate} where
  unfoldable pub get_generation_policy : BatchDeletePolicy K → K.generation_policy
  get_generation_policy p = p.generation_policy

  unfoldable pub set_generation_policy :
      K.generation_policy → BatchDeletePolicy K → BatchDeletePolicy K
  set_generation_policy generation_policy p = record p { generation_policy = generation_policy }

  unfoldable pub get_commit_level : BatchDeletePolicy K → K.commit_level
  get_commit_level p = p.commit_level

  unfoldable pub set_commit_level : K.commit_level → BatchDeletePolicy K → BatchDeletePolicy K
  set_commit_level commit_level p = record p { commit_level = commit_level }

  unfoldable pub get_generation : BatchDeletePolicy K → ℕ
  get_generation p = p.generation

  unfoldable pub set_generation : ℕ → BatchDeletePolicy K → BatchDeletePolicy K
  set_generation generation p = record p { generation = generation }

  unfoldable pub get_send_key : BatchDeletePolicy K → Bool
  get_send_key p = p.send_key

  unfoldable pub set_send_key : Bool → BatchDeletePolicy K → BatchDeletePolicy K
  set_send_key send_key p = record p { send_key = send_key }

  unfoldable pub get_durable_delete : BatchDeletePolicy K → Bool
  get_durable_delete p = p.durable_delete

  unfoldable pub set_durable_delete : Bool → BatchDeletePolicy K → BatchDeletePolicy K
  set_durable_delete durable_delete p = record p { durable_delete = durable_delete }

  unfoldable pub get_filter_expression : BatchDeletePolicy K → Option K.filter
  get_filter_expression p = p.filter_expression

  unfoldable pub set_filter_expression :
      Option K.zval → BatchDeletePolicy K → BatchDeletePolicy K × PhpResult (Unit {0})
  unfolding opt_arg
  set_filter_expression filter_expression p =
      assign (λ v. record p { filter_expression = v }) p
        (opt_arg K.is_null K.expression filter_expression "$filter_expression" "an Expression")

-- What PHP can read of the policy.
pub record BatchDeleteView (K : Crate) : Type 0 where
  pub the_generation_policy : K.generation_policy
  pub the_commit_level : K.commit_level
  pub the_generation : ℕ
  pub the_send_key : Bool
  pub the_durable_delete : Bool
  pub the_filter_expression : Option K.filter

unfoldable pub batch_delete_view : {K : Crate} → BatchDeletePolicy K → BatchDeleteView K
unfolding get_generation_policy get_commit_level get_generation get_send_key get_durable_delete
    get_filter_expression
batch_delete_view p = record {
  the_generation_policy = get_generation_policy p;
  the_commit_level = get_commit_level p;
  the_generation = get_generation p;
  the_send_key = get_send_key p;
  the_durable_delete = get_durable_delete p;
  the_filter_expression = get_filter_expression p;
}

-- One call of a setter.
pub data BatchDeleteSetter (K : Crate) : Type 0 where
  generation_policy : K.generation_policy → BatchDeleteSetter K
  commit_level : K.commit_level → BatchDeleteSetter K
  generation : ℕ → BatchDeleteSetter K
  send_key : Bool → BatchDeleteSetter K
  durable_delete : Bool → BatchDeleteSetter K
  filter_expression : Option K.zval → BatchDeleteSetter K

unfoldable pub batch_delete_set :
    {K : Crate}
    → BatchDeleteSetter K
    → BatchDeletePolicy K
    → BatchDeletePolicy K × PhpResult (Unit {0})
unfolding set_generation_policy set_commit_level set_generation set_send_key set_durable_delete
    set_filter_expression
batch_delete_set (BatchDeleteSetter.generation_policy x) p =
    (set_generation_policy x p, returned tt)
batch_delete_set (BatchDeleteSetter.commit_level x) p = (set_commit_level x p, returned tt)
batch_delete_set (BatchDeleteSetter.generation x) p = (set_generation x p, returned tt)
batch_delete_set (BatchDeleteSetter.send_key x) p = (set_send_key x p, returned tt)
batch_delete_set (BatchDeleteSetter.durable_delete x) p = (set_durable_delete x p, returned tt)
batch_delete_set (BatchDeleteSetter.filter_expression x) p = set_filter_expression x p

-- What a call does to what PHP can read.
abbrev pub batch_delete_call :
    {K : Crate} → BatchDeleteSetter K → BatchDeleteView K → BatchDeleteView K × PhpResult (Unit {0})
batch_delete_call (BatchDeleteSetter.generation_policy x) v =
    (record v { the_generation_policy = x }, returned tt)
batch_delete_call (BatchDeleteSetter.commit_level x) v =
    (record v { the_commit_level = x }, returned tt)
batch_delete_call (BatchDeleteSetter.generation x) v =
    (record v { the_generation = x }, returned tt)
batch_delete_call (BatchDeleteSetter.send_key x) v = (record v { the_send_key = x }, returned tt)
batch_delete_call (BatchDeleteSetter.durable_delete x) v =
    (record v { the_durable_delete = x }, returned tt)
batch_delete_call {K} (BatchDeleteSetter.filter_expression x) v =
    assign (λ f. record v { the_filter_expression = f }) v
      (opt_arg K.is_null K.expression x "$filter_expression" "an Expression")

-- Every call of a setter changes what PHP can read as it says, and nothing else: the value is read back,
-- and an argument that is refused throws and changes nothing.
pub batch_delete_set-reads :
    {K : Crate} (s : BatchDeleteSetter K) (p : BatchDeletePolicy K)
    → seen batch_delete_view (batch_delete_set s p) ≡ batch_delete_call s (batch_delete_view p)
unfolding batch_delete_set batch_delete_view
batch_delete_set-reads (BatchDeleteSetter.generation_policy x) p = refl
batch_delete_set-reads (BatchDeleteSetter.commit_level x) p = refl
batch_delete_set-reads (BatchDeleteSetter.generation x) p = refl
batch_delete_set-reads (BatchDeleteSetter.send_key x) p = refl
batch_delete_set-reads (BatchDeleteSetter.durable_delete x) p = refl
batch_delete_set-reads {K} (BatchDeleteSetter.filter_expression x) p =
    seen-assign batch_delete_view (λ f. record p { filter_expression = f })
      (λ f. record (batch_delete_view p) { the_filter_expression = f }) p
      (opt_arg K.is_null K.expression x "$filter_expression" "an Expression") (λ f. refl)
