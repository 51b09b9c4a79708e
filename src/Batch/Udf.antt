-- ===== src/Batch/Udf.antt =====
-- `BatchUdfPolicy` of lib.rs.
use aerospike_php_client.Common.{◌≡◌, refl, Option, Bool}
use aerospike_php_client.Php.{PhpResult, returned}
use aerospike_php_client.Ttl.{AeroExpiration}
use aerospike_php_client.Policy.{Crate, assign, opt_arg, seen, seen-assign}

-- The fields of the client library's policy that the class reads and writes.
pub record BatchUdfPolicy (K : Crate) : Type 0 where
  pub commit_level : K.commit_level
  pub expiration : AeroExpiration
  pub send_key : Bool
  pub durable_delete : Bool
  pub filter_expression : Option K.filter

module _ {K : Crate} where
  unfoldable pub get_commit_level : BatchUdfPolicy K → K.commit_level
  get_commit_level p = p.commit_level

  unfoldable pub set_commit_level : K.commit_level → BatchUdfPolicy K → BatchUdfPolicy K
  set_commit_level commit_level p = record p { commit_level = commit_level }

  unfoldable pub get_expiration : BatchUdfPolicy K → AeroExpiration
  get_expiration p = p.expiration

  unfoldable pub set_expiration : AeroExpiration → BatchUdfPolicy K → BatchUdfPolicy K
  set_expiration expiration p = record p { expiration = expiration }

  unfoldable pub get_send_key : BatchUdfPolicy K → Bool
  get_send_key p = p.send_key

  unfoldable pub set_send_key : Bool → BatchUdfPolicy K → BatchUdfPolicy K
  set_send_key send_key p = record p { send_key = send_key }

  unfoldable pub get_durable_delete : BatchUdfPolicy K → Bool
  get_durable_delete p = p.durable_delete

  unfoldable pub set_durable_delete : Bool → BatchUdfPolicy K → BatchUdfPolicy K
  set_durable_delete durable_delete p = record p { durable_delete = durable_delete }

  unfoldable pub get_filter_expression : BatchUdfPolicy K → Option K.filter
  get_filter_expression p = p.filter_expression

  unfoldable pub set_filter_expression :
      Option K.zval → BatchUdfPolicy K → BatchUdfPolicy K × PhpResult (Unit {0})
  unfolding opt_arg
  set_filter_expression filter_expression p =
      assign (λ v. record p { filter_expression = v }) p
        (opt_arg K.is_null K.expression filter_expression "$filter_expression" "an Expression")

-- What PHP can read of the policy.
pub record BatchUdfView (K : Crate) : Type 0 where
  pub the_commit_level : K.commit_level
  pub the_expiration : AeroExpiration
  pub the_send_key : Bool
  pub the_durable_delete : Bool
  pub the_filter_expression : Option K.filter

unfoldable pub batch_udf_view : {K : Crate} → BatchUdfPolicy K → BatchUdfView K
unfolding get_commit_level get_expiration get_send_key get_durable_delete get_filter_expression
batch_udf_view p = record {
  the_commit_level = get_commit_level p;
  the_expiration = get_expiration p;
  the_send_key = get_send_key p;
  the_durable_delete = get_durable_delete p;
  the_filter_expression = get_filter_expression p;
}

-- One call of a setter.
pub data BatchUdfSetter (K : Crate) : Type 0 where
  commit_level : K.commit_level → BatchUdfSetter K
  expiration : AeroExpiration → BatchUdfSetter K
  send_key : Bool → BatchUdfSetter K
  durable_delete : Bool → BatchUdfSetter K
  filter_expression : Option K.zval → BatchUdfSetter K

unfoldable pub batch_udf_set :
    {K : Crate} → BatchUdfSetter K → BatchUdfPolicy K → BatchUdfPolicy K × PhpResult (Unit {0})
unfolding set_commit_level set_expiration set_send_key set_durable_delete set_filter_expression
batch_udf_set (BatchUdfSetter.commit_level x) p = (set_commit_level x p, returned tt)
batch_udf_set (BatchUdfSetter.expiration x) p = (set_expiration x p, returned tt)
batch_udf_set (BatchUdfSetter.send_key x) p = (set_send_key x p, returned tt)
batch_udf_set (BatchUdfSetter.durable_delete x) p = (set_durable_delete x p, returned tt)
batch_udf_set (BatchUdfSetter.filter_expression x) p = set_filter_expression x p

-- What a call does to what PHP can read.
abbrev pub batch_udf_call :
    {K : Crate} → BatchUdfSetter K → BatchUdfView K → BatchUdfView K × PhpResult (Unit {0})
batch_udf_call (BatchUdfSetter.commit_level x) v = (record v { the_commit_level = x }, returned tt)
batch_udf_call (BatchUdfSetter.expiration x) v = (record v { the_expiration = x }, returned tt)
batch_udf_call (BatchUdfSetter.send_key x) v = (record v { the_send_key = x }, returned tt)
batch_udf_call (BatchUdfSetter.durable_delete x) v =
    (record v { the_durable_delete = x }, returned tt)
batch_udf_call {K} (BatchUdfSetter.filter_expression x) v =
    assign (λ f. record v { the_filter_expression = f }) v
      (opt_arg K.is_null K.expression x "$filter_expression" "an Expression")

-- Every call of a setter changes what PHP can read as it says, and nothing else: the value is read back,
-- and an argument that is refused throws and changes nothing.
pub batch_udf_set-reads :
    {K : Crate} (s : BatchUdfSetter K) (p : BatchUdfPolicy K)
    → seen batch_udf_view (batch_udf_set s p) ≡ batch_udf_call s (batch_udf_view p)
unfolding batch_udf_set batch_udf_view
batch_udf_set-reads (BatchUdfSetter.commit_level x) p = refl
batch_udf_set-reads (BatchUdfSetter.expiration x) p = refl
batch_udf_set-reads (BatchUdfSetter.send_key x) p = refl
batch_udf_set-reads (BatchUdfSetter.durable_delete x) p = refl
batch_udf_set-reads {K} (BatchUdfSetter.filter_expression x) p =
    seen-assign batch_udf_view (λ f. record p { filter_expression = f })
      (λ f. record (batch_udf_view p) { the_filter_expression = f }) p
      (opt_arg K.is_null K.expression x "$filter_expression" "an Expression") (λ f. refl)
