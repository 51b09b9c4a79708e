-- ===== src/Batch/Read.antt =====
-- `BatchReadPolicy` of lib.rs.
use aerospike_php_client.Common.{◌≡◌, refl, Option}
use aerospike_php_client.Common.Int.{ℤ}
use aerospike_php_client.Php.{PhpResult}
use aerospike_php_client.Ttl.{ReadTouchTtl, read_touch_ttl_from_percent, percent_of}
use aerospike_php_client.Policy.{Crate, assign, opt_arg, seen, seen-assign}

-- The fields of the client library's policy that the class reads and writes.
pub record BatchReadPolicy (K : Crate) : Type 0 where
  pub read_touch_ttl : ReadTouchTtl
  pub filter_expression : Option K.filter

module _ {K : Crate} where
  unfoldable pub get_read_touch_ttl_percent : BatchReadPolicy K → ℤ
  unfolding percent_of
  get_read_touch_ttl_percent p = percent_of p.read_touch_ttl

  unfoldable pub set_read_touch_ttl_percent :
      ℤ → BatchReadPolicy K → BatchReadPolicy K × PhpResult (Unit {0})
  unfolding read_touch_ttl_from_percent
  set_read_touch_ttl_percent percent p =
      assign (λ v. record p { read_touch_ttl = v }) p (read_touch_ttl_from_percent percent)

  unfoldable pub get_filter_expression : BatchReadPolicy K → Option K.filter
  get_filter_expression p = p.filter_expression

  unfoldable pub set_filter_expression :
      Option K.zval → BatchReadPolicy K → BatchReadPolicy K × PhpResult (Unit {0})
  unfolding opt_arg
  set_filter_expression filter_expression p =
      assign (λ v. record p { filter_expression = v }) p
        (opt_arg K.is_null K.expression filter_expression "$filter_expression" "an Expression")

-- What PHP can read of the policy.
pub record BatchReadView (K : Crate) : Type 0 where
  pub the_read_touch_ttl_percent : ℤ
  pub the_filter_expression : Option K.filter

unfoldable pub batch_read_view : {K : Crate} → BatchReadPolicy K → BatchReadView K
unfolding get_read_touch_ttl_percent get_filter_expression
batch_read_view p = record {
  the_read_touch_ttl_percent = get_read_touch_ttl_percent p;
  the_filter_expression = get_filter_expression p;
}

-- One call of a setter.
pub data BatchReadSetter (K : Crate) : Type 0 where
  read_touch_ttl_percent : ℤ → BatchReadSetter K
  filter_expression : Option K.zval → BatchReadSetter K

unfoldable pub batch_read_set :
    {K : Crate} → BatchReadSetter K → BatchReadPolicy K → BatchReadPolicy K × PhpResult (Unit {0})
unfolding set_read_touch_ttl_percent set_filter_expression
batch_read_set (BatchReadSetter.read_touch_ttl_percent x) p = set_read_touch_ttl_percent x p
batch_read_set (BatchReadSetter.filter_expression x) p = set_filter_expression x p

-- What a call does to what PHP can read.
abbrev pub batch_read_call :
    {K : Crate} → BatchReadSetter K → BatchReadView K → BatchReadView K × PhpResult (Unit {0})
batch_read_call (BatchReadSetter.read_touch_ttl_percent x) v =
    assign (λ t. record v { the_read_touch_ttl_percent = percent_of t }) v
      (read_touch_ttl_from_percent x)
batch_read_call {K} (BatchReadSetter.filter_expression x) v =
    assign (λ f. record v { the_filter_expression = f }) v
      (opt_arg K.is_null K.expression x "$filter_expression" "an Expression")

-- Every call of a setter changes what PHP can read as it says, and nothing else: the value is read back,
-- and an argument that is refused throws and changes nothing. A percentage that is taken reads as what
-- `read_touch_ttl_from_percent` makes of it.
pub batch_read_set-reads :
    {K : Crate} (s : BatchReadSetter K) (p : BatchReadPolicy K)
    → seen batch_read_view (batch_read_set s p) ≡ batch_read_call s (batch_read_view p)
unfolding batch_read_set batch_read_view
batch_read_set-reads (BatchReadSetter.read_touch_ttl_percent x) p =
    seen-assign batch_read_view (λ t. record p { read_touch_ttl = t })
      (λ t. record (batch_read_view p) { the_read_touch_ttl_percent = percent_of t }) p
      (read_touch_ttl_from_percent x) (λ t. refl)
batch_read_set-reads {K} (BatchReadSetter.filter_expression x) p =
    seen-assign batch_read_view (λ f. record p { filter_expression = f })
      (λ f. record (batch_read_view p) { the_filter_expression = f }) p
      (opt_arg K.is_null K.expression x "$filter_expression" "an Expression") (λ f. refl)
