-- ===== src/ListOp/Reads.antt =====
-- The methods of `ListOp` of lib.rs that read elements, and those on the order and on one number.
use aerospike_php_client.Common.{List, Option}
use aerospike_php_client.Common.Int.{ℤ}
use aerospike_php_client.Common.Text.{Text}
use aerospike_php_client.Php.{PhpResult, returned, ◌>>=◌}
use aerospike_php_client.Policy.{opt_arg}
use aerospike_php_client.Values.Value.{PhpValue}
use aerospike_php_client.ListOp.{
  Crate, ListCall, ListOrder, Operation, ctx_arg, return_arg, list_return, aero, end_value,
  php_values_to_aero, with_ctx,
}

module _ (C : Crate) where
  open C use {Zval, SortFlags}

  unfoldable pub set_order : Text → ListOrder → Option Zval → PhpResult (Operation C)
  unfolding ctx_arg with_ctx
  set_order bin_name order ctx =
      ctx_arg C ctx >>= λ c. returned (with_ctx C (ListCall.lists_set_order bin_name order) c)

  unfoldable pub increment : Text → ℤ → ℤ → Option Zval → PhpResult (Operation C)
  unfolding ctx_arg with_ctx
  increment bin_name index value ctx = ctx_arg C ctx >>= λ c.
      returned (with_ctx C (ListCall.lists_increment C.default_policy bin_name index value) c)

  unfoldable pub size : Text → Option Zval → PhpResult (Operation C)
  unfolding ctx_arg with_ctx
  size bin_name ctx = ctx_arg C ctx >>= λ c. returned (with_ctx C (ListCall.lists_size bin_name) c)

  unfoldable pub sort : Text → SortFlags → Option Zval → PhpResult (Operation C)
  unfolding ctx_arg with_ctx
  sort bin_name sort_flags ctx =
      ctx_arg C ctx >>= λ c. returned (with_ctx C (ListCall.lists_sort bin_name sort_flags) c)

  unfoldable pub get_by_values :
      Text → List PhpValue → Option Zval → Option Zval → PhpResult (Operation C)
  unfolding ctx_arg with_ctx return_arg list_return
  get_by_values bin_name values return_type ctx = return_arg C return_type >>= λ rt.
      ctx_arg C ctx >>= λ c. returned (
        with_ctx C
          (ListCall.lists_get_by_value_list bin_name (php_values_to_aero C values)
            (list_return C rt))
          c)

  unfoldable pub get_by_value_range :
      Text → PhpValue → Option Zval → Option Zval → Option Zval → PhpResult (Operation C)
  unfolding ctx_arg with_ctx return_arg list_return opt_arg end_value
  get_by_value_range bin_name begin end return_type ctx =
      opt_arg C.is_null C.to_value end "$end" "a supported value" >>= λ e.
      return_arg C return_type >>= λ rt. ctx_arg C ctx >>= λ c. returned (
        with_ctx C
          (ListCall.lists_get_by_value_range bin_name (aero C begin) (end_value C e)
            (list_return C rt))
          c)

  unfoldable pub get_by_index : Text → ℤ → Option Zval → Option Zval → PhpResult (Operation C)
  unfolding ctx_arg with_ctx return_arg list_return
  get_by_index bin_name index return_type ctx = return_arg C return_type >>= λ rt.
      ctx_arg C ctx >>= λ c.
      returned (with_ctx C (ListCall.lists_get_by_index bin_name index (list_return C rt)) c)

  unfoldable pub get_by_index_range : Text → ℤ → Option Zval → Option Zval → PhpResult (Operation C)
  unfolding ctx_arg with_ctx return_arg list_return
  get_by_index_range bin_name index return_type ctx = return_arg C return_type >>= λ rt.
      ctx_arg C ctx >>= λ c.
      returned (with_ctx C (ListCall.lists_get_by_index_range bin_name index (list_return C rt)) c)

  unfoldable pub get_by_index_range_count :
      Text → ℤ → ℤ → Option Zval → Option Zval → PhpResult (Operation C)
  unfolding ctx_arg with_ctx return_arg list_return
  get_by_index_range_count bin_name index count return_type ctx = return_arg C return_type >>= λ rt.
      ctx_arg C ctx >>= λ c. returned (
        with_ctx C (ListCall.lists_get_by_index_range_count bin_name index count (list_return C rt))
          c)

  unfoldable pub get_by_rank : Text → ℤ → Option Zval → Option Zval → PhpResult (Operation C)
  unfolding ctx_arg with_ctx return_arg list_return
  get_by_rank bin_name rank return_type ctx = return_arg C return_type >>= λ rt.
      ctx_arg C ctx >>= λ c.
      returned (with_ctx C (ListCall.lists_get_by_rank bin_name rank (list_return C rt)) c)

  unfoldable pub get_by_rank_range : Text → ℤ → Option Zval → Option Zval → PhpResult (Operation C)
  unfolding ctx_arg with_ctx return_arg list_return
  get_by_rank_range bin_name rank return_type ctx = return_arg C return_type >>= λ rt.
      ctx_arg C ctx >>= λ c.
      returned (with_ctx C (ListCall.lists_get_by_rank_range bin_name rank (list_return C rt)) c)

  unfoldable pub get_by_rank_range_count :
      Text → ℤ → ℤ → Option Zval → Option Zval → PhpResult (Operation C)
  unfolding ctx_arg with_ctx return_arg list_return
  get_by_rank_range_count bin_name rank count return_type ctx = return_arg C return_type >>= λ rt.
      ctx_arg C ctx >>= λ c.
      returned (
        with_ctx C (ListCall.lists_get_by_rank_range_count bin_name rank count (list_return C rt))
          c)

  unfoldable pub get_by_value_relative_rank_range :
      Text → PhpValue → ℤ → Option Zval → Option Zval → PhpResult (Operation C)
  unfolding ctx_arg with_ctx return_arg list_return
  get_by_value_relative_rank_range bin_name value rank return_type ctx =
      return_arg C return_type >>= λ rt. ctx_arg C ctx >>= λ c. returned (
        with_ctx C
          (ListCall.lists_get_by_value_relative_rank_range bin_name (aero C value) rank
            (list_return C rt))
          c)

  unfoldable pub get_by_value_relative_rank_range_count :
      Text → PhpValue → ℤ → ℤ → Option Zval → Option Zval → PhpResult (Operation C)
  unfolding ctx_arg with_ctx return_arg list_return
  get_by_value_relative_rank_range_count bin_name value rank count return_type ctx =
      return_arg C return_type >>= λ rt. ctx_arg C ctx >>= λ c. returned (
        with_ctx C
          (ListCall.lists_get_by_value_relative_rank_range_count bin_name (aero C value) rank count
            (list_return C rt))
          c)
