-- ===== src/ListOp/Removals.antt =====
-- The methods of `ListOp` of lib.rs that take elements out.
use aerospike_php_client.Common.{List, Option}
use aerospike_php_client.Common.Int.{ℤ}
use aerospike_php_client.Common.Text.{Text}
use aerospike_php_client.Php.{PhpResult, returned, ◌>>=◌}
use aerospike_php_client.Policy.{opt_arg}
use aerospike_php_client.Values.Value.{PhpValue}
use aerospike_php_client.ListOp.{
  Crate, ListCall, Operation, ctx_arg, return_arg, list_return, aero, end_value, php_values_to_aero,
  with_ctx,
}

module _ (C : Crate) where
  open C use {Zval, SortFlags}

  unfoldable pub pop : Text → ℤ → Option Zval → PhpResult (Operation C)
  unfolding ctx_arg with_ctx
  pop bin_name index ctx =
      ctx_arg C ctx >>= λ c. returned (with_ctx C (ListCall.lists_pop bin_name index) c)

  unfoldable pub pop_range : Text → ℤ → ℤ → Option Zval → PhpResult (Operation C)
  unfolding ctx_arg with_ctx
  pop_range bin_name index count ctx =
      ctx_arg C ctx >>= λ c. returned (with_ctx C (ListCall.lists_pop_range bin_name index count) c)

  unfoldable pub pop_range_from : Text → ℤ → Option Zval → PhpResult (Operation C)
  unfolding ctx_arg with_ctx
  pop_range_from bin_name index ctx =
      ctx_arg C ctx >>= λ c. returned (with_ctx C (ListCall.lists_pop_range_from bin_name index) c)

  unfoldable pub remove_values :
      Text → List PhpValue → Option Zval → Option Zval → PhpResult (Operation C)
  unfolding ctx_arg with_ctx return_arg list_return
  remove_values bin_name values return_type ctx = return_arg C return_type >>= λ rt.
      ctx_arg C ctx >>= λ c. returned (
        with_ctx C
          (ListCall.lists_remove_by_value_list bin_name (php_values_to_aero C values)
            (list_return C rt))
          c)

  unfoldable pub remove_by_value_range :
      Text → PhpValue → Option Zval → Option Zval → Option Zval → PhpResult (Operation C)
  unfolding ctx_arg with_ctx return_arg list_return opt_arg end_value
  remove_by_value_range bin_name begin end return_type ctx =
      opt_arg C.is_null C.to_value end "$end" "a supported value" >>= λ e.
      return_arg C return_type >>= λ rt. ctx_arg C ctx >>= λ c. returned (
        with_ctx C
          (ListCall.lists_remove_by_value_range bin_name (list_return C rt) (aero C begin)
            (end_value C e))
          c)

  unfoldable pub remove_by_value_relative_rank_range :
      Text → PhpValue → ℤ → Option Zval → Option Zval → PhpResult (Operation C)
  unfolding ctx_arg with_ctx return_arg list_return
  remove_by_value_relative_rank_range bin_name value rank return_type ctx =
      return_arg C return_type >>= λ rt. ctx_arg C ctx >>= λ c. returned (
        with_ctx C
          (ListCall.lists_remove_by_value_relative_rank_range bin_name (list_return C rt)
            (aero C value) rank)
          c)

  unfoldable pub remove_by_value_relative_rank_range_count :
      Text → PhpValue → ℤ → ℤ → Option Zval → Option Zval → PhpResult (Operation C)
  unfolding ctx_arg with_ctx return_arg list_return
  remove_by_value_relative_rank_range_count bin_name value rank count return_type ctx =
      return_arg C return_type >>= λ rt. ctx_arg C ctx >>= λ c. returned (
        with_ctx C
          (ListCall.lists_remove_by_value_relative_rank_range_count bin_name (list_return C rt)
            (aero C value) rank count)
          c)

  unfoldable pub remove_range : Text → ℤ → ℤ → Option Zval → PhpResult (Operation C)
  unfolding ctx_arg with_ctx
  remove_range bin_name index count ctx = ctx_arg C ctx >>= λ c.
      returned (with_ctx C (ListCall.lists_remove_range bin_name index count) c)

  unfoldable pub remove_range_from : Text → ℤ → Option Zval → PhpResult (Operation C)
  unfolding ctx_arg with_ctx
  remove_range_from bin_name index ctx = ctx_arg C ctx >>= λ c.
      returned (with_ctx C (ListCall.lists_remove_range_from bin_name index) c)

  unfoldable pub trim : Text → ℤ → ℤ → Option Zval → PhpResult (Operation C)
  unfolding ctx_arg with_ctx
  trim bin_name index count ctx =
      ctx_arg C ctx >>= λ c. returned (with_ctx C (ListCall.lists_trim bin_name index count) c)

  unfoldable pub clear : Text → Option Zval → PhpResult (Operation C)
  unfolding ctx_arg with_ctx
  clear bin_name ctx =
      ctx_arg C ctx >>= λ c. returned (with_ctx C (ListCall.lists_clear bin_name) c)

  unfoldable pub remove_by_index : Text → ℤ → Option Zval → Option Zval → PhpResult (Operation C)
  unfolding ctx_arg with_ctx return_arg list_return
  remove_by_index bin_name index return_type ctx = return_arg C return_type >>= λ rt.
      ctx_arg C ctx >>= λ c.
      returned (with_ctx C (ListCall.lists_remove_by_index bin_name index (list_return C rt)) c)

  unfoldable pub remove_by_index_range :
      Text → ℤ → Option Zval → Option Zval → PhpResult (Operation C)
  unfolding ctx_arg with_ctx return_arg list_return
  remove_by_index_range bin_name index return_type ctx = return_arg C return_type >>= λ rt.
      ctx_arg C ctx >>= λ c.
      returned
        (with_ctx C (ListCall.lists_remove_by_index_range bin_name index (list_return C rt)) c)

  unfoldable pub remove_by_index_range_count :
      Text → ℤ → ℤ → Option Zval → Option Zval → PhpResult (Operation C)
  unfolding ctx_arg with_ctx return_arg list_return
  remove_by_index_range_count bin_name index count return_type ctx =
      return_arg C return_type >>= λ rt. ctx_arg C ctx >>= λ c. returned (
        with_ctx C
          (ListCall.lists_remove_by_index_range_count bin_name index count (list_return C rt)) c)

  unfoldable pub remove_by_rank : Text → ℤ → Option Zval → Option Zval → PhpResult (Operation C)
  unfolding ctx_arg with_ctx return_arg list_return
  remove_by_rank bin_name rank return_type ctx = return_arg C return_type >>= λ rt.
      ctx_arg C ctx >>= λ c.
      returned (with_ctx C (ListCall.lists_remove_by_rank bin_name rank (list_return C rt)) c)

  unfoldable pub remove_by_rank_range :
      Text → ℤ → Option Zval → Option Zval → PhpResult (Operation C)
  unfolding ctx_arg with_ctx return_arg list_return
  remove_by_rank_range bin_name rank return_type ctx = return_arg C return_type >>= λ rt.
      ctx_arg C ctx >>= λ c.
      returned (with_ctx C (ListCall.lists_remove_by_rank_range bin_name rank (list_return C rt)) c)

  unfoldable pub remove_by_rank_range_count :
      Text → ℤ → ℤ → Option Zval → Option Zval → PhpResult (Operation C)
  unfolding ctx_arg with_ctx return_arg list_return
  remove_by_rank_range_count bin_name rank count return_type ctx =
      return_arg C return_type >>= λ rt. ctx_arg C ctx >>= λ c. returned (
        with_ctx C
          (ListCall.lists_remove_by_rank_range_count bin_name rank count (list_return C rt)) c)
