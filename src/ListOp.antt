-- ===== src/ListOp.antt =====
-- `ListOp` of lib.rs, the operations on list bins: what each method checks, and the builder of the crate,
-- in `aero::operations::lists`, that it calls. An operation is that call and the context given to it.
pub mod Reads
pub mod Removals
pub mod Asserts
use Prim.Native.String.{String}
use aerospike_php_client.Common.{
  ℕ, Bool, true, false, ◌||◌, List, [], ◌∷◌, map, Option, none, some, if◌then◌else◌,
}
use aerospike_php_client.Common.Int.{ℤ}
use aerospike_php_client.Common.Text.{Text}
use aerospike_php_client.Php.{PhpResult, returned, threw, ◌>>=◌, list_op}
use aerospike_php_client.Policy.{opt_arg}
use aerospike_php_client.Statement.{opt_list_arg}
use aerospike_php_client.Values.Value.{PhpValue}
use aerospike_php_client.Values.Aero.{AeroValue}
use aerospike_php_client.Values.Store
use aerospike_php_client.Values.Store.{to_aero}

pub data ListOrder : Type 0 where
  ordered : ListOrder
  unordered : ListOrder

-- The crate's types, and how PHP values convert; `or_flags` is `flags |= …` on a context.
pub record Crate : Type 1 where
  pub ListPolicy : Type 0
  pub SortFlags : Type 0
  pub Context : Type 0
  pub Zval : Type 0
  pub is_null : Zval → Bool
  pub array : Zval → Option (List Zval)
  pub to_context : Zval → Option Context
  pub to_return : Zval → Option ℤ
  pub to_value : Zval → Option PhpValue
  pub values : Store.Crate
  pub default_policy : ListPolicy
  -- `ListReturnType::Values as i32`.
  pub return_values : ℤ
  pub or_flags : ℕ → Context → Context

-- The builders of the crate that the methods call.
pub data ListCall (C : Crate) : Type 0 where
  lists_append_items : C.ListPolicy → Text → List AeroValue → ListCall C
  lists_clear : Text → ListCall C
  lists_create_with_index : Text → ListOrder → ListCall C
  lists_get_by_index : Text → ℤ → ℤ → ListCall C
  lists_get_by_index_range : Text → ℤ → ℤ → ListCall C
  lists_get_by_index_range_count : Text → ℤ → ℤ → ℤ → ListCall C
  lists_get_by_rank : Text → ℤ → ℤ → ListCall C
  lists_get_by_rank_range : Text → ℤ → ℤ → ListCall C
  lists_get_by_rank_range_count : Text → ℤ → ℤ → ℤ → ListCall C
  lists_get_by_value_list : Text → List AeroValue → ℤ → ListCall C
  lists_get_by_value_range : Text → AeroValue → AeroValue → ℤ → ListCall C
  lists_get_by_value_relative_rank_range : Text → AeroValue → ℤ → ℤ → ListCall C
  lists_get_by_value_relative_rank_range_count : Text → AeroValue → ℤ → ℤ → ℤ → ListCall C
  lists_increment : C.ListPolicy → Text → ℤ → ℤ → ListCall C
  lists_insert_items : C.ListPolicy → Text → ℤ → List AeroValue → ListCall C
  lists_pop : Text → ℤ → ListCall C
  lists_pop_range : Text → ℤ → ℤ → ListCall C
  lists_pop_range_from : Text → ℤ → ListCall C
  lists_remove_by_index : Text → ℤ → ℤ → ListCall C
  lists_remove_by_index_range : Text → ℤ → ℤ → ListCall C
  lists_remove_by_index_range_count : Text → ℤ → ℤ → ℤ → ListCall C
  lists_remove_by_rank : Text → ℤ → ℤ → ListCall C
  lists_remove_by_rank_range : Text → ℤ → ℤ → ListCall C
  lists_remove_by_rank_range_count : Text → ℤ → ℤ → ℤ → ListCall C
  lists_remove_by_value_list : Text → List AeroValue → ℤ → ListCall C
  lists_remove_by_value_range : Text → ℤ → AeroValue → AeroValue → ListCall C
  lists_remove_by_value_relative_rank_range : Text → ℤ → AeroValue → ℤ → ListCall C
  lists_remove_by_value_relative_rank_range_count : Text → ℤ → AeroValue → ℤ → ℤ → ListCall C
  lists_remove_range : Text → ℤ → ℤ → ListCall C
  lists_remove_range_from : Text → ℤ → ListCall C
  lists_set : Text → ℤ → AeroValue → ListCall C
  lists_set_order : Text → ListOrder → ListCall C
  lists_size : Text → ListCall C
  lists_sort : Text → C.SortFlags → ListCall C
  lists_trim : Text → ℤ → ℤ → ListCall C

pub record Operation (C : Crate) : Type 0 where
  pub call : ListCall C
  pub context : List C.Context

abbrev pub last_with : {A : Type 0} → (A → A) → A → List A → List A
last_with f x [] = f x ∷ []
last_with f x (y ∷ ys) = x ∷ last_with f y ys

module _ (C : Crate) where
  open C use {Zval, Context, ListPolicy}

  -- `ctx_arg`.
  unfoldable pub ctx_arg : Option Zval → PhpResult (Option (List Context))
  unfolding opt_list_arg
  ctx_arg ctx =
      opt_list_arg C.is_null C.array C.to_context ctx "$ctx"
        "a Context or an array of Context objects"

  unfoldable pub return_arg : Option Zval → PhpResult (Option ℤ)
  unfolding opt_arg
  return_arg return_type =
      opt_arg C.is_null C.to_return return_type "$return_type" "a ListReturnType"

  unfoldable pub list_return : Option ℤ → ℤ
  list_return none = C.return_values
  list_return (some rt) = rt

  -- `.into()`; an exception that it leaves pending is not followed here.
  abbrev pub aero : PhpValue → AeroValue
  aero v = (to_aero C.values v).0

  unfoldable pub end_value : Option PhpValue → AeroValue
  end_value none = AeroValue.nil
  end_value (some v) = aero v

  -- `php_values_to_aero`.
  unfoldable pub php_values_to_aero : List PhpValue → List AeroValue
  php_values_to_aero = map aero

  -- `with_ctx`, of an operation that was just built.
  unfoldable pub with_ctx : ListCall C → Option (List Context) → Operation C
  with_ctx call none = record { call = call; context = [] }
  with_ctx call (some []) = record { call = call; context = [] }
  with_ctx call (some (c ∷ cs)) = record { call = call; context = c ∷ cs }

  -- `ctx_to_aero`.
  unfoldable pub ctx_to_aero : Option (List Context) → List Context
  ctx_to_aero none = []
  ctx_to_aero (some cs) = cs

  -- `cdt_create`, of an operation that was just built.
  unfoldable pub cdt_create : ListCall C → List Context → ℕ → Operation C
  cdt_create set_order [] flag = record { call = set_order; context = [] }
  cdt_create set_order (c ∷ cs) flag = record {
    call = set_order;
    context = last_with (C.or_flags flag) c cs;
  }

  abbrev pub has_context : Option (List Context) → Bool
  has_context none = false
  has_context (some []) = false
  has_context (some (c ∷ cs)) = true

  abbrev pub create_flag : ListOrder → Bool → ℕ
  create_flag ordered pad = 0xc0
  create_flag unordered true = 0x80
  create_flag unordered false = 0x40

  abbrev pub or_false : Option Bool → Bool
  or_false none = false
  or_false (some b) = b

  unfoldable pub created :
      Text → ListOrder → Bool → Bool → Option (List Context) → PhpResult (Operation C)
  unfolding cdt_create ctx_to_aero with_ctx
  created bin_name order pad false c =
      returned (
        cdt_create (ListCall.lists_set_order bin_name order) (ctx_to_aero c)
          (create_flag order pad))
  created bin_name order pad true c =
      if has_context c
      then threw (
          list_op
            "ListOp::create: a persisted index applies to the bin itself and cannot be combined with ctx")
      else if pad
      then threw (list_op "ListOp::create: pad is not supported together with a persisted index")
      else returned (with_ctx (ListCall.lists_create_with_index bin_name order) none)

  unfoldable pub create :
      Text → ListOrder → Bool → Option Bool → Option Zval → PhpResult (Operation C)
  unfolding ctx_arg created
  create bin_name order pad index ctx =
      ctx_arg ctx >>= λ c. created bin_name order pad (or_false index) c

  abbrev pub not_empty :
      String → List PhpValue → (List PhpValue → Operation C) → PhpResult (Operation C)
  not_empty message [] op = threw (list_op message)
  not_empty message (v ∷ vs) op = returned (op (v ∷ vs))

  unfoldable pub append : ListPolicy → Text → List PhpValue → Option Zval → PhpResult (Operation C)
  unfolding ctx_arg with_ctx php_values_to_aero
  append policy bin_name values ctx = ctx_arg ctx >>= λ c.
      not_empty "ListOp::append requires a non-empty values array" values
        (λ vs. with_ctx (ListCall.lists_append_items policy bin_name (php_values_to_aero vs)) c)

  unfoldable pub insert :
      ListPolicy → Text → ℤ → List PhpValue → Option Zval → PhpResult (Operation C)
  unfolding ctx_arg with_ctx php_values_to_aero
  insert policy bin_name index values ctx = ctx_arg ctx >>= λ c.
      not_empty "ListOp::insert requires a non-empty values array" values (λ vs.
        with_ctx (ListCall.lists_insert_items policy bin_name index (php_values_to_aero vs)) c)

  abbrev pub not_nil : AeroValue → (AeroValue → Operation C) → PhpResult (Operation C)
  not_nil AeroValue.nil op = threw (list_op "ListOp::set requires a non-null value")
  not_nil v op = returned (op v)

  unfoldable pub set : Text → ℤ → PhpValue → Option Zval → PhpResult (Operation C)
  unfolding ctx_arg with_ctx to_aero
  set bin_name index value ctx = ctx_arg ctx >>= λ c.
      not_nil (aero value) (λ v. with_ctx (ListCall.lists_set bin_name index v) c)
