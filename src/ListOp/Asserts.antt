-- ===== src/ListOp/Asserts.antt =====
-- What the builders of the crate assert, and `ListOp` of lib.rs checks before it calls them.
use aerospike_php_client.Common.{◌≡◌, refl, sym, subst, List, [], ◌∷◌, Option, none, some}
use aerospike_php_client.Common.Int.{ℤ}
use aerospike_php_client.Common.Text.{Text}
use aerospike_php_client.Php.{PhpResult, returned, threw, ◌>>=◌}
use aerospike_php_client.Values.Value.{PhpValue}
use aerospike_php_client.Values.Aero.{AeroValue}
use aerospike_php_client.ListOp.{
  Crate, ListCall, Operation, ctx_arg, aero, with_ctx, php_values_to_aero, not_nil, append, insert,
  set,
}

module _ (C : Crate) where
  -- No empty list is appended or inserted, and no nil is set.
  abbrev pub IsAsserted : ListCall C → Type 0
  IsAsserted (ListCall.lists_append_items policy bin_name []) = ⊥
  IsAsserted (ListCall.lists_insert_items policy bin_name index []) = ⊥
  IsAsserted (ListCall.lists_set bin_name index AeroValue.nil) = ⊥
  IsAsserted _ = Unit

  abbrev pub Passes : PhpResult (Operation C) → Type 0
  Passes (returned op) = IsAsserted op.call
  Passes (threw e) = Unit

  bind-Passes :
      {A : Type 0} (r : PhpResult A) (f : A → PhpResult (Operation C))
      → ((a : A) → Passes (f a))
      → Passes (r >>= f)
  bind-Passes (returned a) f h = h a
  bind-Passes (threw e) f h = tt

  with_ctx-call : (l : ListCall C) (c : Option (List C.Context)) → (with_ctx C l c).call ≡ l
  unfolding with_ctx
  with_ctx-call l none = refl
  with_ctx-call l (some []) = refl
  with_ctx-call l (some (c ∷ cs)) = refl

  -- `ListOp::append` never hands the crate an empty list: whatever it is given, it throws or appends at
  -- least one value.
  pub append-Passes :
      (policy : C.ListPolicy) (bin_name : Text) (values : List PhpValue) (ctx : Option C.Zval)
      → Passes (append C policy bin_name values ctx)
  unfolding append php_values_to_aero
  append-Passes policy bin_name [] ctx = bind-Passes (ctx_arg C ctx) _ (λ c. tt)
  append-Passes policy bin_name (v ∷ vs) ctx =
      bind-Passes (ctx_arg C ctx) _ (λ c. subst IsAsserted (sym (with_ctx-call _ c)) tt)

  not_nil-Passes :
      (bin_name : Text) (index : ℤ) (v : AeroValue) (c : Option (List C.Context))
      → Passes (not_nil C v (λ w. with_ctx C (ListCall.lists_set bin_name index w) c))
  not_nil-Passes bin_name index AeroValue.nil c = tt
  not_nil-Passes bin_name index v c =
      subst IsAsserted (sym (with_ctx-call (ListCall.lists_set bin_name index v) c)) tt

  -- `ListOp::set` never hands the crate a nil, also not for an unsigned integer that does not fit.
  pub set-Passes :
      (bin_name : Text) (index : ℤ) (value : PhpValue) (ctx : Option C.Zval)
      → Passes (set C bin_name index value ctx)
  unfolding set
  set-Passes bin_name index value ctx =
      bind-Passes (ctx_arg C ctx) _ (λ c. not_nil-Passes bin_name index (aero C value) c)

  -- Nor does `ListOp::insert` an empty list.
  pub insert-Passes :
      (policy : C.ListPolicy) (bin_name : Text) (index : ℤ) (values : List PhpValue)
      (ctx : Option C.Zval)
      → Passes (insert C policy bin_name index values ctx)
  unfolding insert php_values_to_aero
  insert-Passes policy bin_name index [] ctx = bind-Passes (ctx_arg C ctx) _ (λ c. tt)
  insert-Passes policy bin_name index (v ∷ vs) ctx =
      bind-Passes (ctx_arg C ctx) _ (λ c. subst IsAsserted (sym (with_ctx-call _ c)) tt)
