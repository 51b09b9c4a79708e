-- ===== src/Policy.antt =====
-- The policy classes of lib.rs. What the client library and PHP bring is `Crate`: the types of the
-- values that the policies pass on, and how PHP values convert.
pub mod Base
pub mod Read
pub mod Write
pub mod Query
pub mod Scan
pub mod Cluster
pub mod Fingerprint
pub mod Tests
use Prim.Native.String.{String}
use aerospike_php_client.Common.{
  ℕ, ◌%◌, ◌^◌, Option, none, some, Bool, true, false, leb, ◌==◌, if◌then◌else◌, ◌≡◌, refl, ap,
}
use aerospike_php_client.Common.Int.{u32_max}
use aerospike_php_client.Php.{
  PhpResult, returned, threw, exceeds_u32, must_be_positive, invalid_arg,
}

pub record Crate : Type 1 where
  pub level : Type 0
  pub filter : Type 0
  pub replica : Type 0
  pub exists_action : Type 0
  pub generation_policy : Type 0
  pub commit_level : Type 0
  pub duration : Type 0
  pub zval : Type 0
  -- `Zval::is_null` behind `Zval::dereference`.
  pub is_null : zval → Bool
  -- `Expression::from_zval` behind `Zval::dereference`.
  pub expression : zval → Option filter

-- `millis_u64_to_u32`.
unfoldable pub millis_u64_to_u32 : ℕ → String → PhpResult ℕ
millis_u64_to_u32 millis what =
    if leb millis u32_max then returned millis else threw (exceeds_u32 what millis)

-- `positive_arg`.
unfoldable pub positive_arg : ℕ → String → PhpResult ℕ
positive_arg value what = if value == 0 then threw (must_be_positive what) else returned value

unfoldable pub converted {ℓ} : {A : Type ℓ} → String → String → Option A → PhpResult (Option A)
converted name expected none = threw (invalid_arg name expected)
converted name expected (some x) = returned (some x)

-- `opt_arg`.
unfoldable pub opt_arg :
    {Z A : Type 0} → (Z → Bool) → (Z → Option A) → Option Z → String → String → PhpResult (Option A)
unfolding converted
opt_arg is_null from_zval none name expected = returned none
opt_arg is_null from_zval (some zv) name expected =
    if is_null zv then returned none else converted name expected (from_zval zv)

-- `self.field = value?; Ok(())`, with the assignment as a function.
abbrev pub assign : {S A : Type 0} → (A → S) → S → PhpResult A → S × PhpResult (Unit {0})
assign set self (returned x) = (set x, returned tt)
assign set self (threw e) = (self, threw e)

-- What is read after a call, with what the call gave.
abbrev pub seen : {S V : Type 0} → (S → V) → S × PhpResult (Unit {0}) → V × PhpResult (Unit {0})
seen view (s, r) = (view s, r)

-- An assignment that changes what is read as it should does so also when the value may be refused.
pub seen-assign :
    {S V A : Type 0} (view : S → V) (set : A → S) (call : A → V) (s : S) (r : PhpResult A)
    → ((x : A) → view (set x) ≡ call x)
    → seen view (assign set s r) ≡ assign call (view s) r
seen-assign view set call s (returned x) h = ap (λ v. (v, returned tt)) (h x)
seen-assign view set call s (threw e) h = refl

-- `as u32`.
abbrev pub as_u32 : ℕ → ℕ
as_u32 n = n % 2 ^ 32
