-- ===== src/Errors/Chains.antt =====
-- What the exception made of an error says, whatever chain of contexts the error comes in
-- (`aero_error_code` and `From<&aero::Error>` of lib.rs).
use Prim.Native.String.{String}
use aerospike_php_client.Common.{
  ◌≡◌, ◌≢◌, refl, ◌↔◌, inl, inr, Bool, false, List, [], ◌∷◌, ◌++◌, Option, none, some, arith, All,
  Option-cases,
}
use aerospike_php_client.Common.Int.{ℤ}
use aerospike_php_client.Errors.Codes
use aerospike_php_client.Errors.Codes.{ResultCode, aero_result_code_to_i32, value, unknown}
use aerospike_php_client.Errors.{
  Error, server_error, batch_error, batch_last_error, udf_bad_response, timeout, chain, other,
  aero_error_code, from_error, or_else,
}

-- The errors that are no chains, a chain's cause before its context.
abbrev pub leaves : Error → List Error
leaves (chain context cause) = leaves cause ++ leaves context
leaves e = e ∷ []

-- What an error that is no chain carries: the server's code with its doubt, or a fixed code.
abbrev pub carried : Error → Option (ℤ × Bool)
carried (server_error rc in_doubt node) = some (aero_result_code_to_i32 rc, in_doubt)
carried (batch_error i rc in_doubt node) = some (aero_result_code_to_i32 rc, in_doubt)
carried (batch_last_error i rc in_doubt node) = some (aero_result_code_to_i32 rc, in_doubt)
carried (udf_bad_response m) = some (value Codes.udf_bad_response, false)
carried (timeout m) = some (value Codes.timeout, false)
carried _ = none

abbrev pub first_carried : List Error → Option (ℤ × Bool)
first_carried [] = none
first_carried (e ∷ es) = or_else (carried e) (first_carried es)

first_carried-append :
    (xs ys : List Error) → first_carried (xs ++ ys) ≡ or_else (first_carried xs) (first_carried ys)
first_carried-append [] ys = refl
first_carried-append (x ∷ xs) ys = ground (arith, first_carried-append xs ys)

-- The code of an error is that of its first leaf that carries one, the causes read before their
-- contexts.
pub error_code-first : (e : Error) → aero_error_code e ≡ first_carried (leaves e)
unfolding aero_error_code
error_code-first (server_error rc d n) = refl
error_code-first (batch_error i rc d n) = refl
error_code-first (batch_last_error i rc d n) = refl
error_code-first (udf_bad_response m) = refl
error_code-first (timeout m) = refl
error_code-first (chain context cause) = rw (
  error_code-first cause,
  error_code-first context,
  first_carried-append (leaves cause) (leaves context),
)
error_code-first (other m) = refl

abbrev pub IsUncoded : Error → Type 0
IsUncoded e = carried e ≡ none

code-ne-common : (rc : ResultCode) → ¬ (aero_result_code_to_i32 rc ≡ value Codes.common_error)
unfolding aero_result_code_to_i32 value
code-ne-common (unknown c) e = cc
code-ne-common _ e = cc

carried-ne-common : (e : Error) {x : ℤ × Bool} → carried e ≡ some x → x.0 ≢ value Codes.common_error
unfolding value
carried-ne-common (server_error rc d n) h q = ground (arith, code-ne-common rc)
carried-ne-common (batch_error i rc d n) h q = ground (arith, code-ne-common rc)
carried-ne-common (batch_last_error i rc d n) h q = ground (arith, code-ne-common rc)
carried-ne-common (udf_bad_response m) h q = ground arith
carried-ne-common (timeout m) h q = ground arith
carried-ne-common (chain context cause) h q = cc
carried-ne-common (other m) h q = cc

first-ne-common :
    (es : List Error) {x : ℤ × Bool} → first_carried es ≡ some x → x.0 ≢ value Codes.common_error
first-ne-common [] h = cc
first-ne-common (e ∷ es) {x} h = elim (Option-cases (carried e)) [
  | inl z ↦ first-ne-common es {x = x} (ground arith)
  | inr (y, s) ↦ carried-ne-common e {x = x} (ground arith)
]

none_iff : (es : List Error) → (first_carried es ≡ none) ↔ All IsUncoded es
none_iff [] = ((λ _. tt), λ _. refl)
none_iff (e ∷ es) = (
  (λ h. (ground arith, (none_iff es).0 (ground arith))),
  λ h. ground (arith, (none_iff es).1 h.1),
)

-- An exception has the code COMMON_ERROR exactly when no leaf of its error carries a code: no known
-- code is lost, however deep the chain, and none is made up.
pub from_error-IsUncoded :
    (display : Error → String) (e : Error)
    → ((from_error display e).code ≡ value Codes.common_error) ↔ All IsUncoded (leaves e)
unfolding from_error
from_error-IsUncoded display e = elim (Option-cases (first_carried (leaves e))) [
  | inl z ↦ ((λ _. (none_iff (leaves e)).0 z), λ _. rw (error_code-first e, z))
  | inr (x, s) ↦ (
    (λ h. absurd (first-ne-common (leaves e) s (ground (arith, error_code-first e)))),
    λ h. cc ((none_iff (leaves e)).1 h, s),
  )
]

-- Contexts wrapped round an error.
abbrev pub wrap : List Error → Error → Error
wrap [] e = e
wrap (c ∷ cs) e = chain c (wrap cs e)

error_code-wrap :
    (cs : List Error) (e : Error) {x : ℤ × Bool}
    → aero_error_code e ≡ some x
    → aero_error_code (wrap cs e) ≡ some x
unfolding aero_error_code
error_code-wrap [] e h = h
error_code-wrap (c ∷ cs) e h = rw (error_code-wrap cs e h)

-- An error that carries a code keeps that code and its doubt under any number of contexts, whatever
-- codes the contexts themselves carry.
pub from_error-wrap :
    (display : Error → String) (cs : List Error) (e : Error) {x : ℤ × Bool}
    → aero_error_code e ≡ some x
    → ((from_error display (wrap cs e)).code ≡ x.0)
      × ((from_error display (wrap cs e)).in_doubt ≡ x.1)
unfolding from_error
from_error-wrap display cs e h = (rw (error_code-wrap cs e h), rw (error_code-wrap cs e h))
