-- ===== src/Ini/Threads.antt =====
-- One thread's directives of lib.rs against another thread's `ini_set`.
use aerospike_php_client.Common.{
  ℕ, suc, ◌<◌, ◌-◌, ◌≡◌, ◌≢◌, ◌⊎◌, inl, inr, refl, Option, none, some, arith, leb, ◌==◌, false,
  Option-cases,
}
use aerospike_php_client.Common.Int.{ℤ, pos}
use aerospike_php_client.Ini.{
  Ini, ZendString, parse_long, set_at, store_long, modify_at, on_modify_long, positive_u32, long_at,
  ini_long_positive, ini_count,
}

store_long-own :
    (tid idx : ℕ) (v : ℤ) (ini : Ini) → (store_long tid idx v ini).thread tid idx ≡ some v
unfolding store_long set_at
store_long-own tid idx v ini = ground arith

store_long-other :
    (tid other idx at : ℕ) (v : ℤ) (ini : Ini)
    → (tid ≢ other) ⊎ (idx ≢ at)
    → (store_long other at v ini).thread tid idx ≡ ini.thread tid idx
unfolding store_long set_at
store_long-other tid other idx at v ini n = ground arith

accepted :
    (tid idx : ℕ) (s : ZendString) (v : ℤ) (ini : Ini)
    → idx < ini_count
    → parse_long s ≡ some v
    → on_modify_long tid (some s) (suc idx) ini ≡ (store_long tid idx v ini, pos 0)
unfolding on_modify_long modify_at
accepted tid idx s v ini h p = rw (p, zero_test, range_test, minus, on_modify_long, modify_at) refl
  where
    zero_test : (suc idx == 0) ≡ false
    zero_test = ground arith

    range_test : leb ini_count (suc idx - 1) ≡ false
    range_test = ground arith

    minus : suc idx - 1 ≡ idx
    minus = omega arith

modified :
    (tid other idx arg : ℕ) (s : Option ZendString) (ini : Ini)
    → (tid ≢ other) ⊎ (suc idx ≢ arg)
    → (on_modify_long other s arg ini).0.thread tid idx ≡ ini.thread tid idx
unfolding on_modify_long modify_at
modified tid other idx arg none ini n = refl
modified tid other idx arg (some s) ini n = elim (Option-cases (parse_long s)) [
  | inl bad ↦ ground arith
  | inr (v, good) ↦ ground (arith, store_long-other tid other idx (arg - 1) v ini)
]

-- A directive in range that is set to a text that parses is accepted, and is read back on the thread
-- that set it: as the number if it is positive and fits in `u32`, and as no override otherwise.
pub on_modify_long-own :
    (tid idx : ℕ) (s : ZendString) (v : ℤ) (ini : Ini)
    → idx < ini_count
    → parse_long s ≡ some v
    → ((on_modify_long tid (some s) (suc idx) ini).1 ≡ pos 0)
      × (ini_long_positive tid idx (on_modify_long tid (some s) (suc idx) ini).0 ≡ positive_u32 v)
unfolding ini_long_positive long_at
on_modify_long-own tid idx s v ini h p =
    rw (accepted tid idx s v ini h p)
      (refl, rw (store_long-own tid idx v ini, ini_long_positive, long_at) refl)

-- A thread that has a value of its own for a directive reads the same of it after any `on_modify_long`
-- on another thread or of another directive, accepted or refused.
pub on_modify_long-other :
    (tid other idx arg : ℕ) (v : ℤ) (s : Option ZendString) (ini : Ini)
    → (tid ≢ other) ⊎ (suc idx ≢ arg)
    → ini.thread tid idx ≡ some v
    → ini_long_positive tid idx (on_modify_long other s arg ini).0 ≡ ini_long_positive tid idx ini
unfolding ini_long_positive long_at
on_modify_long-other tid other idx arg v s ini n h =
    rw (modified tid other idx arg s ini n, h, ini_long_positive, long_at) refl
