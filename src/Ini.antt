-- ===== src/Ini.antt =====
-- The php.ini directives of lib.rs: `on_modify_long`, `ini_long_positive`, `max_cached_clients`.
pub mod Threads
pub mod Tests
use aerospike_php_client.Common.{
  ℕ, suc, ◌-◌, [], Option, none, some, Bool, true, false, ◌&&◌, ltb, leb, ◌==◌, if◌then◌else◌,
}
use aerospike_php_client.Common.Int.{ℤ, pos, negsuc, u32_max}
use aerospike_php_client.Common.Text.{Text}
use aerospike_php_client.Hosts.{trim, is_empty}
use aerospike_php_client.Values.NumericKey.{parse_i64}

abbrev pub tend_interval : ℕ
tend_interval = 0

abbrev pub connect_timeout : ℕ
connect_timeout = 1

abbrev pub read_timeout : ℕ
read_timeout = 2

abbrev pub write_timeout : ℕ
write_timeout = 3

abbrev pub max_cached : ℕ
max_cached = 4

abbrev pub worker_threads : ℕ
worker_threads = 5

abbrev pub ini_count : ℕ
ini_count = 6

-- `INI_PROCESS`, and `INI_THREAD` of each thread.
pub record Ini : Type 0 where
  pub process : ℕ → ℤ
  pub thread : ℕ → ℕ → Option ℤ

-- A `zend_string`: its text, or bytes that are not UTF-8.
pub data ZendString : Type 0 where
  utf8 : Text → ZendString
  not_utf8 : ZendString

unfoldable pub parse_long : ZendString → Option ℤ
unfolding trim parse_i64
parse_long not_utf8 = none
parse_long (utf8 s) = if is_empty (trim s) then some (pos 0) else parse_i64 (trim s)

unfoldable pub set_at {ℓ} : {A : Type ℓ} → ℕ → A → (ℕ → A) → ℕ → A
set_at i x f j = if i == j then x else f j

unfoldable pub store_long : ℕ → ℕ → ℤ → Ini → Ini
unfolding set_at
store_long tid idx v ini = record {
  process = set_at idx v ini.process;
  thread = set_at tid (set_at idx (some v) (ini.thread tid)) ini.thread;
}

unfoldable pub modify_at : ℕ → ℕ → ZendString → Ini → Ini × ℤ
unfolding parse_long store_long
modify_at tid idx s ini = elim (parse_long s) [
  | none ↦ (ini, negsuc 0)
  | some v ↦ (store_long tid idx v ini, pos 0)
]

-- `on_modify_long` on thread `tid`; a null pointer is `none`, respectively 0.
unfoldable pub on_modify_long : ℕ → Option ZendString → ℕ → Ini → Ini × ℤ
unfolding modify_at
on_modify_long tid none mh_arg1 ini = (ini, pos 0)
on_modify_long tid (some s) mh_arg1 ini =
    if mh_arg1 == 0
    then (ini, pos 0)
    else if leb ini_count (mh_arg1 - 1)
    then (ini, negsuc 0)
    else modify_at tid (mh_arg1 - 1) s ini

unfoldable pub positive_u32 : ℤ → Option ℕ
positive_u32 (pos n) = if ltb 0 n && leb n u32_max then some n else none
positive_u32 (negsuc n) = none

unfoldable pub long_at : ℕ → ℕ → Ini → ℤ
long_at tid idx ini = elim (ini.thread tid idx) [ none ↦ ini.process idx | some v ↦ v ]

-- `ini_long_positive` on thread `tid`.
unfoldable pub ini_long_positive : ℕ → ℕ → Ini → Option ℕ
unfolding positive_u32 long_at
ini_long_positive tid idx ini = positive_u32 (long_at tid idx ini)

abbrev pub max_cached_clients_default : ℕ
max_cached_clients_default = 8

-- `max_cached_clients`.
unfoldable pub max_cached_clients : ℕ → Ini → ℕ
unfolding ini_long_positive
max_cached_clients tid ini = elim (ini_long_positive tid max_cached ini) [
  | none ↦ max_cached_clients_default
  | some v ↦ v
]
