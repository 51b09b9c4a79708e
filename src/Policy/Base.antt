-- ===== src/Policy/Base.antt =====
-- The accessors that `php_policy_impl!` of lib.rs gives every policy class. `filter_in` is the base
-- policy in all of them but `BatchPolicy`, whose filter stands in the policy itself (Batch/Policy).
use Prim.Native.String.{String}
use aerospike_php_client.Common.{
  ℕ, ◌≤◌, ◌≡◌, refl, Option, none, some, arith, Bool-cases, inl, inr, leb, Option-cases,
  if◌then◌else◌,
}
use aerospike_php_client.Common.Int.{u32_max}
use aerospike_php_client.Php.{PhpResult, returned, threw, exceeds_u32, invalid_arg}
use aerospike_php_client.Ttl.{ReadTouchTtl}
use aerospike_php_client.Policy.{Crate, millis_u64_to_u32, opt_arg, converted, assign, as_u32}

-- The fields of `aero::policy::BasePolicy` that the classes read and write.
pub record BasePolicy (K : Crate) : Type 0 where
  pub max_retries : ℕ
  pub total_timeout : ℕ
  pub socket_timeout : ℕ
  pub consistency_level : K.level
  pub sleep_between_retries : ℕ
  pub timeout_delay : ℕ
  pub filter_expression : Option K.filter
  pub read_touch_ttl : ReadTouchTtl

module _ {K : Crate} where
  unfoldable pub get_max_retries : BasePolicy K → ℕ
  get_max_retries p = as_u32 p.max_retries

  unfoldable pub set_max_retries : ℕ → BasePolicy K → BasePolicy K × PhpResult (Unit {0})
  set_max_retries max_retries p = (record p { max_retries = max_retries }, returned tt)

  unfoldable pub get_total_timeout : BasePolicy K → ℕ
  get_total_timeout p = p.total_timeout

  unfoldable pub set_total_timeout : ℕ → BasePolicy K → BasePolicy K × PhpResult (Unit {0})
  unfolding millis_u64_to_u32
  set_total_timeout timeout_millis p =
      assign (λ v. record p { total_timeout = v }) p
        (millis_u64_to_u32 timeout_millis "total_timeout")

  unfoldable pub get_socket_timeout : BasePolicy K → ℕ
  get_socket_timeout p = p.socket_timeout

  unfoldable pub set_socket_timeout : ℕ → BasePolicy K → BasePolicy K × PhpResult (Unit {0})
  unfolding millis_u64_to_u32
  set_socket_timeout timeout_millis p =
      assign (λ v. record p { socket_timeout = v }) p
        (millis_u64_to_u32 timeout_millis "socket_timeout")

  unfoldable pub get_read_mode_ap : BasePolicy K → K.level
  get_read_mode_ap p = p.consistency_level

  unfoldable pub set_read_mode_ap : K.level → BasePolicy K → BasePolicy K × PhpResult (Unit {0})
  set_read_mode_ap read_mode_ap p = (record p { consistency_level = read_mode_ap }, returned tt)

  unfoldable pub get_sleep_between_retries : BasePolicy K → ℕ
  get_sleep_between_retries p = p.sleep_between_retries

  unfoldable pub set_sleep_between_retries : ℕ → BasePolicy K → BasePolicy K × PhpResult (Unit {0})
  unfolding millis_u64_to_u32
  set_sleep_between_retries sleep_millis p =
      assign (λ v. record p { sleep_between_retries = v }) p
        (millis_u64_to_u32 sleep_millis "sleep_between_retries")

  unfoldable pub get_timeout_delay : BasePolicy K → ℕ
  get_timeout_delay p = p.timeout_delay

  unfoldable pub set_timeout_delay : ℕ → BasePolicy K → BasePolicy K × PhpResult (Unit {0})
  unfolding millis_u64_to_u32
  set_timeout_delay delay_millis p =
      assign (λ v. record p { timeout_delay = v }) p
        (millis_u64_to_u32 delay_millis "timeout_delay")

  unfoldable pub get_filter_expression : BasePolicy K → Option K.filter
  get_filter_expression p = p.filter_expression

  unfoldable pub set_filter_expression :
      Option K.zval → BasePolicy K → BasePolicy K × PhpResult (Unit {0})
  unfolding opt_arg
  set_filter_expression filter_expression p =
      assign (λ v. record p { filter_expression = v }) p
        (opt_arg K.is_null K.expression filter_expression "$filter_expression" "an Expression")

-- One call of a setter.
pub data BaseSetter (K : Crate) : Type 0 where
  max_retries : ℕ → BaseSetter K
  total_timeout : ℕ → BaseSetter K
  socket_timeout : ℕ → BaseSetter K
  read_mode_ap : K.level → BaseSetter K
  sleep_between_retries : ℕ → BaseSetter K
  timeout_delay : ℕ → BaseSetter K
  filter_expression : Option K.zval → BaseSetter K

unfoldable pub base_set :
    {K : Crate} → BaseSetter K → BasePolicy K → BasePolicy K × PhpResult (Unit {0})
unfolding set_max_retries set_total_timeout set_socket_timeout set_read_mode_ap
    set_sleep_between_retries set_timeout_delay set_filter_expression
base_set (BaseSetter.max_retries n) p = set_max_retries n p
base_set (BaseSetter.total_timeout n) p = set_total_timeout n p
base_set (BaseSetter.socket_timeout n) p = set_socket_timeout n p
base_set (BaseSetter.read_mode_ap l) p = set_read_mode_ap l p
base_set (BaseSetter.sleep_between_retries n) p = set_sleep_between_retries n p
base_set (BaseSetter.timeout_delay n) p = set_timeout_delay n p
base_set (BaseSetter.filter_expression z) p = set_filter_expression z p

-- What PHP can read of a policy.
pub record BaseView (K : Crate) : Type 0 where
  pub retries : ℕ
  pub total : ℕ
  pub socket : ℕ
  pub mode : K.level
  pub sleep : ℕ
  pub delay : ℕ
  pub filter : Option K.filter

unfoldable pub base_view : {K : Crate} → BasePolicy K → BaseView K
unfolding get_max_retries get_total_timeout get_socket_timeout get_read_mode_ap
    get_sleep_between_retries get_timeout_delay get_filter_expression
base_view p = record {
  retries = get_max_retries p;
  total = get_total_timeout p;
  socket = get_socket_timeout p;
  mode = get_read_mode_ap p;
  sleep = get_sleep_between_retries p;
  delay = get_timeout_delay p;
  filter = get_filter_expression p;
}

-- The arguments that PHP can pass: `setMaxRetries` takes a `u32`.
abbrev pub IsBaseCall : {K : Crate} → BaseSetter K → Type 0
IsBaseCall (BaseSetter.max_retries n) = n ≤ u32_max
IsBaseCall _ = Unit

-- A setter of milliseconds: `put` is what can be read of a value that fits.
abbrev millis_call : {V : Type 0} → String → ℕ → (ℕ → V) → V → V × PhpResult (Unit {0})
millis_call what n put old =
    if leb n u32_max then (put n, returned tt) else (old, threw (exceeds_u32 what n))

abbrev filter_call :
    {K : Crate}
    → Option K.zval
    → (Option K.filter → BaseView K)
    → BaseView K
    → BaseView K × PhpResult (Unit {0})
filter_call none put old = (put none, returned tt)
filter_call {K} (some z) put old =
    if K.is_null z then (put none, returned tt) else elim (K.expression z) [
      | none ↦ (old, threw (invalid_arg "$filter_expression" "an Expression"))
      | some f ↦ (put (some f), returned tt)
    ]

-- A policy as a record of what is read of it: a setter changes its own reading or, when it throws,
-- none.
abbrev pub base_call : {K : Crate} → BaseSetter K → BaseView K → BaseView K × PhpResult (Unit {0})
base_call (BaseSetter.max_retries n) v = (record v { retries = n }, returned tt)
base_call (BaseSetter.total_timeout n) v =
    millis_call "total_timeout" n (λ m. record v { total = m }) v
base_call (BaseSetter.socket_timeout n) v =
    millis_call "socket_timeout" n (λ m. record v { socket = m }) v
base_call (BaseSetter.read_mode_ap l) v = (record v { mode = l }, returned tt)
base_call (BaseSetter.sleep_between_retries n) v =
    millis_call "sleep_between_retries" n (λ m. record v { sleep = m }) v
base_call (BaseSetter.timeout_delay n) v =
    millis_call "timeout_delay" n (λ m. record v { delay = m }) v
base_call (BaseSetter.filter_expression z) v = filter_call z (λ f. record v { filter = f }) v

abbrev pub viewed :
    {K : Crate} → BasePolicy K × PhpResult (Unit {0}) → BaseView K × PhpResult (Unit {0})
viewed (p, r) = (base_view p, r)

pub as_u32-fits : (n : ℕ) → n ≤ u32_max → as_u32 n ≡ n
as_u32-fits n h = omega (arith, h)

-- Every accessor pair of a policy's base behaves as one field of a record of readings: after any
-- setter, called as PHP can call it, PHP reads that setter's value there and every other reading
-- unchanged, and after a setter that throws all of them.
pub base_set-reads :
    {K : Crate} (s : BaseSetter K) (p : BasePolicy K)
    → IsBaseCall s
    → viewed (base_set s p) ≡ base_call s (base_view p)
unfolding base_set base_view
base_set-reads (BaseSetter.max_retries n) p h = rw (as_u32-fits n h) refl
base_set-reads (BaseSetter.total_timeout n) p h = elim (Bool-cases (leb n u32_max)) [
  | inl fits ↦ rw fits refl
  | inr big ↦ rw big refl
]
base_set-reads (BaseSetter.socket_timeout n) p h = elim (Bool-cases (leb n u32_max)) [
  | inl fits ↦ rw fits refl
  | inr big ↦ rw big refl
]
base_set-reads (BaseSetter.read_mode_ap l) p h = refl
base_set-reads (BaseSetter.sleep_between_retries n) p h = elim (Bool-cases (leb n u32_max)) [
  | inl fits ↦ rw fits refl
  | inr big ↦ rw big refl
]
base_set-reads (BaseSetter.timeout_delay n) p h = elim (Bool-cases (leb n u32_max)) [
  | inl fits ↦ rw fits refl
  | inr big ↦ rw big refl
]
base_set-reads (BaseSetter.filter_expression none) p h = refl
base_set-reads {K} (BaseSetter.filter_expression (some z)) p h = elim (Bool-cases (K.is_null z)) [
  | inl null ↦ rw null refl
  | inr given ↦ elim (Option-cases (K.expression z)) [
    | inl bad ↦ rw (given, bad, converted, opt_arg) refl
    | inr (f, good) ↦ rw (given, good, converted, opt_arg) refl
  ]
]
