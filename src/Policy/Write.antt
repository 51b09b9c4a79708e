-- ===== src/Policy/Write.antt =====
-- `WritePolicy` of lib.rs.
use aerospike_php_client.Common.{ℕ, ◌≡◌, refl, ap, none, some, Bool}
use aerospike_php_client.Php.{PhpResult, returned}
use aerospike_php_client.Ini.{Ini, ini_long_positive, write_timeout}
use aerospike_php_client.Ttl.{AeroExpiration}
use aerospike_php_client.Policy.{Crate}
use aerospike_php_client.Policy.Base.{
  BasePolicy, BaseSetter, base_set, BaseView, base_view, IsBaseCall, base_call, base_set-reads,
}

pub record WritePolicy (K : Crate) : Type 0 where
  pub base_policy : BasePolicy K
  pub record_exists_action : K.exists_action
  pub generation_policy : K.generation_policy
  pub commit_level : K.commit_level
  pub generation : ℕ
  pub expiration : AeroExpiration
  pub respond_per_each_op : Bool
  pub durable_delete : Bool
  pub send_key : Bool

module _ {K : Crate} where
  -- `WritePolicy::__construct` on thread `tid`, from the client library's default.
  unfoldable pub construct : WritePolicy K → ℕ → Ini → WritePolicy K
  unfolding ini_long_positive
  construct default tid ini = elim (ini_long_positive tid write_timeout ini) [
    | none ↦ default
    | some v ↦ record default { base_policy = record (default.base_policy) { total_timeout = v } }
  ]

  unfoldable pub get_record_exists_action : WritePolicy K → K.exists_action
  get_record_exists_action p = p.record_exists_action

  unfoldable pub set_record_exists_action : K.exists_action → WritePolicy K → WritePolicy K
  set_record_exists_action record_exists_action p = record p {
    record_exists_action = record_exists_action;
  }

  unfoldable pub get_generation_policy : WritePolicy K → K.generation_policy
  get_generation_policy p = p.generation_policy

  unfoldable pub set_generation_policy : K.generation_policy → WritePolicy K → WritePolicy K
  set_generation_policy generation_policy p = record p { generation_policy = generation_policy }

  unfoldable pub get_commit_level : WritePolicy K → K.commit_level
  get_commit_level p = p.commit_level

  unfoldable pub set_commit_level : K.commit_level → WritePolicy K → WritePolicy K
  set_commit_level commit_level p = record p { commit_level = commit_level }

  unfoldable pub get_generation : WritePolicy K → ℕ
  get_generation p = p.generation

  unfoldable pub set_generation : ℕ → WritePolicy K → WritePolicy K
  set_generation generation p = record p { generation = generation }

  unfoldable pub get_expiration : WritePolicy K → AeroExpiration
  get_expiration p = p.expiration

  unfoldable pub set_expiration : AeroExpiration → WritePolicy K → WritePolicy K
  set_expiration expiration p = record p { expiration = expiration }

  unfoldable pub get_respond_per_each_op : WritePolicy K → Bool
  get_respond_per_each_op p = p.respond_per_each_op

  unfoldable pub set_respond_per_each_op : Bool → WritePolicy K → WritePolicy K
  set_respond_per_each_op respond_per_each_op p = record p {
    respond_per_each_op = respond_per_each_op;
  }

  unfoldable pub get_durable_delete : WritePolicy K → Bool
  get_durable_delete p = p.durable_delete

  unfoldable pub set_durable_delete : Bool → WritePolicy K → WritePolicy K
  set_durable_delete durable_delete p = record p { durable_delete = durable_delete }

  unfoldable pub get_send_key : WritePolicy K → Bool
  get_send_key p = p.send_key

  unfoldable pub set_send_key : Bool → WritePolicy K → WritePolicy K
  set_send_key send_key p = record p { send_key = send_key }

-- One call of a setter.
pub data WriteSetter (K : Crate) : Type 0 where
  base : BaseSetter K → WriteSetter K
  record_exists_action : K.exists_action → WriteSetter K
  generation_policy : K.generation_policy → WriteSetter K
  commit_level : K.commit_level → WriteSetter K
  generation : ℕ → WriteSetter K
  expiration : AeroExpiration → WriteSetter K
  respond_per_each_op : Bool → WriteSetter K
  durable_delete : Bool → WriteSetter K
  send_key : Bool → WriteSetter K

abbrev on_base :
    {K : Crate}
    → WritePolicy K
    → BasePolicy K × PhpResult (Unit {0})
    → WritePolicy K × PhpResult (Unit {0})
on_base p (b, r) = (record p { base_policy = b }, r)

unfoldable pub write_set :
    {K : Crate} → WriteSetter K → WritePolicy K → WritePolicy K × PhpResult (Unit {0})
unfolding set_record_exists_action set_generation_policy set_commit_level set_generation
    set_expiration set_respond_per_each_op set_durable_delete set_send_key
write_set (WriteSetter.base s) p = on_base p (base_set s p.base_policy)
write_set (WriteSetter.record_exists_action a) p = (set_record_exists_action a p, returned tt)
write_set (WriteSetter.generation_policy g) p = (set_generation_policy g p, returned tt)
write_set (WriteSetter.commit_level l) p = (set_commit_level l p, returned tt)
write_set (WriteSetter.generation n) p = (set_generation n p, returned tt)
write_set (WriteSetter.expiration e) p = (set_expiration e p, returned tt)
write_set (WriteSetter.respond_per_each_op b) p = (set_respond_per_each_op b p, returned tt)
write_set (WriteSetter.durable_delete b) p = (set_durable_delete b p, returned tt)
write_set (WriteSetter.send_key b) p = (set_send_key b p, returned tt)

-- What PHP can read of a write policy.
pub record WriteView (K : Crate) : Type 0 where
  pub base : BaseView K
  pub action : K.exists_action
  pub policy : K.generation_policy
  pub level : K.commit_level
  pub count : ℕ
  pub expires : AeroExpiration
  pub responds : Bool
  pub durable : Bool
  pub key_sent : Bool

unfoldable pub write_view : {K : Crate} → WritePolicy K → WriteView K
unfolding get_record_exists_action get_generation_policy get_commit_level get_generation
    get_expiration get_respond_per_each_op get_durable_delete get_send_key
write_view p = record {
  base = base_view p.base_policy;
  action = get_record_exists_action p;
  policy = get_generation_policy p;
  level = get_commit_level p;
  count = get_generation p;
  expires = get_expiration p;
  responds = get_respond_per_each_op p;
  durable = get_durable_delete p;
  key_sent = get_send_key p;
}

abbrev pub IsWriteCall : {K : Crate} → WriteSetter K → Type 0
IsWriteCall (WriteSetter.base s) = IsBaseCall s
IsWriteCall _ = Unit

abbrev in_base :
    {K : Crate}
    → WriteView K
    → BaseView K × PhpResult (Unit {0})
    → WriteView K × PhpResult (Unit {0})
in_base v (b, r) = (record v { base = b }, r)

abbrev pub write_call :
    {K : Crate} → WriteSetter K → WriteView K → WriteView K × PhpResult (Unit {0})
write_call (WriteSetter.base s) v = in_base v (base_call s v.base)
write_call (WriteSetter.record_exists_action a) v = (record v { action = a }, returned tt)
write_call (WriteSetter.generation_policy g) v = (record v { policy = g }, returned tt)
write_call (WriteSetter.commit_level l) v = (record v { level = l }, returned tt)
write_call (WriteSetter.generation n) v = (record v { count = n }, returned tt)
write_call (WriteSetter.expiration e) v = (record v { expires = e }, returned tt)
write_call (WriteSetter.respond_per_each_op b) v = (record v { responds = b }, returned tt)
write_call (WriteSetter.durable_delete b) v = (record v { durable = b }, returned tt)
write_call (WriteSetter.send_key b) v = (record v { key_sent = b }, returned tt)

abbrev pub write_seen :
    {K : Crate} → WritePolicy K × PhpResult (Unit {0}) → WriteView K × PhpResult (Unit {0})
write_seen (p, r) = (write_view p, r)

-- A write policy behaves as a record of its readings: after any setter, the base's among them,
-- called as PHP can call it, PHP reads that setter's value there and every other reading
-- unchanged, and after a setter that throws all of them.
pub write_set-reads :
    {K : Crate} (s : WriteSetter K) (p : WritePolicy K)
    → IsWriteCall s
    → write_seen (write_set s p) ≡ write_call s (write_view p)
unfolding write_set write_view
write_set-reads (WriteSetter.base s) p h =
    ap (in_base (write_view p)) (base_set-reads s p.base_policy h)
write_set-reads (WriteSetter.record_exists_action a) p h = refl
write_set-reads (WriteSetter.generation_policy g) p h = refl
write_set-reads (WriteSetter.commit_level l) p h = refl
write_set-reads (WriteSetter.generation n) p h = refl
write_set-reads (WriteSetter.expiration e) p h = refl
write_set-reads (WriteSetter.respond_per_each_op b) p h = refl
write_set-reads (WriteSetter.durable_delete b) p h = refl
write_set-reads (WriteSetter.send_key b) p h = refl
