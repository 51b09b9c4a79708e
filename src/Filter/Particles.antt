-- ===== src/Filter/Particles.antt =====
-- What `Filter` of lib.rs hands to the crate, which ends the process on a value of any other type.
use Prim.Native.String.{String}
use aerospike_php_client.Common.{◌≡◌, refl}
use aerospike_php_client.Php.{PhpResult, returned, threw, filter_type}
use aerospike_php_client.Values.Aero.{AeroValue}
use aerospike_php_client.Filter.{aero_value_type_name, checked_value}

-- The values whose particles the crate takes for a filter.
abbrev pub IsParticle : AeroValue → Type 0
IsParticle (AeroValue.int i) = Unit
IsParticle (AeroValue.string s) = Unit
IsParticle (AeroValue.blob b) = Unit
IsParticle _ = ⊥

-- The value itself, if the crate takes it, and otherwise an exception that names its type.
abbrev pub Admits : String → AeroValue → PhpResult AeroValue → Type 0
Admits arg v (returned w) = (w ≡ v) × IsParticle v
Admits arg v (threw e) = (e ≡ filter_type arg (aero_value_type_name v)) × (¬ IsParticle v)

-- An integer, a text or a blob passes the check as it is, and any other value throws.
pub checked_value-Admits : (arg : String) (v : AeroValue) → Admits arg v (checked_value arg v)
unfolding checked_value
checked_value-Admits arg (AeroValue.int i) = (refl, tt)
checked_value-Admits arg (AeroValue.string s) = (refl, tt)
checked_value-Admits arg (AeroValue.blob b) = (refl, tt)
checked_value-Admits arg AeroValue.nil = (refl, λ p. p)
checked_value-Admits arg (AeroValue.bool b) = (refl, λ p. p)
checked_value-Admits arg (AeroValue.float f) = (refl, λ p. p)
checked_value-Admits arg (AeroValue.list l) = (refl, λ p. p)
checked_value-Admits arg (AeroValue.multi_result l) = (refl, λ p. p)
checked_value-Admits arg (AeroValue.hash_map m) = (refl, λ p. p)
checked_value-Admits arg (AeroValue.ordered_map m) = (refl, λ p. p)
checked_value-Admits arg (AeroValue.key_value_list m) = (refl, λ p. p)
checked_value-Admits arg (AeroValue.geo_json s) = (refl, λ p. p)
checked_value-Admits arg (AeroValue.hll b) = (refl, λ p. p)
checked_value-Admits arg AeroValue.infinity = (refl, λ p. p)
checked_value-Admits arg AeroValue.wildcard = (refl, λ p. p)
