-- ===== src/Filter.antt =====
-- `Filter` of lib.rs: the constructors with the checks of their arguments. The crate's filters and the
-- conversion of PHP arguments are `Crate`.
pub mod Particles
use Prim.Native.String.{String}
use aerospike_php_client.Common.{ℕ, Bool, List, [], ◌∷◌, Option, none, some}
use aerospike_php_client.Common.Text.{Text}
use aerospike_php_client.Php.{PhpResult, returned, threw, ◌>>=◌, filter_type}
use aerospike_php_client.Policy.{opt_arg}
use aerospike_php_client.Statement.{opt_list_arg}
use aerospike_php_client.Values.Value.{PhpValue}
use aerospike_php_client.Values.Aero.{AeroValue}
use aerospike_php_client.Values.Store
use aerospike_php_client.Values.Store.{to_aero}

pub record Crate : Type 1 where
  pub Filter : Type 0
  pub Context : Type 0
  pub CollectionIndexType : Type 0
  pub Zval : Type 0
  -- `Zval::is_null`, `Zval::array` and the two `from_zval` behind `Zval::dereference`.
  pub is_null : Zval → Bool
  pub array : Zval → Option (List Zval)
  pub to_context : Zval → Option Context
  pub to_collection : Zval → Option CollectionIndexType
  -- `IndexCollectionType::Default()`.
  pub default_collection : CollectionIndexType
  pub values : Store.Crate
  pub equal : Text → AeroValue → Filter
  pub range : Text → AeroValue → AeroValue → Filter
  pub contains : Text → AeroValue → CollectionIndexType → Filter
  pub contains_range : Text → AeroValue → AeroValue → CollectionIndexType → Filter
  pub geo_within_region_cit : Text → Text → CollectionIndexType → Filter
  pub geo_within_radius_cit : Text → ℕ → ℕ → ℕ → CollectionIndexType → Filter
  pub geo_contains_cit : Text → Text → CollectionIndexType → Filter
  pub context : List Context → Filter → Filter
  -- The GeoJSON of a point, by longitude and latitude with eight digits.
  pub point : ℕ → ℕ → Text

-- `aero_value_type_name`.
unfoldable pub aero_value_type_name : AeroValue → String
aero_value_type_name AeroValue.nil = "null"
aero_value_type_name (AeroValue.bool b) = "bool"
aero_value_type_name (AeroValue.int i) = "int"
aero_value_type_name (AeroValue.float f) = "float"
aero_value_type_name (AeroValue.string s) = "string"
aero_value_type_name (AeroValue.blob b) = "blob"
aero_value_type_name (AeroValue.list l) = "list"
aero_value_type_name (AeroValue.multi_result l) = "list"
aero_value_type_name (AeroValue.hash_map m) = "map"
aero_value_type_name (AeroValue.ordered_map m) = "map"
aero_value_type_name (AeroValue.key_value_list m) = "map"
aero_value_type_name (AeroValue.geo_json s) = "GeoJSON"
aero_value_type_name (AeroValue.hll b) = "HLL"
aero_value_type_name AeroValue.infinity = "Infinity"
aero_value_type_name AeroValue.wildcard = "Wildcard"

-- The match in `filter_value`.
unfoldable pub checked_value : String → AeroValue → PhpResult AeroValue
unfolding aero_value_type_name
checked_value arg (AeroValue.int i) = returned (AeroValue.int i)
checked_value arg (AeroValue.string s) = returned (AeroValue.string s)
checked_value arg (AeroValue.blob b) = returned (AeroValue.blob b)
checked_value arg other = threw (filter_type arg (aero_value_type_name other))

module _ (C : Crate) where
  open C use {Filter, Context, CollectionIndexType, Zval}

  -- `filter_with_ctx`.
  unfoldable pub filter_with_ctx : Filter → Option (List Context) → Filter
  filter_with_ctx f none = f
  filter_with_ctx f (some []) = f
  filter_with_ctx f (some (c ∷ cs)) = C.context (c ∷ cs) f

  -- `filter_value`; the exception that the conversion may have left pending is behind the one thrown here.
  unfoldable pub filter_value : PhpValue → String → PhpResult AeroValue
  unfolding to_aero checked_value
  filter_value value arg = checked_value arg (to_aero C.values value).0

  -- `ctx_arg`.
  unfoldable pub ctx_arg : Option Zval → PhpResult (Option (List Context))
  unfolding opt_list_arg
  ctx_arg ctx =
      opt_list_arg C.is_null C.array C.to_context ctx "$ctx"
        "a Context or an array of Context objects"

  abbrev pub or_default : Option CollectionIndexType → CollectionIndexType
  or_default none = C.default_collection
  or_default (some cit) = cit

  unfoldable pub cit_arg : Option Zval → PhpResult CollectionIndexType
  unfolding opt_arg
  cit_arg cit = opt_arg C.is_null C.to_collection cit "$cit" "an IndexCollectionType" >>= λ c.
      returned (or_default c)

  unfoldable pub equal : Text → PhpValue → Option Zval → PhpResult Filter
  unfolding filter_with_ctx filter_value ctx_arg
  equal bin_name value ctx = ctx_arg ctx >>= λ c.
      filter_value value "value" >>= λ v. returned (filter_with_ctx (C.equal bin_name v) c)

  unfoldable pub range : Text → PhpValue → PhpValue → Option Zval → PhpResult Filter
  unfolding filter_with_ctx filter_value ctx_arg
  range bin_name begin finish ctx = ctx_arg ctx >>= λ c. filter_value begin "begin" >>= λ b.
      filter_value finish "end" >>= λ e. returned (filter_with_ctx (C.range bin_name b e) c)

  unfoldable pub contains : Text → PhpValue → Option Zval → Option Zval → PhpResult Filter
  unfolding filter_with_ctx filter_value ctx_arg cit_arg
  contains bin_name value cit ctx = cit_arg cit >>= λ t. ctx_arg ctx >>= λ c.
      filter_value value "value" >>= λ v. returned (filter_with_ctx (C.contains bin_name v t) c)

  unfoldable pub contains_range :
      Text → PhpValue → PhpValue → Option Zval → Option Zval → PhpResult Filter
  unfolding filter_with_ctx filter_value ctx_arg cit_arg
  contains_range bin_name begin finish cit ctx = cit_arg cit >>= λ t. ctx_arg ctx >>= λ c.
      filter_value begin "begin" >>= λ b. filter_value finish "end" >>= λ e.
      returned (filter_with_ctx (C.contains_range bin_name b e t) c)

  unfoldable pub within_region : Text → Text → Option Zval → Option Zval → PhpResult Filter
  unfolding filter_with_ctx ctx_arg cit_arg
  within_region bin_name region cit ctx = cit_arg cit >>= λ t.
      ctx_arg ctx >>= λ c. returned (filter_with_ctx (C.geo_within_region_cit bin_name region t) c)

  unfoldable pub within_radius : Text → ℕ → ℕ → ℕ → Option Zval → Option Zval → PhpResult Filter
  unfolding filter_with_ctx ctx_arg cit_arg
  within_radius bin_name lat lng radius cit ctx = cit_arg cit >>= λ t. ctx_arg ctx >>= λ c.
      returned (filter_with_ctx (C.geo_within_radius_cit bin_name lng lat radius t) c)

  unfoldable pub regions_containing_point :
      Text → ℕ → ℕ → Option Zval → Option Zval → PhpResult Filter
  unfolding filter_with_ctx ctx_arg cit_arg
  regions_containing_point bin_name lat lng cit ctx = cit_arg cit >>= λ t. ctx_arg ctx >>= λ c.
      returned (filter_with_ctx (C.geo_contains_cit bin_name (C.point lng lat) t) c)
