-- ===== src/Statement.antt =====
-- `Statement` and `PartitionStatus` of lib.rs, with the optional arguments that they take. `Convert` is
-- what PHP and ext-php-rs bring: how a PHP value converts.
pub mod Reads
pub mod Tests
use Prim.Native.String.{String}
use aerospike_php_client.Common.{
  ℕ, ◌%◌, ◌^◌, ◌-◌, List, [], ◌∷◌, Option, none, some, Bool, true, false, ltb, leb, ◌&&◌,
  if◌then◌else◌,
}
use aerospike_php_client.Common.Int.{ℤ, pos, negsuc, i64_max}
use aerospike_php_client.Php.{PhpResult, returned, threw, bad_partition, invalid_arg, ◌>>=◌}
use aerospike_php_client.Policy.{opt_arg, assign}

-- The conversions stand behind `Zval::dereference`.
pub record Convert : Type 1 where
  pub zval : Type 0
  pub filter : Type 0
  pub is_null : zval → Bool
  pub array : zval → Option (List zval)
  pub to_filter : zval → Option filter
  pub to_name : zval → Option String

-- `collect::<PhpResult<Vec<T>>>()` of the converted elements.
unfoldable pub convert_all :
    {Z A : Type 0} → (Z → Option A) → String → String → List Z → PhpResult (List A)
convert_all from_zval name expected [] = returned []
convert_all from_zval name expected (z ∷ zs) =
    let rest = convert_all from_zval name expected zs in
    elim (from_zval z) [
      | none ↦ threw (invalid_arg name expected)
      | some x ↦ rest >>= (λ xs. returned (x ∷ xs))
    ]

unfoldable pub convert_one :
    {Z A : Type 0} → (Z → Option A) → String → String → Z → PhpResult (Option (List A))
convert_one from_zval name expected z = elim (from_zval z) [
  | none ↦ threw (invalid_arg name expected)
  | some x ↦ returned (some (x ∷ []))
]

unfoldable pub convert_list :
    {Z A : Type 0}
    → (Z → Option (List Z))
    → (Z → Option A)
    → String
    → String
    → Z
    → PhpResult (Option (List A))
unfolding convert_all convert_one
convert_list array from_zval name expected z = elim (array z) [
  | none ↦ convert_one from_zval name expected z
  | some zs ↦ convert_all from_zval name expected zs >>= (λ xs. returned (some xs))
]

-- `opt_list_arg`.
unfoldable pub opt_list_arg :
    {Z A : Type 0}
    → (Z → Bool)
    → (Z → Option (List Z))
    → (Z → Option A)
    → Option Z
    → String
    → String
    → PhpResult (Option (List A))
unfolding convert_list
opt_list_arg is_null array from_zval none name expected = returned none
opt_list_arg is_null array from_zval (some z) name expected =
    if is_null z then returned none else convert_list array from_zval name expected z

-- `aero::Bins`.
pub data Bins : Type 0 where
  all_bins : Bins
  no_bins : Bins
  some_bins : List String → Bins

-- `php_bins_to_aero_with`.
unfoldable pub php_bins_to_aero_with : Option (List String) → Bins → Bins → Bins
php_bins_to_aero_with none on_none on_empty = on_none
php_bins_to_aero_with (some []) on_none on_empty = on_empty
php_bins_to_aero_with (some (n ∷ ns)) on_none on_empty = some_bins (n ∷ ns)

-- The fields of `aero::query::Statement` that the class reads and writes.
pub record Statement (C : Convert) : Type 0 where
  pub namespace : String
  pub set_name : String
  pub bins : Bins
  pub filters : Option (List C.filter)

-- `map(|f| vec![f])`.
abbrev pub one_filter : {F : Type 0} → Option F → Option (List F)
one_filter none = none
one_filter (some f) = some (f ∷ [])

-- `bin_names_arg`.
unfoldable pub bin_names_arg :
    (C : Convert) → Option C.zval → String → PhpResult (Option (List String))
unfolding opt_list_arg
bin_names_arg C arg name =
    opt_list_arg C.is_null C.array C.to_name arg name "a bin name or an array of bin names"

module _ {C : Convert} where
  unfoldable pub get_filter : Statement C → Option C.filter
  get_filter s = elim s.filters [ none ↦ none | some [] ↦ none | some (f ∷ fs) ↦ some f ]

  unfoldable pub set_filter : Option C.zval → Statement C → Statement C × PhpResult (Unit {0})
  unfolding opt_arg
  set_filter filter s =
      assign (λ f. record s { filters = one_filter f }) s
        (opt_arg C.is_null C.to_filter filter "$filter" "a Filter")

  unfoldable pub get_bin_names : Statement C → Option (List String)
  get_bin_names s = elim s.bins [
    | all_bins ↦ none
    | no_bins ↦ some []
    | some_bins names ↦ some names
  ]

  unfoldable pub set_bin_names : Option C.zval → Statement C → Statement C × PhpResult (Unit {0})
  unfolding bin_names_arg php_bins_to_aero_with
  set_bin_names bin_names s =
      assign (λ names. record s { bins = php_bins_to_aero_with names all_bins no_bins }) s
        (bin_names_arg C bin_names "$bin_names")

  unfoldable pub get_namespace : Statement C → String
  get_namespace s = s.namespace

  unfoldable pub set_namespace : String → Statement C → Statement C
  set_namespace namespace s = record s { namespace = namespace }

  unfoldable pub get_setname : Statement C → String
  get_setname s = s.set_name

  unfoldable pub set_setname : String → Statement C → Statement C
  set_setname set_name s = record s { set_name = set_name }

-- `aero::query::PartitionStatus`, less `node` and `sequence`, which only pass through.
pub record PartitionStatus : Type 0 where
  pub bval : Option ℕ
  pub id : ℕ
  pub retry : Bool
  pub digest : Option (List ℕ)

abbrev pub partitions_per_namespace : ℕ
partitions_per_namespace = 4096

-- `PartitionStatus::__construct`.
unfoldable pub partition_status : ℕ → PhpResult PartitionStatus
partition_status id =
    if leb id (2 ^ 16 - 1) && ltb id partitions_per_namespace
    then returned (record { bval = none; id = id; retry = true; digest = none })
    else threw bad_partition

-- `v as i64` of a `u64`.
unfoldable pub as_i64 : ℕ → ℤ
as_i64 n = if leb n i64_max then pos n else negsuc (2 ^ 64 - 1 - n)

unfoldable pub get_bval : PartitionStatus → Option ℤ
unfolding as_i64
get_bval s = elim s.bval [ none ↦ none | some v ↦ some (as_i64 v) ]

unfoldable pub get_partition_id : PartitionStatus → ℕ
get_partition_id s = s.id

unfoldable pub get_digest : PartitionStatus → List ℕ
get_digest s = elim s.digest [ none ↦ [] | some d ↦ d ]

unfoldable pub get_retry : PartitionStatus → Bool
get_retry s = s.retry
