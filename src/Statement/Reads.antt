-- ===== src/Statement/Reads.antt =====
-- What PHP reads of a `Statement` and a `PartitionStatus` of lib.rs.
use Prim.Native.String.{String}
use aerospike_php_client.Common.{
  ℕ, ◌<◌, ◌≤◌, ◌≡◌, refl, ◌⊎◌, inl, inr, List, [], ◌∷◌, Option, none, some, true, arith, Bool-cases,
  ltb,
}
use aerospike_php_client.Php.{PhpResult, returned, threw, bad_partition}
use aerospike_php_client.Policy.{assign}
use aerospike_php_client.Statement.{
  Convert, Statement, all_bins, no_bins, php_bins_to_aero_with, get_filter, get_bin_names,
  set_bin_names, bin_names_arg, get_namespace, get_setname, partition_status, get_partition_id,
  get_bval, get_digest, get_retry, partitions_per_namespace, PartitionStatus,
}

abbrev pub ReadsBack :
    {C : Convert}
    → PhpResult (Option (List String))
    → Statement C
    → Statement C × PhpResult (Unit {0})
    → Type 0
ReadsBack (returned names) s (s', r) =
    (r ≡ returned tt)
    × (get_bin_names s' ≡ names)
    × (get_filter s' ≡ get_filter s)
    × (get_namespace s' ≡ get_namespace s)
    × (get_setname s' ≡ get_setname s)
ReadsBack (threw e) s (s', r) = (r ≡ threw e) × (s' ≡ s)

assigned :
    {C : Convert} (r : PhpResult (Option (List String))) (s : Statement C)
    → ReadsBack r s
        (assign (λ names. record s { bins = php_bins_to_aero_with names all_bins no_bins }) s r)
unfolding get_bin_names php_bins_to_aero_with get_filter get_namespace get_setname
assigned (returned none) s = (refl, refl, refl, refl, refl)
assigned (returned (some [])) s = (refl, refl, refl, refl, refl)
assigned (returned (some (n ∷ ns))) s = (refl, refl, refl, refl, refl)
assigned (threw e) s = (refl, refl)

-- After `setBinNames`, `getBinNames` gives back what the argument converted to, be it null, the empty
-- list or a list of names, and every other reading is unchanged; an argument that does not convert
-- throws and leaves the statement as it is.
pub set_bin_names-reads :
    {C : Convert} (arg : Option C.zval) (s : Statement C)
    → ReadsBack (bin_names_arg C arg "$bin_names") s (set_bin_names arg s)
unfolding set_bin_names
set_bin_names-reads {C} arg s = assigned (bin_names_arg C arg "$bin_names") s

-- A partition status is made of exactly the ids of a namespace's partitions, and then says of itself
-- that id, that it has seen no key, and that it wants a retry; any other id throws.
pub partition_status-id :
    (id : ℕ)
    → ((id < partitions_per_namespace)
        × ((s : PartitionStatus) × (partition_status id ≡ returned s)
            × (get_partition_id s ≡ id)
            × (get_bval s ≡ none)
            × (get_digest s ≡ [])
            × (get_retry s ≡ true)))
      ⊎ ((partitions_per_namespace ≤ id) × (partition_status id ≡ threw bad_partition))
unfolding partition_status get_partition_id get_bval get_digest get_retry
partition_status-id id = elim (Bool-cases (ltb id partitions_per_namespace)) [
  | inl small ↦ inl (
    ground arith,
    (
      record { bval = none; id = id; retry = true; digest = none },
      ground arith,
      refl,
      refl,
      refl,
      refl,
    ),
  )
  | inr big ↦ inr (ground arith, ground arith)
]
