-- ===== src/Statement/Tests.antt =====
-- A statement over PHP values that are numbers, which all convert to one name, and a partition.
use aerospike_php_client.Common.{ℕ, ◌≡◌, ◌<◌, ◌≤◌, ◌⊎◌, [], none, some, true, false}
use aerospike_php_client.Php.{returned, threw, bad_partition}
use aerospike_php_client.Statement.{
  Convert, Statement, all_bins, bin_names_arg, set_bin_names, partition_status, get_partition_id,
  get_bval, get_digest, get_retry, partitions_per_namespace, PartitionStatus,
}
use aerospike_php_client.Statement.Reads.{ReadsBack, set_bin_names-reads, partition_status-id}

abbrev numbers : Convert
numbers = record {
  zval = ℕ;
  filter = ℕ;
  is_null = λ z. false;
  array = λ z. none;
  to_filter = λ z. some z;
  to_name = λ z. some "bin";
}

abbrev statement : Statement numbers
statement = record { namespace = "test"; set_name = "users"; bins = all_bins; filters = none }

set_bin_names-reads_example :
    ReadsBack
      (bin_names_arg numbers (some 3) "$bin_names")
      statement
      (set_bin_names (some 3) statement)
set_bin_names-reads_example = set_bin_names-reads (some 3) statement

partition_status-id_example :
    ((7 < partitions_per_namespace)
      × ((s : PartitionStatus) × (partition_status 7 ≡ returned s)
          × (get_partition_id s ≡ 7)
          × (get_bval s ≡ none)
          × (get_digest s ≡ [])
          × (get_retry s ≡ true)))
    ⊎ ((partitions_per_namespace ≤ 7) × (partition_status 7 ≡ threw bad_partition))
partition_status-id_example = partition_status-id 7
