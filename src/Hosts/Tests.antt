-- ===== src/Hosts/Tests.antt =====
-- Concrete seed lists.
use aerospike_php_client.Common.{◌≡◌, ◌↔◌, [], ◌∷◌}
use aerospike_php_client.Common.Text.{Text}
use aerospike_php_client.Hosts.{parts, normalize_hosts}
use aerospike_php_client.Hosts.Unique.{mem}
use aerospike_php_client.Hosts.Keys.{normalize_hosts_idem, normalize_hosts_iff}

abbrev two_seeds : Text
two_seeds = b'b' ∷ b',' ∷ b'A' ∷ []

abbrev swapped : Text
swapped = b'a' ∷ b',' ∷ b'b' ∷ b',' ∷ b'B' ∷ []

normalize_hosts_idem_example :
    normalize_hosts (normalize_hosts two_seeds) ≡ normalize_hosts two_seeds
normalize_hosts_idem_example = normalize_hosts_idem two_seeds

normalize_hosts_iff_example :
    (normalize_hosts two_seeds ≡ normalize_hosts swapped)
    ↔ ((p : Text) → mem p (parts two_seeds) ≡ mem p (parts swapped))
normalize_hosts_iff_example = normalize_hosts_iff two_seeds swapped
