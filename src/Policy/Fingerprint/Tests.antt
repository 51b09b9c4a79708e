-- ===== src/Policy/Fingerprint/Tests.antt =====
-- Two policies with one IP map, given in two orders.
use Prim.Native.Char.{code}
use Prim.Native.String.{String, [], ◌∷◌}
use text.Mathlib.TextEquality.{Char-path}
use aerospike_php_client.Common.{
  ℕ, ◌+◌, ◌≡◌, ◌≢◌, refl, ap₂, List, [], ◌∷◌, none, some, true, false, length, All, arith,
}
use aerospike_php_client.Policy.Cluster.{ClientPolicy, internal}
use aerospike_php_client.Policy.Fingerprint.{Hashing, fed, sort_entries, before, ip_map_bytes}
use aerospike_php_client.Policy.Fingerprint.Delimits.{Utf8, cons_inv}
use aerospike_php_client.Policy.Fingerprint.IpMap.{IsShort}
use aerospike_php_client.Policy.Fingerprint.Injective.{IsSized, SameSettings, fed-SameSettings}

-- Bytes that no text shares with another: a character's number, made larger than 255.
abbrev codes : String → List ℕ
codes [] = []
codes (c ∷ s) = (code c + 256) ∷ codes s

abbrev hashing : Hashing
hashing = record { bytes = codes; hash_one = λ s. 77; reclaim_threshold = 1 ∷ 2 ∷ [] }

codes-differ : (s t : String) → codes s ≡ codes t → s ≡ t
codes-differ [] [] h = refl
codes-differ [] (d ∷ t) h = absurd (ground arith)
codes-differ (c ∷ s) [] h = absurd (ground arith)
codes-differ (c ∷ s) (d ∷ t) h =
    let (e, u) = cons_inv (code c + 256) (code d + 256) (codes s) (codes t) h in
    ap₂ (λ x l. x ∷ l) (Char-path c d (omega arith)) (codes-differ s t u)

codes-unmarked : (s : String) → All (λ x. x ≢ 255) (codes s)
codes-unmarked [] = tt
codes-unmarked (c ∷ s) = ((λ e. omega arith), codes-unmarked s)

utf8 : Utf8 hashing
utf8 = record { bytes_differ = codes-differ; no_mark = codes-unmarked; small = λ s. omega arith }

abbrev with_map : List (String × String) → ClientPolicy ℕ
with_map m = record {
  auth_mode = internal "u" "secret";
  tls_config = none;
  tls_fingerprint = 0;
  conn_pools_per_node = 1;
  ip_map = some m;
  cluster_name = some "c";
  timeout = 30000;
  idle_timeout = 5000;
  min_conns_per_node = 0;
  max_conns_per_node = 256;
  fail_if_not_connected = true;
  tend_interval = 1000;
  use_services_alternate = false;
  application_id = none;
}

abbrev one : ClientPolicy ℕ
one = with_map (("b", "2") ∷ ("a", "1") ∷ [])

abbrev other : ClientPolicy ℕ
other = with_map (("a", "1") ∷ ("b", "2") ∷ [])

same_fed : fed hashing one ≡ fed hashing other
unfolding fed ip_map_bytes sort_entries before
same_fed = refl

short : (m : List (String × String)) → length (sort_entries hashing m) ≡ 2 → IsShort utf8 (some m)
short m e = omega arith

sized :
    (m : List (String × String)) → length (sort_entries hashing m) ≡ 2 → IsSized utf8 (with_map m)
sized m e = record {
  timeout = omega arith;
  idle_timeout = omega arith;
  min_conns_per_node = omega arith;
  max_conns_per_node = omega arith;
  conn_pools_per_node = omega arith;
  tend_interval = omega arith;
  tls_fingerprint = omega arith;
  ip_map = short m e;
}

two_one : length (sort_entries hashing (("b", "2") ∷ ("a", "1") ∷ [])) ≡ 2
unfolding sort_entries before
two_one = refl

two_other : length (sort_entries hashing (("a", "1") ∷ ("b", "2") ∷ [])) ≡ 2
unfolding sort_entries before
two_other = refl

fed-SameSettings_example : SameSettings utf8 one other
fed-SameSettings_example =
    fed-SameSettings utf8 one other (sized _ two_one) (sized _ two_other) same_fed
