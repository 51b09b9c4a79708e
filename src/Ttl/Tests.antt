-- ===== src/Ttl/Tests.antt =====
-- A percentage.
use aerospike_php_client.Common.{◌≡◌, ◌⊎◌}
use aerospike_php_client.Common.Int.{pos}
use aerospike_php_client.Php.{returned, threw, bad_percent}
use aerospike_php_client.Ttl.{ReadTouchTtl, read_touch_ttl_from_percent, percent_of}
use aerospike_php_client.Ttl.Trips.{IsPercent, read_touch_ttl-roundtrip}

read_touch_ttl-roundtrip_example :
    (IsPercent (pos 80)
      × ((t : ReadTouchTtl) × (read_touch_ttl_from_percent (pos 80) ≡ returned t)
          × (percent_of t ≡ pos 80)))
    ⊎ ((IsPercent (pos 80) → ⊥)
        × (read_touch_ttl_from_percent (pos 80) ≡ threw (bad_percent (pos 80))))
read_touch_ttl-roundtrip_example = read_touch_ttl-roundtrip (pos 80)
