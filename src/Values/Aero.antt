-- ===== src/Values/Aero.antt =====
-- `aero::Value` of the aerospike crate, by the variants that lib.rs matches on.
use aerospike_php_client.Common.{ℕ, List, Bool}
use aerospike_php_client.Common.Int.{ℤ}
use aerospike_php_client.Common.Text.{Text}

-- `aero::FloatValue`.
pub data FloatValue : Type 0 where
  f32_bits : ℕ → FloatValue
  f64_bits : ℕ → FloatValue

mutual
  pub data AeroValue : Type 0 where
    nil : AeroValue
    bool : Bool → AeroValue
    int : ℤ → AeroValue
    float : FloatValue → AeroValue
    string : Text → AeroValue
    blob : List ℕ → AeroValue
    list : AeroItems → AeroValue
    multi_result : AeroItems → AeroValue
    hash_map : AeroPairs → AeroValue
    ordered_map : AeroPairs → AeroValue
    key_value_list : AeroPairs → AeroValue
    geo_json : Text → AeroValue
    hll : List ℕ → AeroValue
    infinity : AeroValue
    wildcard : AeroValue

  pub data AeroItems : Type 0 where
    no_items : AeroItems
    item : AeroValue → AeroItems → AeroItems

  pub data AeroPairs : Type 0 where
    no_pairs : AeroPairs
    pair : AeroValue → AeroValue → AeroPairs → AeroPairs
