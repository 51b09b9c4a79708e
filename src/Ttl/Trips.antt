-- ===== src/Ttl/Trips.antt =====
-- The number views of lib.rs against the values they stand for.
use aerospike_php_client.Common.{
  ℕ, ◌-◌, ◌≢◌, Option, Bool, leb, ◌==◌, Bool-cases, ◌≡◌, ◌≤◌, ◌⊎◌, inl, inr, refl, none, some, true,
  false, arith,
}
use aerospike_php_client.Common.Int.{ℤ, pos, negsuc, u32_max}
use aerospike_php_client.Php.{returned, threw, bad_percent}
use aerospike_php_client.Ttl.{
  AeroExpiration, get_ttl, is_namespace_default, will_never_expire, will_update_expiration,
  expiration_from_u32, ReadTouchTtl, percent, server_default, dont_reset,
  read_touch_ttl_from_percent, percent_of,
}

-- The percentages that the server knows: 0, -1, and 1 to 100.
abbrev pub IsPercent : ℤ → Type 0
IsPercent (pos n) = n ≤ 100
IsPercent (negsuc n) = n ≡ 0

-- `read_touch_ttl_from_percent` takes exactly the percentages from -1 to 100, each to the setting that
-- `getReadTouchTtlPercent` gives back as that percentage, and throws on every other number.
pub read_touch_ttl-roundtrip :
    (p : ℤ)
    → (IsPercent p
        × ((t : ReadTouchTtl) × (read_touch_ttl_from_percent p ≡ returned t) × (percent_of t ≡ p)))
      ⊎ ((IsPercent p → ⊥) × (read_touch_ttl_from_percent p ≡ threw (bad_percent p)))
unfolding read_touch_ttl_from_percent percent_of
read_touch_ttl-roundtrip (pos n) = elim (Bool-cases (n == 0)) [
  | inl z ↦ inl (ground arith, (server_default, ground arith, ground arith))
  | inr nz ↦ elim (Bool-cases (leb n 100)) [
    | inl le ↦ inl (ground arith, (percent n, ground arith, refl))
    | inr gt ↦ inr (ground arith, ground arith)
  ]
]
read_touch_ttl-roundtrip (negsuc n) = elim (Bool-cases (n == 0)) [
  | inl z ↦ inl (ground arith, (dont_reset, ground arith, ground arith))
  | inr nz ↦ inr (ground arith, ground arith)
]

-- All that PHP can read of an expiration: its seconds, and the three questions for its kind.
abbrev pub readings : AeroExpiration → Option ℕ × Bool × Bool × Bool
readings e = (get_ttl e, is_namespace_default e, will_never_expire e, will_update_expiration e)

-- What an expiration made from a number answers to all four questions. 0 is the namespace's default and
-- nothing else, the largest u32 never expires and is nothing else, the one below it leaves the expiration
-- as it is and is nothing else, and every other number is that many seconds and none of the three.
pub expiration_from_u32-kinds :
    (n : ℕ)
    → ((n ≡ 0) × (readings (expiration_from_u32 n) ≡ (none, true, false, true)))
      ⊎ ((n ≡ u32_max) × (readings (expiration_from_u32 n) ≡ (none, false, true, true)))
      ⊎ ((n ≡ u32_max - 1) × (readings (expiration_from_u32 n) ≡ (none, false, false, false)))
      ⊎ ((n ≢ 0)
          × (n ≢ u32_max)
          × (n ≢ u32_max - 1)
          × (readings (expiration_from_u32 n) ≡ (some n, false, false, true)))
unfolding expiration_from_u32 is_namespace_default will_never_expire will_update_expiration get_ttl
expiration_from_u32-kinds n = elim (Bool-cases (n == 0)) [
  | inl z ↦ inl (ground arith, rw z refl)
  | inr nz ↦ elim (Bool-cases (n == u32_max)) [
    | inl m ↦ inr (inl (ground arith, rw (nz, m) refl))
    | inr nm ↦ elim (Bool-cases (n == u32_max - 1)) [
      | inl d ↦ inr (inr (inl (ground arith, rw (nz, nm, d) refl)))
      | inr nd ↦ inr (inr (inr (ground arith, ground arith, ground arith, rw (nz, nm, nd) refl)))
    ]
  ]
]
