-- ===== src/Ini/Tests.antt =====
-- Two threads and a directive.
use aerospike_php_client.Common.{ℕ, ◌≡◌, ◌≢◌, [], ◌∷◌, refl, some, arith, inl}
use aerospike_php_client.Hosts.{is_whitespace, all_digits}
use aerospike_php_client.Values.Decimal.{read}
use aerospike_php_client.Common.Int.{pos}
use aerospike_php_client.Ini.{
  Ini, utf8, parse_long, on_modify_long, ini_long_positive, positive_u32,
}
use aerospike_php_client.Ini.Threads.{on_modify_long-own, on_modify_long-other}

abbrev defaults : Ini
defaults = record { process = λ i. pos 0; thread = λ t i. some (pos 0) }

parsed : parse_long (utf8 (b'5' ∷ b'0' ∷ [])) ≡ some (pos 50)
unfolding parse_long is_whitespace all_digits read
parsed = refl

on_modify_long-own_example :
    ((on_modify_long 1 (some (utf8 (b'5' ∷ b'0' ∷ []))) 3 defaults).1 ≡ pos 0)
    × (ini_long_positive 1 2 (on_modify_long 1 (some (utf8 (b'5' ∷ b'0' ∷ []))) 3 defaults).0
        ≡ positive_u32 (pos 50))
on_modify_long-own_example =
    on_modify_long-own 1 2 (utf8 (b'5' ∷ b'0' ∷ [])) (pos 50) defaults (omega arith) parsed

abbrev first_thread : ℕ
first_thread = 0

threads_differ : first_thread ≢ 1
threads_differ q = omega arith

on_modify_long-other_example :
    ini_long_positive 0 2 (on_modify_long 1 (some (utf8 (b'5' ∷ b'0' ∷ []))) 3 defaults).0
    ≡ ini_long_positive 0 2 defaults
on_modify_long-other_example =
    on_modify_long-other 0 1 2 3 (pos 0) (some (utf8 (b'5' ∷ b'0' ∷ []))) defaults
      (inl threads_differ) refl
