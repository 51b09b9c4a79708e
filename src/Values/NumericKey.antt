-- ===== src/Values/NumericKey.antt =====
-- `php_numeric_string_key` of lib.rs, with the parsing of `i64` by the standard library.
use aerospike_php_client.Common.{
  ℕ, ◌-◌, [], ◌∷◌, Option, none, some, Bool, true, false, ◌&&◌, ◌||◌, not, ltb, leb, ◌==◌,
  if◌then◌else◌, length,
}
use aerospike_php_client.Common.Int.{ℤ, pos, negsuc, i64_max}
use aerospike_php_client.Common.Text.{Text, same}
use aerospike_php_client.Hosts.{all_digits, is_empty}
use aerospike_php_client.Values.Decimal.{read}

-- `str::strip_prefix('-')` followed by `unwrap_or`.
unfoldable pub strip_minus : Text → Text
strip_minus [] = []
strip_minus (c ∷ s) = if c == b'-' then s else c ∷ s

unfoldable pub starts_with : ℕ → Text → Bool
starts_with d [] = false
starts_with d (c ∷ s) = c == d

unfoldable pub in_range : Bool → ℕ → Option ℤ
in_range true n =
    if n == 0 then some (pos 0) else if leb (n - 1) i64_max then some (negsuc (n - 1)) else none
in_range false n = if leb n i64_max then some (pos n) else none

unfoldable pub parse_digits : Bool → Text → Option ℤ
unfolding in_range
parse_digits negative s =
    if not (is_empty s) && all_digits s then in_range negative (read 0 s) else none

-- `s.parse::<i64>().ok()`: an optional sign, at least one digit, a value in range.
unfoldable pub parse_i64 : Text → Option ℤ
unfolding parse_digits
parse_i64 [] = none
parse_i64 (c ∷ s) =
    if c == b'-'
    then parse_digits true s
    else if c == b'+'
    then parse_digits false s
    else parse_digits false (c ∷ s)

unfoldable pub php_numeric_string_key : Text → Option ℤ
unfolding strip_minus starts_with parse_i64
php_numeric_string_key s =
    let digits = strip_minus s in
    if is_empty digits || not (all_digits digits)
    then none
    else if (ltb 1 (length digits) && starts_with b'0' digits)
        || (starts_with b'-' s && same digits (b'0' ∷ []))
    then none
    else parse_i64 s
