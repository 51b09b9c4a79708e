-- ===== src/Hosts.antt =====
-- `normalize_hosts` of lib.rs, over texts as lists of code points, with the string functions of the
-- standard library that it uses.
pub mod Order
pub mod Unique
pub mod Parts
pub mod Seeds
pub mod Keys
pub mod Tests
use aerospike_php_client.Common.{
  ℕ, ◌+◌, List, [], ◌∷◌, ◌++◌, map, Option, none, some, Bool, true, false, ◌&&◌, ◌||◌, not, ltb,
  leb, ◌==◌, if◌then◌else◌,
}
use aerospike_php_client.Common.Text.{Text, same}

unfoldable pub prepend : ℕ → List Text → List Text
prepend c [] = (c ∷ []) ∷ []
prepend c (w ∷ ws) = (c ∷ w) ∷ ws

-- `str::split(',')`: one more part than there are commas.
unfoldable pub split : Text → List Text
unfolding prepend
split [] = [] ∷ []
split (c ∷ s) = if c == b',' then [] ∷ split s else prepend c (split s)

-- `char::is_whitespace`.
unfoldable pub is_whitespace : ℕ → Bool
is_whitespace c =
    (leb 0x9 c && leb c 0xd)
    || (c == 0x20)
    || (c == 0x85)
    || (c == 0xa0)
    || (c == 0x1680)
    || (leb 0x2000 c && leb c 0x200a)
    || (c == 0x2028)
    || (c == 0x2029)
    || (c == 0x202f)
    || (c == 0x205f)
    || (c == 0x3000)

unfoldable pub trim_start : Text → Text
trim_start [] = []
trim_start (c ∷ s) = if is_whitespace c then trim_start s else c ∷ s

unfoldable pub put_back : ℕ → Text → Text
put_back c [] = if is_whitespace c then [] else c ∷ []
put_back c (d ∷ s) = c ∷ d ∷ s

unfoldable pub trim_end : Text → Text
unfolding put_back
trim_end [] = []
trim_end (c ∷ s) = put_back c (trim_end s)

-- `str::trim`.
unfoldable pub trim : Text → Text
unfolding trim_start trim_end
trim s = trim_end (trim_start s)

abbrev pub is_empty {ℓ} : {A : Type ℓ} → List A → Bool
is_empty [] = true
is_empty (x ∷ xs) = false

-- `filter(|h| !h.is_empty())`.
unfoldable pub non_empty : List Text → List Text
non_empty [] = []
non_empty (h ∷ hs) = if is_empty h then non_empty hs else h ∷ non_empty hs

abbrev pub is_ascii_digit : ℕ → Bool
is_ascii_digit c = leb b'0' c && leb c b'9'

unfoldable pub all_digits : Text → Bool
all_digits [] = true
all_digits (c ∷ s) = is_ascii_digit c && all_digits s

unfoldable pub lower : ℕ → ℕ
lower c = if leb b'A' c && leb c b'Z' then c + 32 else c

-- `str::to_ascii_lowercase`.
unfoldable pub to_ascii_lowercase : Text → Text
unfolding lower
to_ascii_lowercase [] = []
to_ascii_lowercase (c ∷ s) = lower c ∷ to_ascii_lowercase s

unfoldable pub extend_head : ℕ → Text → Option (Text × Text) → Option (Text × Text)
extend_head c s (some (head, tail)) = some (c ∷ head, tail)
extend_head c s none = if c == b':' then some ([], s) else none

-- `str::rsplit_once(':')`: what stands before and behind the last colon.
unfoldable pub rsplit_once : Text → Option (Text × Text)
unfolding extend_head
rsplit_once [] = none
rsplit_once (c ∷ s) = extend_head c s (rsplit_once s)

-- `DEFAULT_PORT`.
abbrev pub default_port : Text
default_port = b'3' ∷ b'0' ∷ b'0' ∷ b'0' ∷ []

unfoldable pub with_port : Text → Option (Text × Text) → Text
unfolding to_ascii_lowercase all_digits
with_port h none = to_ascii_lowercase h ++ b':' ∷ default_port
with_port h (some (head, port)) =
    if not (is_empty port) && all_digits port && not (is_empty head)
    then to_ascii_lowercase head ++ b':' ∷ port
    else to_ascii_lowercase h ++ b':' ∷ default_port

-- The closure that `map` applies to each host.
unfoldable pub canonical : Text → Text
unfolding rsplit_once with_port
canonical h = with_port h (rsplit_once h)

-- The order of strings, by code points as by bytes.
unfoldable pub le_text : Text → Text → Bool
le_text [] t = true
le_text (a ∷ s) [] = false
le_text (a ∷ s) (b ∷ t) = ltb a b || ((a == b) && le_text s t)

unfoldable pub insert_text : Text → List Text → List Text
unfolding le_text
insert_text x [] = x ∷ []
insert_text x (y ∷ l) = if le_text x y then x ∷ y ∷ l else y ∷ insert_text x l

-- `Vec::sort`.
unfoldable pub sort : List Text → List Text
unfolding insert_text
sort [] = []
sort (x ∷ l) = insert_text x (sort l)

unfoldable pub cons_new : Text → List Text → List Text
unfolding same
cons_new x [] = x ∷ []
cons_new x (y ∷ l) = if same x y then y ∷ l else x ∷ y ∷ l

-- `Vec::dedup`: of equal neighbours one is kept.
unfoldable pub dedup : List Text → List Text
unfolding cons_new
dedup [] = []
dedup (x ∷ l) = cons_new x (dedup l)

-- `join(",")`.
unfoldable pub join : List Text → Text
join [] = []
join (x ∷ []) = x
join (x ∷ y ∷ l) = x ++ b',' ∷ join (y ∷ l)

-- The vector `parts` as it is collected.
unfoldable pub parts : Text → List Text
unfolding split trim non_empty canonical
parts hosts = map canonical (non_empty (map trim (split hosts)))

unfoldable pub normalize_hosts : Text → Text
unfolding parts sort dedup join
normalize_hosts hosts = join (dedup (sort (parts hosts)))
