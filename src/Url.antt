-- ===== src/Url.antt =====
-- net/url as the SDK uses it: `PathEscape`, `QueryEscape`, and `Values` with `Set`, `Get` and
-- `Encode`. Go escapes the bytes of a string, so a text is written out as UTF-8 first. The reading
-- of what is escaped is the server's half.
pub mod Utf8
pub mod Reading
pub mod Plain
pub mod Escaping
pub mod Query
mod Tests
use mathlib.Core.Option
use custd_sdk_go.Base.{
  ℕ, zero, suc, ◌+◌, ◌-◌, ◌*◌, ◌/◌, ◌%◌, List, [], ◌∷◌, ◌++◌, Bool, true, false, not, ◌&&◌, ◌||◌,
  Option, none, some, Text, codes, is_empty, if◌then◌else◌, leb, ltb, ◌==◌, map, lookup, insert,
}
use custd_sdk_go.Errors.Rendering.{text_leb, join}

-- The bytes of a code point.
unfoldable pub utf8 : ℕ → List ℕ
utf8 c =
    if ltb c 0x80
    then c ∷ []
    else if ltb c 0x800
    then (0xc0 + c / 64) ∷ (0x80 + c % 64) ∷ []
    else if ltb c 0x10000
    then (0xe0 + c / 4096) ∷ (0x80 + c / 64 % 64) ∷ (0x80 + c % 64) ∷ []
    else (0xf0 + c / 262144) ∷ (0x80 + c / 4096 % 64) ∷ (0x80 + c / 64 % 64) ∷ (0x80 + c % 64) ∷ []

unfoldable pub utf8_bytes : Text → List ℕ
unfolding utf8
utf8_bytes [] = []
utf8_bytes (c ∷ s) = utf8 c ++ utf8_bytes s

-- The code points of bytes: how many bytes of the present one are still to come, and what was read
-- of it.
unfoldable pub utf8_text : ℕ → ℕ → List ℕ → Option Text
utf8_text zero read [] = some []
utf8_text (suc left) read [] = none
utf8_text zero read (b ∷ bs) =
    if ltb b 0x80
    then Option.map (λ s. b ∷ s) (utf8_text 0 0 bs)
    else if ltb b 0xe0
    then utf8_text 1 (b - 0xc0) bs
    else if ltb b 0xf0
    then utf8_text 2 (b - 0xe0) bs
    else utf8_text 3 (b - 0xf0) bs
utf8_text (suc zero) read (b ∷ bs) =
    Option.map (λ s. (read * 64 + (b - 0x80)) ∷ s) (utf8_text 0 0 bs)
utf8_text (suc (suc left)) read (b ∷ bs) = utf8_text (suc left) (read * 64 + (b - 0x80)) bs

unfoldable pub is_alphanumeric : ℕ → Bool
is_alphanumeric c =
    (leb b'a' c && leb c b'z') || (leb b'A' c && leb c b'Z') || (leb b'0' c && leb c b'9')

-- `-`, `_`, `.` and `~`.
unfoldable pub is_mark : ℕ → Bool
is_mark c = c == b'-' || c == b'_' || c == b'.' || c == b'~'

-- What `shouldEscape` keeps in a path segment and in a query component.
unfoldable pub keeps_in_path : ℕ → Bool
unfolding is_alphanumeric is_mark
keeps_in_path c =
    is_alphanumeric c
    || is_mark c
    || c == b'$'
    || c == b'&'
    || c == b'+'
    || c == b':'
    || c == b'='
    || c == b'@'

unfoldable pub keeps_in_query : ℕ → Bool
unfolding is_alphanumeric is_mark
keeps_in_query c = is_alphanumeric c || is_mark c

unfoldable pub upper_hex : ℕ → ℕ
upper_hex n = if ltb n 10 then 48 + n else 55 + n

-- `%XX`
unfoldable pub percent : ℕ → Text
unfolding upper_hex
percent b = b'%' ∷ upper_hex (b / 16) ∷ upper_hex (b % 16) ∷ []

unfoldable pub escape_path_byte : ℕ → Text
unfolding keeps_in_path percent
escape_path_byte b = if keeps_in_path b then b ∷ [] else percent b

unfoldable pub escape_query_byte : ℕ → Text
unfolding keeps_in_query percent
escape_query_byte b =
    if keeps_in_query b then b ∷ [] else if b == b' ' then b'+' ∷ [] else percent b

unfoldable pub escape_bytes : (ℕ → Text) → List ℕ → Text
escape_bytes escape [] = []
escape_bytes escape (b ∷ bs) = escape b ++ escape_bytes escape bs

unfoldable pub path_escape : Text → Text
unfolding escape_bytes utf8_bytes
path_escape s = escape_bytes escape_path_byte (utf8_bytes s)

unfoldable pub query_escape : Text → Text
unfolding escape_bytes utf8_bytes
query_escape s = escape_bytes escape_query_byte (utf8_bytes s)

-- `url.Values` with one value for each key.
abbrev pub Values : Type 0
Values = List (Text × Text)

unfoldable pub insert_by_key : Text × Text → Values → Values
insert_by_key (k, v) [] = (k, v) ∷ []
insert_by_key (k, v) ((j, w) ∷ m) =
    let rest = insert_by_key (k, v) m in if text_leb k j then (k, v) ∷ (j, w) ∷ m else (j, w) ∷ rest

unfoldable pub sort_by_key : Values → Values
unfolding insert_by_key
sort_by_key [] = []
sort_by_key (p ∷ m) = insert_by_key p (sort_by_key m)

unfoldable pub query_part : Text × Text → Text
unfolding query_escape
query_part (k, v) = query_escape k ++ b'=' ∷ query_escape v

-- `Values.Encode`.
unfoldable pub encode_values : Values → Text
unfolding sort_by_key query_part
encode_values m = join (codes "&") (map query_part (sort_by_key m))

-- `if value != "" { params.Set(key, value) }`
unfoldable pub set_given : Text → Text → Values → Values
set_given key value m = if is_empty value then m else insert key value m
