-- ===== src/Url/Reading.antt =====
-- The reading half of net/url: `PathUnescape`, `QueryUnescape` and `ParseQuery`. `%XX` is one byte,
-- and in a query `+` is a space. A pair that cannot be read is left out.
use mathlib.Core.Option
use custd_sdk_go.Base.{
  ℕ, ◌+◌, ◌-◌, ◌*◌, List, [], ◌∷◌, Bool, true, false, ◌&&◌, Option, none, some, Text, if◌then◌else◌,
  leb, ◌==◌, any, is_empty, map, ◌||◌,
}
use custd_sdk_go.Url.{Values, utf8_text}

-- The number of a hexadecimal digit.
unfoldable pub unhex : ℕ → Option ℕ
unhex c =
    if leb 48 c && leb c 57
    then some (c - 48)
    else if leb b'A' c && leb c b'F'
    then some (c - 55)
    else if leb b'a' c && leb c b'f'
    then some (c - 87)
    else none

-- Between characters, after `%`, and after `%` and one digit.
pub data Escape : Type 0 where
  between after_percent : Escape
  after_digit : ℕ → Escape

-- `is_query` says whether `+` is a space.
unfoldable pub unescape : Bool → Escape → Text → Option (List ℕ)
unfolding unhex
unescape q between [] = some []
unescape q after_percent [] = none
unescape q (after_digit n) [] = none
unescape q between (c ∷ s) =
    if c == b'%'
    then unescape q after_percent s
    else if q && c == b'+'
    then Option.map (λ bs. b' ' ∷ bs) (unescape q between s)
    else Option.map (λ bs. c ∷ bs) (unescape q between s)
unescape q after_percent (c ∷ s) = elim (unhex c) [
  | none ↦ none
  | some n ↦ unescape q (after_digit n) s
]
unescape q (after_digit n) (c ∷ s) = elim (unhex c) [
  | none ↦ none
  | some m ↦ Option.map (λ bs. (16 * n + m) ∷ bs) (unescape q between s)
]

unfoldable pub unescape_text : Bool → Text → Option Text
unfolding unescape utf8_text
unescape_text q s = elim (unescape q between s) [ none ↦ none | some bs ↦ utf8_text 0 0 bs ]

-- `url.PathUnescape` and `url.QueryUnescape`.
unfoldable pub path_unescape : Text → Option Text
unfolding unescape_text
path_unescape s = unescape_text false s

unfoldable pub query_unescape : Text → Option Text
unfolding unescape_text
query_unescape s = unescape_text true s

-- `strings.Cut` at a character: nothing is left where it does not occur.
unfoldable pub cut : ℕ → Text → Text × Text
cut separator [] = ([], [])
cut separator (c ∷ s) =
    let (before, after) = cut separator s in if c == separator then ([], s) else (c ∷ before, after)

-- A character in front of the first part.
unfoldable pub extend_first : ℕ → List Text → List Text
extend_first c [] = (c ∷ []) ∷ []
extend_first c (part ∷ parts) = (c ∷ part) ∷ parts

-- `strings.Split` at a character.
unfoldable pub split_on : ℕ → Text → List Text
unfolding extend_first
split_on separator [] = [] ∷ []
split_on separator (c ∷ s) =
    let parts = split_on separator s in if c == separator then [] ∷ parts else extend_first c parts

unfoldable pub parse_pair : Text → Option (Text × Text)
unfolding cut query_unescape
parse_pair s =
    if is_empty s || any (λ c. c == b';') s
    then none
    else let (k, v) = cut b'=' s in
      elim (query_unescape k) [
        | none ↦ none
        | some key ↦ Option.map (λ value. (key, value)) (query_unescape v)
      ]

unfoldable pub keep_some {ℓ} : {A : Type ℓ} → List (Option A) → List A
keep_some [] = []
keep_some (none ∷ os) = keep_some os
keep_some (some a ∷ os) = a ∷ keep_some os

-- `url.ParseQuery`.
unfoldable pub parse_query : Text → Values
unfolding split_on parse_pair keep_some
parse_query q = keep_some (map parse_pair (split_on b'&' q))
