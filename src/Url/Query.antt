-- ===== src/Url/Query.antt =====
-- `Values.Encode` and `ParseQuery`: an encoded query is read back, sorted by its keys.
use mathlib.Core.List.{append_assoc}
use custd_sdk_go.Base.{
  ℕ, List, [], ◌∷◌, ◌++◌, Bool, true, false, ◌||◌, Bool-cases, some, Text, All, All-append, inl,
  inr, ◌≡◌, refl, ap, ◌∙◌, arith, ◌==◌, map, any, is_empty, codes, ◌/◌, ◌%◌, ◌<◌,
}
use custd_sdk_go.Errors.Rendering.{join, text_leb}
use custd_sdk_go.Url.{
  Values, query_escape, query_part, sort_by_key, insert_by_key, encode_values, escape_bytes,
  escape_query_byte, utf8_bytes, keeps_in_query, percent, upper_hex, is_alphanumeric, is_mark,
}
use custd_sdk_go.Url.Utf8.{IsText, utf8_bytes-All}
use custd_sdk_go.Url.Plain.{IsPlain, any-IsPlain, split_on-IsPlain, split_on-append, cut-append}
use custd_sdk_go.Url.Reading.{cut, split_on, parse_pair, keep_some, parse_query, query_unescape}
use custd_sdk_go.Url.Escaping.{query_unescape-query_escape}

-- What a query component is written with.
is_query_character : ℕ → Bool
unfolding keeps_in_query
is_query_character c = keeps_in_query c || c == b'+' || c == b'%'

abbrev IsEscaped : Text → Type 0
IsEscaped s = All (λ c. is_query_character c ≡ true) s

upper_hex-is_query_character : (n : ℕ) → n < 16 → is_query_character (upper_hex n) ≡ true
unfolding is_query_character upper_hex keeps_in_query is_alphanumeric is_mark
upper_hex-is_query_character n h = ground arith

escape_query_byte-IsEscaped : (b : ℕ) → b < 256 → IsEscaped (escape_query_byte b)
unfolding escape_query_byte is_query_character percent
escape_query_byte-IsEscaped b h = elim (Bool-cases (keeps_in_query b)) [
  | inl kept ↦ rw (kept, kept) (refl, tt)
  | inr escaped ↦ elim (Bool-cases (b == b' ')) [
    | inl space ↦ rw (escaped, space) (refl, tt)
    | inr other ↦
        rw (escaped, other)
          (
            refl,
            (
              upper_hex-is_query_character (b / 16) (omega arith),
              (upper_hex-is_query_character (b % 16) (omega arith), tt),
            ),
          )
  ]
]

escape_bytes-IsEscaped :
    (bs : List ℕ) → All (λ b. b < 256) bs → IsEscaped (escape_bytes escape_query_byte bs)
unfolding escape_bytes
escape_bytes-IsEscaped [] h = tt
escape_bytes-IsEscaped (b ∷ bs) h =
    All-append (λ c. is_query_character c ≡ true) (escape_query_byte b)
      (escape_bytes escape_query_byte bs) (escape_query_byte-IsEscaped b h.0)
      (escape_bytes-IsEscaped bs h.1)

query_escape-IsEscaped : (s : Text) → IsText s → IsEscaped (query_escape s)
unfolding query_escape
query_escape-IsEscaped s h = escape_bytes-IsEscaped (utf8_bytes s) (utf8_bytes-All s h)

IsEscaped-IsPlain : (s : Text) → IsEscaped s → IsPlain b'&' s × IsPlain b';' s × IsPlain b'=' s
unfolding is_query_character keeps_in_query is_alphanumeric is_mark
IsEscaped-IsPlain [] h = (tt, tt, tt)
IsEscaped-IsPlain (c ∷ s) h =
    let rest = IsEscaped-IsPlain s h.1 in
    ((ground arith, rest.0), (ground arith, rest.1), (ground arith, rest.2))

-- The keys and the values are texts.
abbrev pub IsTextual : Values → Type 0
IsTextual m = All (λ p. IsText p.0 × IsText p.1) m

query_part-IsPlain :
    (k v : Text)
    → IsText k
    → IsText v
    → IsPlain b'&' (query_part (k, v)) × IsPlain b';' (query_part (k, v))
unfolding query_part
query_part-IsPlain k v h g =
    let key = IsEscaped-IsPlain (query_escape k) (query_escape-IsEscaped k h) in
    let value = IsEscaped-IsPlain (query_escape v) (query_escape-IsEscaped v g) in
    (
      All-append (λ c. (c == b'&') ≡ false) (query_escape k) (b'=' ∷ query_escape v) key.0
          (refl, value.0),
      All-append (λ c. (c == b';') ≡ false) (query_escape k) (b'=' ∷ query_escape v) key.1
          (refl, value.1),
    )

append-cons_nonempty : (s : Text) (c : ℕ) (t : Text) → is_empty (s ++ c ∷ t) ≡ false
unfolding is_empty
append-cons_nonempty [] c t = refl
append-cons_nonempty (d ∷ s) c t = refl

parse_pair_lem :
    (s k v key value : Text)
    → is_empty s ≡ false
    → any (λ c. c == b';') s ≡ false
    → cut b'=' s ≡ (k, v)
    → query_unescape k ≡ some key
    → query_unescape v ≡ some value
    → parse_pair s ≡ some (key, value)
unfolding parse_pair
parse_pair_lem s k v key value given plain parts h g =
    rw (parse_pair, given, plain, parts, h, parts, g) refl

parse_pair-query_part :
    (k v : Text) → IsText k → IsText v → parse_pair (query_part (k, v)) ≡ some (k, v)
unfolding query_part
parse_pair-query_part k v h g =
    parse_pair_lem (query_part (k, v)) (query_escape k) (query_escape v) k v
      (append-cons_nonempty (query_escape k) b'=' (query_escape v))
      (any-IsPlain b';' (query_part (k, v)) (query_part-IsPlain k v h g).1)
      (cut-append b'=' (query_escape k) (query_escape v)
        (IsEscaped-IsPlain (query_escape k) (query_escape-IsEscaped k h)).2)
      (query_unescape-query_escape k h) (query_unescape-query_escape v g)

parse_query-join :
    (m : Values) → IsTextual m → parse_query (join (codes "&") (map query_part m)) ≡ m
unfolding parse_query join codes is_empty keep_some
parse_query-join [] h = refl
parse_query-join ((k, v) ∷ []) h =
    rw
      (
        parse_query,
        split_on-IsPlain b'&' (query_part (k, v)) (query_part-IsPlain k v h.0.0 h.0.1).0,
        parse_pair-query_part k v h.0.0 h.0.1,
      )
      refl
parse_query-join ((k, v) ∷ q ∷ m) h =
    let tail = join (codes "&") (map query_part (q ∷ m)) in
    let opened : parse_query (query_part (k, v) ++ b'&' ∷ tail)
        ≡ keep_some (map parse_pair (query_part (k, v) ∷ split_on b'&' tail)) =
      ap (λ parts. keep_some (map parse_pair parts))
        (split_on-append b'&' (query_part (k, v)) tail (query_part-IsPlain k v h.0.0 h.0.1).0) in
    let read : keep_some (map parse_pair (query_part (k, v) ∷ split_on b'&' tail))
        ≡ (k, v) ∷ parse_query tail =
      ap (λ o. keep_some (o ∷ map parse_pair (split_on b'&' tail)))
        (parse_pair-query_part k v h.0.0 h.0.1) in
    ap parse_query (append_assoc (query_part (k, v)) (codes "&") tail)
    ∙ opened
    ∙ read
    ∙ ap (λ r. (k, v) ∷ r) (parse_query-join (q ∷ m) h.1)

insert_by_key-IsTextual :
    (k v : Text) (m : Values)
    → IsText k
    → IsText v
    → IsTextual m
    → IsTextual (insert_by_key (k, v) m)
unfolding insert_by_key
insert_by_key-IsTextual k v [] h g a = ((h, g), tt)
insert_by_key-IsTextual k v ((j, w) ∷ m) h g a = elim (Bool-cases (text_leb k j)) [
  | inl first ↦ rw first ((h, g), a)
  | inr later ↦ rw later (a.0, insert_by_key-IsTextual k v m h g a.1)
]

sort_by_key-IsTextual : (m : Values) → IsTextual m → IsTextual (sort_by_key m)
unfolding sort_by_key
sort_by_key-IsTextual [] h = tt
sort_by_key-IsTextual ((k, v) ∷ m) h =
    insert_by_key-IsTextual k v (sort_by_key m) h.0.0 h.0.1 (sort_by_key-IsTextual m h.1)

-- `ParseQuery` of what `Values.Encode` writes is the same pairs, sorted by key.
pub parse_query-encode_values :
    (m : Values) → IsTextual m → parse_query (encode_values m) ≡ sort_by_key m
unfolding encode_values
parse_query-encode_values m h = parse_query-join (sort_by_key m) (sort_by_key-IsTextual m h)
