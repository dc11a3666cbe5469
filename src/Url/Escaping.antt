-- ===== src/Url/Escaping.antt =====
-- `url.PathEscape` and `url.QueryEscape`: what they write is read back, and none of it delimits.
use mathlib.Core.Option
use custd_sdk_go.Base.{
  ℕ, ◌+◌, ◌*◌, ◌/◌, ◌%◌, ◌<◌, List, [], ◌∷◌, ◌++◌, Bool, true, false, Bool-cases, some, Text, All,
  inl, inr, ◌≡◌, refl, ◌∙◌, ap, arith, ◌==◌,
}
use custd_sdk_go.Url.{
  upper_hex, percent, escape_path_byte, escape_query_byte, escape_bytes, path_escape, query_escape,
  utf8_bytes, keeps_in_path, keeps_in_query, is_alphanumeric, is_mark,
}
use custd_sdk_go.Url.Utf8.{IsText, utf8_text-utf8_bytes, utf8_bytes-All}
use custd_sdk_go.Url.Reading.{Escape, unhex, unescape, unescape_text, path_unescape, query_unescape}

unhex-upper_hex : (n : ℕ) → n < 16 → unhex (upper_hex n) ≡ some n
unfolding unhex upper_hex
unhex-upper_hex n h = ground arith

first_digit :
    (q : Bool) (c n : ℕ) (s : Text)
    → unhex c ≡ some n
    → unescape q Escape.after_percent (c ∷ s) ≡ unescape q (Escape.after_digit n) s
unfolding unescape
first_digit q c n s h = rw (unescape, h) refl

second_digit :
    (q : Bool) (n c m : ℕ) (s : Text)
    → unhex c ≡ some m
    → unescape q (Escape.after_digit n) (c ∷ s)
      ≡ Option.map (λ bs. (16 * n + m) ∷ bs) (unescape q Escape.between s)
unfolding unescape
second_digit q n c m s h = rw (unescape, h) refl

-- Two hexadecimal digits are one byte.
unescape_digits :
    (q : Bool) (c d n m : ℕ) (s : Text)
    → unhex c ≡ some n
    → unhex d ≡ some m
    → unescape q Escape.after_percent (c ∷ d ∷ s)
      ≡ Option.map (λ bs. (16 * n + m) ∷ bs) (unescape q Escape.between s)
unescape_digits q c d n m s h k = first_digit q c n (d ∷ s) h ∙ second_digit q n d m s k

unescape-percent :
    (q : Bool) (b : ℕ) (s : Text)
    → b < 256
    → unescape q Escape.between (percent b ++ s)
      ≡ Option.map (λ bs. b ∷ bs) (unescape q Escape.between s)
unfolding unescape percent
unescape-percent q b s h =
    unescape_digits q (upper_hex (b / 16)) (upper_hex (b % 16)) (b / 16) (b % 16) s
      (unhex-upper_hex (b / 16) (omega arith)) (unhex-upper_hex (b % 16) (omega arith))
    ∙ ap (λ n. Option.map (λ bs. n ∷ bs) (unescape q Escape.between s)) (omega arith)

unescape_plain_path :
    (b : ℕ) (s : Text)
    → keeps_in_path b ≡ true
    → unescape false Escape.between (b ∷ s)
      ≡ Option.map (λ bs. b ∷ bs) (unescape false Escape.between s)
unfolding keeps_in_path unescape is_alphanumeric is_mark
unescape_plain_path b s kept = let plain : (b == b'%') ≡ false = ground arith in rw plain refl

unescape_plain_query :
    (b : ℕ) (s : Text)
    → keeps_in_query b ≡ true
    → unescape true Escape.between (b ∷ s)
      ≡ Option.map (λ bs. b ∷ bs) (unescape true Escape.between s)
unfolding keeps_in_query unescape is_alphanumeric is_mark
unescape_plain_query b s kept =
    let plain : (b == b'%') ≡ false = ground arith in
    let not_plus : (b == b'+') ≡ false = ground arith in rw (plain, not_plus) refl

unescape-escape_path_byte :
    (b : ℕ) (s : Text)
    → b < 256
    → unescape false Escape.between (escape_path_byte b ++ s)
      ≡ Option.map (λ bs. b ∷ bs) (unescape false Escape.between s)
unfolding escape_path_byte
unescape-escape_path_byte b s h = elim (Bool-cases (keeps_in_path b)) [
  | inl kept ↦ rw kept (unescape_plain_path b s kept)
  | inr escaped ↦ rw escaped (unescape-percent false b s h)
]

unescape-escape_query_byte :
    (b : ℕ) (s : Text)
    → b < 256
    → unescape true Escape.between (escape_query_byte b ++ s)
      ≡ Option.map (λ bs. b ∷ bs) (unescape true Escape.between s)
unfolding escape_query_byte unescape
unescape-escape_query_byte b s h = elim (Bool-cases (keeps_in_query b)) [
  | inl kept ↦ rw kept (unescape_plain_query b s kept)
  | inr escaped ↦ elim (Bool-cases (b == b' ')) [
    | inl space ↦
        let same : b' ' ≡ b = ground arith in
        rw (escaped, space)
          (ap (λ n. Option.map (λ bs. n ∷ bs) (unescape true Escape.between s)) same)
    | inr other ↦ rw (escaped, other) (unescape-percent true b s h)
  ]
]

unescape-escape_bytes :
    (q : Bool) (escape : ℕ → Text) (bs : List ℕ)
    → ((b : ℕ) (s : Text)
        → b < 256
        → unescape q Escape.between (escape b ++ s)
          ≡ Option.map (λ bs. b ∷ bs) (unescape q Escape.between s))
    → All (λ b. b < 256) bs
    → unescape q Escape.between (escape_bytes escape bs) ≡ some bs
unfolding unescape escape_bytes
unescape-escape_bytes q escape [] one h = refl
unescape-escape_bytes q escape (b ∷ bs) one h =
    one b (escape_bytes escape bs) h.0 ∙ rw (unescape-escape_bytes q escape bs one h.1) refl

-- A path segment is read back.
pub path_unescape-path_escape : (s : Text) → IsText s → path_unescape (path_escape s) ≡ some s
unfolding path_unescape path_escape unescape_text
path_unescape-path_escape s h =
    rw
      (
        path_unescape,
        unescape_text,
        path_escape,
        unescape-escape_bytes false escape_path_byte (utf8_bytes s) unescape-escape_path_byte
            (utf8_bytes-All s h),
      )
      (utf8_text-utf8_bytes s)

-- A query component is read back.
pub query_unescape-query_escape : (s : Text) → IsText s → query_unescape (query_escape s) ≡ some s
unfolding query_unescape query_escape unescape_text
query_unescape-query_escape s h =
    rw
      (
        query_unescape,
        unescape_text,
        query_escape,
        unescape-escape_bytes true escape_query_byte (utf8_bytes s) unescape-escape_query_byte
            (utf8_bytes-All s h),
      )
      (utf8_text-utf8_bytes s)
