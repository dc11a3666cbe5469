-- ===== src/Ids.antt =====
-- ids.go, and the idempotency key of raw_ingest.go. The sixteen random bytes and the clock are
-- arguments.
pub mod Uuid
pub mod RawKey
mod Tests
use Prim.Native.Nat.{bit_and, bit_or}
use custd_sdk_go.Base.{
  ==_iff, All, Bool, Bool-cases, List, Option, Option-cases, Result, Text, [], all, any, ap, ap₂,
  arith, byte_len, codes, drop, drop-drop, err, fail_if, false, has_prefix, has_prefix-append,
  if◌then◌else◌, inl, inr, insert, is_empty, is_empty_sound, is_none, is_some, is_space, leb,
  leb→le, length, length-append, length-drop, length-take, le→leb, lookup, lookup-insert, ltb,
  ltb→lt, lt→ltb, map, max, min, none, not, ok, refl, reject_if, require, reverse, rune_len, some,
  subst, suc, sym, take, take-append-drop, tests, text_eq, text_eq_sound, text_eq_iff, text_eq_refl,
  trim_left, trim_space, true, zero, ℕ, ◌%◌, ◌&&◌, ◌*◌, ◌++◌, ◌+◌, ◌-◌, ◌/◌, ◌<◌, ◌==◌, ◌>>=◌, ◌>>◌,
  ◌^◌, ◌orelse◌, ◌||◌, ◌↔◌, ◌∙◌, ◌∷◌, ◌≡◌, ◌≢◌, ◌≤◌, ◌⊎◌,
}
use custd_sdk_go.Base.Int.{ℤ, pos, negsuc}
use custd_sdk_go.Base.Decimal.{itoa, parse_digits}
use custd_sdk_go.Pattern.{raw_key_matches, is_digit}

pub record Bytes16 : Type 0 where
  pub b₀ : ℕ
  pub b₁ : ℕ
  pub b₂ : ℕ
  pub b₃ : ℕ
  pub b₄ : ℕ
  pub b₅ : ℕ
  pub b₆ : ℕ
  pub b₇ : ℕ
  pub b₈ : ℕ
  pub b₉ : ℕ
  pub b₁₀ : ℕ
  pub b₁₁ : ℕ
  pub b₁₂ : ℕ
  pub b₁₃ : ℕ
  pub b₁₄ : ℕ
  pub b₁₅ : ℕ

unfoldable pub hex_digit : ℕ → ℕ
hex_digit n = if ltb n 10 then 48 + n else 87 + n

-- Two lowercase digits for each byte of a slice, `%08x` and its like.
unfoldable pub hex_bytes : List ℕ → Text
unfolding hex_digit
hex_bytes [] = []
hex_bytes (b ∷ bs) = hex_digit (b / 16) ∷ hex_digit (b % 16) ∷ hex_bytes bs

-- `fmt.Sprintf("%08x-%04x-%04x-%04x-%012x", b[0:4], b[4:6], b[6:8], b[8:10], b[10:16])`
unfoldable pub format_uuid : Bytes16 → Text
unfolding hex_bytes
format_uuid b =
    hex_bytes (b.b₀ ∷ b.b₁ ∷ b.b₂ ∷ b.b₃ ∷ [])
    ++ (b'-'
        ∷ (hex_bytes (b.b₄ ∷ b.b₅ ∷ [])
            ++ (b'-'
                ∷ (hex_bytes (b.b₆ ∷ b.b₇ ∷ [])
                    ++ (b'-'
                        ∷ (hex_bytes (b.b₈ ∷ b.b₉ ∷ [])
                            ++ (b'-'
                                ∷ hex_bytes
                                    (b.b₁₀ ∷ b.b₁₁ ∷ b.b₁₂ ∷ b.b₁₃ ∷ b.b₁₄ ∷ b.b₁₅ ∷ []))))))))

-- `(b & 0x0f) | version`, and `(b & 0x3f) | 0x80`.
unfoldable pub set_version : ℕ → ℕ → ℕ
set_version version b = bit_or (bit_and b 0x0f) version

unfoldable pub set_variant : ℕ → ℕ
set_variant b = bit_or (bit_and b 0x3f) 0x80

unfoldable pub random_uuid : Bytes16 → Text
unfolding format_uuid
random_uuid b = format_uuid (record b { b₆ = set_version 0x40 b.b₆; b₈ = set_variant b.b₈ })

-- `byte(millis >> shift)`
millis_byte : ℕ → ℕ → ℕ
millis_byte millis shift = millis / 2 ^ shift % 256

unfoldable pub new_idempotency_key : ℕ → Bytes16 → Text
unfolding format_uuid millis_byte
new_idempotency_key millis b = format_uuid (record b {
  b₀ = millis_byte millis 40;
  b₁ = millis_byte millis 32;
  b₂ = millis_byte millis 24;
  b₃ = millis_byte millis 16;
  b₄ = millis_byte millis 8;
  b₅ = millis_byte millis 0;
  b₆ = set_version 0x70 b.b₆;
  b₈ = set_variant b.b₈;
})

unfoldable pub new_raw_request_idempotency_key : ℕ → Bytes16 → Text
unfolding random_uuid
new_raw_request_idempotency_key millis b = itoa millis ++ b':' ∷ random_uuid b

-- `strings.Cut` at one character: what stands before and after its first occurrence.
unfoldable pub cut : ℕ → Text → Option (Text × Text)
cut sep [] = none
cut sep (c ∷ s) =
    let rest = cut sep s in
    if c == sep then some ([], s) else elim rest [ none ↦ none | some r ↦ some (c ∷ r.0, r.1) ]

-- `strconv.ParseInt(s, 10, 64)`: an optional sign, digits, and the range of an `int64`.
unfoldable pub in_range : Bool → ℕ → Option ℤ
in_range false n = if ltb n (2 ^ 63) then some (pos n) else none
in_range true n = if leb n (2 ^ 63) then some (if n == 0 then pos 0 else negsuc (n - 1)) else none

unfoldable pub parse_unsigned : Bool → Text → Option ℤ
unfolding in_range
parse_unsigned negative s = elim (parse_digits s) [ none ↦ none | some n ↦ in_range negative n ]

unfoldable pub parse_int64 : Text → Option ℤ
unfolding parse_unsigned
parse_int64 [] = none
parse_int64 (c ∷ s) =
    if c == b'-'
    then parse_unsigned true s
    else if c == b'+'
    then parse_unsigned false s
    else parse_unsigned false (c ∷ s)

unfoldable pub is_positive : Option ℤ → Bool
is_positive none = false
is_positive (some (pos n)) = ltb 0 n
is_positive (some (negsuc n)) = false

-- `RawRequestIdempotencyKey.Validate`, which has one error: `true` is a key that it accepts.
unfoldable pub raw_key_is_valid : Text → Bool
unfolding cut parse_int64 is_positive
raw_key_is_valid key = elim (cut b':' key) [
  | none ↦ false
  | some (millis_part, uuid_part) ↦
      is_positive (parse_int64 millis_part) && raw_key_matches uuid_part
]
