-- ===== src/Ids/Uuid.antt =====
-- The texts that `randomUUID` and `NewIdempotencyKey` print are canonical UUIDs of versions 4, 7.
use custd_sdk_go.Base.{
  ==_iff, Bool, Bool-cases, Text, arith, inl, inr, refl, suc, true, zero, ℕ, ◌%◌, ◌&&◌, ◌/◌, ◌<◌,
  ◌==◌, ◌≡◌,
}
use custd_sdk_go.Pattern.{raw_key_matches, matches_each, uuid_classes, is_hex, is_variant, repeat}
use custd_sdk_go.Ids.{
  Bytes16, hex_digit, format_uuid, set_version, set_variant, random_uuid, new_idempotency_key,
  millis_byte,
}

-- Every byte is below 256.
pub record IsBytes (b : Bytes16) : Type 0 where
  pub h₀ : b.b₀ < 256
  pub h₁ : b.b₁ < 256
  pub h₂ : b.b₂ < 256
  pub h₃ : b.b₃ < 256
  pub h₄ : b.b₄ < 256
  pub h₅ : b.b₅ < 256
  pub h₆ : b.b₆ < 256
  pub h₇ : b.b₇ < 256
  pub h₈ : b.b₈ < 256
  pub h₉ : b.b₉ < 256
  pub h₁₀ : b.b₁₀ < 256
  pub h₁₁ : b.b₁₁ < 256
  pub h₁₂ : b.b₁₂ < 256
  pub h₁₃ : b.b₁₃ < 256
  pub h₁₄ : b.b₁₄ < 256
  pub h₁₅ : b.b₁₅ < 256

-- A test that holds at every byte, by evaluation.
holds_below : (ℕ → Bool) → ℕ → Bool
holds_below test zero = true
holds_below test (suc bound) = holds_below test bound && test bound

holds_below_at :
    (test : ℕ → Bool) (bound k : ℕ) → holds_below test bound ≡ true → k < bound → test k ≡ true
unfolding holds_below
holds_below_at test zero k h lt = elim lt [ ]
holds_below_at test (suc bound) k h lt = elim (Bool-cases (k == bound)) [
  | inl last ↦ rw ((==_iff k bound).0 last) (ground arith)
  | inr before ↦ holds_below_at test bound k (ground arith) (ground arith)
]

hex_digit-is_hex : (n : ℕ) → n < 16 → is_hex (hex_digit n) ≡ true
unfolding hex_digit is_hex
hex_digit-is_hex n h = ground arith

and_intro : {a b : Bool} → a ≡ true → b ≡ true → (a && b) ≡ true
and_intro h k = rw h k

left : (a b : Bool) → (a && b) ≡ true → a ≡ true
left a b h = ground arith

right : (a b : Bool) → (a && b) ≡ true → b ≡ true
right a b h = ground arith

-- The two digits of a byte, in front of the rest of a match.
byte_then :
    (b : ℕ) {rest : Bool}
    → b < 256
    → rest ≡ true
    → (is_hex (hex_digit (b / 16)) && (is_hex (hex_digit (b % 16)) && rest)) ≡ true
byte_then b h r =
    and_intro (hex_digit-is_hex (b / 16) (omega arith))
      (and_intro (hex_digit-is_hex (b % 16) (omega arith)) r)

version_table : (digit version : ℕ) → ℕ → Bool
version_table digit version b =
    (hex_digit (set_version version b / 16) == digit)
    && is_hex (hex_digit (set_version version b % 16))

version4_all : holds_below (version_table b'4' 0x40) 256 ≡ true
unfolding holds_below version_table set_version hex_digit is_hex
version4_all = refl

version7_all : holds_below (version_table b'7' 0x70) 256 ≡ true
unfolding holds_below version_table set_version hex_digit is_hex
version7_all = refl

variant_table : ℕ → Bool
variant_table b =
    is_variant (hex_digit (set_variant b / 16)) && is_hex (hex_digit (set_variant b % 16))

variant_all : holds_below variant_table 256 ≡ true
unfolding holds_below variant_table set_variant hex_digit is_hex is_variant
variant_all = refl

-- The pattern of a canonical UUID with a version digit.
unfoldable pub uuid_of_version : ℕ → Text → Bool
unfolding matches_each uuid_classes
uuid_of_version digit s = matches_each (uuid_classes is_hex (λ c. c == digit) is_variant) s

-- A formatted UUID whose version byte and variant byte are set as the tables say.
format_uuid-matches :
    (digit version : ℕ) (b : Bytes16)
    → holds_below (version_table digit version) 256 ≡ true
    → IsBytes b
    → uuid_of_version digit
        (format_uuid (record b { b₆ = set_version version b.b₆; b₈ = set_variant b.b₈ }))
      ≡ true
unfolding uuid_of_version format_uuid repeat version_table variant_table
format_uuid-matches digit version b table v =
    let v₆ = holds_below_at (version_table digit version) 256 b.b₆ table v.h₆ in
    let v₈ = holds_below_at variant_table 256 b.b₈ variant_all v.h₈ in
    byte_then b.b₀ v.h₀ (
      byte_then b.b₁ v.h₁ (
        byte_then b.b₂ v.h₂ (
          byte_then b.b₃ v.h₃ (
            byte_then b.b₄ v.h₄ (
              byte_then b.b₅ v.h₅ (
                and_intro (left _ _ v₆) (
                  and_intro (right _ _ v₆) (
                    byte_then b.b₇ v.h₇ (
                      and_intro (left _ _ v₈) (
                        and_intro (right _ _ v₈) (
                          byte_then b.b₉ v.h₉ (
                            byte_then b.b₁₀ v.h₁₀ (
                              byte_then b.b₁₁ v.h₁₁ (
                                byte_then b.b₁₂ v.h₁₂ (
                                  byte_then b.b₁₃ v.h₁₃ (
                                    byte_then b.b₁₄ v.h₁₄
                                      (byte_then b.b₁₅ v.h₁₅ refl)))))))))))))))))

-- `randomUUID` prints a canonical lowercase UUID of version 4 and of the RFC 4122 variant,
-- whatever the sixteen bytes are.
pub raw_key_matches-random_uuid : (b : Bytes16) → IsBytes b → raw_key_matches (random_uuid b) ≡ true
unfolding raw_key_matches random_uuid uuid_of_version
raw_key_matches-random_uuid b v = format_uuid-matches b'4' 0x40 b version4_all v

-- The six bytes that carry the clock.
with_millis : ℕ → Bytes16 → Bytes16
with_millis millis b = record b {
  b₀ = millis_byte millis 40;
  b₁ = millis_byte millis 32;
  b₂ = millis_byte millis 24;
  b₃ = millis_byte millis 16;
  b₄ = millis_byte millis 8;
  b₅ = millis_byte millis 0;
}

with_millis-IsBytes : (millis : ℕ) (b : Bytes16) → IsBytes b → IsBytes (with_millis millis b)
unfolding with_millis millis_byte
with_millis-IsBytes millis b v = omega arith

-- `NewIdempotencyKey` prints a canonical lowercase UUID of version 7 and of the RFC 4122 variant,
-- whatever the clock and the random bytes are.
pub uuid_of_version-new_idempotency_key :
    (millis : ℕ) (b : Bytes16)
    → IsBytes b
    → uuid_of_version b'7' (new_idempotency_key millis b) ≡ true
unfolding new_idempotency_key with_millis
uuid_of_version-new_idempotency_key millis b v =
    format_uuid-matches b'7' 0x70 (with_millis millis b) version7_all
      (with_millis-IsBytes millis b v)
