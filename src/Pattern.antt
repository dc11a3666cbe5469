-- ===== src/Pattern.antt =====
-- The regular expressions of the SDK as recognisers on code points: `eventLabelKeyPattern`
-- (validate.go), `environmentValuePattern` (environment.go), `DataScopeCodePattern` and
-- `dataScopeUUIDPattern` (admin_data_scopes.go), `rawIdempotencyKeyPattern` (raw_ingest.go) and
-- `timePlanUUIDPattern` (timeplan_validation.go).
pub mod Grammar
mod Tests
use custd_sdk_go.Base.{
  ==_iff, All, Bool, Bool-cases, List, Option, Option-cases, Result, Text, [], all, any, ap, ap₂,
  arith, byte_len, codes, drop, drop-drop, err, fail_if, false, has_prefix, has_prefix-append,
  if◌then◌else◌, inl, inr, insert, is_empty, is_empty_sound, is_none, is_some, is_space, leb,
  leb→le, length, length-append, length-drop, length-take, le→leb, lookup, lookup-insert, ltb,
  ltb→lt, lt→ltb, map, max, min, none, not, ok, refl, reject_if, require, reverse, rune_len, some,
  subst, suc, sym, take, take-append-drop, tests, text_eq, text_eq_sound, text_eq_iff, text_eq_refl,
  trim_left, trim_space, true, zero, ℕ, ◌%◌, ◌&&◌, ◌*◌, ◌++◌, ◌+◌, ◌-◌, ◌/◌, ◌<◌, ◌==◌, ◌>>=◌, ◌>>◌,
  ◌^◌, ◌orelse◌, ◌||◌, ◌↔◌, ◌∙◌, ◌∷◌, ◌≡◌, ◌≢◌, ◌≤◌, ◌⊎◌,
}

unfoldable pub is_lower : ℕ → Bool
is_lower c = leb b'a' c && leb c b'z'

unfoldable pub is_upper : ℕ → Bool
is_upper c = leb b'A' c && leb c b'Z'

unfoldable pub is_digit : ℕ → Bool
is_digit c = leb b'0' c && leb c b'9'

unfoldable pub is_lower_digit : ℕ → Bool
unfolding is_lower is_digit
is_lower_digit c = is_lower c || is_digit c

-- `[._-]`
unfoldable pub is_separator : ℕ → Bool
is_separator c = c == b'.' || c == b'_' || c == b'-'

-- `[a-z0-9]*(?:[._-][a-z0-9]+)*$`; the flag says that a separator stood just before.
unfoldable pub label_key_rest : Bool → Text → Bool
label_key_rest after_separator [] = not after_separator
label_key_rest after_separator (c ∷ s) =
    (is_lower_digit c || (is_separator c && not after_separator))
    && label_key_rest (not (is_lower_digit c)) s

-- `^[a-z][a-z0-9]*(?:[._-][a-z0-9]+)*$`
unfoldable pub label_key_matches : Text → Bool
unfolding label_key_rest is_lower_digit is_separator is_lower
label_key_matches [] = false
label_key_matches (c ∷ s) = is_lower c && label_key_rest false s

-- `^[a-z][a-z0-9-]{0,31}$`
unfoldable pub environment_matches : Text → Bool
unfolding is_lower_digit is_lower
environment_matches [] = false
environment_matches (c ∷ s) =
    is_lower c && all (λ d. is_lower_digit d || d == b'-') s && leb (length s) 31

unfoldable pub is_code_start : ℕ → Bool
unfolding is_lower_digit is_upper
is_code_start c = is_upper c || is_lower_digit c

unfoldable pub is_code_char : ℕ → Bool
unfolding is_code_start
is_code_char c = is_code_start c || c == b'.' || c == b'_' || c == b':' || c == b'-'

-- `^[A-Za-z0-9][A-Za-z0-9._:-]*$`
unfoldable pub code_matches : Text → Bool
unfolding is_code_start is_code_char
code_matches [] = false
code_matches (c ∷ s) = is_code_start c && all is_code_char s

-- One class of characters for each position, and nothing after the last.
unfoldable pub matches_each : List (ℕ → Bool) → Text → Bool
matches_each [] [] = true
matches_each [] (c ∷ s) = false
matches_each (p ∷ ps) [] = false
matches_each (p ∷ ps) (c ∷ s) = p c && matches_each ps s

-- `[0-9a-f]`
unfoldable pub is_hex : ℕ → Bool
is_hex c = (leb b'0' c && leb c b'9') || (leb b'a' c && leb c b'f')

-- `[0-9a-fA-F]`
unfoldable pub is_hex_any : ℕ → Bool
unfolding is_hex
is_hex_any c = is_hex c || (leb b'A' c && leb c b'F')

-- `[89ab]`, and with `(?i)`.
unfoldable pub is_variant : ℕ → Bool
is_variant c = c == b'8' || c == b'9' || c == b'a' || c == b'b'

unfoldable pub is_variant_any : ℕ → Bool
unfolding is_variant
is_variant_any c = is_variant c || c == b'A' || c == b'B'

unfoldable pub repeat {ℓ} : {A : Type ℓ} → ℕ → A → List A
repeat zero p = []
repeat (suc n) p = p ∷ repeat n p

-- The five groups of a UUID, with a class for its digits, its version and its variant.
unfoldable pub uuid_classes : (ℕ → Bool) → (ℕ → Bool) → (ℕ → Bool) → List (ℕ → Bool)
unfolding repeat
uuid_classes hex version variant =
    repeat 8 hex
    ++ dash ∷ repeat 4 hex
    ++ dash ∷ version ∷ repeat 3 hex
    ++ dash ∷ variant ∷ repeat 3 hex
    ++ dash ∷ repeat 12 hex
  where
    dash : ℕ → Bool
    dash c = c == b'-'

-- `rawIdempotencyKeyPattern`: a lowercase UUID of version 4.
unfoldable pub raw_key_matches : Text → Bool
unfolding matches_each uuid_classes is_hex is_variant
raw_key_matches s = matches_each (uuid_classes is_hex (λ c. c == b'4') is_variant) s

-- `dataScopeUUIDPattern`: any version, either case.
unfoldable pub data_scope_uuid_matches : Text → Bool
unfolding matches_each uuid_classes is_hex_any
data_scope_uuid_matches s = matches_each (uuid_classes is_hex_any is_hex_any is_hex_any) s

-- `timePlanUUIDPattern`: any version, the RFC 4122 variant, either case.
unfoldable pub time_plan_uuid_matches : Text → Bool
unfolding matches_each uuid_classes is_hex_any is_variant_any
time_plan_uuid_matches s = matches_each (uuid_classes is_hex_any is_hex_any is_variant_any) s
