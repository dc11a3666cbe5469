-- ===== src/Dogfood/Tests.antt =====
-- An input whose caller gives a token and, inside an object, a password, and tries to set a
-- protected field.
use custd_sdk_go.Base.{
  Option, Text, [], arith, codes, none, ok, refl, some, ℕ, ◌+◌, ◌∷◌, ◌≡◌, ◌≢◌, text_eq,
}
use custd_sdk_go.Pattern.{is_upper}
use custd_sdk_go.Event.{EventEnvelope, validate_event}
use custd_sdk_go.Dogfood.{
  Fields, string, other, list, object, none_left, item, end, sanitize_fields, field,
  DogfoodEventInput, protected_payload_fields, forbidden_payload_fields, new_dogfood_event,
}
use custd_sdk_go.Dogfood.Accepted.{IsComplete, new_dogfood_event-validate_event}

abbrev inner : Fields
inner = field (codes "count") (other (codes "3")) end

abbrev input_of : Fields → DogfoodEventInput
input_of payload = record {
  event_type_slug = codes "build.finished";
  schema_version = codes "1";
  company_slug = codes "acme";
  source_system = codes "ci";
  source_company = codes "acme";
  environment = codes "dev";
  correlation_id = [];
  payload = payload;
}

abbrev given : Fields
given = field (codes "To_ken") (string (codes "t")) (
    field (codes "Environment") (string (codes "prod")) (
      field (codes "job") (object (field (codes "password") (string (codes "p")) inner))
        (field (codes "step") (object inner) end)))

-- The identity is enough for the runes beyond ASCII.
abbrev same_rune : ℕ → ℕ
same_rune c = c

-- An object inside a list keeps its token.
abbrev listed : Fields
listed =
    field (codes "steps")
      (list (item (object (field (codes "token") (string (codes "t")) end)) none_left)) end

list_untouched : sanitize_fields same_rune listed ≡ listed
unfolding sanitize_fields codes protected_payload_fields forbidden_payload_fields text_eq is_upper
list_untouched = refl

-- Identifiers are numbered from the world.
abbrev numbered : ℕ → Text × ℕ
numbered w = (w ∷ [], w + 1)

abbrev braces : Fields → Option Text
braces _ = some (codes "{}")

input-IsComplete : IsComplete (input_of given)
unfolding codes
input-IsComplete = (
  λ e. absurd (ground arith),
  λ e. absurd (ground arith),
  λ e. absurd (ground arith),
  λ e. absurd (ground arith),
  λ e. absurd (ground arith),
  λ e. absurd (ground arith),
)

now_is_given : codes "2026-01-01T00:00:00Z" ≢ []
unfolding codes
now_is_given e = absurd (ground arith)

numbers_are_given : (w : ℕ) → (numbered w).0 ≢ []
numbers_are_given w e = absurd (ground arith)

new_dogfood_event-validate_event_example :
    (event : EventEnvelope) × ((new_dogfood_event same_rune braces
        (codes "2026-01-01T00:00:00Z")
        numbered
        (some (input_of given))
        7).0
      ≡ ok event)
    × (validate_event event ≡ none)
new_dogfood_event-validate_event_example =
    new_dogfood_event-validate_event same_rune braces (codes "2026-01-01T00:00:00Z") numbered
      (input_of given) 7 (codes "{}") input-IsComplete refl now_is_given numbers_are_given
