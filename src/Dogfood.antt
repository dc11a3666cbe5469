-- ===== src/Dogfood.antt =====
-- dogfood.go: the event that a dogfood producer sends, with its payload cleaned of credentials. The
-- lower case of a rune beyond ASCII, the marshalling of the payload and the clock are parameters.
pub mod Cleaning
pub mod Payload
pub mod Accepted
mod Tests
use custd_sdk_go.Base.{
  ℕ, ◌+◌, List, [], ◌∷◌, Bool, true, false, not, ◌&&◌, Option, none, some, Result, ok, err, Text,
  codes, is_empty, if◌then◌else◌, ltb, ◌==◌, text_eq, any,
}
use custd_sdk_go.Pattern.{is_upper}
use custd_sdk_go.Event.{EventEnvelope, collect_missing_required_fields}
use custd_sdk_go.Client.{Host, fill_envelope_defaults}

-- A Go `any`: a string, a `map[string]any`, a list, or any other value, with its JSON.
mutual
  pub data Value : Type 0 where
    string other : Text → Value
    object : Fields → Value
    list : Items → Value

  pub data Items : Type 0 where
    none_left : Items
    item : Value → Items → Items

  pub data Fields : Type 0 where
    end : Fields
    field : Text → Value → Fields → Fields

unfoldable pub lookup_field : Text → Fields → Option Value
lookup_field key end = none
lookup_field key (field k v rest) =
    let found = lookup_field key rest in if text_eq k key then some v else found

-- `payload[key] = value`
unfoldable pub set_field : Text → Value → Fields → Fields
set_field key value end = field key value end
set_field key value (field k v rest) =
    let changed = set_field key value rest in
    if text_eq k key then field key value rest else field k v changed

unfoldable pub protected_payload_fields : List Text
protected_payload_fields =
    codes "sourcesystem"
    ∷ codes "sourcecompany"
    ∷ codes "environment"
    ∷ codes "schemaversion"
    ∷ codes "correlationid"
    ∷ []

unfoldable pub forbidden_payload_fields : List Text
forbidden_payload_fields =
    codes "apikey"
    ∷ codes "authorization"
    ∷ codes "password"
    ∷ codes "rawapiresponse"
    ∷ codes "token"
    ∷ codes "signedurl"
    ∷ codes "rawprompt"
    ∷ codes "oauthcode"
    ∷ codes "devicesecret"
    ∷ codes "providercredential"
    ∷ []

-- `DogfoodEventInput`; the payload is `end` where the Go map is nil.
pub record DogfoodEventInput : Type 0 where
  pub event_type_slug : Text
  pub schema_version : Text
  pub company_slug : Text
  pub source_system : Text
  pub source_company : Text
  pub environment : Text
  pub correlation_id : Text
  pub payload : Fields

pub data DogfoodError : Type 0 where
  input_required not_marshalled : DogfoodError
  missing_dogfood_fields : List Text → DogfoodError

module _ (lower_rune : ℕ → ℕ) where
  -- `unicode.ToLower`.
  unfoldable pub lower : ℕ → ℕ
  lower c = if is_upper c then c + 32 else if ltb c 128 then c else lower_rune c

  -- `strings.ToLower(strings.ReplaceAll(key, "_", ""))`
  unfoldable pub field_key : Text → Text
  unfolding lower
  field_key [] = []
  field_key (c ∷ s) = let rest = field_key s in if c == b'_' then rest else lower c ∷ rest

  unfoldable pub payload_field_allowed : Text → Bool
  unfolding field_key
  payload_field_allowed key =
      not (any (text_eq (field_key key)) protected_payload_fields)
      && not (any (text_eq (field_key key)) forbidden_payload_fields)

  unfoldable mutual
    unfolding payload_field_allowed

    pub sanitize_value : Value → Value
    sanitize_value (string s) = string s
    sanitize_value (other s) = other s
    sanitize_value (list items) = list items
    sanitize_value (object fields) = object (sanitize_fields fields)

    pub sanitize_fields : Fields → Fields
    sanitize_fields end = end
    sanitize_fields (field key value rest) =
        let cleaned = sanitize_fields rest in
        let child = sanitize_value value in
        if payload_field_allowed key then field key child cleaned else cleaned

  -- The four fields that every payload gets.
  unfoldable pub set_source : DogfoodEventInput → Fields → Fields
  unfolding set_field
  set_source input fields = set_field (codes "schemaVersion") (string input.schema_version) (
      set_field (codes "environment") (string input.environment) (
        set_field (codes "sourceCompany") (string input.source_company)
          (set_field (codes "sourceSystem") (string input.source_system) fields)))

  unfoldable pub dogfood_payload : DogfoodEventInput → Fields
  unfolding set_source sanitize_fields
  dogfood_payload input =
      let sourced = set_source input (sanitize_fields input.payload) in
      if is_empty input.correlation_id
      then sourced
      else set_field (codes "correlationId") (string input.correlation_id) sourced

unfoldable pub missing_dogfood : DogfoodEventInput → List Text
unfolding collect_missing_required_fields
missing_dogfood input = collect_missing_required_fields (
    (codes "eventTypeSlug", is_empty input.event_type_slug)
    ∷ (codes "schemaVersion", is_empty input.schema_version)
    ∷ (codes "companySlug", is_empty input.company_slug)
    ∷ (codes "sourceSystem", is_empty input.source_system)
    ∷ (codes "sourceCompany", is_empty input.source_company)
    ∷ (codes "environment", is_empty input.environment)
    ∷ [])

unfoldable pub validate_dogfood_input : DogfoodEventInput → Option DogfoodError
unfolding missing_dogfood
validate_dogfood_input input = elim (missing_dogfood input) [
  | [] ↦ none
  | name ∷ names ↦ some (missing_dogfood_fields (name ∷ names))
]

-- The clock is an argument.
unfoldable pub dogfood_envelope : Text → DogfoodEventInput → Text → EventEnvelope
dogfood_envelope now input payload = record {
  event_uuid = [];
  event_type_slug = input.event_type_slug;
  schema_version = input.schema_version;
  timestamp = now;
  session_id = [];
  anonymous_id = [];
  user_uuid = [];
  company_slug = input.company_slug;
  environment = [];
  labels = none;
  context = record {
    page = none;
    device = some (record { kind = codes "server"; os = []; browser = [] });
    locale = [];
    timezone = [];
    ip = [];
  };
  payload = some payload;
}

module _ {W : Type 0} (lower_rune : ℕ → ℕ) (marshal : Fields → Option Text) (now : Text)
    (uuid : W → Text × W) where
  unfoldable pub build_dogfood_event : DogfoodEventInput → W → Result DogfoodError EventEnvelope × W
  unfolding dogfood_payload dogfood_envelope
  build_dogfood_event input w = elim (marshal (dogfood_payload lower_rune input)) [
    | none ↦ (err not_marshalled, w)
    | some payload ↦
        let (event, w') = fill_envelope_defaults uuid (dogfood_envelope now input payload) w in
        (ok event, w')
  ]

  unfoldable pub new_dogfood_event :
      Option DogfoodEventInput → W → Result DogfoodError EventEnvelope × W
  unfolding build_dogfood_event validate_dogfood_input
  new_dogfood_event none w = (err input_required, w)
  new_dogfood_event (some input) w = elim (validate_dogfood_input input) [
    | some e ↦ (err e, w)
    | none ↦ build_dogfood_event input w
  ]
