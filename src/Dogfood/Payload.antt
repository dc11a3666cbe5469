-- ===== src/Dogfood/Payload.antt =====
-- What the payload of a dogfood event holds.
use custd_sdk_go.Base.{
  Bool-cases, List, Option, Text, [], arith, codes, false, inl, inr, lookup, none, refl, some, true,
  ℕ, ◌∷◌, ◌≡◌, sym, subst, ◌∙◌, is_empty, text_eq, text_eq_iff, if◌then◌else◌,
}
use custd_sdk_go.Pattern.{is_upper}
use custd_sdk_go.Dogfood.{
  Value, Fields, string, end, field, lookup_field, set_field, DogfoodEventInput, lower, field_key,
  payload_field_allowed, sanitize_fields, set_source, dogfood_payload, protected_payload_fields,
}
use custd_sdk_go.Dogfood.Cleaning.{IsCleanOutsideLists, sanitize-keeps}

lookup-set_field :
    (k j : Text) (v : Value) (fs : Fields)
    → lookup_field j (set_field k v fs) ≡ (if text_eq k j then some v else lookup_field j fs)
unfolding lookup_field set_field
lookup-set_field k j v end = refl
lookup-set_field k j v (field i w fs) =
    ground (arith, text_eq_iff k j, text_eq_iff i k, text_eq_iff i j, lookup-set_field k j v fs)

-- The four fields that the input always puts into the payload.
abbrev pub fixed_fields : DogfoodEventInput → List (Text × Text)
fixed_fields input =
    (codes "schemaVersion", input.schema_version)
    ∷ (codes "environment", input.environment)
    ∷ (codes "sourceCompany", input.source_company)
    ∷ (codes "sourceSystem", input.source_system)
    ∷ []

-- All that the input itself puts there: a correlation id if it is given.
abbrev pub source_fields : DogfoodEventInput → List (Text × Text)
source_fields input =
    if is_empty input.correlation_id
    then fixed_fields input
    else (codes "correlationId", input.correlation_id) ∷ fixed_fields input

-- A field of the input, or else what the caller gives.
source_or : Option Value → Option Text → Option Value
source_or given none = given
source_or given (some s) = some (string s)

set_field-source_or :
    (k j s : Text) (fs : Fields) (given : Option Value) (sources : List (Text × Text))
    → lookup_field j fs ≡ source_or given (lookup j sources)
    → lookup_field j (set_field k (string s) fs) ≡ source_or given (lookup j ((k, s) ∷ sources))
unfolding lookup source_or
set_field-source_or k j s fs given sources h =
    lookup-set_field k j (string s) fs
    ∙ elim (Bool-cases (text_eq k j)) [ inl same ↦ rw same refl | inr differs ↦ rw differs h ]

module _ (lower_rune : ℕ → ℕ) where
  -- The payload by lookup: the input's own fields first, then the cleaned caller's fields.
  lookup-dogfood_payload :
      (input : DogfoodEventInput) (key : Text)
      → lookup_field key (dogfood_payload lower_rune input)
        ≡ source_or
            (lookup_field key (sanitize_fields lower_rune input.payload))
            (lookup key (source_fields input))
  unfolding dogfood_payload set_source lookup source_or
  lookup-dogfood_payload input key =
      let given = lookup_field key (sanitize_fields lower_rune input.payload) in
      let system : List (Text × Text) = (codes "sourceSystem", input.source_system) ∷ [] in
      let company : List (Text × Text) = (codes "sourceCompany", input.source_company) ∷ system in
      let environment : List (Text × Text) = (codes "environment", input.environment) ∷ company in
      let fixed = set_field-source_or _ key input.schema_version _ given environment (
        set_field-source_or _ key input.environment _ given company (
          set_field-source_or _ key input.source_company _ given system (
            set_field-source_or _ key input.source_system (sanitize_fields lower_rune input.payload)
              given [] refl))) in
      elim (Bool-cases (is_empty input.correlation_id)) [
        | inl missing ↦ rw (missing, dogfood_payload) fixed
        | inr present ↦
            rw (present, dogfood_payload)
              (set_field-source_or _ key input.correlation_id _ given (fixed_fields input) fixed)
      ]

  allowed_differs :
      (name key : Text)
      → payload_field_allowed lower_rune name ≡ false
      → payload_field_allowed lower_rune key ≡ true
      → text_eq name key ≡ false
  allowed_differs name key refused allowed = elim (Bool-cases (text_eq name key)) [
    | inl same ↦
        let e =
          subst (λ x. payload_field_allowed lower_rune x ≡ true)
            (sym ((text_eq_iff name key).0 same)) allowed in
        absurd (ground arith)
    | inr differs ↦ differs
  ]

  -- No field that the input sets has a key that a caller may use.
  allowed-source_fields :
      (input : DogfoodEventInput) (key : Text)
      → payload_field_allowed lower_rune key ≡ true
      → lookup key (source_fields input) ≡ none
  unfolding payload_field_allowed field_key lower codes is_upper text_eq protected_payload_fields
      lookup
  allowed-source_fields input key a =
      let correlation = allowed_differs (codes "correlationId") key refl a in
      let schema = allowed_differs (codes "schemaVersion") key refl a in
      let environment = allowed_differs (codes "environment") key refl a in
      let company = allowed_differs (codes "sourceCompany") key refl a in
      let system = allowed_differs (codes "sourceSystem") key refl a in
      elim (Bool-cases (is_empty input.correlation_id)) [
        | inl e ↦ rw (e, schema, environment, company, system) refl
        | inr e ↦ rw (e, correlation, schema, environment, company, system) refl
      ]

  -- What the caller puts under a key that is neither protected nor forbidden, with no such key
  -- inside, is in the payload unchanged.
  pub dogfood_payload-keeps :
      (input : DogfoodEventInput) (key : Text) (v : Value)
      → payload_field_allowed lower_rune key ≡ true
      → lookup_field key input.payload ≡ some v
      → IsCleanOutsideLists lower_rune v
      → lookup_field key (dogfood_payload lower_rune input) ≡ some v
  unfolding source_or
  dogfood_payload-keeps input key v allowed given c =
      let unset = allowed-source_fields input key allowed in
      lookup-dogfood_payload input key
      ∙ rw unset (sanitize-keeps lower_rune key input.payload v allowed given c)
