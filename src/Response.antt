-- ===== src/Response.antt =====
-- response.go, and the two checks of single fields in raw_ingest.go: what a success body must hold
-- before it is decoded. The readings of raw JSON by encoding/json are parameters.
pub mod Fields
use custd_sdk_go.Base.{
  ℕ, ◌+◌, List, [], ◌∷◌, Bool, true, false, not, ◌&&◌, ◌||◌, Option, none, some, Result, ok, err,
  Text, codes, text_eq, is_empty, trim_space, lookup, if◌then◌else◌, ◌==◌, leb, ltb, ◌>>=◌,
}
use custd_sdk_go.Base.Int.{ℤ, pos, negsuc}
use custd_sdk_go.Ids.{parse_int64}

-- A `ResponseValidationError`: what is wrong, and in which field or item.
pub data ResponseError : Type 0 where
  empty_body not_object : ResponseError
  field_required field_not_object field_not_list : Text → ResponseError
  item_not_object : Text → ℕ → ResponseError
  item_field_required : Text → ℕ → Text → ResponseError
  not_boolean not_integer not_natural : Text → ResponseError

abbrev pub RawFields : Type 0
RawFields = List (Text × Text)

-- `json.Unmarshal` into a map of raw fields (`some none` for null), a list of raw items, a `bool`
-- and a `json.Number`; `none` is its error.
pub record JsonReader : Type 0 where
  pub object : Text → Option (Option RawFields)
  pub list : Text → Option (List Text)
  pub boolean : Text → Option Bool
  pub number : Text → Option Text

unfoldable pub absent : RawFields → Text → Bool
absent fields name = elim (lookup name fields) [
  | none ↦ true
  | some value ↦ text_eq value (codes "null")
]

unfoldable pub raw_of : RawFields → Text → Text
raw_of fields name = elim (lookup name fields) [ none ↦ [] | some value ↦ value ]

-- The first of the names that is absent.
unfoldable pub first_absent : RawFields → List Text → Option Text
unfolding absent
first_absent fields [] = none
first_absent fields (name ∷ names) =
    let rest = first_absent fields names in if absent fields name then some name else rest

unfoldable pub require_json_fields : RawFields → List Text → Option ResponseError
unfolding first_absent
require_json_fields fields names = elim (first_absent fields names) [
  | none ↦ none
  | some name ↦ some (field_required name)
]

-- What a decoding into a map came to: an error and null are refused alike.
unfoldable pub fields_or :
    ResponseError → Option (Option RawFields) → Result ResponseError RawFields
fields_or e none = err e
fields_or e (some none) = err e
fields_or e (some (some fields)) = ok fields

-- `trimmed == "" || (trimmed[0] != '-' && (trimmed[0] < '0' || trimmed[0] > '9'))`
unfoldable pub no_number : Text → Bool
no_number [] = true
no_number (c ∷ s) = not (c == b'-') && (ltb c b'0' || ltb b'9' c)

unfoldable pub natural_or : ResponseError → Option ℤ → Result ResponseError ℕ
natural_or e none = err e
natural_or e (some (pos n)) = ok n
natural_or e (some (negsuc n)) = err e

module _ (json : JsonReader) where
  unfoldable pub decode_json_object : Text → Result ResponseError RawFields
  unfolding fields_or
  decode_json_object body =
      if is_empty body then err empty_body else fields_or not_object (json.object body)

  unfoldable pub require_nested : RawFields → Text → List Text → Option ResponseError
  unfolding fields_or require_json_fields raw_of
  require_nested fields name required =
      elim (fields_or (field_not_object name) (json.object (raw_of fields name))) [
        | err e ↦ some e
        | ok object ↦ require_json_fields object required
      ]

  unfoldable pub require_json_object : RawFields → Text → List Text → Option ResponseError
  unfolding require_nested absent
  require_json_object fields name required =
      if absent fields name then some (field_required name) else require_nested fields name required

  -- One item of a list.
  unfoldable pub check_item : Text → List Text → ℕ → Text → Option ResponseError
  unfolding fields_or first_absent
  check_item name required index item =
      elim (fields_or (item_not_object name index) (json.object item)) [
        | err e ↦ some e
        | ok object ↦ elim (first_absent object required) [
          | none ↦ none
          | some missing ↦ some (item_field_required name index missing)
        ]
      ]

  unfoldable pub check_items : Text → List Text → ℕ → List Text → Option ResponseError
  unfolding check_item
  check_items name required index [] = none
  check_items name required index (item ∷ items) = elim (check_item name required index item) [
    | some e ↦ some e
    | none ↦ check_items name required (index + 1) items
  ]

  unfoldable pub require_items : RawFields → Text → List Text → Option ResponseError
  unfolding check_items raw_of
  require_items fields name required = elim (json.list (raw_of fields name)) [
    | none ↦ some (field_not_list name)
    | some items ↦ check_items name required 0 items
  ]

  unfoldable pub require_json_object_list : RawFields → Text → List Text → Option ResponseError
  unfolding require_items absent
  require_json_object_list fields name required =
      if absent fields name then some (field_required name) else require_items fields name required

  unfoldable pub require_json_boolean : RawFields → Text → Result ResponseError Bool
  unfolding absent raw_of
  require_json_boolean fields name =
      if absent fields name
      then err (field_required name)
      else elim (json.boolean (raw_of fields name)) [
        | none ↦ err (not_boolean name)
        | some value ↦ ok value
      ]

  unfoldable pub read_natural : Text → Text → Result ResponseError ℕ
  unfolding natural_or
  read_natural name raw = elim (json.number raw) [
    | none ↦ err (not_integer name)
    | some digits ↦ natural_or (not_natural name) (parse_int64 digits)
  ]

  unfoldable pub require_json_natural : RawFields → Text → Result ResponseError ℕ
  unfolding absent raw_of no_number read_natural
  require_json_natural fields name =
      if absent fields name
      then err (field_required name)
      else if no_number (trim_space (raw_of fields name))
      then err (not_integer name)
      else read_natural name (raw_of fields name)
