-- ===== src/RawIngest/Receipt.antt =====
-- The acceptance body of an upload.
use custd_sdk_go.Base.{
  Bool, Option, Option-cases, Text, arith, codes, false, inl, inr, none, ok, some, trim_space, ℕ,
  ◌≡◌, ◌↔◌, is_empty, bind_ok, ok_injective, subst,
}
use custd_sdk_go.Base.Int.{ℤ, pos, negsuc}
use custd_sdk_go.Ids.{parse_int64}
use custd_sdk_go.Response.{
  ResponseError, RawFields, JsonReader, absent, raw_of, fields_or, decode_json_object,
  require_json_boolean, require_json_natural, no_number, natural_or, read_natural, not_object,
  not_natural,
}
use custd_sdk_go.Response.Fields.{Holds, absent-Holds, Holds-absent}
use custd_sdk_go.RawIngest.{RawIngestResult, decode_raw_ingest_result}

natural_or_sound :
    (e : ResponseError) (o : Option ℤ) (n : ℕ) → natural_or e o ≡ ok n → o ≡ some (pos n)
unfolding natural_or
natural_or_sound e none n h = absurd (ground arith)
natural_or_sound e (some (pos m)) n h = ground arith
natural_or_sound e (some (negsuc m)) n h = absurd (ground arith)

fields_or_sound :
    (e : ResponseError) (o : Option (Option RawFields)) (fields : RawFields)
    → fields_or e o ≡ ok fields
    → o ≡ some (some fields)
unfolding fields_or
fields_or_sound e none fields h = absurd (ground arith)
fields_or_sound e (some none) fields h = absurd (ground arith)
fields_or_sound e (some (some found)) fields h = ground arith

module _ (json : JsonReader) where
  read_natural-Reads :
      (name raw : Text) (n : ℕ)
      → read_natural json name raw ≡ ok n
      → (digits : Text) × (json.number raw ≡ some digits) × (parse_int64 digits ≡ some (pos n))
  unfolding read_natural
  read_natural-Reads name raw n h = elim (Option-cases (json.number raw)) [
    | inl e ↦ absurd (ground arith)
    | inr (digits, e) ↦
        (digits, e, natural_or_sound (not_natural name) (parse_int64 digits) n (ground arith))
  ]

  -- The field reads as a Boolean.
  abbrev HasBoolean : RawFields → Text → Bool → Type 0
  HasBoolean fields name b =
      (value : Text) × Holds fields name value × (json.boolean value ≡ some b)

  -- The field is a JSON number whose digits read as an `int64` that is not negative.
  abbrev HasNatural : RawFields → Text → ℕ → Type 0
  HasNatural fields name n =
      (value : Text) × (digits : Text) × Holds fields name value
      × (no_number (trim_space value) ≡ false)
      × (json.number value ≡ some digits)
      × (parse_int64 digits ≡ some (pos n))

  require_json_boolean_iff :
      (fields : RawFields) (name : Text) (b : Bool)
      → (require_json_boolean json fields name ≡ ok b) ↔ HasBoolean fields name b
  unfolding require_json_boolean
  require_json_boolean_iff fields name b = (
    λ h.
        let there : absent fields name ≡ false = ground arith in
        (raw_of fields name, absent-Holds fields name there, ground arith),
    λ (value, held, reads).
        let there = Holds-absent fields name value held in
        rw (there.0, there.1, reads, require_json_boolean),
  )

  require_json_natural_iff :
      (fields : RawFields) (name : Text) (n : ℕ)
      → (require_json_natural json fields name ≡ ok n) ↔ HasNatural fields name n
  unfolding require_json_natural read_natural natural_or
  require_json_natural_iff fields name n = (
    λ h.
        let there : absent fields name ≡ false = ground arith in
        let raw = raw_of fields name in
        let numeric : no_number (trim_space raw) ≡ false = ground arith in
        let (digits, reads, counts) = read_natural-Reads name raw n (ground arith) in
        (raw, digits, absent-Holds fields name there, numeric, reads, counts),
    λ (value, digits, held, numeric, reads, counts).
        let there = Holds-absent fields name value held in
        rw (
          there.0, there.1, numeric, require_json_natural, reads, read_natural, counts, natural_or,
        ),
  )

  -- A JSON object with the three fields of the result.
  abbrev pub IsReceipt : Text → RawIngestResult → Type 0
  IsReceipt body r =
      (fields : RawFields) × (is_empty body ≡ false)
      × (json.object body ≡ some (some fields))
      × HasBoolean fields (codes "success") r.success
      × HasNatural fields (codes "processed") r.processed
      × HasNatural fields (codes "failed") r.failed

  decode_json_object_iff :
      (body : Text) (fields : RawFields)
      → (decode_json_object json body ≡ ok fields)
        ↔ ((is_empty body ≡ false) × (json.object body ≡ some (some fields)))
  unfolding decode_json_object fields_or
  decode_json_object_iff body fields = (
    λ h.
        let given : is_empty body ≡ false = ground arith in
        (given, fields_or_sound not_object (json.object body) fields (ground arith)),
    λ (given, opened). rw (given, opened, decode_json_object, fields_or),
  )

  -- A body decodes to a result exactly if it is a JSON object with a Boolean `success` and numbers
  -- `processed` and `failed` that are integers and not negative, which are those of the result.
  pub decode_raw_ingest_result_iff :
      (body : Text) (r : RawIngestResult)
      → (decode_raw_ingest_result json body ≡ ok r) ↔ IsReceipt body r
  unfolding decode_raw_ingest_result
  decode_raw_ingest_result_iff body r = (
    λ h.
        let (fields, opened, h₁) = bind_ok (decode_json_object json body) _ r h in
        let (success, first, h₂) =
          bind_ok (require_json_boolean json fields (codes "success")) _ r h₁ in
        let (processed, second, h₃) =
          bind_ok (require_json_natural json fields (codes "processed")) _ r h₂ in
        let (failed, third, h₄) =
          bind_ok (require_json_natural json fields (codes "failed")) _ r h₃ in
        let (given, found) = (decode_json_object_iff body fields).0 opened in
        subst (λ s. IsReceipt body s) (ok_injective _ r h₄)
          (
            fields,
            given,
            found,
            (require_json_boolean_iff fields (codes "success") success).0 first,
            (require_json_natural_iff fields (codes "processed") processed).0 second,
            (require_json_natural_iff fields (codes "failed") failed).0 third,
          ),
    λ (fields, given, opened, success, processed, failed).
        let opens = (decode_json_object_iff body fields).1 (given, opened) in
        let first = (require_json_boolean_iff fields (codes "success") r.success).1 success in
        let second =
          (require_json_natural_iff fields (codes "processed") r.processed).1 processed in
        let third = (require_json_natural_iff fields (codes "failed") r.failed).1 failed in
        rw (decode_raw_ingest_result, opens, first, second, third),
  )
