-- ===== src/Response/Fields.antt =====
-- What a body that passes the checks of its fields holds.
use custd_sdk_go.Base.{
  All, Bool-cases, List, Option, Option-cases, Text, [], arith, codes, false, inl, inr, lookup,
  none, refl, some, text_eq, text_eq_iff, ℕ, ◌+◌, ◌∷◌, ◌≡◌, ◌≢◌, ◌↔◌,
}
use custd_sdk_go.Response.{
  RawFields, JsonReader, absent, raw_of, first_absent, fields_or, check_item, check_items,
  require_items, require_json_object_list,
}

-- The field is there and is not null.
abbrev pub Holds : RawFields → Text → Text → Type 0
Holds fields name value = (lookup name fields ≡ some value) × (value ≢ codes "null")

abbrev pub HasField : RawFields → Text → Type 0
HasField fields name = (value : Text) × Holds fields name value

pub absent-Holds :
    (fields : RawFields) (name : Text)
    → absent fields name ≡ false
    → Holds fields name (raw_of fields name)
unfolding absent raw_of
absent-Holds fields name h = elim (Option-cases (lookup name fields)) [
  | inl missing ↦ absurd (ground arith)
  | inr (value, found) ↦
      rw (found, raw_of)
        (
          refl,
          λ null. let same = (text_eq_iff value (codes "null")).1 null in absurd (ground arith),
        )
]

pub Holds-absent :
    (fields : RawFields) (name value : Text)
    → Holds fields name value
    → (absent fields name ≡ false) × (raw_of fields name ≡ value)
unfolding absent raw_of
Holds-absent fields name value (found, given) = elim (Bool-cases (text_eq value (codes "null"))) [
  | inl null ↦ absurd (given ((text_eq_iff value (codes "null")).0 null))
  | inr fine ↦ (ground arith, ground arith)
]

pub first_absent-HasField :
    (fields : RawFields) (names : List Text)
    → (first_absent fields names ≡ none) ↔ All (HasField fields) names
unfolding first_absent
first_absent-HasField fields [] = (λ h. tt, λ h. refl)
first_absent-HasField fields (name ∷ names) = (
  λ h. (
    (raw_of fields name, absent-Holds fields name (ground arith)),
    (first_absent-HasField fields names).0 (ground arith),
  ),
  λ h.
      let there = (Holds-absent fields name h.0.0 h.0.1).0 in
      let rest = (first_absent-HasField fields names).1 h.1 in ground arith,
)

module _ (json : JsonReader) (name : Text) (required : List Text) where
  -- An object with each of the required fields.
  abbrev pub IsItem : Text → Type 0
  IsItem item =
      (object : RawFields) × (json.object item ≡ some (some object))
      × All (HasField object) required

  check_item-IsItem :
      (index : ℕ) (item : Text) → (check_item json name required index item ≡ none) ↔ IsItem item
  unfolding check_item fields_or
  check_item-IsItem index item = (sound, complete)
    where
      opened :
          (o : Option (Option RawFields))
          → json.object item ≡ o
          → check_item json name required index item ≡ none
          → IsItem item
      opened none e h = absurd (ground arith)
      opened (some none) e h = absurd (ground arith)
      opened (some (some object)) e h =
          (object, e, (first_absent-HasField object required).0 (ground arith))

      sound : check_item json name required index item ≡ none → IsItem item
      sound h = opened (json.object item) refl h

      complete : IsItem item → check_item json name required index item ≡ none
      complete (object, e, held) =
          let all_there = (first_absent-HasField object required).1 held in ground arith

  check_items-IsItem :
      (index : ℕ) (items : List Text)
      → (check_items json name required index items ≡ none) ↔ All IsItem items
  unfolding check_items
  check_items-IsItem index [] = (λ h. tt, λ h. refl)
  check_items-IsItem index (item ∷ items) = (
    λ h. elim (Option-cases (check_item json name required index item)) [
      | inl passed ↦ (
        (check_item-IsItem index item).0 passed,
        (check_items-IsItem (index + 1) items).0 (ground arith),
      )
      | inr (e, refused) ↦ absurd (ground arith)
    ],
    λ h.
        let first = (check_item-IsItem index item).1 h.0 in
        let rest = (check_items-IsItem (index + 1) items).1 h.1 in ground arith,
  )

  -- The field is there and not null, and reads as a list of items with the required fields.
  abbrev pub IsObjectList : RawFields → Type 0
  IsObjectList fields =
      (value : Text) × Holds fields name value
      × ((items : List Text) × (json.list value ≡ some items) × All IsItem items)

  read_items :
      (fields : RawFields) (value : Text) (listed : Option (List Text))
      → Holds fields name value
      → raw_of fields name ≡ value
      → json.list value ≡ listed
      → require_items json fields name required ≡ none
      → IsObjectList fields
  unfolding require_items
  read_items fields value none held raw e h = absurd (ground arith)
  read_items fields value (some items) held raw e h =
      (value, held, (items, e, (check_items-IsItem 0 items).0 (ground arith)))

  -- The check passes exactly if the field is there and not null, reads as a list, and every item
  -- reads as an object that holds each required field, none of them null.
  pub require_json_object_list_iff :
      (fields : RawFields)
      → (require_json_object_list json fields name required ≡ none) ↔ IsObjectList fields
  unfolding require_json_object_list require_items
  require_json_object_list_iff fields = (
    λ h. elim (Bool-cases (absent fields name)) [
      | inl missing ↦ absurd (ground arith)
      | inr there ↦
          read_items fields (raw_of fields name) (json.list (raw_of fields name))
            (absent-Holds fields name there) refl refl (ground arith)
    ],
    λ (value, held, (items, e, each)).
        let there = Holds-absent fields name value held in
        let passed = (check_items-IsItem 0 items).1 each in ground arith,
  )
