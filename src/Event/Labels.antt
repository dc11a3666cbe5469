-- ===== src/Event/Labels.antt =====
-- The labels of an event: which maps `validateEventLabels` lets through.
use custd_sdk_go.Base.{
  All, List, Option, Text, [], arith, inl, inr, is_empty, length, none, refl, sym, trim_space, true,
  ◌++◌, ◌↔◌, ◌∷◌, ◌≡◌, ◌≤◌,
}
use custd_sdk_go.Event.{
  validate_event_labels, validate_label_entries, is_label_key, is_label_value, entries,
}
use custd_sdk_go.Base.{
  byte_len, text_eq_iff, has_prefix, has_prefix-append, has_prefix_rest, is_empty_complete,
  Bool-cases, ◌≢◌,
}
use custd_sdk_go.Pattern.Grammar.{LabelKey, label_key_matches_iff}
use custd_sdk_go.Event.{reserved_prefix}

-- A key that a caller may set: at most 64 bytes, of the grammar, and with no reserved prefix.
pub record IsOpenKey (key : Text) : Type 0 where
  pub short : byte_len key ≤ 64
  pub spelled : LabelKey key
  pub open_prefix : (rest : Text) → key ≢ reserved_prefix ++ rest

-- A value of 1 to 128 bytes with no space at either end.
pub record IsLabelValue (value : Text) : Type 0 where
  pub given : value ≢ []
  pub trimmed : trim_space value ≡ value
  pub short : byte_len value ≤ 128

is_label_key_iff : (key : Text) → (is_label_key key ≡ true) ↔ IsOpenKey key
unfolding is_label_key
is_label_key_iff key = (
  λ h. record {
    short = ground arith;
    spelled = (label_key_matches_iff key).0 (ground arith);
    open_prefix = λ rest e.
        let own = has_prefix-append reserved_prefix rest in
        let hit : has_prefix key reserved_prefix ≡ true = rw e own in absurd (ground arith);
  },
  λ k. elim (Bool-cases (has_prefix key reserved_prefix)) [
    | inl hit ↦
        let (rest, e) = has_prefix_rest reserved_prefix key hit in absurd (k.open_prefix rest e)
    | inr free ↦ let m = (label_key_matches_iff key).1 k.spelled in ground (arith, k.short)
  ],
)

is_label_value_iff : (value : Text) → (is_label_value value ≡ true) ↔ IsLabelValue value
unfolding is_label_value is_empty
is_label_value_iff value = (
  λ h. record {
    given = λ e. let gone : is_empty value ≡ true = rw e refl in absurd (ground arith);
    trimmed = sym ((text_eq_iff value (trim_space value)).0 (ground arith));
    short = ground arith;
  },
  λ v.
      let same = (text_eq_iff value (trim_space value)).1 (sym v.trimmed) in
      let there = is_empty_complete value v.given in ground (arith, v.short),
)

-- One entry of the label map is acceptable.
abbrev pub IsLabel : Text × Text → Type 0
IsLabel l = IsOpenKey l.0 × IsLabelValue l.1

validate_label_entries_sound :
    (l : List (Text × Text)) → validate_label_entries l ≡ none → All IsLabel l
unfolding validate_label_entries
validate_label_entries_sound [] h = tt
validate_label_entries_sound ((k, v) ∷ l) h = (
  ((is_label_key_iff k).0 (ground arith), (is_label_value_iff v).0 (ground arith)),
  validate_label_entries_sound l (ground arith),
)

validate_label_entries_complete :
    (l : List (Text × Text)) → All IsLabel l → validate_label_entries l ≡ none
unfolding validate_label_entries
validate_label_entries_complete [] h = refl
validate_label_entries_complete ((k, v) ∷ l) h =
    rw ((is_label_key_iff k).1 h.0.0, (is_label_value_iff v).1 h.0.1)
      (validate_label_entries_complete l h.1)

-- A map of labels is accepted exactly if it has at most 16 entries and each is acceptable.
pub validate_event_labels_iff :
    (l : Option (List (Text × Text)))
    → (validate_event_labels l ≡ none) ↔ ((length (entries l) ≤ 16) × All IsLabel (entries l))
unfolding validate_event_labels
validate_event_labels_iff l = (
  λ h. (ground arith, validate_label_entries_sound (entries l) (ground arith)),
  λ h. ground (arith, validate_label_entries_complete (entries l) h.1),
)
