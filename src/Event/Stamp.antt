-- ===== src/Event/Stamp.antt =====
-- What `applyEnvironmentLabel` does to a validated event, and to its next validation.
use custd_sdk_go.Base.{
  All, Bool-cases, List, Text, [], arith, codes, false, if◌then◌else◌, inl, inr, is_empty,
  is_empty_complete, lookup, lookup-insert, none, refl, some, text_eq, text_eq_iff, text_eq_refl,
  true, ◌++◌, ◌∷◌, ◌≡◌, ◌≢◌, ◌⊎◌, ◌∙◌,
}
use custd_sdk_go.Event.{
  EventEnvelope, validate_event, entries, environment_label_key, reserved_prefix,
  effective_environment, stamp, apply_environment_label,
}
use custd_sdk_go.Event.Labels.{IsLabel}
use custd_sdk_go.Event.Accepts.{validate_event_iff}

-- The environment that an event counts for: its own declaration, or the client's where it has none.
abbrev pub Declares : Text → EventEnvelope → Text → Type 0
Declares client e value =
    (value ≢ []) × ((e.environment ≡ value) ⊎ ((e.environment ≡ []) × (client ≡ value)))

effective_environment_lem :
    (client value : Text) (e : EventEnvelope)
    → Declares client e value
    → effective_environment client e ≡ value
unfolding effective_environment is_empty
effective_environment_lem client value e (given, inl own) =
    let there : is_empty e.environment ≡ false = rw own (is_empty_complete value given) in
    rw there own
effective_environment_lem client value e (given, inr (bare, default)) = rw bare default

effective-given :
    (client value : Text) (e : EventEnvelope)
    → Declares client e value
    → is_empty (effective_environment client e) ≡ false
effective-given client value e d =
    rw (effective_environment_lem client value e d) (is_empty_complete value d.0)

reserved_key : environment_label_key ≡ reserved_prefix ++ codes "environment"
unfolding environment_label_key reserved_prefix codes
reserved_key = refl

-- Labels that a caller may set do not hold the reserved key.
labels-lookup : (l : List (Text × Text)) → All IsLabel l → lookup environment_label_key l ≡ none
unfolding lookup
labels-lookup [] h = refl
labels-lookup ((k, v) ∷ l) h = elim (Bool-cases (text_eq k environment_label_key)) [
  | inl same ↦ absurd (
      h.0.0.open_prefix (codes "environment")
        ((text_eq_iff k environment_label_key).0 same ∙ reserved_key))
  | inr other ↦ rw other (labels-lookup l h.1)
]

stamped_entries :
    (client : Text) (e : EventEnvelope)
    → is_empty (effective_environment client e) ≡ false
    → entries (apply_environment_label client e).labels
      ≡ stamp (effective_environment client e) (entries e.labels)
unfolding apply_environment_label
stamped_entries client e h = rw h

-- The label map of an accepted event after stamping: the reserved key holds the environment that the
-- event declares, or the client's where it declares none, and every other label is as the caller set
-- it.
pub apply_environment_label-lookup :
    (client value : Text) (e : EventEnvelope) (j : Text)
    → validate_event e ≡ none
    → Declares client e value
    → lookup j (entries (apply_environment_label client e).labels)
      ≡ (if text_eq environment_label_key j then some value else lookup j (entries e.labels))
unfolding stamp
apply_environment_label-lookup client value e j valid declared =
    rw (stamped_entries client e (effective-given client value e declared)) (
      rw
        (
          labels-lookup (entries e.labels) ((validate_event_iff e).0 valid).labels,
          stamp,
          effective_environment_lem client value e declared,
        )
        (lookup-insert environment_label_key j value (entries e.labels)))

-- An event that was accepted and stamped with an environment is refused when it is validated once
-- more.
pub validate-apply_environment_label :
    (client value : Text) (e : EventEnvelope)
    → validate_event e ≡ none
    → Declares client e value
    → validate_event (apply_environment_label client e) ≢ none
validate-apply_environment_label client value e valid declared again =
    let second = ((validate_event_iff (apply_environment_label client e)).0 again).labels in
    let found =
      apply_environment_label-lookup client value e environment_label_key valid declared in
    let missing = labels-lookup (entries (apply_environment_label client e).labels) second in
    absurd (ground (arith, found, missing, text_eq_refl environment_label_key))

-- With no environment declared by the event or the client, the event is left alone.
pub apply_environment_label_none :
    (client : Text) (e : EventEnvelope)
    → is_empty (effective_environment client e) ≡ true
    → apply_environment_label client e ≡ e
unfolding apply_environment_label
apply_environment_label_none client e h = rw h
