-- ===== src/Event/Accepts.antt =====
-- What `ValidateEvent` accepts, stated field by field.
use custd_sdk_go.Base.{
  All, Bool, List, Option, Text, [], arith, false, inl, inr, is_empty, is_none, length, none, refl,
  some, sym, ◌++◌, ◌orelse◌, ◌↔◌, ◌∙◌, ◌∷◌, ◌≡◌, ◌≤◌,
}
use custd_sdk_go.Event.{
  EventEnvelope, EventError, validate_event, validate_environment_value, validate_event_labels,
  entries, collect_missing_fields, collect_missing_required_fields, required_fields,
  device_type_missing,
}
use custd_sdk_go.Base.{is_empty_complete, Option-cases, ◌≢◌}
use custd_sdk_go.Event.{DeviceContext}
use custd_sdk_go.Event.Environment.{IsEnvironment, validate_environment_value_iff}
use custd_sdk_go.Event.Labels.{IsLabel, validate_event_labels_iff}

-- The fields that an accepted event has, and what its environment and its labels are.
pub record IsAccepted (e : EventEnvelope) : Type 0 where
  pub event_uuid : e.event_uuid ≢ []
  pub event_type_slug : e.event_type_slug ≢ []
  pub schema_version : e.schema_version ≢ []
  pub timestamp : e.timestamp ≢ []
  pub session_id : e.session_id ≢ []
  pub anonymous_id : e.anonymous_id ≢ []
  pub company_slug : e.company_slug ≢ []
  pub payload : e.payload ≢ none
  pub device : (d : DeviceContext) × (e.context.device ≡ some d) × (d.kind ≢ [])
  pub environment : IsEnvironment e.environment
  pub label_count : length (entries e.labels) ≤ 16
  pub labels : All IsLabel (entries e.labels)

abbrev Present : Text × Bool → Type 0
Present f = f.1 ≡ false

collect_sound : (l : List (Text × Bool)) → collect_missing_required_fields l ≡ [] → All Present l
unfolding collect_missing_required_fields
collect_sound [] h = tt
collect_sound ((n, b) ∷ l) h = (ground arith, collect_sound l (ground arith))

collect_complete : (l : List (Text × Bool)) → All Present l → collect_missing_required_fields l ≡ []
unfolding collect_missing_required_fields
collect_complete [] h = refl
collect_complete ((n, b) ∷ l) h = rw h.0 (collect_complete l h.1)

append_nil : (xs ys : List Text) → xs ++ ys ≡ [] → (xs ≡ []) × (ys ≡ [])
append_nil [] ys h = (refl, h)
append_nil (x ∷ xs) ys h = cc

missing_nil :
    (e : EventEnvelope)
    → (collect_missing_fields e ≡ [])
      ↔ (All Present (required_fields e) × (device_type_missing e ≡ false))
unfolding collect_missing_fields
missing_nil e = (
  λ h.
      let (req, dev) = append_nil (collect_missing_required_fields (required_fields e)) _ h in
      (collect_sound (required_fields e) req, ground arith),
  λ h. rw (collect_complete (required_fields e) h.0, h.1),
)

-- The event as `ValidateEvent` sees it once nothing is missing.
complete_step :
    (e : EventEnvelope)
    → collect_missing_fields e ≡ []
    → validate_event e
      ≡ (validate_environment_value e.environment orelse validate_event_labels e.labels)
unfolding validate_event
complete_step e h = rw (h, validate_event)

missing_step : (e : EventEnvelope) → validate_event e ≡ none → collect_missing_fields e ≡ []
unfolding validate_event
missing_step e h = go (collect_missing_fields e) refl
  where
    go : (l : List Text) → collect_missing_fields e ≡ l → collect_missing_fields e ≡ []
    go [] q = q
    go (n ∷ ns) q = absurd (ground arith)

orelse-none : (a b : Option EventError) → (a orelse b) ≡ none → (a ≡ none) × (b ≡ none)
orelse-none none b h = (refl, h)
orelse-none (some x) b h = cc

given : (t : Text) → is_empty t ≡ false → t ≢ []
unfolding is_empty
given [] h e = absurd (cc)
given (c ∷ s) h e = absurd (cc)

given_payload : (o : Option Text) → is_none o ≡ false → o ≢ none
given_payload none h e = absurd (cc)
given_payload (some x) h e = absurd (cc)

is_none_complete : (o : Option Text) → o ≢ none → is_none o ≡ false
is_none_complete none h = absurd (h refl)
is_none_complete (some x) h = refl

device_iff :
    (e : EventEnvelope)
    → (device_type_missing e ≡ false)
      ↔ ((d : DeviceContext) × (e.context.device ≡ some d) × (d.kind ≢ []))
unfolding device_type_missing
device_iff e = (sound, λ h. rw h.1 (is_empty_complete h.0.kind h.2))
  where
    sound :
        device_type_missing e ≡ false
        → (d : DeviceContext) × (e.context.device ≡ some d) × (d.kind ≢ [])
    sound h = elim (Option-cases e.context.device) [
      | inl missing ↦ absurd (ground arith)
      | inr (d, there) ↦ (d, there, given d.kind (ground arith))
    ]

-- `ValidateEvent` accepts an event exactly if each required field and a typed device are there, the
-- declared environment is empty or a name other than the reserved one, and there are at most 16
-- labels, each with a key of the grammar of at most 64 bytes outside the reserved prefix and a
-- trimmed value of 1 to 128 bytes.
pub validate_event_iff : (e : EventEnvelope) → (validate_event e ≡ none) ↔ IsAccepted e
unfolding required_fields
validate_event_iff e = (sound, complete)
  where
    sound : validate_event e ≡ none → IsAccepted e
    sound h =
        let nothing = missing_step e h in
        let (fs, dev) = (missing_nil e).0 nothing in
        let (env, labs) =
          orelse-none (validate_environment_value e.environment) (validate_event_labels e.labels)
            (sym (complete_step e nothing) ∙ h) in
        let (count, each) = (validate_event_labels_iff e.labels).0 labs in
        record {
          event_uuid = given e.event_uuid fs.0;
          event_type_slug = given e.event_type_slug fs.1.0;
          schema_version = given e.schema_version fs.1.1.0;
          timestamp = given e.timestamp fs.1.1.1.0;
          session_id = given e.session_id fs.1.1.1.1.0;
          anonymous_id = given e.anonymous_id fs.1.1.1.1.1.0;
          company_slug = given e.company_slug fs.1.1.1.1.1.1.0;
          payload = given_payload e.payload fs.1.1.1.1.1.1.1.0;
          device = (device_iff e).0 dev;
          environment = (validate_environment_value_iff e.environment).0 env;
          label_count = count;
          labels = each;
        }

    complete : IsAccepted e → validate_event e ≡ none
    complete a =
        let fs : All Present (required_fields e) = (
          is_empty_complete e.event_uuid a.event_uuid,
          (
            is_empty_complete e.event_type_slug a.event_type_slug,
            (
              is_empty_complete e.schema_version a.schema_version,
              (
                is_empty_complete e.timestamp a.timestamp,
                (
                  is_empty_complete e.session_id a.session_id,
                  (
                    is_empty_complete e.anonymous_id a.anonymous_id,
                    (
                      is_empty_complete e.company_slug a.company_slug,
                      (is_none_complete e.payload a.payload, tt),
                    ),
                  ),
                ),
              ),
            ),
          ),
        ) in
        complete_step e ((missing_nil e).1 (fs, (device_iff e).1 a.device))
        ∙ rw ((validate_environment_value_iff e.environment).1 a.environment)
            ((validate_event_labels_iff e.labels).1 (a.label_count, a.labels))
