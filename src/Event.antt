-- ===== src/Event.antt =====
-- types.go, validate.go and environment.go: the event envelope, its local
-- validation and the environment label. Where the code mutates the caller's event through its
-- pointer, the function returns the event as it is afterwards.
pub mod Environment
pub mod Labels
pub mod Accepts
pub mod Stamp
mod Tests
use custd_sdk_go.Base.{
  ==_iff, All, Bool, Bool-cases, List, Option, Option-cases, Result, Text, [], all, any, ap, ap₂,
  arith, byte_len, codes, drop, drop-drop, err, fail_if, false, has_prefix, has_prefix-append,
  if◌then◌else◌, inl, inr, insert, is_empty, is_empty_sound, is_none, is_some, is_space, leb,
  leb→le, length, length-append, length-drop, length-take, le→leb, lookup, lookup-insert, ltb,
  ltb→lt, lt→ltb, map, max, min, none, not, ok, refl, reject_if, require, reverse, rune_len, some,
  subst, suc, sym, take, take-append-drop, tests, text_eq, text_eq_sound, text_eq_iff, text_eq_refl,
  trim_left, trim_space, true, zero, ℕ, ◌%◌, ◌&&◌, ◌*◌, ◌++◌, ◌+◌, ◌-◌, ◌/◌, ◌<◌, ◌==◌, ◌>>=◌, ◌>>◌,
  ◌^◌, ◌orelse◌, ◌||◌, ◌↔◌, ◌∙◌, ◌∷◌, ◌≡◌, ◌≢◌, ◌≤◌, ◌⊎◌,
}
use custd_sdk_go.Pattern.{label_key_matches, environment_matches}

pub record PageContext : Type 0 where
  pub url : Text
  pub path : Text
  pub title : Text
  pub referrer : Text

pub record DeviceContext : Type 0 where
  pub kind : Text
  pub os : Text
  pub browser : Text

pub record EventContext : Type 0 where
  pub page : Option PageContext
  pub device : Option DeviceContext
  pub locale : Text
  pub timezone : Text
  pub ip : Text

-- `labels` and `payload` are `none` where the Go map or slice is nil.
pub record EventEnvelope : Type 0 where
  pub event_uuid : Text
  pub event_type_slug : Text
  pub schema_version : Text
  pub timestamp : Text
  pub session_id : Text
  pub anonymous_id : Text
  pub user_uuid : Text
  pub company_slug : Text
  pub environment : Text
  pub labels : Option (List (Text × Text))
  pub context : EventContext
  pub payload : Option Text

pub data EventError : Type 0 where
  event_required : EventError
  missing_fields : List Text → EventError
  environment_invalid environment_reserved : Text → EventError
  too_many_labels : EventError
  invalid_label_key invalid_label_value : Text → EventError

unfoldable pub device_type_missing : EventEnvelope → Bool
device_type_missing e = elim e.context.device [ none ↦ true | some d ↦ is_empty d.kind ]

-- The names whose flag is set, in order.
unfoldable pub collect_missing_required_fields : List (Text × Bool) → List Text
collect_missing_required_fields [] = []
collect_missing_required_fields ((name, missing) ∷ fields) =
    let rest = collect_missing_required_fields fields in if missing then name ∷ rest else rest

required_fields : EventEnvelope → List (Text × Bool)
required_fields e =
    (codes "eventUuid", is_empty e.event_uuid)
    ∷ (codes "eventTypeSlug", is_empty e.event_type_slug)
    ∷ (codes "schemaVersion", is_empty e.schema_version)
    ∷ (codes "timestamp", is_empty e.timestamp)
    ∷ (codes "sessionId", is_empty e.session_id)
    ∷ (codes "anonymousId", is_empty e.anonymous_id)
    ∷ (codes "companySlug", is_empty e.company_slug)
    ∷ (codes "payload", is_none e.payload)
    ∷ []

unfoldable pub collect_missing_fields : EventEnvelope → List Text
unfolding required_fields collect_missing_required_fields device_type_missing
collect_missing_fields e =
    collect_missing_required_fields (required_fields e)
    ++ (if device_type_missing e then codes "context.device.type" ∷ [] else [])

unfoldable pub environment_label_key : Text
environment_label_key = codes "custd.environment"

unfoldable pub reserved_prefix : Text
reserved_prefix = codes "custd."

unfoldable pub unclassified_environment : Text
unclassified_environment = codes "unclassified"

unfoldable pub validate_environment_value : Text → Option EventError
validate_environment_value value =
    if is_empty value
    then none
    else if not (text_eq value (trim_space value)) || not (environment_matches value)
    then some (environment_invalid value)
    else if text_eq value unclassified_environment
    then some (environment_reserved value)
    else none

unfoldable pub is_label_key : Text → Bool
is_label_key key =
    leb (byte_len key) 64 && label_key_matches key && not (has_prefix key reserved_prefix)

unfoldable pub is_label_value : Text → Bool
is_label_value value =
    not (is_empty value) && text_eq value (trim_space value) && leb (byte_len value) 128

-- The loop over the map, in the order in which the entries stand.
unfoldable pub validate_label_entries : List (Text × Text) → Option EventError
validate_label_entries [] = none
validate_label_entries ((key, value) ∷ labels) =
    let rest = validate_label_entries labels in
    if not (is_label_key key)
    then some (invalid_label_key key)
    else if not (is_label_value value)
    then some (invalid_label_value key)
    else rest

unfoldable pub entries : Option (List (Text × Text)) → List (Text × Text)
entries none = []
entries (some labels) = labels

unfoldable pub validate_event_labels : Option (List (Text × Text)) → Option EventError
unfolding validate_label_entries entries
validate_event_labels labels =
    if ltb 16 (length (entries labels))
    then some too_many_labels
    else validate_label_entries (entries labels)

unfoldable pub validate_event : EventEnvelope → Option EventError
validate_event e = elim (collect_missing_fields e) [
  | [] ↦ validate_environment_value e.environment orelse validate_event_labels e.labels
  | name ∷ names ↦ some (missing_fields (name ∷ names))
]

-- `ValidateEvent` on a pointer, which may be nil.
unfoldable pub validate_event_pointer : Option EventEnvelope → Option EventError
unfolding validate_event
validate_event_pointer none = some event_required
validate_event_pointer (some e) = validate_event e

-- The event's own declaration, else the client's.
unfoldable pub effective_environment : Text → EventEnvelope → Text
effective_environment client e = if is_empty e.environment then client else e.environment

-- The labels after `applyEnvironmentLabel`: a label that is there is not overwritten.
unfoldable pub stamp : Text → List (Text × Text) → List (Text × Text)
stamp value labels = elim (lookup environment_label_key labels) [
  | none ↦ insert environment_label_key value labels
  | some v ↦ labels
]

unfoldable pub apply_environment_label : Text → EventEnvelope → EventEnvelope
unfolding effective_environment stamp entries
apply_environment_label client e =
    if is_empty (effective_environment client e)
    then e
    else record e { labels = some (stamp (effective_environment client e) (entries e.labels)) }
