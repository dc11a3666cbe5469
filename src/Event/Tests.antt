-- ===== src/Event/Tests.antt =====
-- Concrete events.
use custd_sdk_go.Base.{
  inl, [], byte_len, codes, has_prefix, if◌then◌else◌, is_empty, lookup, none, refl, some, text_eq,
  trim_space, ◌↔◌, ◌∷◌, ◌≡◌,
}
use custd_sdk_go.Event.{
  EventEnvelope, validate_event, apply_environment_label, environment_label_key, entries,
  collect_missing_fields, validate_environment_value, unclassified_environment,
  validate_event_labels, is_label_key, reserved_prefix, is_label_value,
}
use custd_sdk_go.Event.Accepts.{validate_event_iff, IsAccepted}
use custd_sdk_go.Event.Stamp.{Declares, apply_environment_label-lookup}
use custd_sdk_go.Pattern.{environment_matches, label_key_matches}

abbrev order_event : EventEnvelope
order_event = record {
  event_uuid = codes "u1";
  event_type_slug = codes "order.completed";
  schema_version = codes "1.0.0";
  timestamp = codes "2026-01-01T00:00:00Z";
  session_id = codes "s1";
  anonymous_id = codes "a1";
  user_uuid = [];
  company_slug = codes "acme";
  environment = codes "dev";
  labels = some ((codes "team", codes "core") ∷ []);
  context = record {
    page = none;
    device = some (record { kind = codes "server"; os = []; browser = [] });
    locale = [];
    timezone = [];
    ip = [];
  };
  payload = some (codes "{}");
}

order_event-valid : validate_event order_event ≡ none
unfolding validate_event codes collect_missing_fields is_empty validate_environment_value text_eq
    trim_space environment_matches unclassified_environment validate_event_labels is_label_key
    byte_len label_key_matches has_prefix reserved_prefix is_label_value
order_event-valid = refl

order_event-declared : Declares [] order_event (codes "dev")
unfolding codes
order_event-declared = (λ e. cc, inl refl)

validate_event_iff_example : (validate_event order_event ≡ none) ↔ IsAccepted order_event
validate_event_iff_example = validate_event_iff order_event

apply_environment_label-lookup_example :
    lookup (codes "team") (entries (apply_environment_label [] order_event).labels) ≡ (
      if text_eq environment_label_key (codes "team")
      then some (codes "dev")
      else lookup (codes "team") (entries order_event.labels))
apply_environment_label-lookup_example =
    apply_environment_label-lookup [] (codes "dev") order_event (codes "team") order_event-valid
      order_event-declared
