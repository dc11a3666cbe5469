-- ===== src/Admin/Operations/Tests.antt =====
-- Webhooks, results of a submission, and an export with filters.
use custd_sdk_go.Base.{
  List, [], ◌∷◌, true, false, ◌&&◌, none, some, ok, Text, codes, All, is_empty, text_eq, refl, ◌≡◌,
  ◌↔◌, arith, all, length, if◌then◌else◌, insert,
}
use custd_sdk_go.Base.Int.{pos}
use custd_sdk_go.Errors.Rendering.{join, text_leb}
use custd_sdk_go.Url.{encode_values, set_given, escape_query_byte}
use custd_sdk_go.Url.Utf8.{is_text, is_text-IsText, are_texts}
use custd_sdk_go.Url.Query.{IsTextual}
use custd_sdk_go.Admin.Routing.{read_route}
use custd_sdk_go.Admin.Operations.Webhooks.{
  webhook_call, set_enabled, replay, rotation, status, webhook_action_lost,
}
use custd_sdk_go.Admin.Operations.Audit.{AuditListOptions, audit_export_path, export_format}
use custd_sdk_go.Admin.Operations.Measurement.{
  MeasurementObservationResult, validate_measurement_results,
}
use custd_sdk_go.Admin.Operations.Observations.{IsNamed, validate_measurement_results_iff}
use custd_sdk_go.Admin.Reading.{query_value}
use custd_sdk_go.Admin.AuditExport.{audit_pairs, find_given, audit_export_path-query}

webhook_action_lost_example :
    (read_route (rotation Text (codes "acme") (codes "w-1")).path
      ≡ read_route (webhook_call (set_enabled (codes "acme") (codes "w-1") (codes "{}"))).path)
    × (read_route (webhook_call (replay (codes "acme") (codes "w-1") (codes "{}"))).path
        ≡ read_route (status Text (codes "acme") (codes "w-1")).path)
unfolding is_text codes
webhook_action_lost_example =
    webhook_action_lost (codes "acme") (codes "w-1") (codes "{}")
      (is_text-IsText (codes "w-1") refl)

abbrev observations : List MeasurementObservationResult
observations =
    record { success = true; observation_uuid = codes "o-1" }
    ∷ record { success = false; observation_uuid = [] }
    ∷ []

validate_measurement_results_iff_example :
    (validate_measurement_results observations 2 ≡ none)
    ↔ ((length observations ≡ 2) × All IsNamed observations)
validate_measurement_results_iff_example = validate_measurement_results_iff observations 2

abbrev audit_options : AuditListOptions
audit_options = record {
  scope = codes "tenant";
  company_slug = codes "a&b";
  affected_tenant_slug = [];
  since = [];
  until = [];
  actor_kind = [];
  actor_reference = [];
  action = codes "x=y";
  resource_type = [];
  resource_id = [];
  outcome = [];
  correlation_id = [];
  limit = pos 0;
  cursor = [];
}

textual : (m : List (Text × Text)) → all (λ p. is_text p.0 && is_text p.1) m ≡ true → IsTextual m
textual [] h = tt
textual ((k, v) ∷ m) h =
    ((is_text-IsText k (ground arith), is_text-IsText v (ground arith)), textual m (ground arith))

abbrev export_path : Text
export_path = codes "/audit/events/export?action=x%3Dy&companySlug=a%26b&format=json&scope=tenant"

built : audit_export_path audit_options [] ≡ ok export_path
unfolding audit_export_path codes text_eq is_empty encode_values join insert set_given text_leb
    escape_query_byte
built = refl

audit_export_path-query_example : query_value (codes "action") export_path ≡ (
    if text_eq (codes "format") (codes "action")
    then some (export_format [])
    else find_given (codes "action") (audit_pairs audit_options))
unfolding are_texts is_text codes
audit_export_path-query_example =
    audit_export_path-query audit_options [] export_path (codes "action") built tt
      (textual (audit_pairs audit_options) refl)
