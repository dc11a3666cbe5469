-- ===== src/Admin/Operations/Audit.antt =====
-- admin_extended.go: the audit reads.
use custd_sdk_go.Base.{
  List, [], ◌∷◌, ◌++◌, true, not, ◌&&◌, none, Text, codes, is_empty, if◌then◌else◌, text_eq, insert,
  ◌≡◌, refl,
}
use custd_sdk_go.Base.Int.{ℤ, not_positive}
use custd_sdk_go.Base.Decimal.{format_int}
use custd_sdk_go.Errors.{SdkError, plain}
use custd_sdk_go.Client.{set_if}
use custd_sdk_go.Errors.Rendering.{join, text_leb}
use custd_sdk_go.Url.{
  path_escape, query_escape, escape_path_byte, escape_query_byte, query_part, sort_by_key,
  insert_by_key, encode_values, set_given, Values,
}
use custd_sdk_go.Admin.{company_slug_query_parameter}
use custd_sdk_go.Admin.Routing.{with_query, render_route}
use custd_sdk_go.Admin.Call.{Call, call}
use custd_sdk_go.Base.{Result, ok, err}

pub record AuditListOptions : Type 0 where
  pub scope : Text
  pub company_slug : Text
  pub affected_tenant_slug : Text
  pub since : Text
  pub until : Text
  pub actor_kind : Text
  pub actor_reference : Text
  pub action : Text
  pub resource_type : Text
  pub resource_id : Text
  pub outcome : Text
  pub correlation_id : Text
  pub limit : ℤ
  pub cursor : Text

unfoldable pub audit_filter_params : AuditListOptions → Values
audit_filter_params o = set_given (codes "correlationId") o.correlation_id (
    set_given (codes "outcome") o.outcome (
      set_given (codes "resourceId") o.resource_id (
        set_given (codes "resourceType") o.resource_type (
          set_given (codes "action") o.action (
            set_given (codes "actorReference") o.actor_reference (
              set_given (codes "actorKind") o.actor_kind (
                set_given (codes "until") o.until (
                  set_given (codes "since") o.since (
                    set_given (codes "affectedTenantSlug") o.affected_tenant_slug (
                      set_given (codes "companySlug") o.company_slug
                        (set_given (codes "scope") o.scope [])))))))))))

unfoldable pub audit_export_params : AuditListOptions → Values
unfolding audit_filter_params
audit_export_params o = audit_filter_params o

unfoldable pub audit_list_params : AuditListOptions → Text
unfolding audit_filter_params
audit_list_params o = encode_values (
    set_given (codes "cursor") o.cursor (
      set_if (not (not_positive o.limit)) (codes "limit") (format_int o.limit)
        (audit_filter_params o)))

unfoldable pub audit_lookup_params : AuditListOptions → Text
audit_lookup_params o =
    encode_values
      (set_given (codes "companySlug") o.company_slug (set_given (codes "scope") o.scope []))

pub data AuditRequest (P : Type 0) : Type 0 where
  list_events : (options : AuditListOptions) → AuditRequest P
  get_event : (event_id : Text) → AuditRequest P
  get_event_in : (event_id : Text) → (options : AuditListOptions) → AuditRequest P
  list_reporting_pack_events : (pack_key : Text) → AuditRequest P

unfoldable pub audit_call : {P : Type 0} → AuditRequest P → Call P
audit_call (list_events options) =
    call "GET" (with_query (codes "/audit/events") (audit_list_params options)) none true []
audit_call (get_event event_id) =
    call "GET" (codes "/audit/events/" ++ path_escape event_id) none true []
audit_call (get_event_in event_id options) =
    call "GET"
      (with_query (codes "/audit/events/" ++ path_escape event_id) (audit_lookup_params options))
      none true []
audit_call (list_reporting_pack_events pack_key) =
    call "GET"
      (codes "/reporting-packs/audit-events" ++ (codes "?packKey=" ++ query_escape pack_key)) none
      true []

unfoldable pub audit_route : {P : Type 0} → AuditRequest P → List Text
audit_route (list_events options) = codes "audit" ∷ codes "events" ∷ []
audit_route (get_event event_id) = codes "audit" ∷ codes "events" ∷ event_id ∷ []
audit_route (get_event_in event_id options) = codes "audit" ∷ codes "events" ∷ event_id ∷ []
audit_route (list_reporting_pack_events pack_key) =
    codes "reporting-packs" ∷ codes "audit-events" ∷ []

unfoldable pub audit_query : {P : Type 0} → AuditRequest P → Text
audit_query (list_events options) = audit_list_params options
audit_query (get_event event_id) = []
audit_query (get_event_in event_id options) = audit_lookup_params options
audit_query (list_reporting_pack_events pack_key) = codes "packKey=" ++ query_escape pack_key

pub audit_call-path :
    {P : Type 0} (op : AuditRequest P)
    → (audit_call op).path ≡ with_query (render_route (audit_route op)) (audit_query op)
unfolding audit_call audit_route audit_query render_route with_query path_escape codes
    escape_path_byte encode_values query_escape escape_query_byte query_part join sort_by_key
    insert_by_key text_leb company_slug_query_parameter
audit_call-path (list_events options) = refl
audit_call-path (get_event event_id) = refl
audit_call-path (get_event_in event_id options) = refl
audit_call-path (list_reporting_pack_events pack_key) = refl

unfoldable pub export_format : Text → Text
export_format format = if is_empty format then codes "json" else format

-- The path of `ExportEvents`.
unfoldable pub audit_export_path : AuditListOptions → Text → Result SdkError Text
unfolding audit_export_params export_format
audit_export_path o format =
    let chosen = export_format format in
    if not (text_eq chosen (codes "csv")) && not (text_eq chosen (codes "json"))
    then err (plain (codes "custd: audit export format must be csv or json"))
    else ok (
        codes "/audit/events/export"
        ++ b'?' ∷ encode_values (insert (codes "format") chosen (audit_export_params o)))
