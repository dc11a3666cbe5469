-- ===== src/Admin/Operations.antt =====
-- admin.go: `AdminClient` as one type of operations, each a client's. An operation is refused before
-- anything is sent, or is the call that the client's function makes.
pub mod Accounts
pub mod Schemas
pub mod Privacy
pub mod Retention
pub mod Offboarding
pub mod Audit
pub mod AuthProjects
pub mod AuthPrincipals
pub mod DataLabels
pub mod DataScopes
pub mod Users
pub mod Platform
pub mod Webhooks
pub mod ReportingPacks
pub mod Measurement
pub mod Predictions
pub mod Observations
mod Tests
use custd_sdk_go.Base.{All, Bool, false, ◌≢◌, List, [], Option, none, some, Text, ◌≡◌, map}
use mathlib.Core.Option
use custd_sdk_go.Errors.{SdkError}
use custd_sdk_go.DataScope.{ScopeError}
use custd_sdk_go.Admin.Routing.{with_query, render_route}
use custd_sdk_go.Admin.Call.{Call}
use custd_sdk_go.Admin.Operations.Accounts.{
  TenantRequest, tenant_call, tenant_route, tenant_query, tenant_refusal, tenant_call-path,
  OauthClientRequest, oauth_client_call, oauth_client_route, oauth_client_refusal,
  oauth_client_call-path, AdmissionRequest, admission_call, admission_route, admission_query,
  admission_call-path,
}
use custd_sdk_go.Admin.Operations.Schemas.{
  SiteRequest, site_call, site_route, site_call-path, SchemaRequest, schema_call, schema_route,
  schema_query, schema_refusal, schema_call-path,
}
use custd_sdk_go.Admin.Operations.Privacy.{
  TenantStorageRequest, tenant_storage_call, tenant_storage_route, tenant_storage_call-path,
  SubjectExportRequest, subject_export_call, subject_export_route, subject_export_call-path,
  PrivacyErasureRequest, privacy_erasure_call, privacy_erasure_route, privacy_erasure_call-path,
  PrivacyRequest, privacy_call, privacy_route, privacy_query, privacy_call-path,
}
use custd_sdk_go.Admin.Operations.Retention.{
  RetentionRequest, retention_call, retention_route, retention_call-path, StorageAlertRequest,
  storage_alert_call, storage_alert_route, storage_alert_call-path,
}
use custd_sdk_go.Admin.Operations.Offboarding.{
  OffboardingRequest, offboarding_call, offboarding_route, offboarding_call-path,
}
use custd_sdk_go.Admin.Operations.Audit.{
  AuditRequest, audit_call, audit_route, audit_query, audit_call-path,
}
use custd_sdk_go.Admin.Operations.AuthProjects.{AuthProjectRequest, auth_project_call}
use custd_sdk_go.Admin.Operations.AuthProjects.Routes.{
  auth_project_route, auth_project_query, auth_project_refusal, auth_project_call-path,
}
use custd_sdk_go.Admin.Operations.AuthPrincipals.{AuthPrincipalRequest, auth_principal_call}
use custd_sdk_go.Admin.Operations.AuthPrincipals.Routes.{
  auth_principal_route, auth_principal_query, auth_principal_refusal, auth_principal_call-path,
}
use custd_sdk_go.Admin.Operations.DataLabels.{
  DataLabelRequest, data_label_call, data_label_route, data_label_query, data_label_call-path,
}
use custd_sdk_go.Admin.Operations.DataScopes.{
  DataScopeRequest, data_scope_call, data_scope_route, data_scope_query, data_scope_refusal,
  data_scope_call-path,
}
use custd_sdk_go.Admin.Operations.Users.{
  AdminUserRequest, admin_user_call, admin_user_route, admin_user_query, admin_user_call-path,
}
use custd_sdk_go.Admin.Operations.Platform.{
  SupportRequest, support_call, support_route, support_call-path, PlatformRequest, platform_call,
  platform_route, platform_query, platform_refusal, platform_call-path,
}
use custd_sdk_go.Admin.Operations.Webhooks.{
  WebhookRequest, webhook_call, webhook_route, webhook_query, webhook_call-path, misplaces_action,
}
use custd_sdk_go.Admin.Operations.ReportingPacks.{
  ReportingPackRequest, reporting_pack_call, reporting_pack_route, reporting_pack_call-path,
}
use custd_sdk_go.Admin.Operations.Measurement.{
  MeasurementRequest, measurement_call, measurement_route, measurement_call-path,
}
use custd_sdk_go.Admin.Operations.Predictions.{PredictionRequest, prediction_call}
use custd_sdk_go.Admin.Operations.Predictions.Routes.{
  prediction_route, prediction_query, prediction_call-path,
}

-- The fields of `AdminClient`.
pub data AdminRequest (P : Type 0) : Type 0 where
  tenants : TenantRequest P → AdminRequest P
  oauth_clients : OauthClientRequest P → AdminRequest P
  oauth_client_admissions : AdmissionRequest P → AdminRequest P
  sites : SiteRequest P → AdminRequest P
  schemas : SchemaRequest P → AdminRequest P
  tenant_storage : TenantStorageRequest P → AdminRequest P
  subject_exports : SubjectExportRequest P → AdminRequest P
  erasures : PrivacyErasureRequest P → AdminRequest P
  privacy : PrivacyRequest P → AdminRequest P
  retention : RetentionRequest P → AdminRequest P
  storage_alerts : StorageAlertRequest P → AdminRequest P
  offboarding : OffboardingRequest P → AdminRequest P
  audits : AuditRequest P → AdminRequest P
  auth_projects : AuthProjectRequest P → AdminRequest P
  auth_principals : AuthPrincipalRequest P → AdminRequest P
  data_labels : DataLabelRequest P → AdminRequest P
  data_scopes : DataScopeRequest P → AdminRequest P
  admin_users : AdminUserRequest P → AdminRequest P
  support : SupportRequest P → AdminRequest P
  platform : PlatformRequest P → AdminRequest P
  webhooks : WebhookRequest P → AdminRequest P
  reporting_packs : ReportingPackRequest P → AdminRequest P
  measurement : MeasurementRequest P → AdminRequest P
  predictions : PredictionRequest P → AdminRequest P

unfoldable pub admin_call : {P : Type 0} → AdminRequest P → Call P
admin_call (tenants op) = tenant_call op
admin_call (oauth_clients op) = oauth_client_call op
admin_call (oauth_client_admissions op) = admission_call op
admin_call (sites op) = site_call op
admin_call (schemas op) = schema_call op
admin_call (tenant_storage op) = tenant_storage_call op
admin_call (subject_exports op) = subject_export_call op
admin_call (erasures op) = privacy_erasure_call op
admin_call (privacy op) = privacy_call op
admin_call (retention op) = retention_call op
admin_call (storage_alerts op) = storage_alert_call op
admin_call (offboarding op) = offboarding_call op
admin_call (audits op) = audit_call op
admin_call (auth_projects op) = auth_project_call op
admin_call (auth_principals op) = auth_principal_call op
admin_call (data_labels op) = data_label_call op
admin_call (data_scopes op) = data_scope_call op
admin_call (admin_users op) = admin_user_call op
admin_call (support op) = support_call op
admin_call (platform op) = platform_call op
admin_call (webhooks op) = webhook_call op
admin_call (reporting_packs op) = reporting_pack_call op
admin_call (measurement op) = measurement_call op
admin_call (predictions op) = prediction_call op

pub data Refusal : Type 0 where
  by_client : SdkError → Refusal
  by_data_scope : ScopeError → Refusal

-- The checks that a function makes before it sends.
unfoldable pub admin_refusal : {P : Type 0} → AdminRequest P → Option Refusal
admin_refusal (tenants op) = Option.map by_client (tenant_refusal op)
admin_refusal (oauth_clients op) = Option.map by_client (oauth_client_refusal op)
admin_refusal (schemas op) = Option.map by_client (schema_refusal op)
admin_refusal (auth_projects op) = Option.map by_client (auth_project_refusal op)
admin_refusal (auth_principals op) = Option.map by_client (auth_principal_refusal op)
admin_refusal (data_scopes op) = Option.map by_data_scope (data_scope_refusal op)
admin_refusal (platform op) = Option.map by_client (platform_refusal op)
admin_refusal _ = none

-- The segments that address an operation, and the query behind them.
unfoldable pub admin_route : {P : Type 0} → AdminRequest P → List Text
admin_route (tenants op) = tenant_route op
admin_route (oauth_clients op) = oauth_client_route op
admin_route (oauth_client_admissions op) = admission_route op
admin_route (sites op) = site_route op
admin_route (schemas op) = schema_route op
admin_route (tenant_storage op) = tenant_storage_route op
admin_route (subject_exports op) = subject_export_route op
admin_route (erasures op) = privacy_erasure_route op
admin_route (privacy op) = privacy_route op
admin_route (retention op) = retention_route op
admin_route (storage_alerts op) = storage_alert_route op
admin_route (offboarding op) = offboarding_route op
admin_route (audits op) = audit_route op
admin_route (auth_projects op) = auth_project_route op
admin_route (auth_principals op) = auth_principal_route op
admin_route (data_labels op) = data_label_route op
admin_route (data_scopes op) = data_scope_route op
admin_route (admin_users op) = admin_user_route op
admin_route (support op) = support_route op
admin_route (platform op) = platform_route op
admin_route (webhooks op) = webhook_route op
admin_route (reporting_packs op) = reporting_pack_route op
admin_route (measurement op) = measurement_route op
admin_route (predictions op) = prediction_route op

unfoldable pub admin_query : {P : Type 0} → AdminRequest P → Text
admin_query (tenants op) = tenant_query op
admin_query (oauth_client_admissions op) = admission_query op
admin_query (schemas op) = schema_query op
admin_query (privacy op) = privacy_query op
admin_query (audits op) = audit_query op
admin_query (auth_projects op) = auth_project_query op
admin_query (auth_principals op) = auth_principal_query op
admin_query (data_labels op) = data_label_query op
admin_query (data_scopes op) = data_scope_query op
admin_query (admin_users op) = admin_user_query op
admin_query (platform op) = platform_query op
admin_query (webhooks op) = webhook_query op
admin_query (predictions op) = prediction_query op
admin_query _ = []

-- The two webhook operations whose action stands behind the query.
unfoldable pub loses_action : {P : Type 0} → AdminRequest P → Bool
unfolding misplaces_action
loses_action (webhooks op) = misplaces_action op
loses_action _ = false

pub admin_call-path :
    {P : Type 0} (op : AdminRequest P)
    → loses_action op ≡ false
    → All (λ s. s ≢ []) (admin_route op)
    → (admin_call op).path ≡ with_query (render_route (admin_route op)) (admin_query op)
unfolding admin_call admin_route admin_query loses_action
admin_call-path (tenants op) placed given = tenant_call-path op
admin_call-path (oauth_clients op) placed given = oauth_client_call-path op
admin_call-path (oauth_client_admissions op) placed given = admission_call-path op
admin_call-path (sites op) placed given = site_call-path op
admin_call-path (schemas op) placed given = schema_call-path op
admin_call-path (tenant_storage op) placed given = tenant_storage_call-path op
admin_call-path (subject_exports op) placed given = subject_export_call-path op
admin_call-path (erasures op) placed given = privacy_erasure_call-path op
admin_call-path (privacy op) placed given = privacy_call-path op
admin_call-path (retention op) placed given = retention_call-path op
admin_call-path (storage_alerts op) placed given = storage_alert_call-path op
admin_call-path (offboarding op) placed given = offboarding_call-path op
admin_call-path (audits op) placed given = audit_call-path op
admin_call-path (auth_projects op) placed given = auth_project_call-path op
admin_call-path (auth_principals op) placed given = auth_principal_call-path op
admin_call-path (data_labels op) placed given = data_label_call-path op
admin_call-path (data_scopes op) placed given = data_scope_call-path op
admin_call-path (admin_users op) placed given = admin_user_call-path op
admin_call-path (support op) placed given = support_call-path op
admin_call-path (platform op) placed given = platform_call-path op
admin_call-path (webhooks op) placed given = webhook_call-path op placed given
admin_call-path (reporting_packs op) placed given = reporting_pack_call-path op
admin_call-path (measurement op) placed given = measurement_call-path op
admin_call-path (predictions op) placed given = prediction_call-path op
