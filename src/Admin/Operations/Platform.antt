-- ===== src/Admin/Operations/Platform.antt =====
-- admin_support_access.go, admin_impersonation.go, admin_environment_policy.go,
-- admin_tenant_manifest.go and admin_system_status.go.
use custd_sdk_go.Base.{
  List, [], ◌∷◌, ◌++◌, true, false, Option, none, some, Text, codes, is_empty, trim_space,
  reject_if, ◌≡◌, refl,
}
use custd_sdk_go.Errors.{SdkError, plain}
use custd_sdk_go.Errors.Rendering.{join, text_leb}
use custd_sdk_go.Url.{
  path_escape, query_escape, escape_path_byte, escape_query_byte, query_part, sort_by_key,
  insert_by_key, encode_values,
}
use custd_sdk_go.Admin.{company_slug_query_parameter}
use custd_sdk_go.Admin.Routing.{with_query, render_route}
use custd_sdk_go.Admin.Call.{Call, metadata_call}
use custd_sdk_go.Admin.Operations.Privacy.{optional_company_slug}

pub data SupportRequest (P : Type 0) : Type 0 where
  create_grant : (p : P) → SupportRequest P
  list_grants : SupportRequest P
  revoke_grant : (grant_uuid : Text) → SupportRequest P
  start_session : (p : P) → SupportRequest P
  list_sessions : SupportRequest P
  stop_session : (session_uuid : Text) → SupportRequest P
  terminate_session : (session_uuid : Text) → SupportRequest P

unfoldable pub support_call : {P : Type 0} → SupportRequest P → Call P
support_call (create_grant p) = metadata_call "POST" (codes "/support-access") (some p) true []
support_call list_grants = metadata_call "GET" (codes "/support-access") none true []
support_call (revoke_grant grant_uuid) =
    metadata_call "POST" (codes "/support-access/" ++ (path_escape grant_uuid ++ codes "/revoke"))
      none true []
support_call (start_session p) =
    metadata_call "POST" (codes "/impersonation-sessions") (some p) true []
support_call list_sessions = metadata_call "GET" (codes "/impersonation-sessions") none true []
support_call (stop_session session_uuid) =
    metadata_call "POST"
      (codes "/impersonation-sessions/" ++ (path_escape session_uuid ++ codes "/stop")) none true []
support_call (terminate_session session_uuid) =
    metadata_call "POST"
      (codes "/impersonation-sessions/" ++ (path_escape session_uuid ++ codes "/terminate")) none
      true []

unfoldable pub support_route : {P : Type 0} → SupportRequest P → List Text
support_route (create_grant p) = codes "support-access" ∷ []
support_route list_grants = codes "support-access" ∷ []
support_route (revoke_grant grant_uuid) = codes "support-access" ∷ grant_uuid ∷ codes "revoke" ∷ []
support_route (start_session p) = codes "impersonation-sessions" ∷ []
support_route list_sessions = codes "impersonation-sessions" ∷ []
support_route (stop_session session_uuid) =
    codes "impersonation-sessions" ∷ session_uuid ∷ codes "stop" ∷ []
support_route (terminate_session session_uuid) =
    codes "impersonation-sessions" ∷ session_uuid ∷ codes "terminate" ∷ []

pub support_call-path :
    {P : Type 0} (op : SupportRequest P)
    → (support_call op).path ≡ with_query (render_route (support_route op)) []
unfolding support_call support_route render_route with_query path_escape codes escape_path_byte
support_call-path (create_grant p) = refl
support_call-path list_grants = refl
support_call-path (revoke_grant grant_uuid) = refl
support_call-path (start_session p) = refl
support_call-path list_sessions = refl
support_call-path (stop_session session_uuid) = refl
support_call-path (terminate_session session_uuid) = refl

pub data PlatformRequest (P : Type 0) : Type 0 where
  get_environment_policy : (company_slug : Text) → PlatformRequest P
  update_environment_policy : (company_slug : Text) → (p : P) → PlatformRequest P
  apply_manifest : (tenant_slug idempotency_key : Text) → (p : P) → PlatformRequest P
  manifest_readiness : (tenant_slug : Text) → PlatformRequest P
  system_status : PlatformRequest P
  list_scheduled_tasks : PlatformRequest P
  get_scheduled_task : (task_name : Text) → PlatformRequest P
  run_scheduled_task : (task_name : Text) → PlatformRequest P
  pause_scheduled_task : (task_name : Text) → PlatformRequest P
  resume_scheduled_task : (task_name : Text) → PlatformRequest P
  retry_scheduled_task_run : (run_uuid : Text) → PlatformRequest P

unfoldable pub platform_call : {P : Type 0} → PlatformRequest P → Call P
platform_call (get_environment_policy company_slug) =
    metadata_call "GET"
      (with_query (codes "/environment-policy") (optional_company_slug company_slug)) none true []
platform_call (update_environment_policy company_slug p) =
    metadata_call "PATCH"
      (with_query (codes "/environment-policy") (optional_company_slug company_slug)) (some p) true
      []
platform_call (apply_manifest tenant_slug idempotency_key p) =
    metadata_call "PUT" (codes "/tenant-manifest/" ++ path_escape tenant_slug) (some p) true
      ((codes "Idempotency-Key", idempotency_key) ∷ [])
platform_call (manifest_readiness tenant_slug) =
    metadata_call "GET"
      (codes "/tenant-manifest/" ++ (path_escape tenant_slug ++ codes "/readiness")) none true []
platform_call system_status = metadata_call "GET" (codes "/system/status") none true []
platform_call list_scheduled_tasks = metadata_call "GET" (codes "/scheduled-tasks") none true []
platform_call (get_scheduled_task task_name) =
    metadata_call "GET" (codes "/scheduled-tasks/" ++ path_escape task_name) none true []
platform_call (run_scheduled_task task_name) =
    metadata_call "POST" (codes "/scheduled-tasks/" ++ (path_escape task_name ++ codes "/run")) none
      true []
platform_call (pause_scheduled_task task_name) =
    metadata_call "POST" (codes "/scheduled-tasks/" ++ (path_escape task_name ++ codes "/pause"))
      none false []
platform_call (resume_scheduled_task task_name) =
    metadata_call "POST" (codes "/scheduled-tasks/" ++ (path_escape task_name ++ codes "/resume"))
      none false []
platform_call (retry_scheduled_task_run run_uuid) =
    metadata_call "POST" (codes "/scheduled-task-runs/" ++ (path_escape run_uuid ++ codes "/retry"))
      none false []

unfoldable pub platform_route : {P : Type 0} → PlatformRequest P → List Text
platform_route (get_environment_policy company_slug) = codes "environment-policy" ∷ []
platform_route (update_environment_policy company_slug p) = codes "environment-policy" ∷ []
platform_route (apply_manifest tenant_slug idempotency_key p) =
    codes "tenant-manifest" ∷ tenant_slug ∷ []
platform_route (manifest_readiness tenant_slug) =
    codes "tenant-manifest" ∷ tenant_slug ∷ codes "readiness" ∷ []
platform_route system_status = codes "system" ∷ codes "status" ∷ []
platform_route list_scheduled_tasks = codes "scheduled-tasks" ∷ []
platform_route (get_scheduled_task task_name) = codes "scheduled-tasks" ∷ task_name ∷ []
platform_route (run_scheduled_task task_name) =
    codes "scheduled-tasks" ∷ task_name ∷ codes "run" ∷ []
platform_route (pause_scheduled_task task_name) =
    codes "scheduled-tasks" ∷ task_name ∷ codes "pause" ∷ []
platform_route (resume_scheduled_task task_name) =
    codes "scheduled-tasks" ∷ task_name ∷ codes "resume" ∷ []
platform_route (retry_scheduled_task_run run_uuid) =
    codes "scheduled-task-runs" ∷ run_uuid ∷ codes "retry" ∷ []

unfoldable pub platform_query : {P : Type 0} → PlatformRequest P → Text
platform_query (get_environment_policy company_slug) = optional_company_slug company_slug
platform_query (update_environment_policy company_slug p) = optional_company_slug company_slug
platform_query (apply_manifest tenant_slug idempotency_key p) = []
platform_query (manifest_readiness tenant_slug) = []
platform_query system_status = []
platform_query list_scheduled_tasks = []
platform_query (get_scheduled_task task_name) = []
platform_query (run_scheduled_task task_name) = []
platform_query (pause_scheduled_task task_name) = []
platform_query (resume_scheduled_task task_name) = []
platform_query (retry_scheduled_task_run run_uuid) = []

pub platform_call-path :
    {P : Type 0} (op : PlatformRequest P)
    → (platform_call op).path ≡ with_query (render_route (platform_route op)) (platform_query op)
unfolding platform_call platform_route platform_query render_route with_query path_escape codes
    escape_path_byte encode_values query_escape escape_query_byte query_part join sort_by_key
    insert_by_key text_leb company_slug_query_parameter
platform_call-path (get_environment_policy company_slug) = refl
platform_call-path (update_environment_policy company_slug p) = refl
platform_call-path (apply_manifest tenant_slug idempotency_key p) = refl
platform_call-path (manifest_readiness tenant_slug) = refl
platform_call-path system_status = refl
platform_call-path list_scheduled_tasks = refl
platform_call-path (get_scheduled_task task_name) = refl
platform_call-path (run_scheduled_task task_name) = refl
platform_call-path (pause_scheduled_task task_name) = refl
platform_call-path (resume_scheduled_task task_name) = refl
platform_call-path (retry_scheduled_task_run run_uuid) = refl

unfoldable pub platform_refusal : {P : Type 0} → PlatformRequest P → Option SdkError
platform_refusal (apply_manifest tenant_slug idempotency_key p) =
    reject_if (is_empty (trim_space idempotency_key))
      (plain (codes "custd: tenant manifest idempotency key is required"))
platform_refusal _ = none
