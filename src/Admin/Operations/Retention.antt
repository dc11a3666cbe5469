-- ===== src/Admin/Operations/Retention.antt =====
-- admin_extended.go: retention policies and storage alerts.
use custd_sdk_go.Base.{List, [], ◌∷◌, ◌++◌, true, false, none, some, Text, codes, ◌≡◌, refl}
use custd_sdk_go.Url.{path_escape, escape_path_byte}
use custd_sdk_go.Admin.Routing.{with_query, render_route}
use custd_sdk_go.Admin.Call.{Call, call}

pub data RetentionRequest (P : Type 0) : Type 0 where
  list_policies : RetentionRequest P
  upsert_policy : (tenant_slug : Text) → (p : P) → RetentionRequest P
  get_policy : (tenant_slug : Text) → RetentionRequest P
  delete_policy : (tenant_slug : Text) → RetentionRequest P
  preview_retention : (tenant_slug : Text) → RetentionRequest P
  apply_retention : (tenant_slug : Text) → RetentionRequest P
  list_runs : (tenant_slug : Text) → RetentionRequest P

unfoldable pub retention_call : {P : Type 0} → RetentionRequest P → Call P
retention_call list_policies = call "GET" (codes "/retention/policies") none true []
retention_call (upsert_policy tenant_slug p) =
    call "PUT" (codes "/retention/policies/" ++ path_escape tenant_slug) (some p) true []
retention_call (get_policy tenant_slug) =
    call "GET" (codes "/retention/policies/" ++ path_escape tenant_slug) none true []
retention_call (delete_policy tenant_slug) =
    call "DELETE" (codes "/retention/policies/" ++ path_escape tenant_slug) none false []
retention_call (preview_retention tenant_slug) =
    call "POST" (codes "/retention/policies/" ++ (path_escape tenant_slug ++ codes "/preview")) none
      true []
retention_call (apply_retention tenant_slug) =
    call "POST" (codes "/retention/policies/" ++ (path_escape tenant_slug ++ codes "/apply")) none
      true []
retention_call (list_runs tenant_slug) =
    call "GET" (codes "/retention/policies/" ++ (path_escape tenant_slug ++ codes "/runs")) none
      true []

unfoldable pub retention_route : {P : Type 0} → RetentionRequest P → List Text
retention_route list_policies = codes "retention" ∷ codes "policies" ∷ []
retention_route (upsert_policy tenant_slug p) =
    codes "retention" ∷ codes "policies" ∷ tenant_slug ∷ []
retention_route (get_policy tenant_slug) = codes "retention" ∷ codes "policies" ∷ tenant_slug ∷ []
retention_route (delete_policy tenant_slug) =
    codes "retention" ∷ codes "policies" ∷ tenant_slug ∷ []
retention_route (preview_retention tenant_slug) =
    codes "retention" ∷ codes "policies" ∷ tenant_slug ∷ codes "preview" ∷ []
retention_route (apply_retention tenant_slug) =
    codes "retention" ∷ codes "policies" ∷ tenant_slug ∷ codes "apply" ∷ []
retention_route (list_runs tenant_slug) =
    codes "retention" ∷ codes "policies" ∷ tenant_slug ∷ codes "runs" ∷ []

pub retention_call-path :
    {P : Type 0} (op : RetentionRequest P)
    → (retention_call op).path ≡ with_query (render_route (retention_route op)) []
unfolding retention_call retention_route render_route with_query path_escape codes escape_path_byte
retention_call-path list_policies = refl
retention_call-path (upsert_policy tenant_slug p) = refl
retention_call-path (get_policy tenant_slug) = refl
retention_call-path (delete_policy tenant_slug) = refl
retention_call-path (preview_retention tenant_slug) = refl
retention_call-path (apply_retention tenant_slug) = refl
retention_call-path (list_runs tenant_slug) = refl

pub data StorageAlertRequest (P : Type 0) : Type 0 where
  list_rules : (tenant_slug : Text) → StorageAlertRequest P
  create_rule : (tenant_slug : Text) → (p : P) → StorageAlertRequest P
  delete_rule : (tenant_slug rule_id : Text) → StorageAlertRequest P

unfoldable pub storage_alert_call : {P : Type 0} → StorageAlertRequest P → Call P
storage_alert_call (list_rules tenant_slug) =
    call "GET" (codes "/storage/alerts/" ++ path_escape tenant_slug) none true []
storage_alert_call (create_rule tenant_slug p) =
    call "POST" (codes "/storage/alerts/" ++ path_escape tenant_slug) (some p) true []
storage_alert_call (delete_rule tenant_slug rule_id) =
    call "DELETE"
      (codes "/storage/alerts/" ++ (path_escape tenant_slug ++ (codes "/" ++ path_escape rule_id)))
      none false []

unfoldable pub storage_alert_route : {P : Type 0} → StorageAlertRequest P → List Text
storage_alert_route (list_rules tenant_slug) = codes "storage" ∷ codes "alerts" ∷ tenant_slug ∷ []
storage_alert_route (create_rule tenant_slug p) =
    codes "storage" ∷ codes "alerts" ∷ tenant_slug ∷ []
storage_alert_route (delete_rule tenant_slug rule_id) =
    codes "storage" ∷ codes "alerts" ∷ tenant_slug ∷ rule_id ∷ []

pub storage_alert_call-path :
    {P : Type 0} (op : StorageAlertRequest P)
    → (storage_alert_call op).path ≡ with_query (render_route (storage_alert_route op)) []
unfolding storage_alert_call storage_alert_route render_route with_query path_escape codes
    escape_path_byte
storage_alert_call-path (list_rules tenant_slug) = refl
storage_alert_call-path (create_rule tenant_slug p) = refl
storage_alert_call-path (delete_rule tenant_slug rule_id) = refl
