-- ===== src/Admin/Operations/Privacy.antt =====
-- admin_extended.go: storage locations, subject exports, erasures and privacy rules.
use custd_sdk_go.Base.{
  List, [], ◌∷◌, ◌++◌, true, false, none, some, Text, codes, is_empty, if◌then◌else◌, ◌≡◌, refl,
}
use custd_sdk_go.Errors.Rendering.{join, text_leb}
use custd_sdk_go.Url.{
  path_escape, query_escape, escape_path_byte, escape_query_byte, query_part, sort_by_key,
  insert_by_key, encode_values,
}
use custd_sdk_go.Admin.{company_slug_query_parameter}
use custd_sdk_go.Admin.Routing.{with_query, render_route}
use custd_sdk_go.Admin.Call.{Call, call, non_admin_call}

-- What `optionalCompanySlug` puts behind the `?`; nothing, and no `?`, for an empty company.
unfoldable pub optional_company_slug : Text → Text
optional_company_slug company_slug =
    if is_empty company_slug then [] else codes "companySlug=" ++ query_escape company_slug

pub data TenantStorageRequest (P : Type 0) : Type 0 where
  list_locations : TenantStorageRequest P
  create_location : (p : P) → TenantStorageRequest P
  get_location : (id : Text) → TenantStorageRequest P
  revoke_location : (id : Text) → TenantStorageRequest P

unfoldable pub tenant_storage_call : {P : Type 0} → TenantStorageRequest P → Call P
tenant_storage_call list_locations =
    non_admin_call "GET" (codes "/tenant-storage-locations") none true []
tenant_storage_call (create_location p) =
    non_admin_call "POST" (codes "/tenant-storage-locations") (some p) true []
tenant_storage_call (get_location id) =
    non_admin_call "GET" (codes "/tenant-storage-locations/" ++ path_escape id) none true []
tenant_storage_call (revoke_location id) =
    non_admin_call "DELETE" (codes "/tenant-storage-locations/" ++ path_escape id) none false []

unfoldable pub tenant_storage_route : {P : Type 0} → TenantStorageRequest P → List Text
tenant_storage_route list_locations = codes "tenant-storage-locations" ∷ []
tenant_storage_route (create_location p) = codes "tenant-storage-locations" ∷ []
tenant_storage_route (get_location id) = codes "tenant-storage-locations" ∷ id ∷ []
tenant_storage_route (revoke_location id) = codes "tenant-storage-locations" ∷ id ∷ []

pub tenant_storage_call-path :
    {P : Type 0} (op : TenantStorageRequest P)
    → (tenant_storage_call op).path ≡ with_query (render_route (tenant_storage_route op)) []
unfolding tenant_storage_call tenant_storage_route render_route with_query path_escape codes
    escape_path_byte
tenant_storage_call-path list_locations = refl
tenant_storage_call-path (create_location p) = refl
tenant_storage_call-path (get_location id) = refl
tenant_storage_call-path (revoke_location id) = refl

pub data SubjectExportRequest (P : Type 0) : Type 0 where
  create_export : (p : P) → SubjectExportRequest P
  list_exports : SubjectExportRequest P
  get_export : (request_id : Text) → SubjectExportRequest P
  cancel_export : (request_id : Text) → SubjectExportRequest P
  download_export : (request_id : Text) → SubjectExportRequest P
  force_export : (request_id : Text) → SubjectExportRequest P

unfoldable pub subject_export_call : {P : Type 0} → SubjectExportRequest P → Call P
subject_export_call (create_export p) = call "POST" (codes "/subject-exports") (some p) true []
subject_export_call list_exports = call "GET" (codes "/subject-exports") none true []
subject_export_call (get_export request_id) =
    call "GET" (codes "/subject-exports/" ++ path_escape request_id) none true []
subject_export_call (cancel_export request_id) =
    call "POST" (codes "/subject-exports/" ++ (path_escape request_id ++ codes "/cancel")) none
      false []
subject_export_call (download_export request_id) =
    call "GET" (codes "/subject-exports/" ++ (path_escape request_id ++ codes "/download")) none
      true []
subject_export_call (force_export request_id) =
    call "POST" (codes "/subject-exports/" ++ (path_escape request_id ++ codes "/force")) none true
      []

unfoldable pub subject_export_route : {P : Type 0} → SubjectExportRequest P → List Text
subject_export_route (create_export p) = codes "subject-exports" ∷ []
subject_export_route list_exports = codes "subject-exports" ∷ []
subject_export_route (get_export request_id) = codes "subject-exports" ∷ request_id ∷ []
subject_export_route (cancel_export request_id) =
    codes "subject-exports" ∷ request_id ∷ codes "cancel" ∷ []
subject_export_route (download_export request_id) =
    codes "subject-exports" ∷ request_id ∷ codes "download" ∷ []
subject_export_route (force_export request_id) =
    codes "subject-exports" ∷ request_id ∷ codes "force" ∷ []

pub subject_export_call-path :
    {P : Type 0} (op : SubjectExportRequest P)
    → (subject_export_call op).path ≡ with_query (render_route (subject_export_route op)) []
unfolding subject_export_call subject_export_route render_route with_query path_escape codes
    escape_path_byte
subject_export_call-path (create_export p) = refl
subject_export_call-path list_exports = refl
subject_export_call-path (get_export request_id) = refl
subject_export_call-path (cancel_export request_id) = refl
subject_export_call-path (download_export request_id) = refl
subject_export_call-path (force_export request_id) = refl

pub data PrivacyErasureRequest (P : Type 0) : Type 0 where
  create_erasure : (p : P) → PrivacyErasureRequest P
  list_erasures : PrivacyErasureRequest P
  get_erasure : (request_uuid : Text) → PrivacyErasureRequest P
  force_erasure : (request_uuid : Text) → PrivacyErasureRequest P

unfoldable pub privacy_erasure_call : {P : Type 0} → PrivacyErasureRequest P → Call P
privacy_erasure_call (create_erasure p) = call "POST" (codes "/privacy/erasures") (some p) true []
privacy_erasure_call list_erasures = call "GET" (codes "/privacy/erasures") none true []
privacy_erasure_call (get_erasure request_uuid) =
    call "GET" (codes "/privacy/erasures/" ++ path_escape request_uuid) none true []
privacy_erasure_call (force_erasure request_uuid) =
    call "POST" (codes "/privacy/erasures/" ++ (path_escape request_uuid ++ codes "/force")) none
      true []

unfoldable pub privacy_erasure_route : {P : Type 0} → PrivacyErasureRequest P → List Text
privacy_erasure_route (create_erasure p) = codes "privacy" ∷ codes "erasures" ∷ []
privacy_erasure_route list_erasures = codes "privacy" ∷ codes "erasures" ∷ []
privacy_erasure_route (get_erasure request_uuid) =
    codes "privacy" ∷ codes "erasures" ∷ request_uuid ∷ []
privacy_erasure_route (force_erasure request_uuid) =
    codes "privacy" ∷ codes "erasures" ∷ request_uuid ∷ codes "force" ∷ []

pub privacy_erasure_call-path :
    {P : Type 0} (op : PrivacyErasureRequest P)
    → (privacy_erasure_call op).path ≡ with_query (render_route (privacy_erasure_route op)) []
unfolding privacy_erasure_call privacy_erasure_route render_route with_query path_escape codes
    escape_path_byte
privacy_erasure_call-path (create_erasure p) = refl
privacy_erasure_call-path list_erasures = refl
privacy_erasure_call-path (get_erasure request_uuid) = refl
privacy_erasure_call-path (force_erasure request_uuid) = refl

pub data PrivacyRequest (P : Type 0) : Type 0 where
  get_rules : (company_slug : Text) → PrivacyRequest P
  set_rules : (p : P) → PrivacyRequest P
  map_identifier : (company_slug : Text) → (p : P) → PrivacyRequest P
  list_identifier_mappings : (company_slug : Text) → PrivacyRequest P

unfoldable pub privacy_call : {P : Type 0} → PrivacyRequest P → Call P
privacy_call (get_rules company_slug) =
    call "GET" (with_query (codes "/privacy/rules") (optional_company_slug company_slug)) none true
      []
privacy_call (set_rules p) = call "PUT" (codes "/privacy/rules") (some p) true []
privacy_call (map_identifier company_slug p) =
    call "POST" (codes "/privacy/identifiers/" ++ (path_escape company_slug ++ codes "/map"))
      (some p) true []
privacy_call (list_identifier_mappings company_slug) =
    call "GET" (codes "/privacy/identifiers/" ++ path_escape company_slug) none true []

unfoldable pub privacy_route : {P : Type 0} → PrivacyRequest P → List Text
privacy_route (get_rules company_slug) = codes "privacy" ∷ codes "rules" ∷ []
privacy_route (set_rules p) = codes "privacy" ∷ codes "rules" ∷ []
privacy_route (map_identifier company_slug p) =
    codes "privacy" ∷ codes "identifiers" ∷ company_slug ∷ codes "map" ∷ []
privacy_route (list_identifier_mappings company_slug) =
    codes "privacy" ∷ codes "identifiers" ∷ company_slug ∷ []

unfoldable pub privacy_query : {P : Type 0} → PrivacyRequest P → Text
privacy_query (get_rules company_slug) = optional_company_slug company_slug
privacy_query (set_rules p) = []
privacy_query (map_identifier company_slug p) = []
privacy_query (list_identifier_mappings company_slug) = []

pub privacy_call-path :
    {P : Type 0} (op : PrivacyRequest P)
    → (privacy_call op).path ≡ with_query (render_route (privacy_route op)) (privacy_query op)
unfolding privacy_call privacy_route privacy_query render_route with_query path_escape codes
    escape_path_byte encode_values query_escape escape_query_byte query_part join sort_by_key
    insert_by_key text_leb company_slug_query_parameter
privacy_call-path (get_rules company_slug) = refl
privacy_call-path (set_rules p) = refl
privacy_call-path (map_identifier company_slug p) = refl
privacy_call-path (list_identifier_mappings company_slug) = refl
