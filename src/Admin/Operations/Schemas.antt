-- ===== src/Admin/Operations/Schemas.antt =====
-- admin.go: sites and schemas.
use custd_sdk_go.Base.{
  List, [], ◌∷◌, ◌++◌, true, false, Option, none, some, Text, codes, is_empty, trim_space,
  reject_if, ◌≡◌, refl,
}
use custd_sdk_go.Errors.{SdkError, plain}
use custd_sdk_go.Errors.Rendering.{join, text_leb}
use custd_sdk_go.Url.{
  path_escape, query_escape, escape_path_byte, escape_query_byte, query_part, sort_by_key,
  insert_by_key, encode_values,
}
use custd_sdk_go.Admin.{company_slug_query_parameter}
use custd_sdk_go.Admin.Routing.{with_query, render_route}
use custd_sdk_go.Admin.Call.{Call, call}

pub data SiteRequest (P : Type 0) : Type 0 where
  create_site : (p : P) → SiteRequest P
  list_sites : SiteRequest P
  get_site : (site_uuid : Text) → SiteRequest P
  update_site : (site_uuid : Text) → (p : P) → SiteRequest P
  delete_site : (site_uuid : Text) → SiteRequest P
  rotate_write_key : (site_uuid : Text) → SiteRequest P

unfoldable pub site_call : {P : Type 0} → SiteRequest P → Call P
site_call (create_site p) = call "POST" (codes "/sites") (some p) true []
site_call list_sites = call "GET" (codes "/sites") none true []
site_call (get_site site_uuid) = call "GET" (codes "/sites/" ++ path_escape site_uuid) none true []
site_call (update_site site_uuid p) =
    call "PATCH" (codes "/sites/" ++ path_escape site_uuid) (some p) true []
site_call (delete_site site_uuid) =
    call "DELETE" (codes "/sites/" ++ path_escape site_uuid) none false []
site_call (rotate_write_key site_uuid) =
    call "POST" (codes "/sites/" ++ (path_escape site_uuid ++ codes "/rotate-write-key")) none true
      []

unfoldable pub site_route : {P : Type 0} → SiteRequest P → List Text
site_route (create_site p) = codes "sites" ∷ []
site_route list_sites = codes "sites" ∷ []
site_route (get_site site_uuid) = codes "sites" ∷ site_uuid ∷ []
site_route (update_site site_uuid p) = codes "sites" ∷ site_uuid ∷ []
site_route (delete_site site_uuid) = codes "sites" ∷ site_uuid ∷ []
site_route (rotate_write_key site_uuid) = codes "sites" ∷ site_uuid ∷ codes "rotate-write-key" ∷ []

pub site_call-path :
    {P : Type 0} (op : SiteRequest P)
    → (site_call op).path ≡ with_query (render_route (site_route op)) []
unfolding site_call site_route render_route with_query path_escape codes escape_path_byte
site_call-path (create_site p) = refl
site_call-path list_sites = refl
site_call-path (get_site site_uuid) = refl
site_call-path (update_site site_uuid p) = refl
site_call-path (delete_site site_uuid) = refl
site_call-path (rotate_write_key site_uuid) = refl

pub data SchemaRequest (P : Type 0) : Type 0 where
  register : (tenant_slug event_type_slug : Text) → (p : P) → SchemaRequest P
  list_schemas : SchemaRequest P
  get_schema : (event_type_slug : Text) → SchemaRequest P
  create_version : (event_type_slug : Text) → (p : P) → SchemaRequest P
  validate_schema : (p : P) → SchemaRequest P
  enable_version : (tenant_slug event_type_slug : Text) → (p : P) → SchemaRequest P
  dry_run : (tenant_slug event_type_slug : Text) → (p : P) → SchemaRequest P
  audit : (tenant_slug : Text) → SchemaRequest P

unfoldable pub schema_call : {P : Type 0} → SchemaRequest P → Call P
schema_call (register tenant_slug event_type_slug p) =
    call "POST"
      (codes "/schema/"
        ++ (path_escape tenant_slug
            ++ (codes "/" ++ (path_escape event_type_slug ++ codes "/register"))))
      (some p) true []
schema_call list_schemas = call "GET" (codes "/schemas") none true []
schema_call (get_schema event_type_slug) =
    call "GET" (codes "/schemas/" ++ path_escape event_type_slug) none true []
schema_call (create_version event_type_slug p) =
    call "POST" (codes "/schemas/" ++ (path_escape event_type_slug ++ codes "/versions")) (some p)
      true []
schema_call (validate_schema p) = call "POST" (codes "/schema/validate") (some p) true []
schema_call (enable_version tenant_slug event_type_slug p) =
    call "POST"
      (codes "/schema/"
        ++ (path_escape tenant_slug
            ++ (codes "/" ++ (path_escape event_type_slug ++ codes "/enable"))))
      (some p) false []
schema_call (dry_run tenant_slug event_type_slug p) =
    call "POST"
      (codes "/schema/"
        ++ (path_escape tenant_slug
            ++ (codes "/" ++ (path_escape event_type_slug ++ codes "/dry-run"))))
      (some p) true []
schema_call (audit tenant_slug) =
    call "GET"
      (codes "/schema/audit" ++ b'?' ∷ encode_values ((codes "tenantSlug", tenant_slug) ∷ [])) none
      true []

unfoldable pub schema_route : {P : Type 0} → SchemaRequest P → List Text
schema_route (register tenant_slug event_type_slug p) =
    codes "schema" ∷ tenant_slug ∷ event_type_slug ∷ codes "register" ∷ []
schema_route list_schemas = codes "schemas" ∷ []
schema_route (get_schema event_type_slug) = codes "schemas" ∷ event_type_slug ∷ []
schema_route (create_version event_type_slug p) =
    codes "schemas" ∷ event_type_slug ∷ codes "versions" ∷ []
schema_route (validate_schema p) = codes "schema" ∷ codes "validate" ∷ []
schema_route (enable_version tenant_slug event_type_slug p) =
    codes "schema" ∷ tenant_slug ∷ event_type_slug ∷ codes "enable" ∷ []
schema_route (dry_run tenant_slug event_type_slug p) =
    codes "schema" ∷ tenant_slug ∷ event_type_slug ∷ codes "dry-run" ∷ []
schema_route (audit tenant_slug) = codes "schema" ∷ codes "audit" ∷ []

unfoldable pub schema_query : {P : Type 0} → SchemaRequest P → Text
schema_query (register tenant_slug event_type_slug p) = []
schema_query list_schemas = []
schema_query (get_schema event_type_slug) = []
schema_query (create_version event_type_slug p) = []
schema_query (validate_schema p) = []
schema_query (enable_version tenant_slug event_type_slug p) = []
schema_query (dry_run tenant_slug event_type_slug p) = []
schema_query (audit tenant_slug) = encode_values ((codes "tenantSlug", tenant_slug) ∷ [])

pub schema_call-path :
    {P : Type 0} (op : SchemaRequest P)
    → (schema_call op).path ≡ with_query (render_route (schema_route op)) (schema_query op)
unfolding schema_call schema_route schema_query render_route with_query path_escape codes
    escape_path_byte encode_values query_escape escape_query_byte query_part join sort_by_key
    insert_by_key text_leb company_slug_query_parameter
schema_call-path (register tenant_slug event_type_slug p) = refl
schema_call-path list_schemas = refl
schema_call-path (get_schema event_type_slug) = refl
schema_call-path (create_version event_type_slug p) = refl
schema_call-path (validate_schema p) = refl
schema_call-path (enable_version tenant_slug event_type_slug p) = refl
schema_call-path (dry_run tenant_slug event_type_slug p) = refl
schema_call-path (audit tenant_slug) = refl

unfoldable pub schema_refusal : {P : Type 0} → SchemaRequest P → Option SdkError
schema_refusal (audit tenant_slug) =
    reject_if (is_empty (trim_space tenant_slug))
      (plain (codes "custd: schema audit requires a company slug"))
schema_refusal _ = none
