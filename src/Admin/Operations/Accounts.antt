-- ===== src/Admin/Operations/Accounts.antt =====
-- admin.go and admin_oauth_admissions.go: tenants, OAuth clients and their admissions.
use custd_sdk_go.Base.{
  List, [], ◌∷◌, ◌++◌, true, false, Option, none, some, Text, codes, is_empty, if◌then◌else◌,
  trim_space, reject_if, ◌≡◌, refl,
}
use custd_sdk_go.Base.Int.{ℤ, not_positive}
use custd_sdk_go.Base.Decimal.{format_int}
use custd_sdk_go.Errors.{SdkError, plain}
use custd_sdk_go.Errors.Rendering.{join, text_leb}
use custd_sdk_go.Url.{
  path_escape, query_escape, escape_path_byte, escape_query_byte, query_part, sort_by_key,
  insert_by_key, encode_values,
}
use custd_sdk_go.Admin.{company_slug_query_parameter}
use custd_sdk_go.Admin.Routing.{with_query, render_route}
use custd_sdk_go.Admin.Call.{Call, call}

pub record OauthClientRequestOptions : Type 0 where
  pub idempotency_key : Text

unfoldable pub idempotency_headers : OauthClientRequestOptions → List (Text × Text)
idempotency_headers o =
    let key = trim_space o.idempotency_key in
    if is_empty key then [] else (codes "Idempotency-Key", key) ∷ []

unfoldable pub require_idempotency_key : OauthClientRequestOptions → Option SdkError
require_idempotency_key o =
    reject_if (is_empty (trim_space o.idempotency_key))
      (plain (codes "custd: oauth client idempotency key is required"))

pub data TenantRequest (P : Type 0) : Type 0 where
  create : (p : P) → TenantRequest P
  list : TenantRequest P
  finalize : (slug : Text) → (company_id : ℤ) → TenantRequest P
  data_space_entitlement : (slug : Text) → TenantRequest P
  update_data_space_entitlement : (slug : Text) → (p : P) → TenantRequest P
  get : (slug : Text) → TenantRequest P
  delete : (slug : Text) → TenantRequest P

unfoldable pub tenant_call : {P : Type 0} → TenantRequest P → Call P
tenant_call (create p) = call "POST" (codes "/tenants") (some p) true []
tenant_call list = call "GET" (codes "/tenants") none true []
tenant_call (finalize slug company_id) =
    call "POST"
      ((codes "/tenants/" ++ (path_escape slug ++ codes "/finalize"))
        ++ (codes "?companyId=" ++ format_int company_id))
      none false []
tenant_call (data_space_entitlement slug) =
    call "GET" (codes "/tenants/" ++ (path_escape slug ++ codes "/data-space-entitlement")) none
      true []
tenant_call (update_data_space_entitlement slug p) =
    call "PUT" (codes "/tenants/" ++ (path_escape slug ++ codes "/data-space-entitlement")) (some p)
      true []
tenant_call (get slug) = call "GET" (codes "/tenants/" ++ path_escape slug) none true []
tenant_call (delete slug) = call "DELETE" (codes "/tenants/" ++ path_escape slug) none false []

unfoldable pub tenant_route : {P : Type 0} → TenantRequest P → List Text
tenant_route (create p) = codes "tenants" ∷ []
tenant_route list = codes "tenants" ∷ []
tenant_route (finalize slug company_id) = codes "tenants" ∷ slug ∷ codes "finalize" ∷ []
tenant_route (data_space_entitlement slug) =
    codes "tenants" ∷ slug ∷ codes "data-space-entitlement" ∷ []
tenant_route (update_data_space_entitlement slug p) =
    codes "tenants" ∷ slug ∷ codes "data-space-entitlement" ∷ []
tenant_route (get slug) = codes "tenants" ∷ slug ∷ []
tenant_route (delete slug) = codes "tenants" ∷ slug ∷ []

unfoldable pub tenant_query : {P : Type 0} → TenantRequest P → Text
tenant_query (create p) = []
tenant_query list = []
tenant_query (finalize slug company_id) = codes "companyId=" ++ format_int company_id
tenant_query (data_space_entitlement slug) = []
tenant_query (update_data_space_entitlement slug p) = []
tenant_query (get slug) = []
tenant_query (delete slug) = []

pub tenant_call-path :
    {P : Type 0} (op : TenantRequest P)
    → (tenant_call op).path ≡ with_query (render_route (tenant_route op)) (tenant_query op)
unfolding tenant_call tenant_route tenant_query render_route with_query path_escape codes
    escape_path_byte encode_values query_escape escape_query_byte query_part join sort_by_key
    insert_by_key text_leb company_slug_query_parameter
tenant_call-path (create p) = refl
tenant_call-path list = refl
tenant_call-path (finalize slug company_id) = refl
tenant_call-path (data_space_entitlement slug) = refl
tenant_call-path (update_data_space_entitlement slug p) = refl
tenant_call-path (get slug) = refl
tenant_call-path (delete slug) = refl

unfoldable pub tenant_refusal : {P : Type 0} → TenantRequest P → Option SdkError
tenant_refusal (finalize slug company_id) =
    reject_if (not_positive company_id)
      (plain (codes "custd: company id must be a positive integer"))
tenant_refusal _ = none

pub data OauthClientRequest (P : Type 0) : Type 0 where
  create_client : (p : P) → (options : OauthClientRequestOptions) → OauthClientRequest P
  list_clients : OauthClientRequest P
  get_client : (client_id : Text) → OauthClientRequest P
  delete_client : (client_id : Text) → OauthClientRequest P
  rotate_secret : (client_id : Text) → (options : OauthClientRequestOptions) → OauthClientRequest P
  update_scopes : (client_id : Text) → (p : P) → OauthClientRequest P

unfoldable pub oauth_client_call : {P : Type 0} → OauthClientRequest P → Call P
oauth_client_call (create_client p options) =
    call "POST" (codes "/oauth-clients") (some p) true (idempotency_headers options)
oauth_client_call list_clients = call "GET" (codes "/oauth-clients") none true []
oauth_client_call (get_client client_id) =
    call "GET" (codes "/oauth-clients/" ++ path_escape client_id) none true []
oauth_client_call (delete_client client_id) =
    call "DELETE" (codes "/oauth-clients/" ++ path_escape client_id) none false []
oauth_client_call (rotate_secret client_id options) =
    call "POST" (codes "/oauth-clients/" ++ (path_escape client_id ++ codes "/rotate-secret")) none
      true (idempotency_headers options)
oauth_client_call (update_scopes client_id p) =
    call "PATCH" (codes "/oauth-clients/" ++ (path_escape client_id ++ codes "/scopes")) (some p)
      true []

unfoldable pub oauth_client_route : {P : Type 0} → OauthClientRequest P → List Text
oauth_client_route (create_client p options) = codes "oauth-clients" ∷ []
oauth_client_route list_clients = codes "oauth-clients" ∷ []
oauth_client_route (get_client client_id) = codes "oauth-clients" ∷ client_id ∷ []
oauth_client_route (delete_client client_id) = codes "oauth-clients" ∷ client_id ∷ []
oauth_client_route (rotate_secret client_id options) =
    codes "oauth-clients" ∷ client_id ∷ codes "rotate-secret" ∷ []
oauth_client_route (update_scopes client_id p) =
    codes "oauth-clients" ∷ client_id ∷ codes "scopes" ∷ []

pub oauth_client_call-path :
    {P : Type 0} (op : OauthClientRequest P)
    → (oauth_client_call op).path ≡ with_query (render_route (oauth_client_route op)) []
unfolding oauth_client_call oauth_client_route render_route with_query path_escape codes
    escape_path_byte
oauth_client_call-path (create_client p options) = refl
oauth_client_call-path list_clients = refl
oauth_client_call-path (get_client client_id) = refl
oauth_client_call-path (delete_client client_id) = refl
oauth_client_call-path (rotate_secret client_id options) = refl
oauth_client_call-path (update_scopes client_id p) = refl

unfoldable pub oauth_client_refusal : {P : Type 0} → OauthClientRequest P → Option SdkError
unfolding require_idempotency_key
oauth_client_refusal (create_client p options) = require_idempotency_key options
oauth_client_refusal (rotate_secret client_id options) = require_idempotency_key options
oauth_client_refusal _ = none

pub data AdmissionRequest (P : Type 0) : Type 0 where
  list_admissions : (company_slug : Text) → AdmissionRequest P
  review : (admission_uuid : Text) → (p : P) → AdmissionRequest P
  approve : (admission_uuid : Text) → (p : P) → AdmissionRequest P
  revoke : (admission_uuid : Text) → (p : P) → AdmissionRequest P

unfoldable pub admission_call : {P : Type 0} → AdmissionRequest P → Call P
admission_call (list_admissions company_slug) =
    call "GET"
      (codes "/oauth-client-admissions"
        ++ b'?' ∷ encode_values ((company_slug_query_parameter, company_slug) ∷ []))
      none true []
admission_call (review admission_uuid p) =
    call "POST"
      (codes "/oauth-client-admissions/" ++ (path_escape admission_uuid ++ codes "/review"))
      (some p) true []
admission_call (approve admission_uuid p) =
    call "POST"
      (codes "/oauth-client-admissions/" ++ (path_escape admission_uuid ++ codes "/approve"))
      (some p) true []
admission_call (revoke admission_uuid p) =
    call "POST"
      (codes "/oauth-client-admissions/" ++ (path_escape admission_uuid ++ codes "/revoke"))
      (some p) true []

unfoldable pub admission_route : {P : Type 0} → AdmissionRequest P → List Text
admission_route (list_admissions company_slug) = codes "oauth-client-admissions" ∷ []
admission_route (review admission_uuid p) =
    codes "oauth-client-admissions" ∷ admission_uuid ∷ codes "review" ∷ []
admission_route (approve admission_uuid p) =
    codes "oauth-client-admissions" ∷ admission_uuid ∷ codes "approve" ∷ []
admission_route (revoke admission_uuid p) =
    codes "oauth-client-admissions" ∷ admission_uuid ∷ codes "revoke" ∷ []

unfoldable pub admission_query : {P : Type 0} → AdmissionRequest P → Text
admission_query (list_admissions company_slug) =
    encode_values ((company_slug_query_parameter, company_slug) ∷ [])
admission_query (review admission_uuid p) = []
admission_query (approve admission_uuid p) = []
admission_query (revoke admission_uuid p) = []

pub admission_call-path :
    {P : Type 0} (op : AdmissionRequest P)
    → (admission_call op).path ≡ with_query (render_route (admission_route op)) (admission_query op)
unfolding admission_call admission_route admission_query render_route with_query path_escape codes
    escape_path_byte encode_values query_escape escape_query_byte query_part join sort_by_key
    insert_by_key text_leb company_slug_query_parameter
admission_call-path (list_admissions company_slug) = refl
admission_call-path (review admission_uuid p) = refl
admission_call-path (approve admission_uuid p) = refl
admission_call-path (revoke admission_uuid p) = refl
