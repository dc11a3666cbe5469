-- ===== src/Admin/Operations/DataScopes.antt =====
-- admin_data_scopes.go: what the data-scope client sends. `encode` is the request as it is
-- marshalled.
use custd_sdk_go.Base.{
  List, [], ◌∷◌, ◌++◌, Bool, true, false, Option, none, some, Text, codes, ◌≡◌, refl,
}
use custd_sdk_go.Errors.Rendering.{join, text_leb}
use custd_sdk_go.Url.{
  path_escape, query_escape, escape_path_byte, escape_query_byte, query_part, sort_by_key,
  insert_by_key, encode_values, set_given,
}
use custd_sdk_go.Admin.{company_slug_query_parameter}
use custd_sdk_go.Admin.Routing.{with_query, render_route}
use custd_sdk_go.Admin.Call.{Call, call}
use custd_sdk_go.DataScope.{
  CreateRequest, UpdateRequest, PrincipalRef, Grant, ScopeError, validate_create, validate_update,
  validate_principal, validate_grant,
}
use custd_sdk_go.Admin.Operations.DataLabels.{include_disabled}

-- `params` of `ListGrants`.
unfoldable pub grant_params : PrincipalRef → Text
grant_params r = encode_values (
    set_given (codes "clientId") r.client_id
      (set_given (codes "userUuid") r.user_uuid ((codes "kind", r.kind) ∷ [])))

pub data DataScopeRequest (P : Type 0) : Type 0 where
  create_scope : (encode : (CreateRequest → P)) → (request : CreateRequest) → DataScopeRequest P
  list_scopes : (include : Bool) → DataScopeRequest P
  get_scope : (scope_uuid : Text) → DataScopeRequest P
  update_scope :
      (encode : (UpdateRequest → P))
      → (scope_uuid : Text) → (request : UpdateRequest) → DataScopeRequest P
  disable_scope : (scope_uuid : Text) → DataScopeRequest P
  create_resource :
      (encode : (CreateRequest → P))
      → (scope_uuid : Text) → (request : CreateRequest) → DataScopeRequest P
  list_resources : (scope_uuid : Text) → (include : Bool) → DataScopeRequest P
  get_resource : (scope_uuid resource_uuid : Text) → DataScopeRequest P
  update_resource :
      (encode : (UpdateRequest → P))
      → (scope_uuid resource_uuid : Text) → (request : UpdateRequest) → DataScopeRequest P
  disable_resource : (scope_uuid resource_uuid : Text) → DataScopeRequest P
  list_grants : (principal : PrincipalRef) → DataScopeRequest P
  create_grant : (encode : (Grant → P)) → (grant : Grant) → DataScopeRequest P
  revoke_grant : (encode : (Grant → P)) → (grant : Grant) → DataScopeRequest P

unfoldable pub data_scope_call : {P : Type 0} → DataScopeRequest P → Call P
data_scope_call (create_scope encode request) =
    call "POST" (codes "/data-scopes") (some (encode request)) true []
data_scope_call (list_scopes include) =
    call "GET" (with_query (codes "/data-scopes") (include_disabled include)) none true []
data_scope_call (get_scope scope_uuid) =
    call "GET" (codes "/data-scopes/" ++ path_escape scope_uuid) none true []
data_scope_call (update_scope encode scope_uuid request) =
    call "PATCH" (codes "/data-scopes/" ++ path_escape scope_uuid) (some (encode request)) true []
data_scope_call (disable_scope scope_uuid) =
    call "POST" (codes "/data-scopes/" ++ (path_escape scope_uuid ++ codes "/disable")) none false
      []
data_scope_call (create_resource encode scope_uuid request) =
    call "POST" (codes "/data-scopes/" ++ (path_escape scope_uuid ++ codes "/resources"))
      (some (encode request)) true []
data_scope_call (list_resources scope_uuid include) =
    call "GET"
      (with_query (codes "/data-scopes/" ++ (path_escape scope_uuid ++ codes "/resources"))
        (include_disabled include))
      none true []
data_scope_call (get_resource scope_uuid resource_uuid) =
    call "GET"
      (codes "/data-scopes/"
        ++ (path_escape scope_uuid ++ (codes "/resources/" ++ path_escape resource_uuid)))
      none true []
data_scope_call (update_resource encode scope_uuid resource_uuid request) =
    call "PATCH"
      (codes "/data-scopes/"
        ++ (path_escape scope_uuid ++ (codes "/resources/" ++ path_escape resource_uuid)))
      (some (encode request)) true []
data_scope_call (disable_resource scope_uuid resource_uuid) =
    call "POST"
      (codes "/data-scopes/"
        ++ (path_escape scope_uuid
            ++ (codes "/resources/" ++ (path_escape resource_uuid ++ codes "/disable"))))
      none false []
data_scope_call (list_grants principal) =
    call "GET" (with_query (codes "/data-scope-grants") (grant_params principal)) none true []
data_scope_call (create_grant encode grant) =
    call "POST" (codes "/data-scope-grants") (some (encode grant)) true []
data_scope_call (revoke_grant encode grant) =
    call "POST" (codes "/data-scope-grants/revoke") (some (encode grant)) false []

unfoldable pub data_scope_route : {P : Type 0} → DataScopeRequest P → List Text
data_scope_route (create_scope encode request) = codes "data-scopes" ∷ []
data_scope_route (list_scopes include) = codes "data-scopes" ∷ []
data_scope_route (get_scope scope_uuid) = codes "data-scopes" ∷ scope_uuid ∷ []
data_scope_route (update_scope encode scope_uuid request) = codes "data-scopes" ∷ scope_uuid ∷ []
data_scope_route (disable_scope scope_uuid) =
    codes "data-scopes" ∷ scope_uuid ∷ codes "disable" ∷ []
data_scope_route (create_resource encode scope_uuid request) =
    codes "data-scopes" ∷ scope_uuid ∷ codes "resources" ∷ []
data_scope_route (list_resources scope_uuid include) =
    codes "data-scopes" ∷ scope_uuid ∷ codes "resources" ∷ []
data_scope_route (get_resource scope_uuid resource_uuid) =
    codes "data-scopes" ∷ scope_uuid ∷ codes "resources" ∷ resource_uuid ∷ []
data_scope_route (update_resource encode scope_uuid resource_uuid request) =
    codes "data-scopes" ∷ scope_uuid ∷ codes "resources" ∷ resource_uuid ∷ []
data_scope_route (disable_resource scope_uuid resource_uuid) =
    codes "data-scopes" ∷ scope_uuid ∷ codes "resources" ∷ resource_uuid ∷ codes "disable" ∷ []
data_scope_route (list_grants principal) = codes "data-scope-grants" ∷ []
data_scope_route (create_grant encode grant) = codes "data-scope-grants" ∷ []
data_scope_route (revoke_grant encode grant) = codes "data-scope-grants" ∷ codes "revoke" ∷ []

unfoldable pub data_scope_query : {P : Type 0} → DataScopeRequest P → Text
data_scope_query (create_scope encode request) = []
data_scope_query (list_scopes include) = include_disabled include
data_scope_query (get_scope scope_uuid) = []
data_scope_query (update_scope encode scope_uuid request) = []
data_scope_query (disable_scope scope_uuid) = []
data_scope_query (create_resource encode scope_uuid request) = []
data_scope_query (list_resources scope_uuid include) = include_disabled include
data_scope_query (get_resource scope_uuid resource_uuid) = []
data_scope_query (update_resource encode scope_uuid resource_uuid request) = []
data_scope_query (disable_resource scope_uuid resource_uuid) = []
data_scope_query (list_grants principal) = grant_params principal
data_scope_query (create_grant encode grant) = []
data_scope_query (revoke_grant encode grant) = []

pub data_scope_call-path :
    {P : Type 0} (op : DataScopeRequest P)
    → (data_scope_call op).path
      ≡ with_query (render_route (data_scope_route op)) (data_scope_query op)
unfolding data_scope_call data_scope_route data_scope_query render_route with_query path_escape
    codes escape_path_byte encode_values query_escape escape_query_byte query_part join sort_by_key
    insert_by_key text_leb company_slug_query_parameter
data_scope_call-path (create_scope encode request) = refl
data_scope_call-path (list_scopes include) = refl
data_scope_call-path (get_scope scope_uuid) = refl
data_scope_call-path (update_scope encode scope_uuid request) = refl
data_scope_call-path (disable_scope scope_uuid) = refl
data_scope_call-path (create_resource encode scope_uuid request) = refl
data_scope_call-path (list_resources scope_uuid include) = refl
data_scope_call-path (get_resource scope_uuid resource_uuid) = refl
data_scope_call-path (update_resource encode scope_uuid resource_uuid request) = refl
data_scope_call-path (disable_resource scope_uuid resource_uuid) = refl
data_scope_call-path (list_grants principal) = refl
data_scope_call-path (create_grant encode grant) = refl
data_scope_call-path (revoke_grant encode grant) = refl

unfoldable pub data_scope_refusal : {P : Type 0} → DataScopeRequest P → Option ScopeError
data_scope_refusal (create_scope encode request) = validate_create request
data_scope_refusal (update_scope encode scope_uuid request) = validate_update request
data_scope_refusal (create_resource encode scope_uuid request) = validate_create request
data_scope_refusal (update_resource encode scope_uuid resource_uuid request) =
    validate_update request
data_scope_refusal (list_grants principal) = validate_principal principal
data_scope_refusal (create_grant encode grant) = validate_grant grant
data_scope_refusal (revoke_grant encode grant) = validate_grant grant
data_scope_refusal _ = none
