-- ===== src/Admin/Operations/AuthProjects.antt =====
-- admin_auth_projects.go, admin_auth_project_config.go and admin_auth_project_lifecycle.go: projects
-- and environments.
use custd_sdk_go.Base.{
  List, [], ◌∷◌, ◌++◌, Bool, true, not, ◌||◌, Option, none, some, Text, codes, is_empty,
  if◌then◌else◌, trim_space, reject_if, text_eq, ◌≡◌, refl, ap, ◌orelse◌,
}
use custd_sdk_go.Errors.{SdkError, plain}
use custd_sdk_go.Client.{set_if}
use custd_sdk_go.Errors.Rendering.{join, text_leb}
use custd_sdk_go.Url.{
  path_escape, query_escape, escape_path_byte, escape_query_byte, query_part, sort_by_key,
  insert_by_key, encode_values,
}
use custd_sdk_go.Admin.{company_slug_query_parameter}
use custd_sdk_go.Admin.Routing.{with_query, render_route, render_route-append}
use custd_sdk_go.Admin.Call.{Call, call}
pub mod Routes

pub record AuthProjectRequestOptions : Type 0 where
  pub owning_user_uuid : Text
  pub idempotency_key : Text

unfoldable pub auth_project_headers : AuthProjectRequestOptions → List (Text × Text)
auth_project_headers o =
    let owner = trim_space o.owning_user_uuid in
    let key = trim_space o.idempotency_key in
    set_if (not (is_empty key)) (codes "Idempotency-Key") key
      (set_if (not (is_empty owner)) (codes "X-Custd-Owning-User-UUID") owner [])

unfoldable pub require_auth_project_idempotency_key : AuthProjectRequestOptions → Option SdkError
require_auth_project_idempotency_key o =
    reject_if (is_empty (trim_space o.idempotency_key))
      (plain (codes "custd: auth-project idempotency key is required"))

unfoldable pub auth_project_environment_path : Text → Text → Text
auth_project_environment_path project_id environment_id =
    codes "/auth-projects/"
    ++ (path_escape project_id ++ (codes "/environments/" ++ path_escape environment_id))

-- The segments of an environment.
abbrev pub environment_route : Text → Text → List Text
environment_route project_id environment_id =
    codes "auth-projects" ∷ project_id ∷ codes "environments" ∷ environment_id ∷ []

-- `if trimmed := strings.TrimSpace(after); trimmed != ""`
unfoldable pub after_query : Text → Text
after_query after =
    let trimmed = trim_space after in
    if is_empty trimmed then [] else codes "after=" ++ query_escape trimmed

pub data AuthProjectRequest (P : Type 0) : Type 0 where
  list_projects : (after : Text) → (options : AuthProjectRequestOptions) → AuthProjectRequest P
  create_project : (p : P) → (options : AuthProjectRequestOptions) → AuthProjectRequest P
  bind_project_company :
      (project_id : Text) → (options : AuthProjectRequestOptions) → AuthProjectRequest P
  create_environment :
      (project_id : Text) → (p : P) → (options : AuthProjectRequestOptions) → AuthProjectRequest P
  apply_environment_desired_state :
      (project_id environment_id : Text)
      → (p : P) → (options : AuthProjectRequestOptions) → AuthProjectRequest P
  preview_environment_desired_state :
      (project_id environment_id : Text)
      → (p : P) → (options : AuthProjectRequestOptions) → AuthProjectRequest P
  get_environment_status :
      (project_id environment_id : Text)
      → (options : AuthProjectRequestOptions) → AuthProjectRequest P
  get_environment_capability :
      (project_id environment_id : Text)
      → (options : AuthProjectRequestOptions) → AuthProjectRequest P
  list_directories :
      (project_id environment_id : Text)
      → (options : AuthProjectRequestOptions) → AuthProjectRequest P
  act_on_directory :
      (project_id environment_id action : Text)
      → (p : P) → (options : AuthProjectRequestOptions) → AuthProjectRequest P
  list_environment_organisations :
      (project_id environment_id : Text)
      → (options : AuthProjectRequestOptions) → AuthProjectRequest P
  reconcile_environment_clients :
      (project_id environment_id : Text)
      → (p : P) → (options : AuthProjectRequestOptions) → AuthProjectRequest P
  delete_project :
      (project_id : Text) → (p : P) → (options : AuthProjectRequestOptions) → AuthProjectRequest P
  delete_environment :
      (project_id environment_id : Text)
      → (p : P) → (options : AuthProjectRequestOptions) → AuthProjectRequest P
  offboard_environment :
      (project_id environment_id : Text)
      → (p : P) → (options : AuthProjectRequestOptions) → AuthProjectRequest P

unfoldable pub auth_project_call : {P : Type 0} → AuthProjectRequest P → Call P
auth_project_call (list_projects after options) =
    call "GET" (with_query (codes "/auth-projects") (after_query after)) none true
      (auth_project_headers options)
auth_project_call (create_project p options) =
    call "POST" (codes "/auth-projects") (some p) true (auth_project_headers options)
auth_project_call (bind_project_company project_id options) =
    call "POST" (codes "/auth-projects/" ++ (path_escape project_id ++ codes "/company-binding"))
      none true (auth_project_headers options)
auth_project_call (create_environment project_id p options) =
    call "POST" (codes "/auth-projects/" ++ (path_escape project_id ++ codes "/environments"))
      (some p) true (auth_project_headers options)
auth_project_call (apply_environment_desired_state project_id environment_id p options) =
    call "POST" (auth_project_environment_path project_id environment_id ++ codes "/apply") (some p)
      true (auth_project_headers options)
auth_project_call (preview_environment_desired_state project_id environment_id p options) =
    call "POST" (auth_project_environment_path project_id environment_id ++ codes "/preview")
      (some p) true (auth_project_headers options)
auth_project_call (get_environment_status project_id environment_id options) =
    call "GET" (auth_project_environment_path project_id environment_id ++ codes "/status") none
      true (auth_project_headers options)
auth_project_call (get_environment_capability project_id environment_id options) =
    call "GET" (auth_project_environment_path project_id environment_id ++ codes "/capability") none
      true (auth_project_headers options)
auth_project_call (list_directories project_id environment_id options) =
    call "GET" (auth_project_environment_path project_id environment_id ++ codes "/directories")
      none true (auth_project_headers options)
auth_project_call (act_on_directory project_id environment_id action p options) =
    call "POST"
      (auth_project_environment_path project_id environment_id
        ++ (codes "/directories/" ++ path_escape action))
      (some p) true (auth_project_headers options)
auth_project_call (list_environment_organisations project_id environment_id options) =
    call "GET" (auth_project_environment_path project_id environment_id ++ codes "/organisations")
      none true (auth_project_headers options)
auth_project_call (reconcile_environment_clients project_id environment_id p options) =
    call "POST"
      (auth_project_environment_path project_id environment_id ++ codes "/clients/reconcile")
      (some p) true (auth_project_headers options)
auth_project_call (delete_project project_id p options) =
    call "POST" (codes "/auth-projects/" ++ (path_escape project_id ++ codes "/delete")) (some p)
      true (auth_project_headers options)
auth_project_call (delete_environment project_id environment_id p options) =
    call "POST" (auth_project_environment_path project_id environment_id ++ codes "/delete")
      (some p) true (auth_project_headers options)
auth_project_call (offboard_environment project_id environment_id p options) =
    call "POST" (auth_project_environment_path project_id environment_id ++ codes "/offboard")
      (some p) true (auth_project_headers options)
