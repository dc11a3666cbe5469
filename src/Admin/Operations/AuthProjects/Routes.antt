-- ===== src/Admin/Operations/AuthProjects/Routes.antt =====
-- The routes of the calls for projects and environments: the segments and the query of each
-- one, and which calls are refused before anything is sent.
use custd_sdk_go.Base.{
  List, [], ◌∷◌, ◌++◌, Bool, not, ◌||◌, Option, none, Text, codes, reject_if, text_eq, ◌≡◌, refl,
  ap, ◌orelse◌,
}
use custd_sdk_go.Errors.{SdkError, plain}
use custd_sdk_go.Errors.Rendering.{join, text_leb}
use custd_sdk_go.Url.{
  path_escape, query_escape, escape_path_byte, escape_query_byte, query_part, sort_by_key,
  insert_by_key, encode_values,
}
use custd_sdk_go.Admin.{company_slug_query_parameter}
use custd_sdk_go.Admin.Routing.{with_query, render_route, render_route-append}
use custd_sdk_go.Admin.Operations.AuthProjects.{
  require_auth_project_idempotency_key, auth_project_environment_path, environment_route,
  after_query, AuthProjectRequest, auth_project_call, list_projects, create_project,
  bind_project_company, create_environment, apply_environment_desired_state,
  preview_environment_desired_state, get_environment_status, get_environment_capability,
  list_directories, act_on_directory, list_environment_organisations, reconcile_environment_clients,
  delete_project, delete_environment, offboard_environment,
}

unfoldable pub auth_project_route : {P : Type 0} → AuthProjectRequest P → List Text
auth_project_route (list_projects after options) = codes "auth-projects" ∷ []
auth_project_route (create_project p options) = codes "auth-projects" ∷ []
auth_project_route (bind_project_company project_id options) =
    codes "auth-projects" ∷ project_id ∷ codes "company-binding" ∷ []
auth_project_route (create_environment project_id p options) =
    codes "auth-projects" ∷ project_id ∷ codes "environments" ∷ []
auth_project_route (apply_environment_desired_state project_id environment_id p options) =
    environment_route project_id environment_id ++ (codes "apply" ∷ [])
auth_project_route (preview_environment_desired_state project_id environment_id p options) =
    environment_route project_id environment_id ++ (codes "preview" ∷ [])
auth_project_route (get_environment_status project_id environment_id options) =
    environment_route project_id environment_id ++ (codes "status" ∷ [])
auth_project_route (get_environment_capability project_id environment_id options) =
    environment_route project_id environment_id ++ (codes "capability" ∷ [])
auth_project_route (list_directories project_id environment_id options) =
    environment_route project_id environment_id ++ (codes "directories" ∷ [])
auth_project_route (act_on_directory project_id environment_id action p options) =
    environment_route project_id environment_id ++ (codes "directories" ∷ action ∷ [])
auth_project_route (list_environment_organisations project_id environment_id options) =
    environment_route project_id environment_id ++ (codes "organisations" ∷ [])
auth_project_route (reconcile_environment_clients project_id environment_id p options) =
    environment_route project_id environment_id ++ (codes "clients" ∷ codes "reconcile" ∷ [])
auth_project_route (delete_project project_id p options) =
    codes "auth-projects" ∷ project_id ∷ codes "delete" ∷ []
auth_project_route (delete_environment project_id environment_id p options) =
    environment_route project_id environment_id ++ (codes "delete" ∷ [])
auth_project_route (offboard_environment project_id environment_id p options) =
    environment_route project_id environment_id ++ (codes "offboard" ∷ [])

unfoldable pub auth_project_query : {P : Type 0} → AuthProjectRequest P → Text
auth_project_query (list_projects after options) = after_query after
auth_project_query (create_project p options) = []
auth_project_query (bind_project_company project_id options) = []
auth_project_query (create_environment project_id p options) = []
auth_project_query (apply_environment_desired_state project_id environment_id p options) = []
auth_project_query (preview_environment_desired_state project_id environment_id p options) = []
auth_project_query (get_environment_status project_id environment_id options) = []
auth_project_query (get_environment_capability project_id environment_id options) = []
auth_project_query (list_directories project_id environment_id options) = []
auth_project_query (act_on_directory project_id environment_id action p options) = []
auth_project_query (list_environment_organisations project_id environment_id options) = []
auth_project_query (reconcile_environment_clients project_id environment_id p options) = []
auth_project_query (delete_project project_id p options) = []
auth_project_query (delete_environment project_id environment_id p options) = []
auth_project_query (offboard_environment project_id environment_id p options) = []

pub auth_project_call-path :
    {P : Type 0} (op : AuthProjectRequest P)
    → (auth_project_call op).path
      ≡ with_query (render_route (auth_project_route op)) (auth_project_query op)
unfolding auth_project_environment_path auth_project_call auth_project_route auth_project_query
    render_route with_query path_escape codes escape_path_byte encode_values query_escape
    escape_query_byte query_part join sort_by_key insert_by_key text_leb
    company_slug_query_parameter
auth_project_call-path (list_projects after options) = refl
auth_project_call-path (create_project p options) = refl
auth_project_call-path (bind_project_company project_id options) = refl
auth_project_call-path (create_environment project_id p options) = refl
auth_project_call-path (apply_environment_desired_state project_id environment_id p options) =
    ap (λ p. with_query p ([]))
      (render_route-append (environment_route project_id environment_id) (codes "apply") ([]))
auth_project_call-path (preview_environment_desired_state project_id environment_id p options) =
    ap (λ p. with_query p ([]))
      (render_route-append (environment_route project_id environment_id) (codes "preview") ([]))
auth_project_call-path (get_environment_status project_id environment_id options) =
    ap (λ p. with_query p ([]))
      (render_route-append (environment_route project_id environment_id) (codes "status") ([]))
auth_project_call-path (get_environment_capability project_id environment_id options) =
    ap (λ p. with_query p ([]))
      (render_route-append (environment_route project_id environment_id) (codes "capability") ([]))
auth_project_call-path (list_directories project_id environment_id options) =
    ap (λ p. with_query p ([]))
      (render_route-append (environment_route project_id environment_id) (codes "directories") ([]))
auth_project_call-path (act_on_directory project_id environment_id action p options) =
    ap (λ p. with_query p ([]))
      (render_route-append (environment_route project_id environment_id) (codes "directories")
        (action ∷ []))
auth_project_call-path (list_environment_organisations project_id environment_id options) =
    ap (λ p. with_query p ([]))
      (render_route-append (environment_route project_id environment_id) (codes "organisations")
        ([]))
auth_project_call-path (reconcile_environment_clients project_id environment_id p options) =
    ap (λ p. with_query p ([]))
      (render_route-append (environment_route project_id environment_id) (codes "clients")
        (codes "reconcile" ∷ []))
auth_project_call-path (delete_project project_id p options) = refl
auth_project_call-path (delete_environment project_id environment_id p options) =
    ap (λ p. with_query p ([]))
      (render_route-append (environment_route project_id environment_id) (codes "delete") ([]))
auth_project_call-path (offboard_environment project_id environment_id p options) =
    ap (λ p. with_query p ([]))
      (render_route-append (environment_route project_id environment_id) (codes "offboard") ([]))

-- The keys of `authProjectDirectoryActions`.
unfoldable pub is_directory_action : Text → Bool
is_directory_action action =
    text_eq action (codes "enable")
    || text_eq action (codes "pause")
    || text_eq action (codes "resume")
    || text_eq action (codes "release")

unfoldable pub auth_project_refusal : {P : Type 0} → AuthProjectRequest P → Option SdkError
unfolding require_auth_project_idempotency_key is_directory_action
auth_project_refusal (create_project p options) = require_auth_project_idempotency_key options
auth_project_refusal (apply_environment_desired_state project_id environment_id p options) =
    require_auth_project_idempotency_key options
auth_project_refusal (act_on_directory project_id environment_id action p options) =
    reject_if (not (is_directory_action action)) (
      plain (
        codes
          "custd: auth-project directory action is not one of enable, pause, resume or release"))
    orelse require_auth_project_idempotency_key options
auth_project_refusal (reconcile_environment_clients project_id environment_id p options) =
    require_auth_project_idempotency_key options
auth_project_refusal _ = none
