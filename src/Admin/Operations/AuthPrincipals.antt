-- ===== src/Admin/Operations/AuthPrincipals.antt =====
-- admin_auth_projects.go, admin_auth_project_lifecycle.go, admin_auth_project_audiences.go and
-- admin_auth_project_invitations.go: application principals and invitations.
use custd_sdk_go.Base.{
  List, [], ◌∷◌, ◌++◌, true, not, ◌&&◌, Option, none, some, Text, codes, reject_if, text_eq, ◌≡◌,
  ap, ◌orelse◌,
}
use custd_sdk_go.Base.Int.{ℤ, not_positive}
use custd_sdk_go.Base.Decimal.{format_int}
use custd_sdk_go.Errors.{SdkError, plain}
use custd_sdk_go.Client.{set_if}
use custd_sdk_go.Errors.Rendering.{join, text_leb}
use custd_sdk_go.Url.{
  path_escape, query_escape, escape_path_byte, escape_query_byte, query_part, sort_by_key,
  insert_by_key, encode_values, set_given,
}
use custd_sdk_go.Admin.{company_slug_query_parameter}
use custd_sdk_go.Admin.Routing.{with_query, render_route, render_route-append}
use custd_sdk_go.Admin.Call.{Call, call, metadata_call}
use custd_sdk_go.Admin.Operations.AuthProjects.{
  AuthProjectRequestOptions, auth_project_headers, require_auth_project_idempotency_key,
  auth_project_environment_path, environment_route,
}
pub mod Routes

unfoldable pub application_principal_path : Text → Text → Text → Text → Text
application_principal_path project_id environment_id directory_id provider_subject =
    codes "/auth-projects/"
    ++ (path_escape project_id
        ++ (codes "/environments/"
            ++ (path_escape environment_id
                ++ (codes "/directories/"
                    ++ (path_escape directory_id
                        ++ (codes "/principals/" ++ path_escape provider_subject))))))

-- The segments of a principal.
abbrev pub principal_route : Text → Text → Text → Text → List Text
principal_route project_id environment_id directory_id provider_subject =
    codes "auth-projects"
    ∷ project_id
    ∷ codes "environments"
    ∷ environment_id
    ∷ codes "directories"
    ∷ directory_id
    ∷ codes "principals"
    ∷ provider_subject
    ∷ []

-- `encode` of the query of `ListPrincipals`.
unfoldable pub principal_list_params : Text → ℤ → Text
principal_list_params cursor limit = encode_values (
    set_if (not (not_positive limit)) (codes "limit") (format_int limit)
      (set_given (codes "cursor") cursor []))

pub data AuthPrincipalRequest (P : Type 0) : Type 0 where
  list_principal_sessions :
      (project_id environment_id directory_id provider_subject : Text)
      → (options : AuthProjectRequestOptions) → AuthPrincipalRequest P
  revoke_principal_session :
      (project_id environment_id directory_id provider_subject : Text)
      → (p : P) → (options : AuthProjectRequestOptions) → AuthPrincipalRequest P
  revoke_principal_sessions :
      (project_id environment_id directory_id provider_subject : Text)
      → (p : P) → (options : AuthProjectRequestOptions) → AuthPrincipalRequest P
  revoke_principal_membership :
      (project_id environment_id directory_id provider_subject : Text)
      → (p : P) → (options : AuthProjectRequestOptions) → AuthPrincipalRequest P
  get_principal_profile :
      (project_id environment_id directory_id provider_subject : Text)
      → (options : AuthProjectRequestOptions) → AuthPrincipalRequest P
  set_principal_profile :
      (project_id environment_id directory_id provider_subject : Text)
      → (p : P) → (options : AuthProjectRequestOptions) → AuthPrincipalRequest P
  list_principal_memberships :
      (project_id environment_id directory_id provider_subject : Text)
      → (options : AuthProjectRequestOptions) → AuthPrincipalRequest P
  list_principal_audiences :
      (project_id environment_id directory_id provider_subject : Text)
      → (options : AuthProjectRequestOptions) → AuthPrincipalRequest P
  grant_principal_audience :
      (project_id environment_id directory_id provider_subject : Text)
      → (p : P) → (options : AuthProjectRequestOptions) → AuthPrincipalRequest P
  revoke_principal_audience :
      (project_id environment_id directory_id provider_subject : Text)
      → (p : P) → (options : AuthProjectRequestOptions) → AuthPrincipalRequest P
  list_invitations :
      (project_id environment_id : Text)
      → (options : AuthProjectRequestOptions) → AuthPrincipalRequest P
  issue_invitation :
      (project_id environment_id : Text)
      → (p : P) → (options : AuthProjectRequestOptions) → AuthPrincipalRequest P
  revoke_invitation :
      (project_id environment_id : Text)
      → (p : P) → (options : AuthProjectRequestOptions) → AuthPrincipalRequest P
  redeliver_invitation :
      (project_id environment_id : Text)
      → (p : P) → (options : AuthProjectRequestOptions) → AuthPrincipalRequest P
  invitation_by_id :
      (project_id environment_id verb : Text)
      → (p : P) → (options : AuthProjectRequestOptions) → AuthPrincipalRequest P
  erase_principal :
      (project_id environment_id directory_id provider_subject : Text)
      → (p : P) → (options : AuthProjectRequestOptions) → AuthPrincipalRequest P
  suspend_principal :
      (project_id environment_id directory_id provider_subject : Text)
      → (options : AuthProjectRequestOptions) → AuthPrincipalRequest P
  restore_principal :
      (project_id environment_id directory_id provider_subject : Text)
      → (options : AuthProjectRequestOptions) → AuthPrincipalRequest P
  export_principal :
      (project_id environment_id directory_id provider_subject : Text)
      → (options : AuthProjectRequestOptions) → AuthPrincipalRequest P
  list_principals :
      (project_id environment_id cursor : Text)
      → (limit : ℤ) → (options : AuthProjectRequestOptions) → AuthPrincipalRequest P

unfoldable pub auth_principal_call : {P : Type 0} → AuthPrincipalRequest P → Call P
auth_principal_call
      (list_principal_sessions project_id environment_id directory_id provider_subject options) =
    call "GET"
      (application_principal_path project_id environment_id directory_id provider_subject
        ++ codes "/sessions")
      none true (auth_project_headers options)
auth_principal_call
      (revoke_principal_session project_id environment_id directory_id provider_subject p options) =
    call "POST"
      (application_principal_path project_id environment_id directory_id provider_subject
        ++ codes "/sessions/revoke")
      (some p) true (auth_project_headers options)
auth_principal_call
      (revoke_principal_sessions project_id environment_id directory_id provider_subject p
        options) =
    call "POST"
      (application_principal_path project_id environment_id directory_id provider_subject
        ++ codes "/sessions/revoke-all")
      (some p) true (auth_project_headers options)
auth_principal_call
      (revoke_principal_membership project_id environment_id directory_id provider_subject p
        options) =
    call "POST"
      (application_principal_path project_id environment_id directory_id provider_subject
        ++ codes "/memberships/revoke")
      (some p) true (auth_project_headers options)
auth_principal_call
      (get_principal_profile project_id environment_id directory_id provider_subject options) =
    call "GET"
      (application_principal_path project_id environment_id directory_id provider_subject
        ++ codes "/profile")
      none true (auth_project_headers options)
auth_principal_call
      (set_principal_profile project_id environment_id directory_id provider_subject p options) =
    call "POST"
      (application_principal_path project_id environment_id directory_id provider_subject
        ++ codes "/profile")
      (some p) true (auth_project_headers options)
auth_principal_call
      (list_principal_memberships project_id environment_id directory_id provider_subject options) =
    call "GET"
      (application_principal_path project_id environment_id directory_id provider_subject
        ++ codes "/memberships")
      none true (auth_project_headers options)
auth_principal_call
      (list_principal_audiences project_id environment_id directory_id provider_subject options) =
    call "GET"
      ((auth_project_environment_path project_id environment_id
          ++ (codes "/principals/" ++ (path_escape provider_subject ++ codes "/audiences")))
        ++ b'?' ∷ encode_values ((codes "directoryId", directory_id) ∷ []))
      none true (auth_project_headers options)
auth_principal_call
      (grant_principal_audience project_id environment_id directory_id provider_subject p options) =
    call "POST"
      (auth_project_environment_path project_id environment_id
        ++ (codes "/principals/" ++ (path_escape provider_subject ++ codes "/audiences/grant")))
      (some p) true (auth_project_headers options)
auth_principal_call
      (revoke_principal_audience project_id environment_id directory_id provider_subject p
        options) =
    call "POST"
      (auth_project_environment_path project_id environment_id
        ++ (codes "/principals/" ++ (path_escape provider_subject ++ codes "/audiences/revoke")))
      (some p) true (auth_project_headers options)
auth_principal_call (list_invitations project_id environment_id options) =
    call "GET" (auth_project_environment_path project_id environment_id ++ codes "/invitations")
      none true (auth_project_headers options)
auth_principal_call (issue_invitation project_id environment_id p options) =
    call "POST" (auth_project_environment_path project_id environment_id ++ codes "/invitations")
      (some p) true (auth_project_headers options)
auth_principal_call (revoke_invitation project_id environment_id p options) =
    call "POST"
      (auth_project_environment_path project_id environment_id ++ codes "/invitations/revoke")
      (some p) true (auth_project_headers options)
auth_principal_call (redeliver_invitation project_id environment_id p options) =
    call "POST"
      (auth_project_environment_path project_id environment_id ++ codes "/invitations/redeliver")
      (some p) true (auth_project_headers options)
auth_principal_call (invitation_by_id project_id environment_id verb p options) =
    metadata_call "POST"
      (auth_project_environment_path project_id environment_id
        ++ (codes "/invitations/" ++ path_escape verb))
      (some p) true (auth_project_headers options)
auth_principal_call
      (erase_principal project_id environment_id directory_id provider_subject p options) =
    call "POST"
      (application_principal_path project_id environment_id directory_id provider_subject
        ++ codes "/erase")
      (some p) true (auth_project_headers options)
auth_principal_call
      (suspend_principal project_id environment_id directory_id provider_subject options) =
    call "POST"
      (application_principal_path project_id environment_id directory_id provider_subject
        ++ codes "/suspend")
      none true (auth_project_headers options)
auth_principal_call
      (restore_principal project_id environment_id directory_id provider_subject options) =
    call "POST"
      (application_principal_path project_id environment_id directory_id provider_subject
        ++ codes "/restore")
      none true (auth_project_headers options)
auth_principal_call
      (export_principal project_id environment_id directory_id provider_subject options) =
    call "GET"
      (application_principal_path project_id environment_id directory_id provider_subject
        ++ codes "/export")
      none true (auth_project_headers options)
auth_principal_call (list_principals project_id environment_id cursor limit options) =
    call "GET"
      (with_query (auth_project_environment_path project_id environment_id ++ codes "/principals")
        (principal_list_params cursor limit))
      none true (auth_project_headers options)
