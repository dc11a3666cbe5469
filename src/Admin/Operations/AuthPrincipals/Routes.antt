-- ===== src/Admin/Operations/AuthPrincipals/Routes.antt =====
-- The routes of the calls for principals and invitations: the segments and the query of each
-- one, and which calls are refused before anything is sent.
use custd_sdk_go.Base.{
  List, [], ◌∷◌, ◌++◌, not, ◌&&◌, Option, none, Text, codes, reject_if, text_eq, ◌≡◌, ap, ◌orelse◌,
}
use custd_sdk_go.Errors.{SdkError, plain}
use custd_sdk_go.Errors.Rendering.{join, text_leb}
use custd_sdk_go.Url.{
  path_escape, query_escape, escape_path_byte, escape_query_byte, query_part, sort_by_key,
  insert_by_key, encode_values,
}
use custd_sdk_go.Admin.{company_slug_query_parameter}
use custd_sdk_go.Admin.Routing.{with_query, render_route, render_route-append}
use custd_sdk_go.Admin.Operations.AuthProjects.{
  require_auth_project_idempotency_key, auth_project_environment_path, environment_route,
}
use custd_sdk_go.Admin.Operations.AuthPrincipals.{
  application_principal_path, principal_route, principal_list_params, AuthPrincipalRequest,
  auth_principal_call, list_principal_sessions, revoke_principal_session, revoke_principal_sessions,
  revoke_principal_membership, get_principal_profile, set_principal_profile,
  list_principal_memberships, list_principal_audiences, grant_principal_audience,
  revoke_principal_audience, list_invitations, issue_invitation, revoke_invitation,
  redeliver_invitation, invitation_by_id, erase_principal, suspend_principal, restore_principal,
  export_principal, list_principals,
}

unfoldable pub auth_principal_route : {P : Type 0} → AuthPrincipalRequest P → List Text
auth_principal_route
      (list_principal_sessions project_id environment_id directory_id provider_subject options) =
    principal_route project_id environment_id directory_id provider_subject
    ++ (codes "sessions" ∷ [])
auth_principal_route
      (revoke_principal_session project_id environment_id directory_id provider_subject p options) =
    principal_route project_id environment_id directory_id provider_subject
    ++ (codes "sessions" ∷ codes "revoke" ∷ [])
auth_principal_route
      (revoke_principal_sessions project_id environment_id directory_id provider_subject p
        options) =
    principal_route project_id environment_id directory_id provider_subject
    ++ (codes "sessions" ∷ codes "revoke-all" ∷ [])
auth_principal_route
      (revoke_principal_membership project_id environment_id directory_id provider_subject p
        options) =
    principal_route project_id environment_id directory_id provider_subject
    ++ (codes "memberships" ∷ codes "revoke" ∷ [])
auth_principal_route
      (get_principal_profile project_id environment_id directory_id provider_subject options) =
    principal_route project_id environment_id directory_id provider_subject
    ++ (codes "profile" ∷ [])
auth_principal_route
      (set_principal_profile project_id environment_id directory_id provider_subject p options) =
    principal_route project_id environment_id directory_id provider_subject
    ++ (codes "profile" ∷ [])
auth_principal_route
      (list_principal_memberships project_id environment_id directory_id provider_subject options) =
    principal_route project_id environment_id directory_id provider_subject
    ++ (codes "memberships" ∷ [])
auth_principal_route
      (list_principal_audiences project_id environment_id directory_id provider_subject options) =
    environment_route project_id environment_id
    ++ (codes "principals" ∷ provider_subject ∷ codes "audiences" ∷ [])
auth_principal_route
      (grant_principal_audience project_id environment_id directory_id provider_subject p options) =
    environment_route project_id environment_id
    ++ (codes "principals" ∷ provider_subject ∷ codes "audiences" ∷ codes "grant" ∷ [])
auth_principal_route
      (revoke_principal_audience project_id environment_id directory_id provider_subject p
        options) =
    environment_route project_id environment_id
    ++ (codes "principals" ∷ provider_subject ∷ codes "audiences" ∷ codes "revoke" ∷ [])
auth_principal_route (list_invitations project_id environment_id options) =
    environment_route project_id environment_id ++ (codes "invitations" ∷ [])
auth_principal_route (issue_invitation project_id environment_id p options) =
    environment_route project_id environment_id ++ (codes "invitations" ∷ [])
auth_principal_route (revoke_invitation project_id environment_id p options) =
    environment_route project_id environment_id ++ (codes "invitations" ∷ codes "revoke" ∷ [])
auth_principal_route (redeliver_invitation project_id environment_id p options) =
    environment_route project_id environment_id ++ (codes "invitations" ∷ codes "redeliver" ∷ [])
auth_principal_route (invitation_by_id project_id environment_id verb p options) =
    environment_route project_id environment_id ++ (codes "invitations" ∷ verb ∷ [])
auth_principal_route
      (erase_principal project_id environment_id directory_id provider_subject p options) =
    principal_route project_id environment_id directory_id provider_subject ++ (codes "erase" ∷ [])
auth_principal_route
      (suspend_principal project_id environment_id directory_id provider_subject options) =
    principal_route project_id environment_id directory_id provider_subject
    ++ (codes "suspend" ∷ [])
auth_principal_route
      (restore_principal project_id environment_id directory_id provider_subject options) =
    principal_route project_id environment_id directory_id provider_subject
    ++ (codes "restore" ∷ [])
auth_principal_route
      (export_principal project_id environment_id directory_id provider_subject options) =
    principal_route project_id environment_id directory_id provider_subject ++ (codes "export" ∷ [])
auth_principal_route (list_principals project_id environment_id cursor limit options) =
    environment_route project_id environment_id ++ (codes "principals" ∷ [])

unfoldable pub auth_principal_query : {P : Type 0} → AuthPrincipalRequest P → Text
auth_principal_query
      (list_principal_sessions project_id environment_id directory_id provider_subject options) =
    []
auth_principal_query
      (revoke_principal_session project_id environment_id directory_id provider_subject p options) =
    []
auth_principal_query
      (revoke_principal_sessions project_id environment_id directory_id provider_subject p
        options) =
    []
auth_principal_query
      (revoke_principal_membership project_id environment_id directory_id provider_subject p
        options) =
    []
auth_principal_query
      (get_principal_profile project_id environment_id directory_id provider_subject options) =
    []
auth_principal_query
      (set_principal_profile project_id environment_id directory_id provider_subject p options) =
    []
auth_principal_query
      (list_principal_memberships project_id environment_id directory_id provider_subject options) =
    []
auth_principal_query
      (list_principal_audiences project_id environment_id directory_id provider_subject options) =
    encode_values ((codes "directoryId", directory_id) ∷ [])
auth_principal_query
      (grant_principal_audience project_id environment_id directory_id provider_subject p options) =
    []
auth_principal_query
      (revoke_principal_audience project_id environment_id directory_id provider_subject p
        options) =
    []
auth_principal_query (list_invitations project_id environment_id options) = []
auth_principal_query (issue_invitation project_id environment_id p options) = []
auth_principal_query (revoke_invitation project_id environment_id p options) = []
auth_principal_query (redeliver_invitation project_id environment_id p options) = []
auth_principal_query (invitation_by_id project_id environment_id verb p options) = []
auth_principal_query
      (erase_principal project_id environment_id directory_id provider_subject p options) =
    []
auth_principal_query
      (suspend_principal project_id environment_id directory_id provider_subject options) =
    []
auth_principal_query
      (restore_principal project_id environment_id directory_id provider_subject options) =
    []
auth_principal_query
      (export_principal project_id environment_id directory_id provider_subject options) =
    []
auth_principal_query (list_principals project_id environment_id cursor limit options) =
    principal_list_params cursor limit

pub auth_principal_call-path :
    {P : Type 0} (op : AuthPrincipalRequest P)
    → (auth_principal_call op).path
      ≡ with_query (render_route (auth_principal_route op)) (auth_principal_query op)
unfolding auth_project_environment_path application_principal_path auth_principal_call
    auth_principal_route auth_principal_query render_route with_query path_escape codes
    escape_path_byte encode_values query_escape escape_query_byte query_part join sort_by_key
    insert_by_key text_leb company_slug_query_parameter
auth_principal_call-path
      (list_principal_sessions project_id environment_id directory_id provider_subject options) =
    ap (λ p. with_query p ([]))
      (render_route-append (principal_route project_id environment_id directory_id provider_subject)
        (codes "sessions") ([]))
auth_principal_call-path
      (revoke_principal_session project_id environment_id directory_id provider_subject p options) =
    ap (λ p. with_query p ([]))
      (render_route-append (principal_route project_id environment_id directory_id provider_subject)
        (codes "sessions") (codes "revoke" ∷ []))
auth_principal_call-path
      (revoke_principal_sessions project_id environment_id directory_id provider_subject p
        options) =
    ap (λ p. with_query p ([]))
      (render_route-append (principal_route project_id environment_id directory_id provider_subject)
        (codes "sessions") (codes "revoke-all" ∷ []))
auth_principal_call-path
      (revoke_principal_membership project_id environment_id directory_id provider_subject p
        options) =
    ap (λ p. with_query p ([]))
      (render_route-append (principal_route project_id environment_id directory_id provider_subject)
        (codes "memberships") (codes "revoke" ∷ []))
auth_principal_call-path
      (get_principal_profile project_id environment_id directory_id provider_subject options) =
    ap (λ p. with_query p ([]))
      (render_route-append (principal_route project_id environment_id directory_id provider_subject)
        (codes "profile") ([]))
auth_principal_call-path
      (set_principal_profile project_id environment_id directory_id provider_subject p options) =
    ap (λ p. with_query p ([]))
      (render_route-append (principal_route project_id environment_id directory_id provider_subject)
        (codes "profile") ([]))
auth_principal_call-path
      (list_principal_memberships project_id environment_id directory_id provider_subject options) =
    ap (λ p. with_query p ([]))
      (render_route-append (principal_route project_id environment_id directory_id provider_subject)
        (codes "memberships") ([]))
auth_principal_call-path
      (list_principal_audiences project_id environment_id directory_id provider_subject options) =
    ap (λ p. with_query p (encode_values ((codes "directoryId", directory_id) ∷ [])))
      (render_route-append (environment_route project_id environment_id) (codes "principals")
        (provider_subject ∷ codes "audiences" ∷ []))
auth_principal_call-path
      (grant_principal_audience project_id environment_id directory_id provider_subject p options) =
    ap (λ p. with_query p ([]))
      (render_route-append (environment_route project_id environment_id) (codes "principals")
        (provider_subject ∷ codes "audiences" ∷ codes "grant" ∷ []))
auth_principal_call-path
      (revoke_principal_audience project_id environment_id directory_id provider_subject p
        options) =
    ap (λ p. with_query p ([]))
      (render_route-append (environment_route project_id environment_id) (codes "principals")
        (provider_subject ∷ codes "audiences" ∷ codes "revoke" ∷ []))
auth_principal_call-path (list_invitations project_id environment_id options) =
    ap (λ p. with_query p ([]))
      (render_route-append (environment_route project_id environment_id) (codes "invitations") ([]))
auth_principal_call-path (issue_invitation project_id environment_id p options) =
    ap (λ p. with_query p ([]))
      (render_route-append (environment_route project_id environment_id) (codes "invitations") ([]))
auth_principal_call-path (revoke_invitation project_id environment_id p options) =
    ap (λ p. with_query p ([]))
      (render_route-append (environment_route project_id environment_id) (codes "invitations")
        (codes "revoke" ∷ []))
auth_principal_call-path (redeliver_invitation project_id environment_id p options) =
    ap (λ p. with_query p ([]))
      (render_route-append (environment_route project_id environment_id) (codes "invitations")
        (codes "redeliver" ∷ []))
auth_principal_call-path (invitation_by_id project_id environment_id verb p options) =
    ap (λ p. with_query p ([]))
      (render_route-append (environment_route project_id environment_id) (codes "invitations")
        (verb ∷ []))
auth_principal_call-path
      (erase_principal project_id environment_id directory_id provider_subject p options) =
    ap (λ p. with_query p ([]))
      (render_route-append (principal_route project_id environment_id directory_id provider_subject)
        (codes "erase") ([]))
auth_principal_call-path
      (suspend_principal project_id environment_id directory_id provider_subject options) =
    ap (λ p. with_query p ([]))
      (render_route-append (principal_route project_id environment_id directory_id provider_subject)
        (codes "suspend") ([]))
auth_principal_call-path
      (restore_principal project_id environment_id directory_id provider_subject options) =
    ap (λ p. with_query p ([]))
      (render_route-append (principal_route project_id environment_id directory_id provider_subject)
        (codes "restore") ([]))
auth_principal_call-path
      (export_principal project_id environment_id directory_id provider_subject options) =
    ap (λ p. with_query p ([]))
      (render_route-append (principal_route project_id environment_id directory_id provider_subject)
        (codes "export") ([]))
auth_principal_call-path (list_principals project_id environment_id cursor limit options) =
    ap (λ p. with_query p (principal_list_params cursor limit))
      (render_route-append (environment_route project_id environment_id) (codes "principals") ([]))

unfoldable pub auth_principal_refusal : {P : Type 0} → AuthPrincipalRequest P → Option SdkError
unfolding require_auth_project_idempotency_key
auth_principal_refusal
      (revoke_principal_session project_id environment_id directory_id provider_subject p options) =
    require_auth_project_idempotency_key options
auth_principal_refusal
      (revoke_principal_sessions project_id environment_id directory_id provider_subject p
        options) =
    require_auth_project_idempotency_key options
auth_principal_refusal
      (set_principal_profile project_id environment_id directory_id provider_subject p options) =
    require_auth_project_idempotency_key options
auth_principal_refusal
      (grant_principal_audience project_id environment_id directory_id provider_subject p options) =
    require_auth_project_idempotency_key options
auth_principal_refusal
      (revoke_principal_audience project_id environment_id directory_id provider_subject p
        options) =
    require_auth_project_idempotency_key options
auth_principal_refusal (issue_invitation project_id environment_id p options) =
    require_auth_project_idempotency_key options
auth_principal_refusal (revoke_invitation project_id environment_id p options) =
    require_auth_project_idempotency_key options
auth_principal_refusal (redeliver_invitation project_id environment_id p options) =
    require_auth_project_idempotency_key options
auth_principal_refusal
      (erase_principal project_id environment_id directory_id provider_subject p options) =
    require_auth_project_idempotency_key options
auth_principal_refusal
      (suspend_principal project_id environment_id directory_id provider_subject options) =
    require_auth_project_idempotency_key options
auth_principal_refusal
      (restore_principal project_id environment_id directory_id provider_subject options) =
    require_auth_project_idempotency_key options
auth_principal_refusal (invitation_by_id project_id environment_id verb p options) =
    reject_if (not (text_eq verb (codes "revoke")) && not (text_eq verb (codes "redeliver")))
      (plain (codes "custd: unknown auth project invitation verb"))
    orelse require_auth_project_idempotency_key options
auth_principal_refusal _ = none
