-- ===== src/Admin/Operations/Users.antt =====
-- admin_users.go.
use custd_sdk_go.Base.{
  List, [], ◌∷◌, ◌++◌, Bool, true, false, none, some, Text, codes, is_empty, if◌then◌else◌, text_eq,
  ◌≡◌, refl,
}
use custd_sdk_go.Errors.{SdkError, plain}
use custd_sdk_go.Client.{set_if}
use custd_sdk_go.Errors.Rendering.{join, text_leb}
use custd_sdk_go.Url.{
  path_escape, query_escape, escape_path_byte, escape_query_byte, query_part, sort_by_key,
  insert_by_key, encode_values, set_given,
}
use custd_sdk_go.Admin.{company_slug_query_parameter}
use custd_sdk_go.Admin.Routing.{with_query, render_route}
use custd_sdk_go.Admin.Call.{Call, call, metadata_call}
use custd_sdk_go.Base.{Result, ok, err}

-- A query that is there under a test.
unfoldable pub flag_query : Text → Bool → Text
flag_query query flag = if flag then query else []

-- `query` of `List`, and of `RetryWelcome` without the flag.
unfoldable pub user_query : Text → Bool → Text
user_query company_slug include_ended = encode_values (
    set_if include_ended (codes "includeEnded") (codes "true")
      (set_given company_slug_query_parameter company_slug []))

pub data AdminUserRequest (P : Type 0) : Type 0 where
  list_users : (company_slug : Text) → (include_ended : Bool) → AdminUserRequest P
  create_user : (p : P) → AdminUserRequest P
  get_user : (user_uuid : Text) → (include_ended : Bool) → AdminUserRequest P
  update_user : (user_uuid : Text) → (p : P) → AdminUserRequest P
  disable_user :
      (of_reason : (Text → P))
      → (user_uuid reason : Text) → (global_user : Bool) → AdminUserRequest P
  enable_user : (user_uuid : Text) → (p : P) → (global_user : Bool) → AdminUserRequest P
  soft_delete_user : (user_uuid company_slug : Text) → (p : P) → AdminUserRequest P
  restore_user : (user_uuid company_slug : Text) → (p : P) → AdminUserRequest P
  add_membership : (user_uuid : Text) → (p : P) → AdminUserRequest P
  reset_password : (user_uuid : Text) → AdminUserRequest P
  retry_welcome : (user_uuid company_slug : Text) → AdminUserRequest P
  list_roles : AdminUserRequest P

unfoldable pub admin_user_call : {P : Type 0} → AdminUserRequest P → Call P
admin_user_call (list_users company_slug include_ended) =
    call "GET" (with_query (codes "/users") (user_query company_slug include_ended)) none true []
admin_user_call (create_user p) = metadata_call "POST" (codes "/users") (some p) true []
admin_user_call (get_user user_uuid include_ended) =
    metadata_call "GET"
      (with_query (codes "/users/" ++ path_escape user_uuid)
        (flag_query (codes "includeEnded=true") include_ended))
      none true []
admin_user_call (update_user user_uuid p) =
    metadata_call "PUT" (codes "/users/" ++ path_escape user_uuid) (some p) true []
admin_user_call (disable_user of_reason user_uuid reason global_user) =
    metadata_call "POST"
      (with_query (codes "/users/" ++ (path_escape user_uuid ++ codes "/disable"))
        (flag_query (codes "globalUser=true") global_user))
      (if is_empty reason then none else some (of_reason reason)) false []
admin_user_call (enable_user user_uuid p global_user) =
    metadata_call "POST"
      (with_query (codes "/users/" ++ (path_escape user_uuid ++ codes "/enable"))
        (flag_query (codes "globalUser=true") global_user))
      (some p) false []
admin_user_call (soft_delete_user user_uuid company_slug p) =
    metadata_call "POST"
      ((codes "/users/" ++ (path_escape user_uuid ++ codes "/soft-delete"))
        ++ b'?' ∷ encode_values ((company_slug_query_parameter, company_slug) ∷ []))
      (some p) true []
admin_user_call (restore_user user_uuid company_slug p) =
    metadata_call "POST"
      ((codes "/users/" ++ (path_escape user_uuid ++ codes "/restore"))
        ++ b'?' ∷ encode_values ((company_slug_query_parameter, company_slug) ∷ []))
      (some p) true []
admin_user_call (add_membership user_uuid p) =
    metadata_call "POST" (codes "/users/" ++ (path_escape user_uuid ++ codes "/memberships"))
      (some p) true []
admin_user_call (reset_password user_uuid) =
    metadata_call "POST" (codes "/users/" ++ (path_escape user_uuid ++ codes "/reset-password"))
      none true []
admin_user_call (retry_welcome user_uuid company_slug) =
    metadata_call "POST"
      (with_query (codes "/users/" ++ (path_escape user_uuid ++ codes "/retry-welcome"))
        (user_query company_slug false))
      none false []
admin_user_call list_roles = metadata_call "GET" (codes "/user-roles") none true []

unfoldable pub admin_user_route : {P : Type 0} → AdminUserRequest P → List Text
admin_user_route (list_users company_slug include_ended) = codes "users" ∷ []
admin_user_route (create_user p) = codes "users" ∷ []
admin_user_route (get_user user_uuid include_ended) = codes "users" ∷ user_uuid ∷ []
admin_user_route (update_user user_uuid p) = codes "users" ∷ user_uuid ∷ []
admin_user_route (disable_user of_reason user_uuid reason global_user) =
    codes "users" ∷ user_uuid ∷ codes "disable" ∷ []
admin_user_route (enable_user user_uuid p global_user) =
    codes "users" ∷ user_uuid ∷ codes "enable" ∷ []
admin_user_route (soft_delete_user user_uuid company_slug p) =
    codes "users" ∷ user_uuid ∷ codes "soft-delete" ∷ []
admin_user_route (restore_user user_uuid company_slug p) =
    codes "users" ∷ user_uuid ∷ codes "restore" ∷ []
admin_user_route (add_membership user_uuid p) = codes "users" ∷ user_uuid ∷ codes "memberships" ∷ []
admin_user_route (reset_password user_uuid) =
    codes "users" ∷ user_uuid ∷ codes "reset-password" ∷ []
admin_user_route (retry_welcome user_uuid company_slug) =
    codes "users" ∷ user_uuid ∷ codes "retry-welcome" ∷ []
admin_user_route list_roles = codes "user-roles" ∷ []

unfoldable pub admin_user_query : {P : Type 0} → AdminUserRequest P → Text
admin_user_query (list_users company_slug include_ended) = user_query company_slug include_ended
admin_user_query (create_user p) = []
admin_user_query (get_user user_uuid include_ended) =
    flag_query (codes "includeEnded=true") include_ended
admin_user_query (update_user user_uuid p) = []
admin_user_query (disable_user of_reason user_uuid reason global_user) =
    flag_query (codes "globalUser=true") global_user
admin_user_query (enable_user user_uuid p global_user) =
    flag_query (codes "globalUser=true") global_user
admin_user_query (soft_delete_user user_uuid company_slug p) =
    encode_values ((company_slug_query_parameter, company_slug) ∷ [])
admin_user_query (restore_user user_uuid company_slug p) =
    encode_values ((company_slug_query_parameter, company_slug) ∷ [])
admin_user_query (add_membership user_uuid p) = []
admin_user_query (reset_password user_uuid) = []
admin_user_query (retry_welcome user_uuid company_slug) = user_query company_slug false
admin_user_query list_roles = []

pub admin_user_call-path :
    {P : Type 0} (op : AdminUserRequest P)
    → (admin_user_call op).path
      ≡ with_query (render_route (admin_user_route op)) (admin_user_query op)
unfolding admin_user_call admin_user_route admin_user_query render_route with_query path_escape
    codes escape_path_byte encode_values query_escape escape_query_byte query_part join sort_by_key
    insert_by_key text_leb company_slug_query_parameter
admin_user_call-path (list_users company_slug include_ended) = refl
admin_user_call-path (create_user p) = refl
admin_user_call-path (get_user user_uuid include_ended) = refl
admin_user_call-path (update_user user_uuid p) = refl
admin_user_call-path (disable_user of_reason user_uuid reason global_user) = refl
admin_user_call-path (enable_user user_uuid p global_user) = refl
admin_user_call-path (soft_delete_user user_uuid company_slug p) = refl
admin_user_call-path (restore_user user_uuid company_slug p) = refl
admin_user_call-path (add_membership user_uuid p) = refl
admin_user_call-path (reset_password user_uuid) = refl
admin_user_call-path (retry_welcome user_uuid company_slug) = refl
admin_user_call-path list_roles = refl

-- `Remove`: one of two routes, named by the removal.
unfoldable pub remove : {P : Type 0} → Text → Text → Text → P → Result SdkError (AdminUserRequest P)
remove user_uuid removal company_slug p =
    if text_eq removal (codes "soft-delete")
    then ok (soft_delete_user user_uuid company_slug p)
    else if text_eq removal (codes "restore")
    then ok (restore_user user_uuid company_slug p)
    else err (plain (codes "custd: admin user removal must be soft-delete or restore"))
