-- ===== src/Admin/Operations/Webhooks.antt =====
-- admin_notification_webhooks.go. `tenantScopedPath` ends in the query, and two operations append a
-- segment behind it.
use mathlib.Core.List.{append_assoc, append-nil}
use custd_sdk_go.Base.{
  List, [], ◌∷◌, ◌++◌, true, false, none, some, Text, codes, is_empty, if◌then◌else◌, ◌≡◌, refl,
  sym, ◌∙◌, ap, All, ◌≢◌, Bool, arith,
}
use custd_sdk_go.Url.{path_escape, query_escape, escape_path_byte}
use custd_sdk_go.Url.Utf8.{IsText, is_text, is_text-IsText}
use custd_sdk_go.Admin.Routing.{with_query, render_route, read_route, read_route-render_route}
use custd_sdk_go.Admin.Call.{Call, metadata_call}

unfoldable pub tenant_scoped_path : Text → Text → Text → Text
tenant_scoped_path base uuid company =
    (if is_empty uuid then base else base ++ b'/' ∷ path_escape uuid)
    ++ (codes "?companySlug=" ++ query_escape company)

-- `body` of `SetEnabled` and of `Replay`, as it is marshalled.
pub data WebhookRequest (P : Type 0) : Type 0 where
  create_webhook : (p : P) → WebhookRequest P
  list_webhooks : (company : Text) → WebhookRequest P
  set_enabled : (company : Text) (uuid : Text) (p : P) → WebhookRequest P
  rotate_webhook_secret : (company : Text) (uuid : Text) → WebhookRequest P
  delete_webhook : (company : Text) (uuid : Text) → WebhookRequest P
  get_delivery : (company : Text) (uuid : Text) → WebhookRequest P
  replay : (company : Text) (uuid : Text) (p : P) → WebhookRequest P

unfoldable pub webhook_call : {P : Type 0} → WebhookRequest P → Call P
unfolding tenant_scoped_path
webhook_call (create_webhook p) =
    metadata_call "POST" (codes "/notification-webhooks") (some p) true []
webhook_call (list_webhooks company) =
    metadata_call "GET" (tenant_scoped_path (codes "/notification-webhooks") [] company) none true
      []
webhook_call (set_enabled company uuid p) =
    metadata_call "PATCH" (tenant_scoped_path (codes "/notification-webhooks") uuid company)
      (some p) true []
webhook_call (rotate_webhook_secret company uuid) =
    metadata_call "POST"
      (tenant_scoped_path (codes "/notification-webhooks") uuid company ++ codes "/rotate-secret")
      none true []
webhook_call (delete_webhook company uuid) =
    metadata_call "DELETE" (tenant_scoped_path (codes "/notification-webhooks") uuid company) none
      false []
webhook_call (get_delivery company uuid) =
    metadata_call "GET" (tenant_scoped_path (codes "/notification-deliveries") uuid company) none
      true []
webhook_call (replay company uuid p) =
    metadata_call "POST"
      (tenant_scoped_path (codes "/notification-deliveries") uuid company ++ codes "/replay")
      (some p) false []

-- The segments and the query that address an operation: the action is the last segment.
unfoldable pub webhook_route : {P : Type 0} → WebhookRequest P → List Text
webhook_route (create_webhook p) = codes "notification-webhooks" ∷ []
webhook_route (list_webhooks company) = codes "notification-webhooks" ∷ []
webhook_route (set_enabled company uuid p) = codes "notification-webhooks" ∷ uuid ∷ []
webhook_route (rotate_webhook_secret company uuid) =
    codes "notification-webhooks" ∷ uuid ∷ codes "rotate-secret" ∷ []
webhook_route (delete_webhook company uuid) = codes "notification-webhooks" ∷ uuid ∷ []
webhook_route (get_delivery company uuid) = codes "notification-deliveries" ∷ uuid ∷ []
webhook_route (replay company uuid p) = codes "notification-deliveries" ∷ uuid ∷ codes "replay" ∷ []

unfoldable pub webhook_query : {P : Type 0} → WebhookRequest P → Text
webhook_query (create_webhook p) = []
webhook_query (list_webhooks company) = codes "companySlug=" ++ query_escape company
webhook_query (set_enabled company uuid p) = codes "companySlug=" ++ query_escape company
webhook_query (rotate_webhook_secret company uuid) = codes "companySlug=" ++ query_escape company
webhook_query (delete_webhook company uuid) = codes "companySlug=" ++ query_escape company
webhook_query (get_delivery company uuid) = codes "companySlug=" ++ query_escape company
webhook_query (replay company uuid p) = codes "companySlug=" ++ query_escape company

-- The two operations whose action does not become a segment.
unfoldable pub misplaces_action : {P : Type 0} → WebhookRequest P → Bool
misplaces_action (rotate_webhook_secret company uuid) = true
misplaces_action (replay company uuid p) = true
misplaces_action _ = false

webhooks_scoped :
    (uuid company : Text)
    → uuid ≢ []
    → tenant_scoped_path (codes "/notification-webhooks") uuid company
      ≡ with_query
          (render_route (codes "notification-webhooks" ∷ uuid ∷ []))
          (codes "companySlug=" ++ query_escape company)
unfolding tenant_scoped_path render_route with_query codes path_escape escape_path_byte is_empty
webhooks_scoped [] company given = absurd (given refl)
webhooks_scoped (c ∷ uuid) company given = refl

deliveries_scoped :
    (uuid company : Text)
    → uuid ≢ []
    → tenant_scoped_path (codes "/notification-deliveries") uuid company
      ≡ with_query
          (render_route (codes "notification-deliveries" ∷ uuid ∷ []))
          (codes "companySlug=" ++ query_escape company)
unfolding tenant_scoped_path render_route with_query codes path_escape escape_path_byte is_empty
deliveries_scoped [] company given = absurd (given refl)
deliveries_scoped (c ∷ uuid) company given = refl

pub webhook_call-path :
    {P : Type 0} (op : WebhookRequest P)
    → misplaces_action op ≡ false
    → All (λ s. s ≢ []) (webhook_route op)
    → (webhook_call op).path ≡ with_query (render_route (webhook_route op)) (webhook_query op)
unfolding webhook_call webhook_route webhook_query misplaces_action tenant_scoped_path render_route
    with_query path_escape codes escape_path_byte is_empty
webhook_call-path (create_webhook p) placed given = refl
webhook_call-path (list_webhooks company) placed given = refl
webhook_call-path (set_enabled company uuid p) placed given = webhooks_scoped uuid company given.1.0
webhook_call-path (rotate_webhook_secret company uuid) placed given = absurd (ground arith)
webhook_call-path (delete_webhook company uuid) placed given =
    webhooks_scoped uuid company given.1.0
webhook_call-path (get_delivery company uuid) placed given =
    deliveries_scoped uuid company given.1.0
webhook_call-path (replay company uuid p) placed given = absurd (ground arith)

-- The segments of a tenant-scoped path: those of the collection where there is no identifier.
tenant_scoped_segments : Text → Text → List Text
tenant_scoped_segments base uuid = if is_empty uuid then base ∷ [] else base ∷ uuid ∷ []

webhooks_read :
    (uuid company suffix : Text)
    → IsText uuid
    → read_route (tenant_scoped_path (codes "/notification-webhooks") uuid company ++ suffix)
      ≡ some (tenant_scoped_segments (codes "notification-webhooks") uuid)
unfolding tenant_scoped_path tenant_scoped_segments is_text codes is_empty render_route with_query
    path_escape escape_path_byte
webhooks_read [] company suffix h =
    read_route-render_route (codes "notification-webhooks" ∷ [])
      (codes "companySlug=" ++ query_escape company ++ suffix)
      (is_text-IsText (codes "notification-webhooks") refl, tt)
webhooks_read (c ∷ uuid) company suffix h =
    ap read_route (
      append_assoc (codes "/notification-webhooks" ++ b'/' ∷ path_escape (c ∷ uuid))
        (codes "?companySlug=" ++ query_escape company) suffix)
    ∙ read_route-render_route (codes "notification-webhooks" ∷ (c ∷ uuid) ∷ [])
        (codes "companySlug=" ++ query_escape company ++ suffix)
        (is_text-IsText (codes "notification-webhooks") refl, (h, tt))

deliveries_read :
    (uuid company suffix : Text)
    → IsText uuid
    → read_route (tenant_scoped_path (codes "/notification-deliveries") uuid company ++ suffix)
      ≡ some (tenant_scoped_segments (codes "notification-deliveries") uuid)
unfolding tenant_scoped_path tenant_scoped_segments is_text codes is_empty render_route with_query
    path_escape escape_path_byte
deliveries_read [] company suffix h =
    read_route-render_route (codes "notification-deliveries" ∷ [])
      (codes "companySlug=" ++ query_escape company ++ suffix)
      (is_text-IsText (codes "notification-deliveries") refl, tt)
deliveries_read (c ∷ uuid) company suffix h =
    ap read_route (
      append_assoc (codes "/notification-deliveries" ++ b'/' ∷ path_escape (c ∷ uuid))
        (codes "?companySlug=" ++ query_escape company) suffix)
    ∙ read_route-render_route (codes "notification-deliveries" ∷ (c ∷ uuid) ∷ [])
        (codes "companySlug=" ++ query_escape company ++ suffix)
        (is_text-IsText (codes "notification-deliveries") refl, (h, tt))

abbrev pub rotation : (P : Type 0) → Text → Text → Call P
rotation P company uuid = webhook_call (rotate_webhook_secret company uuid)

abbrev pub status : (P : Type 0) → Text → Text → Call P
status P company uuid = webhook_call (get_delivery company uuid)

-- The segments that address a rotation and a replay do not name the action: what the SDK appends
-- stands behind the query, so they are those of an update and of a status read.
pub webhook_action_lost :
    {P : Type 0} (company uuid : Text) (p : P)
    → IsText uuid
    → (read_route (rotation P company uuid).path
        ≡ read_route (webhook_call (set_enabled company uuid p)).path)
      × (read_route (webhook_call (replay company uuid p)).path
          ≡ read_route (status P company uuid).path)
unfolding webhook_call
webhook_action_lost {P} company uuid p h = (
  webhooks_read uuid company (codes "/rotate-secret") h
      ∙ sym (webhooks_read uuid company [] h)
      ∙ ap read_route
          (append-nil (tenant_scoped_path (codes "/notification-webhooks") uuid company)),
  deliveries_read uuid company (codes "/replay") h
      ∙ sym (deliveries_read uuid company [] h)
      ∙ ap read_route
          (append-nil (tenant_scoped_path (codes "/notification-deliveries") uuid company)),
)
