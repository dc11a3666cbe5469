-- ===== src/Admin/Operations/Offboarding.antt =====
-- admin_extended.go: offboarding schedules and requests. The download is in `Admin/Download.antt`.
use custd_sdk_go.Base.{List, [], ◌∷◌, ◌++◌, true, not, none, some, Text, codes, is_empty, ◌≡◌, refl}
use custd_sdk_go.Client.{set_if}
use custd_sdk_go.Url.{path_escape, escape_path_byte}
use custd_sdk_go.Admin.Routing.{with_query, render_route}
use custd_sdk_go.Admin.Call.{Call, call}

pub data OffboardingRequest (P : Type 0) : Type 0 where
  schedule : (p : P) → OffboardingRequest P
  list_schedules : OffboardingRequest P
  get_schedule : (tenant_slug : Text) → OffboardingRequest P
  cancel_schedule : (tenant_slug : Text) → (p : P) → OffboardingRequest P
  request_offboarding : (p : P) → (idempotency_key : Text) → OffboardingRequest P
  get_request : (request_uuid : Text) → OffboardingRequest P
  cancel_request : (request_uuid : Text) → (p : P) → OffboardingRequest P
  confirm_request : (request_uuid : Text) → OffboardingRequest P
  preview_offboarding : (request_uuid : Text) → OffboardingRequest P
  export_offboarding : (request_uuid : Text) → OffboardingRequest P
  acknowledge : (request_uuid : Text) → OffboardingRequest P
  execute : (request_uuid : Text) → OffboardingRequest P
  retry : (request_uuid : Text) → OffboardingRequest P
  receipt : (request_uuid : Text) → OffboardingRequest P

unfoldable pub offboarding_call : {P : Type 0} → OffboardingRequest P → Call P
offboarding_call (schedule p) = call "POST" (codes "/offboarding/schedules") (some p) true []
offboarding_call list_schedules = call "GET" (codes "/offboarding/schedules") none true []
offboarding_call (get_schedule tenant_slug) =
    call "GET" (codes "/offboarding/schedules/" ++ path_escape tenant_slug) none true []
offboarding_call (cancel_schedule tenant_slug p) =
    call "POST" (codes "/offboarding/schedules/" ++ (path_escape tenant_slug ++ codes "/cancel"))
      (some p) true []
offboarding_call (request_offboarding p idempotency_key) =
    call "POST" (codes "/offboarding") (some p) true
      (set_if (not (is_empty idempotency_key)) (codes "Idempotency-Key") idempotency_key [])
offboarding_call (get_request request_uuid) =
    call "GET" (codes "/offboarding/" ++ path_escape request_uuid) none true []
offboarding_call (cancel_request request_uuid p) =
    call "POST" (codes "/offboarding/" ++ (path_escape request_uuid ++ codes "/cancel")) (some p)
      true []
offboarding_call (confirm_request request_uuid) =
    call "POST" (codes "/offboarding/" ++ (path_escape request_uuid ++ codes "/confirm")) none true
      []
offboarding_call (preview_offboarding request_uuid) =
    call "POST" (codes "/offboarding/requests/" ++ (path_escape request_uuid ++ codes "/preview"))
      none true []
offboarding_call (export_offboarding request_uuid) =
    call "POST" (codes "/offboarding/requests/" ++ (path_escape request_uuid ++ codes "/export"))
      none true []
offboarding_call (acknowledge request_uuid) =
    call "POST"
      (codes "/offboarding/requests/" ++ (path_escape request_uuid ++ codes "/acknowledge")) none
      true []
offboarding_call (execute request_uuid) =
    call "POST" (codes "/offboarding/requests/" ++ (path_escape request_uuid ++ codes "/execute"))
      none true []
offboarding_call (retry request_uuid) =
    call "POST" (codes "/offboarding/requests/" ++ (path_escape request_uuid ++ codes "/retry"))
      none true []
offboarding_call (receipt request_uuid) =
    call "GET" (codes "/offboarding/requests/" ++ (path_escape request_uuid ++ codes "/receipt"))
      none true []

unfoldable pub offboarding_route : {P : Type 0} → OffboardingRequest P → List Text
offboarding_route (schedule p) = codes "offboarding" ∷ codes "schedules" ∷ []
offboarding_route list_schedules = codes "offboarding" ∷ codes "schedules" ∷ []
offboarding_route (get_schedule tenant_slug) =
    codes "offboarding" ∷ codes "schedules" ∷ tenant_slug ∷ []
offboarding_route (cancel_schedule tenant_slug p) =
    codes "offboarding" ∷ codes "schedules" ∷ tenant_slug ∷ codes "cancel" ∷ []
offboarding_route (request_offboarding p idempotency_key) = codes "offboarding" ∷ []
offboarding_route (get_request request_uuid) = codes "offboarding" ∷ request_uuid ∷ []
offboarding_route (cancel_request request_uuid p) =
    codes "offboarding" ∷ request_uuid ∷ codes "cancel" ∷ []
offboarding_route (confirm_request request_uuid) =
    codes "offboarding" ∷ request_uuid ∷ codes "confirm" ∷ []
offboarding_route (preview_offboarding request_uuid) =
    codes "offboarding" ∷ codes "requests" ∷ request_uuid ∷ codes "preview" ∷ []
offboarding_route (export_offboarding request_uuid) =
    codes "offboarding" ∷ codes "requests" ∷ request_uuid ∷ codes "export" ∷ []
offboarding_route (acknowledge request_uuid) =
    codes "offboarding" ∷ codes "requests" ∷ request_uuid ∷ codes "acknowledge" ∷ []
offboarding_route (execute request_uuid) =
    codes "offboarding" ∷ codes "requests" ∷ request_uuid ∷ codes "execute" ∷ []
offboarding_route (retry request_uuid) =
    codes "offboarding" ∷ codes "requests" ∷ request_uuid ∷ codes "retry" ∷ []
offboarding_route (receipt request_uuid) =
    codes "offboarding" ∷ codes "requests" ∷ request_uuid ∷ codes "receipt" ∷ []

pub offboarding_call-path :
    {P : Type 0} (op : OffboardingRequest P)
    → (offboarding_call op).path ≡ with_query (render_route (offboarding_route op)) []
unfolding offboarding_call offboarding_route render_route with_query path_escape codes
    escape_path_byte
offboarding_call-path (schedule p) = refl
offboarding_call-path list_schedules = refl
offboarding_call-path (get_schedule tenant_slug) = refl
offboarding_call-path (cancel_schedule tenant_slug p) = refl
offboarding_call-path (request_offboarding p idempotency_key) = refl
offboarding_call-path (get_request request_uuid) = refl
offboarding_call-path (cancel_request request_uuid p) = refl
offboarding_call-path (confirm_request request_uuid) = refl
offboarding_call-path (preview_offboarding request_uuid) = refl
offboarding_call-path (export_offboarding request_uuid) = refl
offboarding_call-path (acknowledge request_uuid) = refl
offboarding_call-path (execute request_uuid) = refl
offboarding_call-path (retry request_uuid) = refl
offboarding_call-path (receipt request_uuid) = refl
