-- ===== src/Admin/Operations/ReportingPacks.antt =====
-- admin_reporting_packs.go.
use custd_sdk_go.Base.{List, [], ◌∷◌, ◌++◌, true, none, some, Text, codes, ◌≡◌, refl}
use custd_sdk_go.Url.{path_escape, escape_path_byte}
use custd_sdk_go.Admin.Routing.{with_query, render_route}
use custd_sdk_go.Admin.Call.{Call, call}

pub data ReportingPackRequest (P : Type 0) : Type 0 where
  list_drafts : ReportingPackRequest P
  get_draft : (draft_id : Text) → ReportingPackRequest P
  create_draft : (p : P) → ReportingPackRequest P
  update_draft : (draft_id : Text) → (p : P) → ReportingPackRequest P
  validate_draft : (p : P) → ReportingPackRequest P
  preview_draft : (p : P) → ReportingPackRequest P
  publish_draft : (draft_id : Text) → ReportingPackRequest P
  restart_draft : (draft_id : Text) → ReportingPackRequest P
  get_generation : (generation_id : Text) → ReportingPackRequest P
  get_generation_status : (generation_id : Text) → ReportingPackRequest P
  rollback_generation : (generation_id : Text) → ReportingPackRequest P
  get_rollup_provenance : (generation_id : Text) → ReportingPackRequest P
  list_setup_templates : ReportingPackRequest P
  bind_setup_template : (kind : Text) → (p : P) → ReportingPackRequest P
  list_generation_validity : ReportingPackRequest P

unfoldable pub reporting_pack_call : {P : Type 0} → ReportingPackRequest P → Call P
reporting_pack_call list_drafts = call "GET" (codes "/reporting-packs/drafts") none true []
reporting_pack_call (get_draft draft_id) =
    call "GET" (codes "/reporting-packs/drafts/" ++ path_escape draft_id) none true []
reporting_pack_call (create_draft p) =
    call "POST" (codes "/reporting-packs/drafts") (some p) true []
reporting_pack_call (update_draft draft_id p) =
    call "PUT" (codes "/reporting-packs/drafts/" ++ path_escape draft_id) (some p) true []
reporting_pack_call (validate_draft p) =
    call "POST" (codes "/reporting-packs/validate") (some p) true []
reporting_pack_call (preview_draft p) =
    call "POST" (codes "/reporting-packs/preview") (some p) true []
reporting_pack_call (publish_draft draft_id) =
    call "POST" (codes "/reporting-packs/drafts/" ++ (path_escape draft_id ++ codes "/publish"))
      none true []
reporting_pack_call (restart_draft draft_id) =
    call "POST" (codes "/reporting-packs/drafts/" ++ (path_escape draft_id ++ codes "/restart"))
      none true []
reporting_pack_call (get_generation generation_id) =
    call "GET" (codes "/reporting-packs/generations/" ++ path_escape generation_id) none true []
reporting_pack_call (get_generation_status generation_id) =
    call "GET"
      (codes "/reporting-packs/generations/" ++ (path_escape generation_id ++ codes "/status")) none
      true []
reporting_pack_call (rollback_generation generation_id) =
    call "POST"
      (codes "/reporting-packs/generations/" ++ (path_escape generation_id ++ codes "/rollback"))
      none true []
reporting_pack_call (get_rollup_provenance generation_id) =
    call "GET"
      (codes "/reporting-packs/generations/"
        ++ (path_escape generation_id ++ codes "/rollup-provenance"))
      none true []
reporting_pack_call list_setup_templates =
    call "GET" (codes "/reporting-packs/setup-templates") none true []
reporting_pack_call (bind_setup_template kind p) =
    call "POST" (codes "/reporting-packs/setup-templates/" ++ (path_escape kind ++ codes "/bind"))
      (some p) true []
reporting_pack_call list_generation_validity =
    call "GET" (codes "/reporting-packs/generation-validity") none true []

unfoldable pub reporting_pack_route : {P : Type 0} → ReportingPackRequest P → List Text
reporting_pack_route list_drafts = codes "reporting-packs" ∷ codes "drafts" ∷ []
reporting_pack_route (get_draft draft_id) = codes "reporting-packs" ∷ codes "drafts" ∷ draft_id ∷ []
reporting_pack_route (create_draft p) = codes "reporting-packs" ∷ codes "drafts" ∷ []
reporting_pack_route (update_draft draft_id p) =
    codes "reporting-packs" ∷ codes "drafts" ∷ draft_id ∷ []
reporting_pack_route (validate_draft p) = codes "reporting-packs" ∷ codes "validate" ∷ []
reporting_pack_route (preview_draft p) = codes "reporting-packs" ∷ codes "preview" ∷ []
reporting_pack_route (publish_draft draft_id) =
    codes "reporting-packs" ∷ codes "drafts" ∷ draft_id ∷ codes "publish" ∷ []
reporting_pack_route (restart_draft draft_id) =
    codes "reporting-packs" ∷ codes "drafts" ∷ draft_id ∷ codes "restart" ∷ []
reporting_pack_route (get_generation generation_id) =
    codes "reporting-packs" ∷ codes "generations" ∷ generation_id ∷ []
reporting_pack_route (get_generation_status generation_id) =
    codes "reporting-packs" ∷ codes "generations" ∷ generation_id ∷ codes "status" ∷ []
reporting_pack_route (rollback_generation generation_id) =
    codes "reporting-packs" ∷ codes "generations" ∷ generation_id ∷ codes "rollback" ∷ []
reporting_pack_route (get_rollup_provenance generation_id) =
    codes "reporting-packs" ∷ codes "generations" ∷ generation_id ∷ codes "rollup-provenance" ∷ []
reporting_pack_route list_setup_templates = codes "reporting-packs" ∷ codes "setup-templates" ∷ []
reporting_pack_route (bind_setup_template kind p) =
    codes "reporting-packs" ∷ codes "setup-templates" ∷ kind ∷ codes "bind" ∷ []
reporting_pack_route list_generation_validity =
    codes "reporting-packs" ∷ codes "generation-validity" ∷ []

pub reporting_pack_call-path :
    {P : Type 0} (op : ReportingPackRequest P)
    → (reporting_pack_call op).path ≡ with_query (render_route (reporting_pack_route op)) []
unfolding reporting_pack_call reporting_pack_route render_route with_query path_escape codes
    escape_path_byte
reporting_pack_call-path list_drafts = refl
reporting_pack_call-path (get_draft draft_id) = refl
reporting_pack_call-path (create_draft p) = refl
reporting_pack_call-path (update_draft draft_id p) = refl
reporting_pack_call-path (validate_draft p) = refl
reporting_pack_call-path (preview_draft p) = refl
reporting_pack_call-path (publish_draft draft_id) = refl
reporting_pack_call-path (restart_draft draft_id) = refl
reporting_pack_call-path (get_generation generation_id) = refl
reporting_pack_call-path (get_generation_status generation_id) = refl
reporting_pack_call-path (rollback_generation generation_id) = refl
reporting_pack_call-path (get_rollup_provenance generation_id) = refl
reporting_pack_call-path list_setup_templates = refl
reporting_pack_call-path (bind_setup_template kind p) = refl
reporting_pack_call-path list_generation_validity = refl
