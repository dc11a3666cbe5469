-- ===== src/Admin/Operations/DataLabels.antt =====
-- admin_data_labels.go.
use custd_sdk_go.Base.{List, [], ◌∷◌, ◌++◌, Bool, true, false, none, some, Text, codes, ◌≡◌, refl}
use custd_sdk_go.Errors.Rendering.{join, text_leb}
use custd_sdk_go.Url.{
  path_escape, query_escape, escape_path_byte, escape_query_byte, query_part, sort_by_key,
  insert_by_key, encode_values,
}
use custd_sdk_go.Admin.{company_slug_query_parameter}
use custd_sdk_go.Admin.Routing.{with_query, render_route}
use custd_sdk_go.Admin.Call.{Call, call}

-- What `dataLabelIncludeDisabled` puts behind the `?`; nothing, and no `?`, for `false`.
unfoldable pub include_disabled : Bool → Text
include_disabled true = codes "includeDisabled=true"
include_disabled false = []

pub data DataLabelRequest (P : Type 0) : Type 0 where
  list_labels : (include : Bool) → DataLabelRequest P
  catalogue : (include : Bool) → DataLabelRequest P
  get_label : (uuid : Text) → (include : Bool) → DataLabelRequest P
  create_label : (p : P) → DataLabelRequest P
  update_label : (uuid : Text) → (p : P) → DataLabelRequest P
  disable_label : (uuid : Text) → DataLabelRequest P
  create_value : (uuid : Text) → (p : P) → DataLabelRequest P
  update_value : (uuid : Text) → (p : P) → DataLabelRequest P
  disable_value : (uuid : Text) → DataLabelRequest P
  list_usage : DataLabelRequest P
  list_assignments : DataLabelRequest P
  set_event_type_default : (slug definition_uuid : Text) → (p : P) → DataLabelRequest P
  remove_event_type_default : (slug definition_uuid : Text) → DataLabelRequest P
  set_schema_field_assignment : (schema_uuid : Text) → (p : P) → DataLabelRequest P
  remove_schema_field_assignment : (assignment_uuid : Text) → DataLabelRequest P

unfoldable pub data_label_call : {P : Type 0} → DataLabelRequest P → Call P
data_label_call (list_labels include) =
    call "GET" (with_query (codes "/data-labels") (include_disabled include)) none true []
data_label_call (catalogue include) =
    call "GET" (with_query (codes "/data-labels/catalogue") (include_disabled include)) none true []
data_label_call (get_label uuid include) =
    call "GET" (with_query (codes "/data-labels/" ++ path_escape uuid) (include_disabled include))
      none true []
data_label_call (create_label p) = call "POST" (codes "/data-labels") (some p) true []
data_label_call (update_label uuid p) =
    call "PATCH" (codes "/data-labels/" ++ path_escape uuid) (some p) true []
data_label_call (disable_label uuid) =
    call "POST" (codes "/data-labels/" ++ (path_escape uuid ++ codes "/disable")) none false []
data_label_call (create_value uuid p) =
    call "POST" (codes "/data-labels/" ++ (path_escape uuid ++ codes "/values")) (some p) true []
data_label_call (update_value uuid p) =
    call "PATCH" (codes "/data-label-values/" ++ path_escape uuid) (some p) true []
data_label_call (disable_value uuid) =
    call "POST" (codes "/data-label-values/" ++ (path_escape uuid ++ codes "/disable")) none false
      []
data_label_call list_usage = call "GET" (codes "/data-labels/usage") none true []
data_label_call list_assignments = call "GET" (codes "/data-label-assignments") none true []
data_label_call (set_event_type_default slug definition_uuid p) =
    call "PUT"
      (codes "/event-types/"
        ++ (path_escape slug ++ (codes "/data-label-defaults/" ++ path_escape definition_uuid)))
      (some p) false []
data_label_call (remove_event_type_default slug definition_uuid) =
    call "DELETE"
      (codes "/event-types/"
        ++ (path_escape slug ++ (codes "/data-label-defaults/" ++ path_escape definition_uuid)))
      none false []
data_label_call (set_schema_field_assignment schema_uuid p) =
    call "PUT" (codes "/event-schemas/" ++ (path_escape schema_uuid ++ codes "/field-data-labels"))
      (some p) false []
data_label_call (remove_schema_field_assignment assignment_uuid) =
    call "DELETE" (codes "/data-label-assignments/schema-fields/" ++ path_escape assignment_uuid)
      none false []

unfoldable pub data_label_route : {P : Type 0} → DataLabelRequest P → List Text
data_label_route (list_labels include) = codes "data-labels" ∷ []
data_label_route (catalogue include) = codes "data-labels" ∷ codes "catalogue" ∷ []
data_label_route (get_label uuid include) = codes "data-labels" ∷ uuid ∷ []
data_label_route (create_label p) = codes "data-labels" ∷ []
data_label_route (update_label uuid p) = codes "data-labels" ∷ uuid ∷ []
data_label_route (disable_label uuid) = codes "data-labels" ∷ uuid ∷ codes "disable" ∷ []
data_label_route (create_value uuid p) = codes "data-labels" ∷ uuid ∷ codes "values" ∷ []
data_label_route (update_value uuid p) = codes "data-label-values" ∷ uuid ∷ []
data_label_route (disable_value uuid) = codes "data-label-values" ∷ uuid ∷ codes "disable" ∷ []
data_label_route list_usage = codes "data-labels" ∷ codes "usage" ∷ []
data_label_route list_assignments = codes "data-label-assignments" ∷ []
data_label_route (set_event_type_default slug definition_uuid p) =
    codes "event-types" ∷ slug ∷ codes "data-label-defaults" ∷ definition_uuid ∷ []
data_label_route (remove_event_type_default slug definition_uuid) =
    codes "event-types" ∷ slug ∷ codes "data-label-defaults" ∷ definition_uuid ∷ []
data_label_route (set_schema_field_assignment schema_uuid p) =
    codes "event-schemas" ∷ schema_uuid ∷ codes "field-data-labels" ∷ []
data_label_route (remove_schema_field_assignment assignment_uuid) =
    codes "data-label-assignments" ∷ codes "schema-fields" ∷ assignment_uuid ∷ []

unfoldable pub data_label_query : {P : Type 0} → DataLabelRequest P → Text
data_label_query (list_labels include) = include_disabled include
data_label_query (catalogue include) = include_disabled include
data_label_query (get_label uuid include) = include_disabled include
data_label_query (create_label p) = []
data_label_query (update_label uuid p) = []
data_label_query (disable_label uuid) = []
data_label_query (create_value uuid p) = []
data_label_query (update_value uuid p) = []
data_label_query (disable_value uuid) = []
data_label_query list_usage = []
data_label_query list_assignments = []
data_label_query (set_event_type_default slug definition_uuid p) = []
data_label_query (remove_event_type_default slug definition_uuid) = []
data_label_query (set_schema_field_assignment schema_uuid p) = []
data_label_query (remove_schema_field_assignment assignment_uuid) = []

pub data_label_call-path :
    {P : Type 0} (op : DataLabelRequest P)
    → (data_label_call op).path
      ≡ with_query (render_route (data_label_route op)) (data_label_query op)
unfolding data_label_call data_label_route data_label_query render_route with_query path_escape
    codes escape_path_byte encode_values query_escape escape_query_byte query_part join sort_by_key
    insert_by_key text_leb company_slug_query_parameter
data_label_call-path (list_labels include) = refl
data_label_call-path (catalogue include) = refl
data_label_call-path (get_label uuid include) = refl
data_label_call-path (create_label p) = refl
data_label_call-path (update_label uuid p) = refl
data_label_call-path (disable_label uuid) = refl
data_label_call-path (create_value uuid p) = refl
data_label_call-path (update_value uuid p) = refl
data_label_call-path (disable_value uuid) = refl
data_label_call-path list_usage = refl
data_label_call-path list_assignments = refl
data_label_call-path (set_event_type_default slug definition_uuid p) = refl
data_label_call-path (remove_event_type_default slug definition_uuid) = refl
data_label_call-path (set_schema_field_assignment schema_uuid p) = refl
data_label_call-path (remove_schema_field_assignment assignment_uuid) = refl
