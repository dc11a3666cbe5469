-- ===== src/Admin/Operations/Predictions.antt =====
-- prediction.go and prediction_duration_evaluation.go. `predictionPath` always has a query, since
-- it always sets the company.
use custd_sdk_go.Base.{List, [], ◌∷◌, ◌++◌, true, false, not, none, some, Text, codes, ◌≡◌, refl}
use custd_sdk_go.Base.Int.{ℤ, not_positive, pos}
use custd_sdk_go.Base.Decimal.{format_int}
use custd_sdk_go.Client.{set_if}
use custd_sdk_go.Errors.Rendering.{join, text_leb}
use custd_sdk_go.Url.{
  path_escape, query_escape, escape_path_byte, escape_query_byte, query_part, sort_by_key,
  insert_by_key, encode_values, set_given,
}
use custd_sdk_go.Admin.{company_slug_query_parameter}
use custd_sdk_go.Admin.Routing.{with_query, render_route}
use custd_sdk_go.Admin.Call.{Call, call, metadata_call}
pub mod Routes

-- `values.Encode()` of `predictionPath`.
unfoldable pub prediction_params : Text → ℤ → Text → Text
prediction_params company_slug page_size page_token = encode_values (
    set_given (codes "pageToken") page_token (
      set_if (not (not_positive page_size)) (codes "pageSize") (format_int page_size)
        ((company_slug_query_parameter, company_slug) ∷ [])))

pub data PredictionRequest (P : Type 0) : Type 0 where
  list_definitions :
      (company_slug : Text) → (page_size : ℤ) → (page_token : Text) → PredictionRequest P
  get_definition : (company_slug definition_uuid : Text) → PredictionRequest P
  create_definition : (company_slug : Text) → (p : P) → PredictionRequest P
  update_definition : (company_slug definition_uuid : Text) → (p : P) → PredictionRequest P
  get_version : (company_slug definition_uuid version_uuid : Text) → PredictionRequest P
  publish_version : (company_slug definition_uuid : Text) → (p : P) → PredictionRequest P
  activate_version : (company_slug definition_uuid : Text) → (p : P) → PredictionRequest P
  rollback_version : (company_slug definition_uuid : Text) → (p : P) → PredictionRequest P
  pause_definition : (company_slug definition_uuid : Text) → (p : P) → PredictionRequest P
  resume_definition : (company_slug definition_uuid : Text) → PredictionRequest P
  archive_definition : (company_slug definition_uuid : Text) → PredictionRequest P
  run_now : (company_slug definition_uuid : Text) → (p : P) → PredictionRequest P
  list_prediction_runs :
      (company_slug definition_uuid : Text) → (page_size : ℤ) → PredictionRequest P
  list_outcomes : (company_slug definition_uuid : Text) → (page_size : ℤ) → PredictionRequest P
  get_evaluation : (company_slug definition_uuid : Text) → PredictionRequest P
  list_threshold_events :
      (company_slug definition_uuid : Text) → (page_size : ℤ) → PredictionRequest P
  list_signal_sources :
      (company_slug : Text) → (page_size : ℤ) → (page_token : Text) → PredictionRequest P
  get_signal_source : (company_slug source_uuid : Text) → PredictionRequest P
  create_signal_source : (company_slug : Text) → (p : P) → PredictionRequest P
  activate_signal_source : (company_slug source_uuid : Text) → PredictionRequest P
  archive_signal_source : (company_slug source_uuid : Text) → PredictionRequest P
  evaluate_duration_history : (company_slug definition_uuid : Text) → (p : P) → PredictionRequest P

unfoldable pub prediction_call : {P : Type 0} → PredictionRequest P → Call P
prediction_call (list_definitions company_slug page_size page_token) =
    call "GET"
      (with_query (codes "/measurement/predictions/definitions")
        (prediction_params company_slug page_size page_token))
      none true []
prediction_call (get_definition company_slug definition_uuid) =
    call "GET"
      (with_query (codes "/measurement/predictions/definitions/" ++ path_escape definition_uuid)
        (prediction_params company_slug (pos 0) []))
      none true []
prediction_call (create_definition company_slug p) =
    call "POST"
      (with_query (codes "/measurement/predictions/definitions")
        (prediction_params company_slug (pos 0) []))
      (some p) true []
prediction_call (update_definition company_slug definition_uuid p) =
    call "PATCH"
      (with_query (codes "/measurement/predictions/definitions/" ++ path_escape definition_uuid)
        (prediction_params company_slug (pos 0) []))
      (some p) true []
prediction_call (get_version company_slug definition_uuid version_uuid) =
    call "GET"
      (with_query
        (codes "/measurement/predictions/definitions/"
          ++ (path_escape definition_uuid ++ (codes "/versions/" ++ path_escape version_uuid)))
        (prediction_params company_slug (pos 0) []))
      none true []
prediction_call (publish_version company_slug definition_uuid p) =
    call "POST"
      (with_query
        (codes "/measurement/predictions/definitions/"
          ++ (path_escape definition_uuid ++ codes "/publish"))
        (prediction_params company_slug (pos 0) []))
      (some p) true []
prediction_call (activate_version company_slug definition_uuid p) =
    call "POST"
      (with_query
        (codes "/measurement/predictions/definitions/"
          ++ (path_escape definition_uuid ++ codes "/activate"))
        (prediction_params company_slug (pos 0) []))
      (some p) true []
prediction_call (rollback_version company_slug definition_uuid p) =
    call "POST"
      (with_query
        (codes "/measurement/predictions/definitions/"
          ++ (path_escape definition_uuid ++ codes "/rollback"))
        (prediction_params company_slug (pos 0) []))
      (some p) true []
prediction_call (pause_definition company_slug definition_uuid p) =
    call "POST"
      (with_query
        (codes "/measurement/predictions/definitions/"
          ++ (path_escape definition_uuid ++ codes "/pause"))
        (prediction_params company_slug (pos 0) []))
      (some p) false []
prediction_call (resume_definition company_slug definition_uuid) =
    call "POST"
      (with_query
        (codes "/measurement/predictions/definitions/"
          ++ (path_escape definition_uuid ++ codes "/resume"))
        (prediction_params company_slug (pos 0) []))
      none false []
prediction_call (archive_definition company_slug definition_uuid) =
    call "POST"
      (with_query
        (codes "/measurement/predictions/definitions/"
          ++ (path_escape definition_uuid ++ codes "/archive"))
        (prediction_params company_slug (pos 0) []))
      none false []
prediction_call (run_now company_slug definition_uuid p) =
    call "POST"
      (with_query
        (codes "/measurement/predictions/definitions/"
          ++ (path_escape definition_uuid ++ codes "/run-now"))
        (prediction_params company_slug (pos 0) []))
      (some p) false []
prediction_call (list_prediction_runs company_slug definition_uuid page_size) =
    call "GET"
      (with_query
        (codes "/measurement/predictions/definitions/"
          ++ (path_escape definition_uuid ++ codes "/runs"))
        (prediction_params company_slug page_size []))
      none true []
prediction_call (list_outcomes company_slug definition_uuid page_size) =
    call "GET"
      (with_query
        (codes "/measurement/predictions/definitions/"
          ++ (path_escape definition_uuid ++ codes "/outcomes"))
        (prediction_params company_slug page_size []))
      none true []
prediction_call (get_evaluation company_slug definition_uuid) =
    call "GET"
      (with_query
        (codes "/measurement/predictions/definitions/"
          ++ (path_escape definition_uuid ++ codes "/evaluations"))
        (prediction_params company_slug (pos 0) []))
      none true []
prediction_call (list_threshold_events company_slug definition_uuid page_size) =
    call "GET"
      (with_query
        (codes "/measurement/predictions/definitions/"
          ++ (path_escape definition_uuid ++ codes "/threshold-events"))
        (prediction_params company_slug page_size []))
      none true []
prediction_call (list_signal_sources company_slug page_size page_token) =
    call "GET"
      (with_query (codes "/measurement/predictions/sources")
        (prediction_params company_slug page_size page_token))
      none true []
prediction_call (get_signal_source company_slug source_uuid) =
    call "GET"
      (with_query (codes "/measurement/predictions/sources/" ++ path_escape source_uuid)
        (prediction_params company_slug (pos 0) []))
      none true []
prediction_call (create_signal_source company_slug p) =
    call "POST"
      (with_query (codes "/measurement/predictions/sources")
        (prediction_params company_slug (pos 0) []))
      (some p) true []
prediction_call (activate_signal_source company_slug source_uuid) =
    call "POST"
      (with_query
        (codes "/measurement/predictions/sources/"
          ++ (path_escape source_uuid ++ codes "/activate"))
        (prediction_params company_slug (pos 0) []))
      none false []
prediction_call (archive_signal_source company_slug source_uuid) =
    call "POST"
      (with_query
        (codes "/measurement/predictions/sources/" ++ (path_escape source_uuid ++ codes "/archive"))
        (prediction_params company_slug (pos 0) []))
      none false []
prediction_call (evaluate_duration_history company_slug definition_uuid p) =
    metadata_call "POST"
      (with_query
        (codes "/measurement/predictions/definitions/"
          ++ (path_escape definition_uuid ++ codes "/duration-evaluations"))
        (prediction_params company_slug (pos 0) []))
      (some p) true []
