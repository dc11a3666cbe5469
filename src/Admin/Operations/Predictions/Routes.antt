-- ===== src/Admin/Operations/Predictions/Routes.antt =====
-- The routes of the calls of prediction.go: the segments and the query of each one.
use custd_sdk_go.Base.{List, [], ◌∷◌, Text, codes, ◌≡◌, refl}
use custd_sdk_go.Base.Int.{pos}
use custd_sdk_go.Errors.Rendering.{join, text_leb}
use custd_sdk_go.Url.{
  path_escape, query_escape, escape_path_byte, escape_query_byte, query_part, sort_by_key,
  insert_by_key, encode_values,
}
use custd_sdk_go.Admin.{company_slug_query_parameter}
use custd_sdk_go.Admin.Routing.{with_query, render_route}
use custd_sdk_go.Admin.Operations.Predictions.{
  prediction_params, PredictionRequest, prediction_call, list_definitions, get_definition,
  create_definition, update_definition, get_version, publish_version, activate_version,
  rollback_version, pause_definition, resume_definition, archive_definition, run_now,
  list_prediction_runs, list_outcomes, get_evaluation, list_threshold_events, list_signal_sources,
  get_signal_source, create_signal_source, activate_signal_source, archive_signal_source,
  evaluate_duration_history,
}

unfoldable pub prediction_route : {P : Type 0} → PredictionRequest P → List Text
prediction_route (list_definitions company_slug page_size page_token) =
    codes "measurement" ∷ codes "predictions" ∷ codes "definitions" ∷ []
prediction_route (get_definition company_slug definition_uuid) =
    codes "measurement" ∷ codes "predictions" ∷ codes "definitions" ∷ definition_uuid ∷ []
prediction_route (create_definition company_slug p) =
    codes "measurement" ∷ codes "predictions" ∷ codes "definitions" ∷ []
prediction_route (update_definition company_slug definition_uuid p) =
    codes "measurement" ∷ codes "predictions" ∷ codes "definitions" ∷ definition_uuid ∷ []
prediction_route (get_version company_slug definition_uuid version_uuid) =
    codes "measurement"
    ∷ codes "predictions"
    ∷ codes "definitions"
    ∷ definition_uuid
    ∷ codes "versions"
    ∷ version_uuid
    ∷ []
prediction_route (publish_version company_slug definition_uuid p) =
    codes "measurement"
    ∷ codes "predictions"
    ∷ codes "definitions"
    ∷ definition_uuid
    ∷ codes "publish"
    ∷ []
prediction_route (activate_version company_slug definition_uuid p) =
    codes "measurement"
    ∷ codes "predictions"
    ∷ codes "definitions"
    ∷ definition_uuid
    ∷ codes "activate"
    ∷ []
prediction_route (rollback_version company_slug definition_uuid p) =
    codes "measurement"
    ∷ codes "predictions"
    ∷ codes "definitions"
    ∷ definition_uuid
    ∷ codes "rollback"
    ∷ []
prediction_route (pause_definition company_slug definition_uuid p) =
    codes "measurement"
    ∷ codes "predictions"
    ∷ codes "definitions"
    ∷ definition_uuid
    ∷ codes "pause"
    ∷ []
prediction_route (resume_definition company_slug definition_uuid) =
    codes "measurement"
    ∷ codes "predictions"
    ∷ codes "definitions"
    ∷ definition_uuid
    ∷ codes "resume"
    ∷ []
prediction_route (archive_definition company_slug definition_uuid) =
    codes "measurement"
    ∷ codes "predictions"
    ∷ codes "definitions"
    ∷ definition_uuid
    ∷ codes "archive"
    ∷ []
prediction_route (run_now company_slug definition_uuid p) =
    codes "measurement"
    ∷ codes "predictions"
    ∷ codes "definitions"
    ∷ definition_uuid
    ∷ codes "run-now"
    ∷ []
prediction_route (list_prediction_runs company_slug definition_uuid page_size) =
    codes "measurement"
    ∷ codes "predictions"
    ∷ codes "definitions"
    ∷ definition_uuid
    ∷ codes "runs"
    ∷ []
prediction_route (list_outcomes company_slug definition_uuid page_size) =
    codes "measurement"
    ∷ codes "predictions"
    ∷ codes "definitions"
    ∷ definition_uuid
    ∷ codes "outcomes"
    ∷ []
prediction_route (get_evaluation company_slug definition_uuid) =
    codes "measurement"
    ∷ codes "predictions"
    ∷ codes "definitions"
    ∷ definition_uuid
    ∷ codes "evaluations"
    ∷ []
prediction_route (list_threshold_events company_slug definition_uuid page_size) =
    codes "measurement"
    ∷ codes "predictions"
    ∷ codes "definitions"
    ∷ definition_uuid
    ∷ codes "threshold-events"
    ∷ []
prediction_route (list_signal_sources company_slug page_size page_token) =
    codes "measurement" ∷ codes "predictions" ∷ codes "sources" ∷ []
prediction_route (get_signal_source company_slug source_uuid) =
    codes "measurement" ∷ codes "predictions" ∷ codes "sources" ∷ source_uuid ∷ []
prediction_route (create_signal_source company_slug p) =
    codes "measurement" ∷ codes "predictions" ∷ codes "sources" ∷ []
prediction_route (activate_signal_source company_slug source_uuid) =
    codes "measurement"
    ∷ codes "predictions"
    ∷ codes "sources"
    ∷ source_uuid
    ∷ codes "activate"
    ∷ []
prediction_route (archive_signal_source company_slug source_uuid) =
    codes "measurement" ∷ codes "predictions" ∷ codes "sources" ∷ source_uuid ∷ codes "archive" ∷ []
prediction_route (evaluate_duration_history company_slug definition_uuid p) =
    codes "measurement"
    ∷ codes "predictions"
    ∷ codes "definitions"
    ∷ definition_uuid
    ∷ codes "duration-evaluations"
    ∷ []

unfoldable pub prediction_query : {P : Type 0} → PredictionRequest P → Text
prediction_query (list_definitions company_slug page_size page_token) =
    prediction_params company_slug page_size page_token
prediction_query (get_definition company_slug definition_uuid) =
    prediction_params company_slug (pos 0) []
prediction_query (create_definition company_slug p) = prediction_params company_slug (pos 0) []
prediction_query (update_definition company_slug definition_uuid p) =
    prediction_params company_slug (pos 0) []
prediction_query (get_version company_slug definition_uuid version_uuid) =
    prediction_params company_slug (pos 0) []
prediction_query (publish_version company_slug definition_uuid p) =
    prediction_params company_slug (pos 0) []
prediction_query (activate_version company_slug definition_uuid p) =
    prediction_params company_slug (pos 0) []
prediction_query (rollback_version company_slug definition_uuid p) =
    prediction_params company_slug (pos 0) []
prediction_query (pause_definition company_slug definition_uuid p) =
    prediction_params company_slug (pos 0) []
prediction_query (resume_definition company_slug definition_uuid) =
    prediction_params company_slug (pos 0) []
prediction_query (archive_definition company_slug definition_uuid) =
    prediction_params company_slug (pos 0) []
prediction_query (run_now company_slug definition_uuid p) =
    prediction_params company_slug (pos 0) []
prediction_query (list_prediction_runs company_slug definition_uuid page_size) =
    prediction_params company_slug page_size []
prediction_query (list_outcomes company_slug definition_uuid page_size) =
    prediction_params company_slug page_size []
prediction_query (get_evaluation company_slug definition_uuid) =
    prediction_params company_slug (pos 0) []
prediction_query (list_threshold_events company_slug definition_uuid page_size) =
    prediction_params company_slug page_size []
prediction_query (list_signal_sources company_slug page_size page_token) =
    prediction_params company_slug page_size page_token
prediction_query (get_signal_source company_slug source_uuid) =
    prediction_params company_slug (pos 0) []
prediction_query (create_signal_source company_slug p) = prediction_params company_slug (pos 0) []
prediction_query (activate_signal_source company_slug source_uuid) =
    prediction_params company_slug (pos 0) []
prediction_query (archive_signal_source company_slug source_uuid) =
    prediction_params company_slug (pos 0) []
prediction_query (evaluate_duration_history company_slug definition_uuid p) =
    prediction_params company_slug (pos 0) []

pub prediction_call-path :
    {P : Type 0} (op : PredictionRequest P)
    → (prediction_call op).path
      ≡ with_query (render_route (prediction_route op)) (prediction_query op)
unfolding prediction_call prediction_route prediction_query render_route with_query path_escape
    codes escape_path_byte encode_values query_escape escape_query_byte query_part join sort_by_key
    insert_by_key text_leb company_slug_query_parameter
prediction_call-path (list_definitions company_slug page_size page_token) = refl
prediction_call-path (get_definition company_slug definition_uuid) = refl
prediction_call-path (create_definition company_slug p) = refl
prediction_call-path (update_definition company_slug definition_uuid p) = refl
prediction_call-path (get_version company_slug definition_uuid version_uuid) = refl
prediction_call-path (publish_version company_slug definition_uuid p) = refl
prediction_call-path (activate_version company_slug definition_uuid p) = refl
prediction_call-path (rollback_version company_slug definition_uuid p) = refl
prediction_call-path (pause_definition company_slug definition_uuid p) = refl
prediction_call-path (resume_definition company_slug definition_uuid) = refl
prediction_call-path (archive_definition company_slug definition_uuid) = refl
prediction_call-path (run_now company_slug definition_uuid p) = refl
prediction_call-path (list_prediction_runs company_slug definition_uuid page_size) = refl
prediction_call-path (list_outcomes company_slug definition_uuid page_size) = refl
prediction_call-path (get_evaluation company_slug definition_uuid) = refl
prediction_call-path (list_threshold_events company_slug definition_uuid page_size) = refl
prediction_call-path (list_signal_sources company_slug page_size page_token) = refl
prediction_call-path (get_signal_source company_slug source_uuid) = refl
prediction_call-path (create_signal_source company_slug p) = refl
prediction_call-path (activate_signal_source company_slug source_uuid) = refl
prediction_call-path (archive_signal_source company_slug source_uuid) = refl
prediction_call-path (evaluate_duration_history company_slug definition_uuid p) = refl
