-- ===== src/Admin/Operations/Measurement.antt =====
-- measurement.go: the administration of measurement projects. Reading what a submission answers
-- is `validate_measurement_results`.
use custd_sdk_go.Base.{
  ℕ, List, [], ◌∷◌, ◌++◌, Bool, true, not, ◌&&◌, Option, none, some, Text, codes, is_empty,
  if◌then◌else◌, ◌≡◌, refl,
}
use custd_sdk_go.Url.{path_escape, escape_path_byte}
use custd_sdk_go.Admin.Routing.{with_query, render_route}
use custd_sdk_go.Admin.Call.{Call, call}
use custd_sdk_go.Base.{suc, length, ◌==◌}

pub data MeasurementRequest (P : Type 0) : Type 0 where
  create_project : (p : P) → MeasurementRequest P
  list_projects : MeasurementRequest P
  get_project : (project_uuid : Text) → MeasurementRequest P
  submit_observations : (project_uuid : Text) → (p : P) → MeasurementRequest P
  import_csv_string : (project_uuid : Text) → (p : P) → MeasurementRequest P
  get_import_run : (project_uuid import_id : Text) → MeasurementRequest P
  create_calibration_exercise : (project_uuid : Text) → (p : P) → MeasurementRequest P
  create_decision_model : (project_uuid : Text) → (p : P) → MeasurementRequest P

unfoldable pub measurement_call : {P : Type 0} → MeasurementRequest P → Call P
measurement_call (create_project p) = call "POST" (codes "/measurement/projects") (some p) true []
measurement_call list_projects = call "GET" (codes "/measurement/projects") none true []
measurement_call (get_project project_uuid) =
    call "GET" (codes "/measurement/projects/" ++ path_escape project_uuid) none true []
measurement_call (submit_observations project_uuid p) =
    call "POST"
      (codes "/measurement/projects/" ++ (path_escape project_uuid ++ codes "/observations:bulk"))
      (some p) true []
measurement_call (import_csv_string project_uuid p) =
    call "POST"
      (codes "/measurement/projects/" ++ (path_escape project_uuid ++ codes "/observations:csv"))
      (some p) true []
measurement_call (get_import_run project_uuid import_id) =
    call "GET"
      (codes "/measurement/projects/"
        ++ (path_escape project_uuid ++ (codes "/imports/" ++ path_escape import_id)))
      none true []
measurement_call (create_calibration_exercise project_uuid p) =
    call "POST"
      (codes "/measurement/projects/"
        ++ (path_escape project_uuid ++ codes "/calibration-exercises"))
      (some p) true []
measurement_call (create_decision_model project_uuid p) =
    call "POST" (codes "/measurement/projects/" ++ (path_escape project_uuid ++ codes "/decisions"))
      (some p) true []

unfoldable pub measurement_route : {P : Type 0} → MeasurementRequest P → List Text
measurement_route (create_project p) = codes "measurement" ∷ codes "projects" ∷ []
measurement_route list_projects = codes "measurement" ∷ codes "projects" ∷ []
measurement_route (get_project project_uuid) =
    codes "measurement" ∷ codes "projects" ∷ project_uuid ∷ []
measurement_route (submit_observations project_uuid p) =
    codes "measurement" ∷ codes "projects" ∷ project_uuid ∷ codes "observations:bulk" ∷ []
measurement_route (import_csv_string project_uuid p) =
    codes "measurement" ∷ codes "projects" ∷ project_uuid ∷ codes "observations:csv" ∷ []
measurement_route (get_import_run project_uuid import_id) =
    codes "measurement" ∷ codes "projects" ∷ project_uuid ∷ codes "imports" ∷ import_id ∷ []
measurement_route (create_calibration_exercise project_uuid p) =
    codes "measurement" ∷ codes "projects" ∷ project_uuid ∷ codes "calibration-exercises" ∷ []
measurement_route (create_decision_model project_uuid p) =
    codes "measurement" ∷ codes "projects" ∷ project_uuid ∷ codes "decisions" ∷ []

pub measurement_call-path :
    {P : Type 0} (op : MeasurementRequest P)
    → (measurement_call op).path ≡ with_query (render_route (measurement_route op)) []
unfolding measurement_call measurement_route render_route with_query path_escape codes
    escape_path_byte
measurement_call-path (create_project p) = refl
measurement_call-path list_projects = refl
measurement_call-path (get_project project_uuid) = refl
measurement_call-path (submit_observations project_uuid p) = refl
measurement_call-path (import_csv_string project_uuid p) = refl
measurement_call-path (get_import_run project_uuid import_id) = refl
measurement_call-path (create_calibration_exercise project_uuid p) = refl
measurement_call-path (create_decision_model project_uuid p) = refl

pub record MeasurementObservationResult : Type 0 where
  pub success : Bool
  pub observation_uuid : Text

pub data MeasurementError : Type 0 where
  count_mismatch : (got submitted : ℕ) → MeasurementError
  missing_observation_uuid : ℕ → MeasurementError

unfoldable pub find_missing : ℕ → List MeasurementObservationResult → Option MeasurementError
find_missing i [] = none
find_missing i (r ∷ rs) =
    let rest = find_missing (suc i) rs in
    if r.success && is_empty r.observation_uuid then some (missing_observation_uuid i) else rest

unfoldable pub validate_measurement_results :
    List MeasurementObservationResult → ℕ → Option MeasurementError
unfolding find_missing
validate_measurement_results results submitted_rows =
    if not (length results == submitted_rows)
    then some (count_mismatch (length results) submitted_rows)
    else find_missing 0 results
