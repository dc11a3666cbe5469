-- ===== src/Admin/Operations/Observations.antt =====
-- measurement.go: what `validateMeasurementResults` accepts.
use custd_sdk_go.Base.{
  ℕ, suc, List, [], ◌∷◌, true, false, ◌&&◌, ◌≢◌, none, Text, is_empty, is_empty_complete, length,
  ◌==◌, Bool-cases, inl, inr, ◌≡◌, ◌↔◌, ◌⊎◌, refl, arith, All,
}
use custd_sdk_go.Admin.Operations.Measurement.{
  MeasurementObservationResult, find_missing, validate_measurement_results,
}

-- A result that succeeded names its observation.
abbrev pub IsNamed : MeasurementObservationResult → Type 0
IsNamed r = (r.success ≡ false) ⊎ (r.observation_uuid ≢ [])

is_empty_of : (s : Text) → s ≡ [] → is_empty s ≡ true
unfolding is_empty
is_empty_of s e = rw e refl

success_test :
    (r : MeasurementObservationResult)
    → ((r.success && is_empty r.observation_uuid) ≡ false) ↔ IsNamed r
success_test r = (
  λ h. elim (Bool-cases r.success) [
    | inr failed ↦ inl failed
    | inl succeeded ↦
        inr (λ e. absurd (ground (arith, h, succeeded, is_empty_of r.observation_uuid e)))
  ],
  λ h. elim h [
    | inl failed ↦ ground arith
    | inr named ↦ ground (arith, is_empty_complete r.observation_uuid named)
  ],
)

find_missing_sound :
    (i : ℕ) (rs : List MeasurementObservationResult) → find_missing i rs ≡ none → All IsNamed rs
unfolding find_missing
find_missing_sound i [] h = tt
find_missing_sound i (r ∷ rs) h =
    let test : (r.success && is_empty r.observation_uuid) ≡ false = ground arith in
    let rest : find_missing (suc i) rs ≡ none = ground arith in
    ((success_test r).0 test, find_missing_sound (suc i) rs rest)

find_missing_complete :
    (i : ℕ) (rs : List MeasurementObservationResult) → All IsNamed rs → find_missing i rs ≡ none
unfolding find_missing
find_missing_complete i [] h = refl
find_missing_complete i (r ∷ rs) h =
    rw ((success_test r).1 h.0) (find_missing_complete (suc i) rs h.1)

-- The results of a submission are accepted exactly when there is one for each row and each that
-- succeeded names its observation.
pub validate_measurement_results_iff :
    (results : List MeasurementObservationResult) (submitted_rows : ℕ)
    → (validate_measurement_results results submitted_rows ≡ none)
      ↔ ((length results ≡ submitted_rows) × All IsNamed results)
unfolding validate_measurement_results
validate_measurement_results_iff results submitted_rows =
    elim (Bool-cases (length results == submitted_rows)) [
      | inl same ↦
          let equal : length results ≡ submitted_rows = ground arith in
          rw same
            (λ h. (equal, find_missing_sound 0 results h), λ h. find_missing_complete 0 results h.1)
      | inr other ↦ rw other (λ h. absurd (ground arith), λ h. absurd (ground arith))
    ]
