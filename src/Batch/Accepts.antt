-- ===== src/Batch/Accepts.antt =====
-- When a batch response counts as delivered.
use custd_sdk_go.Base.{
  All, Bool, Bool-cases, List, Option-cases, Text, [], arith, false, inl, inr, is_empty, length,
  none, refl, some, true, ℕ, ◌+◌, ◌<◌, ◌==◌, ◌↔◌, ◌∷◌, ◌≡◌, ◌≤◌, ◌⊎◌,
}
use custd_sdk_go.Errors.{SdkError, check_status, is_retryable_err}
use custd_sdk_go.Batch.{
  EventResult, EventBatchResponse, BatchDecoder, has_failed_batch_result, missing_uuid_at,
  results_must_match, check_results, check_decoded, check_batch_response, decode_failed,
}

-- A result that names its event and succeeded.
abbrev pub Delivered : EventResult → Type 0
Delivered r = (is_empty r.event_uuid ≡ false) × (r.success ≡ true)

missing_uuid_sound :
    (i : ℕ) (rs : List EventResult)
    → missing_uuid_at i rs ≡ none
    → has_failed_batch_result rs ≡ false
    → All Delivered rs
unfolding missing_uuid_at has_failed_batch_result
missing_uuid_sound i [] h k = tt
missing_uuid_sound i (r ∷ rs) h k =
    ((ground arith, ground arith), missing_uuid_sound (i + 1) rs (ground arith) (ground arith))

missing_uuid_complete :
    (i : ℕ) (rs : List EventResult) → All Delivered rs → missing_uuid_at i rs ≡ none
unfolding missing_uuid_at
missing_uuid_complete i [] a = refl
missing_uuid_complete i (r ∷ rs) a = rw a.0.0 (missing_uuid_complete (i + 1) rs a.1)

no_failed_complete : (rs : List EventResult) → All Delivered rs → has_failed_batch_result rs ≡ false
unfolding has_failed_batch_result
no_failed_complete [] a = refl
no_failed_complete (r ∷ rs) a = rw a.0.1 (no_failed_complete rs a.1)

-- The typed body reports success for the batch and for each result, and counts every event where
-- it lists results.
pub record IsFullSuccess (must_match : Bool) (sent : ℕ) (response : EventBatchResponse)
    : Type 0 where
  pub success : response.success ≡ true
  pub each : All Delivered response.results
  pub counted : (must_match ≡ false) ⊎ (length response.results ≡ sent)

check_results_sound :
    (code : ℕ) (m : Bool) (sent : ℕ) (response : EventBatchResponse)
    → check_results code m sent response ≡ none
    → IsFullSuccess m sent response
unfolding check_results
check_results_sound code m sent response h =
    elim (Option-cases (missing_uuid_at 0 response.results)) [
      | inl named ↦
          let none_failed : has_failed_batch_result response.results ≡ false = ground arith in
          record {
            success = ground arith;
            each = missing_uuid_sound 0 response.results named none_failed;
            counted = ground arith;
          }
      | inr (i, e) ↦ absurd (ground arith)
    ]

check_results_complete :
    (code : ℕ) (m : Bool) (sent : ℕ) (response : EventBatchResponse)
    → IsFullSuccess m sent response
    → check_results code m sent response ≡ none
unfolding check_results
check_results_complete code true sent response f =
    let n : (length response.results == sent) ≡ true = ground (arith, f.counted) in
    rw (n, missing_uuid_complete 0 response.results f.each, f.success)
      (rw (no_failed_complete response.results f.each))
check_results_complete code false sent response f =
    rw (missing_uuid_complete 0 response.results f.each, f.success)
      (rw (no_failed_complete response.results f.each))

module _ (d : BatchDecoder) (retry_set : List ℕ) where
  -- A body that decodes both ways to a full success.
  abbrev pub DecodesToSuccess : Text → ℕ → Type 0
  DecodesToSuccess body sent =
      (raw : List (Text × Text)) × (response : EventBatchResponse) × (d.raw body ≡ some raw)
      × (d.response body ≡ some response)
      × IsFullSuccess (results_must_match raw) sent response

  check_decoded_sound :
      (code : ℕ) (body : Text) (sent : ℕ)
      → check_decoded d retry_set code body sent ≡ none
      → DecodesToSuccess body sent
  unfolding check_decoded
  check_decoded_sound code body sent h = elim (Option-cases (d.raw body)) [
    | inl e ↦ absurd (ground arith)
    | inr (raw, e) ↦ elim (Option-cases (d.response body)) [
      | inl f ↦ absurd (ground arith)
      | inr (response, f) ↦ (
        raw,
        response,
        e,
        f,
        check_results_sound code (results_must_match raw) sent response (ground arith),
      )
    ]
  ]

  -- A batch counts as delivered exactly if the status is 2xx and the body is empty or decodes to a
  -- full success: success of the batch, each listed result named and successful, and as many
  -- results as events sent where the body lists results.
  pub check_batch_response_iff :
      (code : ℕ) (body : Text) (sent : ℕ)
      → (check_batch_response d retry_set code body sent ≡ none)
        ↔ ((200 ≤ code) × (code < 300) × ((is_empty body ≡ true) ⊎ DecodesToSuccess body sent))
  unfolding check_batch_response check_status
  check_batch_response_iff code body sent = (sound, complete)
    where
      sound :
          check_batch_response d retry_set code body sent ≡ none
          → (200 ≤ code) × (code < 300) × ((is_empty body ≡ true) ⊎ DecodesToSuccess body sent)
      sound h = (
        ground arith,
        ground arith,
        elim (Bool-cases (is_empty body)) [
          | inl e ↦ inl e
          | inr e ↦ inr (check_decoded_sound code body sent (ground arith))
        ],
      )

      complete :
          (200 ≤ code) × (code < 300) × ((is_empty body ≡ true) ⊎ DecodesToSuccess body sent)
          → check_batch_response d retry_set code body sent ≡ none
      complete (lo, hi, inl e) = ground arith
      complete (lo, hi, inr (raw, response, e, f, full)) =
          let inner = check_results_complete code (results_must_match raw) sent response full in
          ground arith

  -- A 2xx response is never retried: every error that the check of its body makes is final.
  pub check_batch_response-final :
      (code : ℕ) (body : Text) (sent : ℕ) (e : SdkError)
      → 200 ≤ code
      → code < 300
      → check_batch_response d retry_set code body sent ≡ some e
      → is_retryable_err e ≡ false
  unfolding check_batch_response check_status check_decoded check_results is_retryable_err
      decode_failed
  check_batch_response-final code body sent e lo hi h = ground arith
