-- ===== src/Batch.antt =====
-- The half of client.go that reads a batch response: `checkBatchResponse`, `newBatchRejectionError`
-- and `eventResultDetail`, and `maybeCompress`. The two decodings of the body by encoding/json are
-- parameters.
pub mod Accepts
mod Tests
use custd_sdk_go.Base.{
  ==_iff, All, Bool, Bool-cases, List, Option, Option-cases, Result, Text, [], all, any, ap, ap₂,
  arith, byte_len, codes, drop, drop-drop, err, fail_if, false, has_prefix, has_prefix-append,
  if◌then◌else◌, inl, inr, insert, is_empty, is_empty_sound, is_none, is_some, is_space, leb,
  leb→le, length, length-append, length-drop, length-take, le→leb, lookup, lookup-insert, ltb,
  ltb→lt, lt→ltb, map, max, min, none, not, ok, refl, reject_if, require, reverse, rune_len, some,
  subst, suc, sym, take, take-append-drop, tests, text_eq, text_eq_sound, text_eq_iff, text_eq_refl,
  trim_left, trim_space, true, zero, ℕ, ◌%◌, ◌&&◌, ◌*◌, ◌++◌, ◌+◌, ◌-◌, ◌/◌, ◌<◌, ◌==◌, ◌>>=◌, ◌>>◌,
  ◌^◌, ◌orelse◌, ◌||◌, ◌↔◌, ◌∙◌, ◌∷◌, ◌≡◌, ◌≢◌, ◌≤◌, ◌⊎◌,
}
use custd_sdk_go.Base.Decimal.{itoa, format_int}
use custd_sdk_go.Base.Int.{ℤ, pos, negsuc, to_ℕ}
use custd_sdk_go.Errors.{
  Problem, ProblemDecoder, RequestError, SdkError, Message, request, plain, check_status,
  result_count_mismatch, result_missing_uuid, no_event_results, batch_rejected,
}

pub record EventResult : Type 0 where
  pub event_uuid : Text
  pub success : Bool
  pub status : ℤ
  pub error : Option Problem

pub record EventBatchResponse : Type 0 where
  pub success : Bool
  pub results : List EventResult

-- `raw` is the body as a map to raw JSON, `response` the typed body; `none` is a decode error.
pub record BatchDecoder : Type 0 where
  pub problems : ProblemDecoder
  pub raw : Text → Option (List (Text × Text))
  pub response : Text → Option EventBatchResponse

unfoldable pub failed_results : List EventResult → List EventResult
failed_results [] = []
failed_results (r ∷ rs) = let rest = failed_results rs in if r.success then rest else r ∷ rest

unfoldable pub has_failed_batch_result : List EventResult → Bool
has_failed_batch_result rs = any (λ r. not r.success) rs

unfoldable pub no_detail : Text
no_detail = codes "no error detail"

unfoldable pub event_result_detail : EventResult → Text
event_result_detail r = elim r.error [
  | none ↦ no_detail
  | some p ↦
      if not (is_empty p.detail)
      then p.detail
      else if not (is_empty p.title)
      then p.title
      else if not (is_empty p.code)
      then codes "code " ++ p.code
      else no_detail
]

unfoldable pub rejected : ℕ → Message → RequestError
rejected code message = record {
  status_code = code;
  message = message;
  retryable = false;
  cause = none;
  problem = none;
}

-- `fmt.Sprintf("%s [status %d] %s", …)`.
unfoldable pub rejected_part : EventResult → Text
rejected_part r =
    r.event_uuid ++ codes " [status " ++ format_int r.status ++ codes "] " ++ event_result_detail r

-- The first ten rejected events, and how many more there are.
unfoldable pub rejected_parts : List EventResult → List Text
unfolding rejected_part
rejected_parts rs =
    map rejected_part (take 10 rs)
    ++ (if ltb 10 (length rs) then (b'+' ∷ itoa (length rs - 10) ++ codes " more") ∷ [] else [])

unfoldable pub new_batch_rejection_error : ℕ → List EventResult → RequestError
unfolding rejected rejected_parts
new_batch_rejection_error code results = elim (failed_results results) [
  | [] ↦ rejected code (no_event_results code)
  | r ∷ rs ↦
      rejected code (batch_rejected (length (r ∷ rs)) (length results) (rejected_parts (r ∷ rs)))
]

-- The index of the first result with no identifier.
unfoldable pub missing_uuid_at : ℕ → List EventResult → Option ℕ
missing_uuid_at i [] = none
missing_uuid_at i (r ∷ rs) =
    let rest = missing_uuid_at (i + 1) rs in if is_empty r.event_uuid then some i else rest

unfoldable pub null_text : Text
null_text = codes "null"

-- `resultsPresent && !bytes.Equal(bytes.TrimSpace(rawResults), []byte("null"))`
unfoldable pub results_must_match : List (Text × Text) → Bool
results_must_match raw = elim (lookup (codes "results") raw) [
  | none ↦ false
  | some value ↦ not (text_eq (trim_space value) null_text)
]

unfoldable pub check_results : ℕ → Bool → ℕ → EventBatchResponse → Option SdkError
unfolding new_batch_rejection_error rejected
check_results code must_match sent response =
    if must_match && not (length response.results == sent)
    then some (request (rejected code (result_count_mismatch (length response.results) sent)))
    else elim (missing_uuid_at 0 response.results) [
      | some i ↦ some (request (rejected code (result_missing_uuid i)))
      | none ↦
          if not response.success || has_failed_batch_result response.results
          then some (request (new_batch_rejection_error code response.results))
          else none
    ]

unfoldable pub decode_failed : SdkError
decode_failed = plain (codes "custd: decode batch response")

module _ (d : BatchDecoder) (retry_set : List ℕ) where
  unfoldable pub check_decoded : ℕ → Text → ℕ → Option SdkError
  unfolding check_results
  check_decoded code body sent = elim (d.raw body) [
    | none ↦ some decode_failed
    | some raw ↦ elim (d.response body) [
      | none ↦ some decode_failed
      | some response ↦ check_results code (results_must_match raw) sent response
    ]
  ]

  unfoldable pub check_batch_response : ℕ → Text → ℕ → Option SdkError
  unfolding check_decoded
  check_batch_response code body sent =
      check_status d.problems retry_set code body
      orelse (if is_empty body then none else check_decoded code body sent)

-- `maybeCompress`: the body to send and whether it is compressed. `gzip` is compress/gzip on a
-- buffer, `none` its error.
module _ (gzip : Text → Option Text) where
  unfoldable pub maybe_compress : Option Bool → ℤ → Text → Option (Text × Bool)
  maybe_compress enabled threshold body =
      if not (is_enabled enabled) || ltb (byte_len body) (to_ℕ threshold)
      then some (body, false)
      else elim (gzip body) [ none ↦ none | some zipped ↦ some (zipped, true) ]
    where
      is_enabled : Option Bool → Bool
      is_enabled none = false
      is_enabled (some b) = b
