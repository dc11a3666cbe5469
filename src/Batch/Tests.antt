-- ===== src/Batch/Tests.antt =====
-- Answers to a batch of one event.
use custd_sdk_go.Base.{
  [], codes, if◌then◌else◌, is_empty, none, refl, some, text_eq, true, ◌<◌, ◌↔◌, ◌∷◌, ◌≡◌, ◌≤◌, ◌⊎◌,
}
use custd_sdk_go.Base.Int.{pos}
use custd_sdk_go.Errors.{check_status}
use custd_sdk_go.Batch.{
  BatchDecoder, EventBatchResponse, check_batch_response, check_decoded, decode_failed,
}
use custd_sdk_go.Batch.Accepts.{DecodesToSuccess, check_batch_response_iff}

abbrev one_success : EventBatchResponse
one_success = record {
  success = true;
  results = record { event_uuid = codes "u1"; success = true; status = pos 202; error = none } ∷ [];
}

-- A decoder that reads `{}` as one success and nothing else.
abbrev braces : BatchDecoder
braces = record {
  problems = record { as_problem = λ _. none; as_flat = λ _. none };
  raw = λ body.
      if text_eq body (codes "{}") then some ((codes "results", codes "[{}]") ∷ []) else none;
  response = λ body. if text_eq body (codes "{}") then some one_success else none;
}

check_batch_response_iff_example :
    (check_batch_response braces (503 ∷ []) 202 (codes "{}") 1 ≡ none) ↔ (
      (200 ≤ 202)
      × (202 < 300)
      × ((is_empty (codes "{}") ≡ true) ⊎ DecodesToSuccess braces (503 ∷ []) (codes "{}") 1))
check_batch_response_iff_example = check_batch_response_iff braces (503 ∷ []) 202 (codes "{}") 1

garbled : check_batch_response braces (503 ∷ []) 202 (codes "<html>") 1 ≡ some decode_failed
unfolding check_batch_response check_status check_decoded codes text_eq is_empty
garbled = refl
