-- ===== src/WorkflowTiming/Tests.antt =====
-- Two observations of thirty and forty bytes.
use custd_sdk_go.Base.{
  All, Bool, List, Option, Result, Text, [], arith, codes, false, none, ok, refl, some, true, ℕ,
  ◌+◌, ◌∷◌, ◌≡◌, ◌≢◌,
}
use custd_sdk_go.Errors.{SdkError}
use custd_sdk_go.WorkflowTiming.{
  ObservationResult, BatchResult, workflow_timing_chunks, chunk_loop, max_bytes, max_facts,
  envelope_bytes, validate_batch_result, indexes_run, tally, append_batch, append_loop, checked,
  merge, empty_result, rebase, Appended,
}
use custd_sdk_go.WorkflowTiming.Chunks.{concat, Fits, Sendable, workflow_timing_chunks-Splits}
use custd_sdk_go.WorkflowTiming.Append.{Reports, append_batch-Reports}
use custd_sdk_go.WorkflowTiming.Whole.{reply, report, serve, append_batch-whole}

abbrev encode : ℕ → Option ℕ
encode n = some n

abbrev two : List ℕ
two = 30 ∷ 40 ∷ []

two-chunks : workflow_timing_chunks encode two ≡ ok (two ∷ [])
unfolding workflow_timing_chunks chunk_loop max_bytes max_facts envelope_bytes
two-chunks = refl

workflow_timing_chunks-Splits_example : (concat (two ∷ []) ≡ two) × All (Fits encode) (two ∷ [])
workflow_timing_chunks-Splits_example = workflow_timing_chunks-Splits encode two two-chunks

two-Sendable : All (Sendable encode) two
unfolding envelope_bytes max_bytes
two-Sendable = ((30, refl, omega arith), ((40, refl, omega arith), tt))

abbrev item : ℕ → Bool → ObservationResult
item index accepted = record {
  index = index;
  accepted = accepted;
  duplicate = false;
  workflow_key = codes "w";
  external_run_id = codes "r";
  idempotency_key = codes "k";
  run_uuid = [];
  fact_uuid = [];
  error_code = [];
  error_message = [];
}

abbrev one_of_two : BatchResult
one_of_two = record {
  results = item 0 true ∷ item 1 false ∷ [];
  accepted = 1;
  rejected = 1;
  duplicates = 0;
}

abbrev server : List ℕ → ℕ → Result SdkError BatchResult × ℕ
server chunk w = (ok one_of_two, w + 1)

abbrev imported : Appended ℕ
imported = record { out = one_of_two; offset = 2; error = none; world = 1 }

two-imported : append_batch server encode two 0 ≡ ok imported
unfolding append_batch workflow_timing_chunks chunk_loop max_bytes max_facts envelope_bytes
    append_loop checked validate_batch_result indexes_run tally merge empty_result rebase
two-imported = refl

append_batch-Reports_example : Reports server 2 imported
append_batch-Reports_example = append_batch-Reports server encode two 0 two-imported

-- Every observation is accepted, and the server counts what it was sent.
abbrev judge : ℕ → ℕ → ObservationResult × ℕ
judge n w = (item n true, w + 1)

append_batch-whole_example :
    append_batch (reply judge) encode two 0
    ≡ ok (record {
      out = report (serve judge two 0).0;
      offset = 2;
      error = none;
      world = (serve judge two 0).1;
    })
append_batch-whole_example = append_batch-whole judge encode two 0 (λ e. cc) two-Sendable

one_of_two-valid : validate_batch_result one_of_two 2 ≡ none
unfolding validate_batch_result indexes_run tally
one_of_two-valid = refl

abbrev letter : Text
letter = 97 ∷ []

letter-ColonFree : All (λ c. c ≢ b':') letter
letter-ColonFree = ((λ e. omega (arith, e)), tt)
