-- ===== src/WorkflowTiming.antt =====
-- workflow_timings.go: the import of observed facts in bounded requests. `AppendBatch` splits the
-- observations into chunks, sends each as one request, checks its answer and rebases its indexes.
-- encoding/json and the request itself are parameters. The integers of a response are natural
-- numbers: the check compares each with an index or a count, so it refuses a negative one too.
pub mod Chunks
pub mod Append
pub mod Whole
pub mod Keys
mod Tests
use custd_sdk_go.Base.{
  ==_iff, All, Bool, Bool-cases, List, Option, Option-cases, Result, Text, [], all, any, ap, ap₂,
  arith, byte_len, codes, drop, drop-drop, err, fail_if, false, has_prefix, has_prefix-append,
  if◌then◌else◌, inl, inr, insert, is_empty, is_empty_sound, is_none, is_some, is_space, leb,
  leb→le, length, length-append, length-drop, length-take, le→leb, lookup, lookup-insert, ltb,
  ltb→lt, lt→ltb, map, max, min, none, not, ok, refl, reject_if, require, reverse, rune_len, some,
  subst, suc, sym, take, take-append-drop, tests, text_eq, text_eq_sound, text_eq_iff, text_eq_refl,
  trim_left, trim_space, true, zero, ℕ, ◌%◌, ◌&&◌, ◌*◌, ◌++◌, ◌+◌, ◌-◌, ◌/◌, ◌<◌, ◌==◌, ◌>>=◌, ◌>>◌,
  ◌^◌, ◌orelse◌, ◌||◌, ◌↔◌, ◌∙◌, ◌∷◌, ◌≡◌, ◌≢◌, ◌≤◌, ◌⊎◌,
}
use custd_sdk_go.Base.Int.{ℤ}
use custd_sdk_go.Base.Decimal.{format_int, itoa}
use custd_sdk_go.Errors.{SdkError, wrapped, plain}

pub record RunFact : Type 0 where
  pub state : Text

pub record StepFact : Type 0 where
  pub step_key : Text
  pub attempt : ℤ
  pub state : Text
  pub error_class : Text

pub record Fact : Type 0 where
  pub kind : Text
  pub occurred_at : Text
  pub dimensions : List (Text × Text)
  pub run : Option RunFact
  pub step : Option StepFact

pub record Provenance : Type 0 where
  pub actor_kind : Text
  pub actor_ref : Text
  pub collector : Text

pub record Observation : Type 0 where
  pub workflow_key : Text
  pub external_run_id : Text
  pub idempotency_key : Text
  pub supersedes_fact_id : Text
  pub provenance : Option Provenance
  pub fact : Fact

pub record ObservationResult : Type 0 where
  pub index : ℕ
  pub accepted : Bool
  pub duplicate : Bool
  pub workflow_key : Text
  pub external_run_id : Text
  pub idempotency_key : Text
  pub run_uuid : Text
  pub fact_uuid : Text
  pub error_code : Text
  pub error_message : Text

pub record BatchResult : Type 0 where
  pub results : List ObservationResult
  pub accepted : ℕ
  pub rejected : ℕ
  pub duplicates : ℕ

pub data ChunkError : Type 0 where
  no_observations : ChunkError
  encode_failed too_large : ℕ → ChunkError

unfoldable pub max_facts : ℕ
max_facts = 10000

unfoldable pub max_bytes : ℕ
max_bytes = 1048576

-- `len(`{"observations":[]}`)`
unfoldable pub envelope_bytes : ℕ
envelope_bytes = 19

-- `encode` is the length of `json.Marshal` of an observation, `none` its error.
module _ {O : Type 0} (encode : O → Option ℕ) where
  -- `current` is the slice from the chunk's start to the index, `size` its size so far.
  unfoldable pub chunk_loop :
      ℕ → ℕ → List O → List (List O) → List O → Result ChunkError (List (List O))
  chunk_loop index size current chunks [] = ok (chunks ++ current ∷ [])
  chunk_loop index size current chunks (o ∷ os) = elim (encode o) [
    | none ↦ err (encode_failed index)
    | some encoded ↦ elim (ltb max_bytes (envelope_bytes + (encoded + 1))) [
      | true ↦ err (too_large index)
      | false ↦ elim (ltb max_bytes (size + (encoded + 1)) || length current == max_facts) [
        | true ↦
            chunk_loop (index + 1) (envelope_bytes + (encoded + 1)) (o ∷ [])
              (chunks ++ current ∷ []) os
        | false ↦ chunk_loop (index + 1) (size + (encoded + 1)) (current ++ o ∷ []) chunks os
      ]
    ]
  ]

  unfoldable pub workflow_timing_chunks : List O → Result ChunkError (List (List O))
  unfolding chunk_loop
  workflow_timing_chunks [] = err no_observations
  workflow_timing_chunks (o ∷ os) = chunk_loop 0 envelope_bytes [] [] (o ∷ os)

-- The three tallies of the loop over the results.
unfoldable pub tally : (ObservationResult → Bool) → List ObservationResult → ℕ
tally test [] = 0
tally test (r ∷ rs) = let rest = tally test rs in if test r then suc rest else rest

unfoldable pub indexes_run : ℕ → List ObservationResult → Bool
indexes_run i [] = true
indexes_run i (r ∷ rs) = (r.index == i) && indexes_run (i + 1) rs

unfoldable pub invalid_indexes : SdkError
invalid_indexes = plain (codes "workflow timing response has invalid item indexes")

unfoldable pub unaccounted : SdkError
unaccounted = plain (codes "workflow timing response does not account for every input")

unfoldable pub validate_batch_result : BatchResult → ℕ → Option SdkError
validate_batch_result result count =
    reject_if (not (indexes_run 0 result.results)) invalid_indexes
    orelse reject_if
        (not (length result.results == count)
          || not (result.accepted == tally (λ r. r.accepted) result.results)
          || not (result.rejected == tally (λ r. not r.accepted) result.results)
          || not (result.duplicates == tally (λ r. r.duplicate) result.results))
        unaccounted

-- `result.Results[index].Index += offset`
unfoldable pub rebase : ℕ → List ObservationResult → List ObservationResult
rebase offset [] = []
rebase offset (r ∷ rs) = record r { index = r.index + offset } ∷ rebase offset rs

unfoldable pub merge : BatchResult → ℕ → BatchResult → BatchResult
unfolding rebase
merge out offset result = record {
  results = out.results ++ rebase offset result.results;
  accepted = out.accepted + result.accepted;
  rejected = out.rejected + result.rejected;
  duplicates = out.duplicates + result.duplicates;
}

unfoldable pub empty_result : BatchResult
empty_result = record { results = []; accepted = 0; rejected = 0; duplicates = 0 }

unfoldable pub at_input : ℕ → SdkError → SdkError
at_input offset e = wrapped (codes "custd: workflow timing batch at input " ++ itoa offset) e

-- What `AppendBatch` returns: the results so far, the error if there is one, and the world.
pub record Appended (W : Type 0) : Type 0 where
  pub out : BatchResult
  pub offset : ℕ
  pub error : Option SdkError
  pub world : W

module _ {O W : Type 0} (send : List O → W → Result SdkError BatchResult × W) where
  -- The answer to one chunk, checked.
  unfoldable pub checked : List O → Result SdkError BatchResult → Result SdkError BatchResult
  checked chunk (err e) = err e
  checked chunk (ok result) = elim (validate_batch_result result (length chunk)) [
    | none ↦ ok result
    | some e ↦ err e
  ]

  unfoldable pub append_loop : BatchResult → ℕ → W → List (List O) → Appended W
  unfolding checked
  append_loop out offset w [] = record { out = out; offset = offset; error = none; world = w }
  append_loop out offset w (chunk ∷ chunks) = elim (checked chunk (send chunk w).0) [
    | err e ↦ record {
      out = out;
      offset = offset;
      error = some (at_input offset e);
      world = (send chunk w).1;
    }
    | ok result ↦
        append_loop (merge out offset result) (offset + length chunk) (send chunk w).1 chunks
  ]

  unfoldable pub append_batch : (O → Option ℕ) → List O → W → Result ChunkError (Appended W)
  unfolding append_loop
  append_batch encode observations w = elim (workflow_timing_chunks encode observations) [
    | err e ↦ err e
    | ok chunks ↦ ok (append_loop empty_result 0 w chunks)
  ]

-- `RejectedItems`, and whether `RequireAccepted` returns an error.
unfoldable pub not_accepted : List ObservationResult → List ObservationResult
not_accepted [] = []
not_accepted (r ∷ rs) = let rest = not_accepted rs in if r.accepted then rest else r ∷ rest

unfoldable pub rejected_items : BatchResult → List ObservationResult
unfolding not_accepted
rejected_items result = not_accepted result.results

unfoldable pub require_accepted : BatchResult → Option (ℕ × ℕ × List ObservationResult)
unfolding rejected_items
require_accepted result =
    if result.rejected == 0
    then none
    else some (result.rejected, length result.results, rejected_items result)

-- The deterministic identities of `WorkflowTimingIdempotency`, joined by colons.
unfoldable pub join_colons : List Text → Text
join_colons [] = []
join_colons (t ∷ []) = t
join_colons (t ∷ u ∷ ts) = t ++ b':' ∷ join_colons (u ∷ ts)

unfoldable pub workflow_timing_key : Text → Text → Text → Text
unfolding join_colons
workflow_timing_key workflow run kind =
    join_colons (codes "workflow-timing" ∷ workflow ∷ run ∷ kind ∷ [])

unfoldable pub workflow_timing_step_key : Text → Text → Text → Text → ℤ → Text
unfolding join_colons
workflow_timing_step_key workflow run kind step attempt =
    join_colons (codes "workflow-timing" ∷ workflow ∷ run ∷ kind ∷ step ∷ format_int attempt ∷ [])

unfoldable pub run_started : Text → Text → Text
unfolding workflow_timing_key
run_started workflow run = workflow_timing_key workflow run (codes "run_started")

unfoldable pub run_finished : Text → Text → Text
unfolding workflow_timing_key
run_finished workflow run = workflow_timing_key workflow run (codes "run_finished")

unfoldable pub step_started : Text → Text → Text → ℤ → Text
unfolding workflow_timing_step_key
step_started workflow run step attempt =
    workflow_timing_step_key workflow run (codes "step_started") step attempt

unfoldable pub step_finished : Text → Text → Text → ℤ → Text
unfolding workflow_timing_step_key
step_finished workflow run step attempt =
    workflow_timing_step_key workflow run (codes "step_finished") step attempt
