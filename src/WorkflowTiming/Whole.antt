-- ===== src/WorkflowTiming/Whole.antt =====
-- `AppendBatch` against the request that it stands for: one that carries the whole import.
use custd_sdk_go.Base.{
  All, Bool, List, Option, Result, [], ap, ap₂, arith, length, length-append, none, not, ok, refl,
  suc, sym, true, ℕ, ◌++◌, ◌+◌, ◌∙◌, ◌∷◌, ◌≡◌, ◌≢◌,
}
use mathlib.Core.List.{append_assoc, append-nil}
use custd_sdk_go.Errors.{SdkError}
use custd_sdk_go.WorkflowTiming.{
  ObservationResult, BatchResult, tally, indexes_run, validate_batch_result, rebase, merge,
  empty_result, Appended, checked, append_loop, append_batch,
}
use custd_sdk_go.WorkflowTiming.Chunks.{
  concat, Sendable, workflow_timing_chunks-Splits, workflow_timing_chunks_total,
}
use custd_sdk_go.WorkflowTiming.Append.{KeepsIndexFree, tally-append}

-- The items of a report, numbered from `i`.
pub number : ℕ → List ObservationResult → List ObservationResult
number i [] = []
number i (r ∷ rs) = record r { index = i } ∷ number (i + 1) rs

-- The report on these items.
pub report : List ObservationResult → BatchResult
report rs = record {
  results = number 0 rs;
  accepted = tally (λ r. r.accepted) rs;
  rejected = tally (λ r. not r.accepted) rs;
  duplicates = tally (λ r. r.duplicate) rs;
}

number-append :
    (i : ℕ) (xs ys : List ObservationResult)
    → number i (xs ++ ys) ≡ number i xs ++ number (i + length xs) ys
unfolding number
number-append i [] ys = ap (λ k. number k ys) (omega arith)
number-append i (x ∷ xs) ys =
    ap (λ rest. record x { index = i } ∷ rest)
      (number-append (i + 1) xs ys ∙ ap (λ k. number (i + 1) xs ++ number k ys) (omega arith))

rebase-number : (i k : ℕ) (rs : List ObservationResult) → rebase k (number i rs) ≡ number (i + k) rs
unfolding rebase number
rebase-number i k [] = refl
rebase-number i k (r ∷ rs) =
    ap (λ rest. record r { index = i + k } ∷ rest)
      (rebase-number (i + 1) k rs ∙ ap (λ j. number j rs) (omega arith))

indexes_run-number : (i : ℕ) (rs : List ObservationResult) → indexes_run i (number i rs) ≡ true
unfolding indexes_run number
indexes_run-number i [] = refl
indexes_run-number i (r ∷ rs) = ground (arith, indexes_run-number (i + 1) rs)

length-number : (i : ℕ) (rs : List ObservationResult) → length (number i rs) ≡ length rs
unfolding number
length-number i [] = refl
length-number i (r ∷ rs) = ap suc (length-number (i + 1) rs)

tally-number :
    (test : ObservationResult → Bool) (i : ℕ) (rs : List ObservationResult)
    → KeepsIndexFree test
    → tally test (number i rs) ≡ tally test rs
unfolding tally number
tally-number test i [] k = refl
tally-number test i (r ∷ rs) k = ground (arith, k r i, tally-number test (i + 1) rs k)

report-valid : (rs : List ObservationResult) → validate_batch_result (report rs) (length rs) ≡ none
unfolding validate_batch_result report
report-valid rs =
    let run = indexes_run-number 0 rs in
    let size = length-number 0 rs in
    let a = tally-number (λ r. r.accepted) 0 rs (λ r i. refl) in
    let b = tally-number (λ r. not r.accepted) 0 rs (λ r i. refl) in
    let c = tally-number (λ r. r.duplicate) 0 rs (λ r i. refl) in ground arith

merge-report :
    (rs ss : List ObservationResult) → merge (report rs) (length rs) (report ss) ≡ report (rs ++ ss)
unfolding merge report
merge-report rs ss = λ i. record {
  results = numbered i;
  accepted = sym (tally-append (λ r. r.accepted) rs ss) i;
  rejected = sym (tally-append (λ r. not r.accepted) rs ss) i;
  duplicates = sym (tally-append (λ r. r.duplicate) rs ss) i;
}
  where
    numbered : number 0 rs ++ rebase (length rs) (number 0 ss) ≡ number 0 (rs ++ ss)
    numbered =
        ap (λ tail. number 0 rs ++ tail) (rebase-number 0 (length rs) ss)
        ∙ sym (number-append 0 rs ss)

-- A server that answers each observation by itself, in some state of its own.
module _ {O W : Type 0} (answer : O → W → ObservationResult × W) where
  pub serve : List O → W → List ObservationResult × W
  serve [] w = ([], w)
  serve (o ∷ os) w = ((answer o w).0 ∷ (serve os (answer o w).1).0, (serve os (answer o w).1).1)

  -- One request to it.
  pub reply : List O → W → Result SdkError BatchResult × W
  reply chunk w = (ok (report (serve chunk w).0), (serve chunk w).1)

  length-serve : (os : List O) (w : W) → length (serve os w).0 ≡ length os
  unfolding serve
  length-serve [] w = refl
  length-serve (o ∷ os) w = ap suc (length-serve os (answer o w).1)

  serve-append :
      (xs ys : List O) (w : W)
      → serve (xs ++ ys) w
        ≡ ((serve xs w).0 ++ (serve ys (serve xs w).1).0, (serve ys (serve xs w).1).1)
  unfolding serve
  serve-append [] ys w = refl
  serve-append (x ∷ xs) ys w =
      ap (λ p. ((answer x w).0 ∷ p.0, p.1)) (serve-append xs ys (answer x w).1)

  checked-reply :
      (chunk : List O) (w : W)
      → checked reply chunk (reply chunk w).0 ≡ ok (report (serve chunk w).0)
  unfolding checked reply
  checked-reply chunk w =
      let fine : validate_batch_result (report (serve chunk w).0) (length chunk) ≡ none =
        ap (validate_batch_result (report (serve chunk w).0)) (sym (length-serve chunk w))
        ∙ report-valid (serve chunk w).0 in
      rw (fine, checked)

  abbrev finished : List ObservationResult → W → Appended W
  finished rs w = record { out = report rs; offset = length rs; error = none; world = w }

  append_loop-whole :
      (rs : List ObservationResult) (w : W) (chunks : List (List O))
      → append_loop reply (report rs) (length rs) w chunks
        ≡ finished (rs ++ (serve (concat chunks) w).0) (serve (concat chunks) w).1
  unfolding append_loop serve reply
  append_loop-whole rs w [] = ap (λ l. finished l w) (sym (append-nil rs))
  append_loop-whole rs w (chunk ∷ chunks) =
      let ss = (serve chunk w).0 in
      let w' = (serve chunk w).1 in
      let step : append_loop reply (report rs) (length rs) w (chunk ∷ chunks)
          ≡ append_loop reply (merge (report rs) (length rs) (report ss)) (length rs + length chunk)
              w' chunks =
        rw (checked-reply chunk w, append_loop) refl in
      step
      ∙ ap₂ (λ out n. append_loop reply out n w' chunks) (merge-report rs ss)
          (ap (λ k. length rs + k) (sym (length-serve chunk w)) ∙ sym (length-append rs ss))
      ∙ append_loop-whole (rs ++ ss) w' chunks
      ∙ ap (λ l. finished l (serve (concat chunks) w').1)
          (append_assoc rs ss (serve (concat chunks) w').0)
      ∙ ap (λ p. finished (rs ++ p.0) p.1) (sym (serve-append chunk (concat chunks) w))

  empty-report : empty_result ≡ report []
  unfolding empty_result report number tally
  empty-report = refl

  -- On a server that answers each observation by itself, an import that is not empty and whose
  -- observations each encode and fit into a request ends without an error, leaves the server as one
  -- request with the whole import does, and returns the report of that request, although it is sent
  -- in chunks.
  pub append_batch-whole :
      (encode : O → Option ℕ) (os : List O) (w : W)
      → os ≢ []
      → All (Sendable encode) os
      → append_batch reply encode os w
        ≡ ok (record {
          out = report (serve os w).0;
          offset = length os;
          error = none;
          world = (serve os w).1;
        })
  unfolding append_batch
  append_batch-whole encode os w given fits =
      let (chunks, split) = workflow_timing_chunks_total encode os given fits in
      let (whole, _) = workflow_timing_chunks-Splits encode os split in
      rw (split, append_batch)
        (ap (λ out. ok (append_loop reply out 0 w chunks)) empty-report
          ∙ ap ok (append_loop-whole [] w chunks)
          ∙ ap (λ all_of. ok (finished (serve all_of w).0 (serve all_of w).1)) whole
          ∙ ap
              (λ n. ok (record {
                out = report (serve os w).0;
                offset = n;
                error = none;
                world = (serve os w).1;
              }))
              (length-serve os w))
