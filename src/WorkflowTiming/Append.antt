-- ===== src/WorkflowTiming/Append.antt =====
-- What the result of `AppendBatch` says of the input, also when a later chunk fails.
use custd_sdk_go.Base.{
  All, Bool, Bool-cases, List, Option, Option-cases, Result, [], ap, arith, err, false, inl, inr,
  is_none, length, length-append, none, not, ok, refl, some, subst, suc, sym, true, ℕ, ◌++◌, ◌+◌,
  ◌<◌, ◌==◌, ◌∙◌, ◌∷◌, ◌≡◌, ◌≤◌, ◌⊎◌, Result-cases,
}
use custd_sdk_go.Errors.{SdkError}
use custd_sdk_go.WorkflowTiming.{
  ObservationResult, BatchResult, workflow_timing_chunks, tally, indexes_run, validate_batch_result,
  rebase, merge, empty_result, Appended, checked, append_loop, append_batch, not_accepted,
  rejected_items, require_accepted,
}
use custd_sdk_go.WorkflowTiming.Chunks.{concat, workflow_timing_chunks-Splits}

-- The indexes count up from `i`.
abbrev pub Indexed : ℕ → List ObservationResult → Type 0
Indexed i [] = Unit {0}
Indexed i (r ∷ rs) = (r.index ≡ i) × Indexed (i + 1) rs

-- The result speaks of the first `n` inputs, in order, one item each, and its counts are those of
-- its items.
pub record Accounts (n : ℕ) (out : BatchResult) : Type 0 where
  pub indexed : Indexed 0 out.results
  pub counted : length out.results ≡ n
  pub accepted : out.accepted ≡ tally (λ r. r.accepted) out.results
  pub rejected : out.rejected ≡ tally (λ r. not r.accepted) out.results
  pub duplicates : out.duplicates ≡ tally (λ r. r.duplicate) out.results

indexes_run-Indexed : (i : ℕ) (rs : List ObservationResult) → indexes_run i rs ≡ true → Indexed i rs
unfolding indexes_run
indexes_run-Indexed i [] h = tt
indexes_run-Indexed i (r ∷ rs) h = (ground arith, indexes_run-Indexed (i + 1) rs (ground arith))

validate-Accounts :
    (result : BatchResult) (n : ℕ) → validate_batch_result result n ≡ none → Accounts n result
unfolding validate_batch_result
validate-Accounts result n h = record {
  indexed = indexes_run-Indexed 0 result.results (ground arith);
  counted = ground arith;
  accepted = ground arith;
  rejected = ground arith;
  duplicates = ground arith;
}

pub tally-append :
    (test : ObservationResult → Bool) (xs ys : List ObservationResult)
    → tally test (xs ++ ys) ≡ tally test xs + tally test ys
unfolding tally
tally-append test [] ys = omega arith
tally-append test (x ∷ xs) ys = ground (arith, tally-append test xs ys)

length-rebase : (offset : ℕ) (rs : List ObservationResult) → length (rebase offset rs) ≡ length rs
unfolding rebase
length-rebase offset [] = refl
length-rebase offset (r ∷ rs) = ap suc (length-rebase offset rs)

-- Rebasing changes the indexes alone.
abbrev pub KeepsIndexFree : (ObservationResult → Bool) → Type 0
KeepsIndexFree test = (r : ObservationResult) (i : ℕ) → test (record r { index = i }) ≡ test r

tally-rebase :
    (test : ObservationResult → Bool) (offset : ℕ) (rs : List ObservationResult)
    → KeepsIndexFree test
    → tally test (rebase offset rs) ≡ tally test rs
unfolding tally rebase
tally-rebase test offset [] k = refl
tally-rebase test offset (r ∷ rs) k =
    ground (arith, k r (r.index + offset), tally-rebase test offset rs k)

Indexed-cong : {i j : ℕ} (rs : List ObservationResult) → i ≡ j → Indexed i rs → Indexed j rs
Indexed-cong rs e h = subst (λ k. Indexed k rs) e h

Indexed-rebase :
    (i offset : ℕ) (rs : List ObservationResult)
    → Indexed i rs
    → Indexed (offset + i) (rebase offset rs)
unfolding rebase
Indexed-rebase i offset [] h = tt
Indexed-rebase i offset (r ∷ rs) h = (
  omega (arith, h.0),
  Indexed-cong (rebase offset rs) (omega arith) (Indexed-rebase (i + 1) offset rs h.1),
)

Indexed-append :
    (i : ℕ) (xs ys : List ObservationResult)
    → Indexed i xs
    → Indexed (i + length xs) ys
    → Indexed i (xs ++ ys)
Indexed-append i [] ys h k = Indexed-cong ys (omega arith) k
Indexed-append i (x ∷ xs) ys h k =
    (h.0, Indexed-append (i + 1) xs ys h.1 (Indexed-cong ys (omega arith) k))

merge-Accounts :
    (out result : BatchResult) (m n : ℕ)
    → Accounts m out
    → Accounts n result
    → Accounts (m + n) (merge out m result)
unfolding merge
merge-Accounts out result m n a b = record {
  indexed = Indexed-append 0 out.results (rebase m result.results) a.indexed (
      Indexed-cong (rebase m result.results) (omega (arith, a.counted))
        (Indexed-rebase 0 m result.results b.indexed));
  counted = omega (
    arith,
    a.counted,
    b.counted,
    length-append out.results (rebase m result.results),
    length-rebase m result.results,
  );
  accepted = omega (
    arith,
    a.accepted,
    b.accepted,
    tally-append (λ r. r.accepted) out.results (rebase m result.results),
    tally-rebase (λ r. r.accepted) m result.results (λ r i. refl),
  );
  rejected = omega (
    arith,
    a.rejected,
    b.rejected,
    tally-append (λ r. not r.accepted) out.results (rebase m result.results),
    tally-rebase (λ r. not r.accepted) m result.results (λ r i. refl),
  );
  duplicates = omega (
    arith,
    a.duplicates,
    b.duplicates,
    tally-append (λ r. r.duplicate) out.results (rebase m result.results),
    tally-rebase (λ r. r.duplicate) m result.results (λ r i. refl),
  );
}

empty-Accounts : Accounts 0 empty_result
unfolding empty_result tally
empty-Accounts = record {
  indexed = tt;
  counted = refl;
  accepted = refl;
  rejected = refl;
  duplicates = refl;
}

module _ {O W : Type 0} (send : List O → W → Result SdkError BatchResult × W) where
  checked-Accounts :
      (chunk : List O) (answer : Result SdkError BatchResult) {result : BatchResult}
      → checked send chunk answer ≡ ok result
      → Accounts (length chunk) result
  unfolding checked
  checked-Accounts chunk (err e) h = cc
  checked-Accounts chunk (ok r) {result} h =
      elim (Option-cases (validate_batch_result r (length chunk))) [
        | inl fine ↦
            let same : r ≡ result = ground arith in
            subst (Accounts (length chunk)) same (validate-Accounts r (length chunk) fine)
        | inr (e, bad) ↦ absurd (ground arith)
      ]

  -- A run that ends well has gone through all inputs, one that ends with an error not further.
  abbrev pub Ends : ℕ → Appended W → Type 0
  Ends total r =
      ((r.error ≡ none) × (r.offset ≡ total)) ⊎ ((is_none r.error ≡ false) × (r.offset ≤ total))

  abbrev pub Reports : ℕ → Appended W → Type 0
  Reports total r = Accounts r.offset r.out × Ends total r

  append_loop-Reports :
      (out : BatchResult) (offset total : ℕ) (w : W) (chunks : List (List O))
      → Accounts offset out
      → offset + length (concat chunks) ≡ total
      → Reports total (append_loop send out offset w chunks)
  unfolding append_loop
  append_loop-Reports out offset total w [] a t = (a, inl (refl, omega (arith, t)))
  append_loop-Reports out offset total w (chunk ∷ chunks) a t =
      elim (Result-cases (checked send chunk (send chunk w).0)) [
        | inl (e, bad) ↦ rw (bad, append_loop) (a, inr (refl, omega (arith, t)))
        | inr (result, good) ↦
            rw (good, append_loop)
              (append_loop-Reports (merge out offset result) (offset + length chunk) total
                (send chunk w).1 chunks
                (merge-Accounts out result offset (length chunk) a
                  (checked-Accounts chunk (send chunk w).0 good))
                (omega (arith, t, length-append chunk (concat chunks))))
      ]

  -- Whenever the split succeeds, the report of `AppendBatch` has one item for each of the first
  -- `offset` inputs, with indexes 0, 1, … into the whole import and counts that are those of the items.
  -- Without an error `offset` is the number of inputs, with one it is at most that.
  pub append_batch-Reports :
      (encode : O → Option ℕ) (observations : List O) (w : W) {r : Appended W}
      → append_batch send encode observations w ≡ ok r
      → Reports (length observations) r
  unfolding append_batch
  append_batch-Reports encode observations w {r} h =
      elim (Result-cases (workflow_timing_chunks encode observations)) [
        | inl (e, bad) ↦ absurd (ground arith)
        | inr (chunks, good) ↦
            let same : append_loop send empty_result 0 w chunks ≡ r = ground arith in
            subst (Reports (length observations)) same (
              append_loop-Reports empty_result 0 (length observations) w chunks empty-Accounts (
                omega
                  (arith, ap length (workflow_timing_chunks-Splits encode observations good).0)))
      ]

length-not_accepted :
    (rs : List ObservationResult) → length (not_accepted rs) ≡ tally (λ r. not r.accepted) rs
unfolding not_accepted tally
length-not_accepted [] = refl
length-not_accepted (r ∷ rs) = ground (arith, length-not_accepted rs)

abbrev pub IsAcceptedItem : ObservationResult → Type 0
IsAcceptedItem r = r.accepted ≡ true

none_rejected :
    (rs : List ObservationResult) → tally (λ r. not r.accepted) rs ≡ 0 → All IsAcceptedItem rs
unfolding tally
none_rejected [] h = tt
none_rejected (r ∷ rs) h = (ground arith, none_rejected rs (ground arith))

-- `RequireAccepted` answers exactly by the items.
pub require_accepted_lem :
    (result : BatchResult) (n : ℕ)
    → validate_batch_result result n ≡ none
    → ((require_accepted result ≡ none) × All IsAcceptedItem result.results)
      ⊎ ((require_accepted result ≡ some (length (rejected_items result), n, rejected_items result))
          × (0 < length (rejected_items result)))
unfolding require_accepted rejected_items
require_accepted_lem result n h =
    let a = validate-Accounts result n h in
    elim (Bool-cases (result.rejected == 0)) [
      | inl e ↦ inl (ground arith, none_rejected result.results (ground (arith, a.rejected)))
      | inr e ↦
          let counted : result.rejected ≡ length (not_accepted result.results) =
            a.rejected ∙ sym (length-not_accepted result.results) in
          inr (rw (e, sym counted, a.counted) refl, ground arith)
    ]
