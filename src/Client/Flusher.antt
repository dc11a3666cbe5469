-- ===== src/Client/Flusher.antt =====
-- The background flusher of client.go and what its flushes leave in the queue.
use custd_sdk_go.Base.{
  List, Option, Option-cases, [], ap, arith, drop, drop-drop, inl, inr, length, none, some, sym,
  zero, suc, ℕ, ◌∙◌, ◌∷◌, ◌≡◌, ◌≤◌, ◌-◌, ◌+◌, ◌*◌,
}
use native.Mathlib.Nat.{suc-mul, zero-mul}
use custd_sdk_go.Base.Int.{to_ℕ}
use custd_sdk_go.Config.{ClientConfig}
use custd_sdk_go.Errors.{SdkError}
use custd_sdk_go.Queue.{IsBounded}
use custd_sdk_go.Queue.Spec.{drop_all, drop-cong}
use custd_sdk_go.Client.{Host, ClientState, flush}
use custd_sdk_go.Client.Flushing.{flush_failed-queue, flush_ok-queue, flush-IsBounded}

-- What `runFlusher` selects: the closed channel, or the ticker.
pub data FlusherEvent : Type 0 where
  stopped : FlusherEvent
  tick : FlusherEvent

-- `n` ticks in a row.
abbrev pub ticks : ℕ → List FlusherEvent
ticks zero = []
ticks (suc n) = tick ∷ ticks n

one_more : (n k b : ℕ) → k ≤ n → b + (n - k) * b ≡ (suc n - k) * b
one_more n k b h =
    let one_longer : suc n - k ≡ suc (n - k) = omega arith in
    rw (one_longer, suc-mul (n - k) b) (omega arith)

as_many : (n k b : ℕ) → (n - k) * b ≡ (suc n - suc k) * b
as_many n k b = let same : n - k ≡ suc n - suc k = omega arith in ap (λ m. m * b) same

unfoldable pub log_failure : Option SdkError → List SdkError → List SdkError
log_failure none later = later
log_failure (some e) later = e ∷ later

module _ {F W : Type 0} (h : Host W) (c : ClientConfig F) where
  -- The failures in the order they are logged, and the state.
  unfoldable pub run_flusher : List FlusherEvent → ClientState W → List SdkError × ClientState W
  unfolding log_failure
  run_flusher [] s = ([], s)
  run_flusher (stopped ∷ later) s = ([], s)
  run_flusher (tick ∷ later) s =
      let (r, s₁) = flush h c s in
      let (logged, s₂) = run_flusher later s₁ in (log_failure r logged, s₂)

  -- How many of `n` flushes fail.
  abbrev pub failures : ℕ → ClientState W → ℕ
  failures n s = length (run_flusher (ticks n) s).0

  failures_le : (n : ℕ) (s : ClientState W) → failures n s ≤ n
  unfolding run_flusher
  failures_le zero s = omega arith
  failures_le (suc n) s = elim (Option-cases (flush h c s).0) [
    | inl done ↦ rw (run_flusher, done) (omega (arith, failures_le n (flush h c s).1))
    | inr (e, failed) ↦ rw (run_flusher, failed) (omega (arith, failures_le n (flush h c s).1))
  ]

  -- Each flush that succeeds takes one batch off the front, and the others none.
  pub run_flusher-queue :
      (n : ℕ) (s : ClientState W)
      → IsBounded s.queue
      → (run_flusher (ticks n) s).1.queue.events
        ≡ drop ((n - failures n s) * to_ℕ c.batch_size) s.queue.events
  unfolding run_flusher log_failure
  run_flusher-queue zero s v = drop-cong {j = 0} s.queue.events (sym (zero-mul (to_ℕ c.batch_size)))
  run_flusher-queue (suc n) s v =
      let rest = run_flusher-queue n (flush h c s).1 (flush-IsBounded h c s v) in
      elim (Option-cases (flush h c s).0) [
        | inl done ↦
            rw (run_flusher, done)
              (rest
                ∙ ap (drop ((n - failures n (flush h c s).1) * to_ℕ c.batch_size))
                    (flush_ok-queue h c s done)
                ∙ drop-drop ((n - failures n (flush h c s).1) * to_ℕ c.batch_size)
                    (to_ℕ c.batch_size) s.queue.events
                ∙ drop-cong s.queue.events (
                    one_more n (failures n (flush h c s).1) (to_ℕ c.batch_size)
                      (failures_le n (flush h c s).1)))
        | inr (e, failed) ↦
            rw (run_flusher, failed)
              (rest
                ∙ ap (λ q. drop ((n - failures n (flush h c s).1) * to_ℕ c.batch_size) q.events)
                    (flush_failed-queue h c s e v failed)
                ∙ drop-cong s.queue.events
                    (as_many n (failures n (flush h c s).1) (to_ℕ c.batch_size)))
      ]

  -- `n` ticks of the flusher on a queue within its bound, of which so many succeed that their
  -- batches cover the queue, leave it empty, whichever of the ticks those are.
  pub run_flusher-empties :
      (n : ℕ) (s : ClientState W)
      → IsBounded s.queue
      → length s.queue.events ≤ (n - failures n s) * to_ℕ c.batch_size
      → (run_flusher (ticks n) s).1.queue.events ≡ []
  run_flusher-empties n s v enough =
      run_flusher-queue n s v
      ∙ drop_all ((n - failures n s) * to_ℕ c.batch_size) s.queue.events enough
