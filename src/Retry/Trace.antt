-- ===== src/Retry/Trace.antt =====
-- The runs of `withRetry` as a relation, which says when each attempt follows, and the loop is
-- shown to make exactly these runs.
use custd_sdk_go.Base.{
  Bool-cases, Option, Option-cases, ap, arith, false, inl, inr, none, not, some, suc, true, zero, ℕ,
  ◌+◌, ◌-◌, ◌<◌, ◌==◌, ◌||◌, ◌∙◌, ◌≡◌, ◌≢◌, ◌≤◌,
}
use custd_sdk_go.Errors.{SdkError, is_retryable_err}
use custd_sdk_go.Retry.{retry_loop, with_retry, max_attempts}
use custd_sdk_go.Base.Int.{not_positive, ℤ, to_ℕ, pos, negsuc}

module _ {ℓ} {W : Type ℓ} (op : W → Option SdkError × W) (wait : ℕ → W → Option SdkError × W)
    (limit : ℕ) where
  -- `Trace a w n r w'`: from attempt `a` in world `w` the operation is called `n` times, the result
  -- is `r` and the world is left as `w'`.
  pub data Trace : ℕ → W → ℕ → Option SdkError → W → Type ℓ where
    success : {a : ℕ} {w w₁ : W} → op w ≡ (none, w₁) → Trace a w 1 none w₁
    permanent :
        {a : ℕ} {w w₁ : W} {e : SdkError}
        → op w ≡ (some e, w₁)
        → is_retryable_err e ≡ false
        → Trace a w 1 (some e) w₁
    exhausted :
        {a : ℕ} {w w₁ : W} {e : SdkError}
        → op w ≡ (some e, w₁)
        → a ≡ limit
        → Trace a w 1 (some e) w₁
    stopped :
        {a : ℕ} {w w₁ w₂ : W} {e c : SdkError}
        → op w ≡ (some e, w₁)
        → is_retryable_err e ≡ true
        → a ≢ limit
        → wait a w₁ ≡ (some c, w₂)
        → Trace a w 1 (some c) w₂
    again :
        {a n : ℕ} {w w₁ w₂ w₃ : W} {e : SdkError} {r : Option SdkError}
        → op w ≡ (some e, w₁)
        → is_retryable_err e ≡ true
        → a ≢ limit
        → wait a w₁ ≡ (none, w₂)
        → Trace (a + 1) w₂ n r w₃
        → Trace a w (suc n) r w₃

  Trace-calls :
      {a n : ℕ} {w w' : W} {r : Option SdkError}
      → Trace a w n r w'
      → a ≤ limit
      → (1 ≤ n) × (a + n ≤ limit + 1)
  Trace-calls (success _) h = omega arith
  Trace-calls (permanent _ _) h = omega arith
  Trace-calls (exhausted _ _) h = omega arith
  Trace-calls (stopped _ _ _ _) h = omega arith
  Trace-calls (again _ _ ne _ t) h = omega (arith, Trace-calls t (omega arith))

  ended :
      {a : ℕ} {w w₁ : W} (e : SdkError)
      → op w ≡ (some e, w₁)
      → (not (is_retryable_err e) || a == limit) ≡ true
      → Trace a w 1 (some e) w₁
  ended {a} e failed h = elim (Bool-cases (is_retryable_err e)) [
    | inl retryable ↦ exhausted failed (ground arith)
    | inr final ↦ permanent failed final
  ]

  retry_loop-Trace :
      (left a : ℕ) (last : Option SdkError) (w : W)
      → a + left ≡ limit + 1
      → 0 < left
      → (n : ℕ) × Trace a w n
          (retry_loop op wait limit left a last w).0
          (retry_loop op wait limit left a last w).1
  unfolding retry_loop
  retry_loop-Trace zero a last w h p = elim p [ ]
  retry_loop-Trace (suc left) a last w h p = elim (Option-cases (op w).0) [
    | inl done ↦ rw (done, retry_loop) (1, success (λ i. (done i, (op w).1)))
    | inr (e, failed) ↦ elim (Bool-cases (not (is_retryable_err e) || a == limit)) [
      | inl last_try ↦
          rw (failed, retry_loop, last_try) (1, ended e (λ i. (failed i, (op w).1)) last_try)
      | inr more ↦ elim (Option-cases (wait a (op w).1).0) [
        | inl waited ↦
            let (n, rest) =
              retry_loop-Trace left (a + 1) (some e) (wait a (op w).1).1 (ground arith)
                (ground arith) in
            rw (failed, retry_loop, more, waited)
              (
                suc n,
                again (λ i. (failed i, (op w).1)) (ground arith) (ground arith)
                    (λ i. (waited i, (wait a (op w).1).1)) rest,
              )
        | inr (c, stop) ↦
            rw (failed, retry_loop, more, stop)
              (
                1,
                stopped (λ i. (failed i, (op w).1)) (ground arith) (ground arith)
                    (λ i. (stop i, (wait a (op w).1).1)),
              )
      ]
    ]
  ]

module _ {ℓ} {W : Type ℓ} (op : W → Option SdkError × W) (wait : ℕ → W → Option SdkError × W) where
  max_attempts-pos : (configured : ℤ) → 0 < max_attempts configured
  unfolding max_attempts not_positive to_ℕ
  max_attempts-pos (pos n) = ground arith
  max_attempts-pos (negsuc n) = omega arith

  -- `withRetry` makes a run as `Trace` describes it, from attempt 1, and calls the operation at
  -- least once and at most as often as configured (three times where nothing positive is).
  pub with_retry-Trace :
      (configured : ℤ) (w : W)
      → (n : ℕ) × Trace op wait
          (max_attempts configured)
          1
          w
          n
          (with_retry op wait configured w).0
          (with_retry op wait configured w).1
        × (1 ≤ n)
        × (n ≤ max_attempts configured)
  unfolding with_retry
  with_retry-Trace configured w =
      let limit = max_attempts configured in
      let (n, run) =
        retry_loop-Trace op wait limit limit 1 none w (omega arith) (max_attempts-pos configured) in
      let (least, most) = Trace-calls op wait limit run (max_attempts-pos configured) in
      (n, run, least, omega arith)

module _ {ℓ κ} {A : Type ℓ} {B : Type κ} where
  fst : {p q : A × B} → p ≡ q → p.0 ≡ q.0
  fst e = λ i. (e i).0

  snd : {p q : A × B} → p ≡ q → p.1 ≡ q.1
  snd e = λ i. (e i).1

module _ {ℓ} {W : Type ℓ} (op : W → Option SdkError × W) (wait : ℕ → W → Option SdkError × W)
    (limit : ℕ) where
  round_again :
      {a : ℕ} {w : W} {e : SdkError} (left : ℕ) (last : Option SdkError)
      → (op w).0 ≡ some e
      → (not (is_retryable_err e) || a == limit) ≡ false
      → (wait a (op w).1).0 ≡ none
      → retry_loop op wait limit (suc left) a last w
        ≡ retry_loop op wait limit left (a + 1) (some e) (wait a (op w).1).1
  unfolding retry_loop
  round_again left last failed more waited = rw (failed, retry_loop, more, waited)

  -- One round of the loop, by what the operation and the wait return.
  Trace-retry_loop :
      {a n : ℕ} {w w' : W} {r : Option SdkError} (left : ℕ) (last : Option SdkError)
      → Trace op wait limit a w n r w'
      → a + suc left ≡ limit + 1
      → retry_loop op wait limit (suc left) a last w ≡ (r, w')
  unfolding retry_loop
  Trace-retry_loop left last (success o) h = rw (fst o, retry_loop, snd o)
  Trace-retry_loop left last (permanent o p) h = rw (fst o, retry_loop, p, snd o)
  Trace-retry_loop left last (exhausted {a} {e = e} o p) h =
      let stop : (not (is_retryable_err e) || a == limit) ≡ true = ground arith in
      rw (fst o, retry_loop, stop, snd o)
  Trace-retry_loop left last (stopped {a} {e = e} o p ne s) h =
      let more : (not (is_retryable_err e) || a == limit) ≡ false = ground arith in
      rw (fst o, retry_loop, more, snd o, fst s, snd o, snd s)
  Trace-retry_loop zero last (again o p ne s t) h = absurd (omega arith)
  Trace-retry_loop (suc left) last (again {a} {e = e} o p ne s t) h =
      let more : (not (is_retryable_err e) || a == limit) ≡ false = ground arith in
      let rest = Trace-retry_loop left (some e) t (omega arith) in
      round_again (suc left) last (fst o) more (rw (snd o) (fst s))
      ∙ ap (retry_loop op wait limit (suc left) (a + 1) (some e)) (rw (snd o) (snd s))
      ∙ rest

module _ {ℓ} {W : Type ℓ} (op : W → Option SdkError × W) (wait : ℕ → W → Option SdkError × W) where
  -- Every run that `Trace` allows from attempt 1 is the run that `withRetry` makes: its result and
  -- final world are those of the run. So a success after some retryable failures is returned.
  pub Trace-with_retry :
      (configured : ℤ) {w w' : W} {n : ℕ} {r : Option SdkError}
      → Trace op wait (max_attempts configured) 1 w n r w'
      → with_retry op wait configured w ≡ (r, w')
  unfolding with_retry
  Trace-with_retry configured {w} t =
      let e : max_attempts configured ≡ suc (max_attempts configured - 1) =
        omega (arith, max_attempts-pos op wait configured) in
      rw (with_retry_step configured w (max_attempts configured - 1) e) (
        Trace-retry_loop op wait (max_attempts configured) (max_attempts configured - 1) none t
          (omega arith))
    where
      with_retry_step :
          (configured : ℤ) (w : W) (k : ℕ)
          → max_attempts configured ≡ suc k
          → retry_loop op wait (max_attempts configured) (max_attempts configured) 1 none w
            ≡ retry_loop op wait (max_attempts configured) (suc k) 1 none w
      with_retry_step configured w k e =
          ap (λ left. retry_loop op wait (max_attempts configured) left 1 none w) e
