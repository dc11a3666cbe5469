-- ===== src/Retry/Tests.antt =====
-- An operation that fails twice with a transport error and then succeeds; the world counts the calls.
use custd_sdk_go.Base.{
  Option, arith, codes, false, ltb, none, refl, some, true, ℕ, ◌+◌, ◌≡◌, ◌≢◌, ◌≤◌,
}
use custd_sdk_go.Base.Int.{pos, not_positive, to_ℕ}
use custd_sdk_go.Errors.{
  SdkError, request, new_retryable_transport_error, is_retryable_err, as_request,
}
use custd_sdk_go.Retry.{max_attempts, with_retry}
use custd_sdk_go.Retry.Trace.{Trace, success, again, with_retry-Trace, Trace-with_retry}

abbrev outage : SdkError
outage = request (new_retryable_transport_error (codes "connection refused"))

abbrev third_time : ℕ → Option SdkError × ℕ
third_time w = elim (ltb w 2) [ true ↦ (some outage, w + 1) | false ↦ (none, w + 1) ]

abbrev no_wait : ℕ → ℕ → Option SdkError × ℕ
no_wait attempt w = (none, w)

outage-retryable : is_retryable_err outage ≡ true
unfolding is_retryable_err as_request new_retryable_transport_error
outage-retryable = refl

with_retry-Trace_example :
    (n : ℕ) × Trace third_time no_wait
      (max_attempts (pos 5))
      1
      0
      n
      (with_retry third_time no_wait (pos 5) 0).0
      (with_retry third_time no_wait (pos 5) 0).1
    × (1 ≤ n)
    × (n ≤ max_attempts (pos 5))
with_retry-Trace_example = with_retry-Trace third_time no_wait (pos 5) 0

not_first : 1 ≢ max_attempts (pos 5)
unfolding max_attempts not_positive to_ℕ
not_first e = let same : 1 ≡ 5 = e in omega (arith, same)

not_second : 2 ≢ max_attempts (pos 5)
unfolding max_attempts not_positive to_ℕ
not_second e = let same : 2 ≡ 5 = e in omega (arith, same)

three_calls : Trace third_time no_wait (max_attempts (pos 5)) 1 0 3 none 3
three_calls =
    again refl outage-retryable not_first refl
      (again refl outage-retryable not_second refl (success refl))

Trace-with_retry_example : with_retry third_time no_wait (pos 5) 0 ≡ (none, 3)
Trace-with_retry_example = Trace-with_retry third_time no_wait (pos 5) three_calls
