-- ===== src/Retry.antt =====
-- retry.go: `withRetry`. The operation and the wait act on a world `W`: the operation is one
-- request, the wait is `sleepWithContext`, whose error is that of a cancelled context.
pub mod Trace
mod Tests
use custd_sdk_go.Base.{
  ==_iff, All, Bool, Bool-cases, List, Option, Option-cases, Result, Text, [], all, any, ap, ap₂,
  arith, byte_len, codes, drop, drop-drop, fail_if, false, has_prefix, has_prefix-append,
  if◌then◌else◌, inl, inr, insert, is_empty, is_empty_sound, is_none, is_some, is_space, leb,
  leb→le, length, length-append, length-drop, length-take, le→leb, lookup, lookup-insert, ltb,
  ltb→lt, lt→ltb, map, max, min, none, not, refl, reject_if, require, reverse, rune_len, some,
  subst, suc, sym, take, take-append-drop, tests, text_eq, text_eq_sound, text_eq_iff, text_eq_refl,
  trim_left, trim_space, true, zero, ℕ, ◌%◌, ◌&&◌, ◌*◌, ◌++◌, ◌+◌, ◌-◌, ◌/◌, ◌<◌, ◌==◌, ◌>>=◌, ◌>>◌,
  ◌^◌, ◌orelse◌, ◌||◌, ◌↔◌, ◌∙◌, ◌∷◌, ◌≡◌, ◌≢◌, ◌≤◌, ◌⊎◌,
}
use custd_sdk_go.Base.Int.{ℤ, not_positive, to_ℕ}
use custd_sdk_go.Errors.{SdkError, is_retryable_err}

unfoldable pub max_attempts : ℤ → ℕ
max_attempts configured = if not_positive configured then 3 else to_ℕ configured

module _ {ℓ} {W : Type ℓ} (op : W → Option SdkError × W) (wait : ℕ → W → Option SdkError × W)
    (limit : ℕ) where
  -- Rounds left, the attempt's number, and the error of the round before.
  unfoldable pub retry_loop : ℕ → ℕ → Option SdkError → W → Option SdkError × W
  retry_loop zero attempt last w = (last, w)
  retry_loop (suc left) attempt last w = elim ((op w).0) [
    | none ↦ (none, (op w).1)
    | some e ↦ elim (not (is_retryable_err e) || attempt == limit) [
      | true ↦ (some e, (op w).1)
      | false ↦ elim ((wait attempt (op w).1).0) [
        | some c ↦ (some c, (wait attempt (op w).1).1)
        | none ↦ retry_loop left (attempt + 1) (some e) (wait attempt (op w).1).1
      ]
    ]
  ]

module _ {ℓ} {W : Type ℓ} (op : W → Option SdkError × W) (wait : ℕ → W → Option SdkError × W) where
  unfoldable pub with_retry : ℤ → W → Option SdkError × W
  unfolding retry_loop
  with_retry configured w =
      let limit = max_attempts configured in retry_loop op wait limit limit 1 none w
