-- ===== src/RawIngest/Replies.antt =====
-- The replies to an upload: which one is an acceptance, and which one leaves it open.
use custd_sdk_go.Base.{
  Bool-cases, List, Result-cases, Text, arith, err, false, inl, inr, ok, refl, true, ℕ, ◌≡◌, ◌↔◌,
  ◌<◌, ◌≤◌, ◌⊎◌, sym, ◌∙◌, leb, ltb, ◌&&◌,
}
use custd_sdk_go.Config.{ClientConfig}
use custd_sdk_go.Client.{Reply, not_created, failed, unreadable, answered}
use custd_sdk_go.Errors.{SdkError, request, status_error, is_retryable_status, check_status}
use custd_sdk_go.Response.{JsonReader}
use custd_sdk_go.RawIngest.{
  RawIngestResult, RawHost, RawCause, decode_raw_ingest_result, raw_ingest_result_from_body,
  check_raw_status, read_raw_reply, returned_status, malformed_body, transport, unread_body,
  acceptance_unknown, refused,
}
use custd_sdk_go.RawIngest.Receipt.{IsReceipt, decode_raw_ingest_result_iff}

-- The reply is a success whose body is the receipt.
abbrev pub Accepts : JsonReader → RawIngestResult → Reply → Type 0
Accepts json res (not_created m) = ⊥
Accepts json res (failed m) = ⊥
Accepts json res (unreadable m) = ⊥
Accepts json res (answered code body) = (200 ≤ code) × (code < 300) × IsReceipt json body res

-- The reply does not tell whether the upload was taken: no response, a body that cannot be read, a
-- status to retry on, or a success whose body is no receipt.
abbrev pub LeavesOpen : JsonReader → List ℕ → Reply → Type 0
LeavesOpen json retry_set (not_created m) = ⊥
LeavesOpen json retry_set (failed m) = Unit {0}
LeavesOpen json retry_set (unreadable m) = Unit {0}
LeavesOpen json retry_set (answered code body) =
    ((200 ≤ code) × (code < 300) × ((res : RawIngestResult) → IsReceipt json body res → ⊥))
    ⊎ (((code < 200) ⊎ (300 ≤ code)) × (is_retryable_status code retry_set ≡ true))

module _ {F W : Type 0} (h : RawHost W) (c : ClientConfig F) where
  success_status :
      (key : Text) (code : ℕ) (body : Text)
      → 200 ≤ code
      → code < 300
      → read_raw_reply h c key (answered code body) ≡ raw_ingest_result_from_body h.json body key
  unfolding read_raw_reply check_raw_status
  success_status key code body lo hi = ground arith

  retry_status :
      (key : Text) (code : ℕ) (body : Text)
      → (code < 200) ⊎ (300 ≤ code)
      → is_retryable_status code c.retry.retry_on_statuses ≡ true
      → read_raw_reply h c key (answered code body)
        ≡ err (acceptance_unknown (returned_status code) key)
  unfolding read_raw_reply check_raw_status
  retry_status key code body out retry = rw (retry, read_raw_reply, check_raw_status) (ground arith)

  other_status :
      (key : Text) (code : ℕ) (body : Text)
      → (code < 200) ⊎ (300 ≤ code)
      → is_retryable_status code c.retry.retry_on_statuses ≡ false
      → (e : SdkError) × (read_raw_reply h c key (answered code body) ≡ err (refused e))
  unfolding read_raw_reply check_raw_status check_status
  other_status key code body out retry =
      (request (status_error h.problems c.retry.retry_on_statuses code body), ground arith)

  from_body_ok :
      (key body : Text) (res : RawIngestResult)
      → (raw_ingest_result_from_body h.json body key ≡ ok res) ↔ IsReceipt h.json body res
  unfolding raw_ingest_result_from_body
  from_body_ok key body res = (
    λ e. (decode_raw_ingest_result_iff h.json body res).0 (ground arith),
    λ receipt.
        rw ((decode_raw_ingest_result_iff h.json body res).1 receipt, raw_ingest_result_from_body),
  )

  from_body_open :
      (key body found : Text)
      → ((cause : RawCause) × (raw_ingest_result_from_body h.json body key
            ≡ err (acceptance_unknown cause found)))
        ↔ ((found ≡ key) × ((res : RawIngestResult) → IsReceipt h.json body res → ⊥))
  unfolding raw_ingest_result_from_body
  from_body_open key body found = (
    λ (cause, e). elim (Result-cases (decode_raw_ingest_result h.json body)) [
      | inl (bad, undecoded) ↦ (
        ground arith,
        λ res receipt.
            let decoded = (decode_raw_ingest_result_iff h.json body res).1 receipt in
            absurd (ground arith),
      )
      | inr (res, decoded) ↦ absurd (ground arith)
    ],
    λ (same, none_fits). elim (Result-cases (decode_raw_ingest_result h.json body)) [
      | inl (bad, undecoded) ↦
          (malformed_body bad, rw (same, undecoded, raw_ingest_result_from_body) refl)
      | inr (res, decoded) ↦
          absurd (none_fits res ((decode_raw_ingest_result_iff h.json body res).0 decoded))
    ],
  )

  status_cases : (code : ℕ) → ((200 ≤ code) × (code < 300)) ⊎ ((code < 200) ⊎ (300 ≤ code))
  status_cases code = elim (Bool-cases (leb 200 code && ltb code 300)) [
    | inl e ↦ inl (ground arith, ground arith)
    | inr e ↦ inr (ground arith)
  ]

  pub read_raw_reply_ok :
      (key : Text) (reply : Reply) (res : RawIngestResult)
      → (read_raw_reply h c key reply ≡ ok res) ↔ Accepts h.json res reply
  unfolding read_raw_reply
  read_raw_reply_ok key (not_created m) res = (λ e. absurd (ground arith), λ a. absurd a)
  read_raw_reply_ok key (failed m) res = (λ e. absurd (ground arith), λ a. absurd a)
  read_raw_reply_ok key (unreadable m) res = (λ e. absurd (ground arith), λ a. absurd a)
  read_raw_reply_ok key (answered code body) res = (sound (status_cases code), complete)
    where
      sound :
          ((200 ≤ code) × (code < 300)) ⊎ ((code < 200) ⊎ (300 ≤ code))
          → read_raw_reply h c key (answered code body) ≡ ok res
          → Accepts h.json res (answered code body)
      sound (inl (lo, hi)) e =
          (lo, hi, (from_body_ok key body res).0 (sym (success_status key code body lo hi) ∙ e))
      sound (inr out) e = elim (Bool-cases (is_retryable_status code c.retry.retry_on_statuses)) [
        | inl retry ↦ let r = retry_status key code body out retry in absurd (ground arith)
        | inr no_retry ↦
            let (bad, r) = other_status key code body out no_retry in absurd (ground arith)
      ]

      complete :
          Accepts h.json res (answered code body)
          → read_raw_reply h c key (answered code body) ≡ ok res
      complete (lo, hi, receipt) =
          success_status key code body lo hi ∙ (from_body_ok key body res).1 receipt

  pub read_raw_reply_open :
      (key : Text) (reply : Reply) (found : Text)
      → ((cause : RawCause) × (read_raw_reply h c key reply ≡ err (acceptance_unknown cause found)))
        ↔ ((found ≡ key) × LeavesOpen h.json c.retry.retry_on_statuses reply)
  unfolding read_raw_reply
  read_raw_reply_open key (not_created m) found =
      (λ (cause, e). absurd (ground arith), λ (same, a). absurd a)
  read_raw_reply_open key (failed m) found =
      (λ (cause, e). (ground arith, tt), λ (same, a). (transport m, rw same refl))
  read_raw_reply_open key (unreadable m) found =
      (λ (cause, e). (ground arith, tt), λ (same, a). (unread_body m, rw same refl))
  read_raw_reply_open key (answered code body) found = (sound (status_cases code), complete)
    where
      sound :
          ((200 ≤ code) × (code < 300)) ⊎ ((code < 200) ⊎ (300 ≤ code))
          → (cause : RawCause) × (read_raw_reply h c key (answered code body)
              ≡ err (acceptance_unknown cause found))
          → (found ≡ key) × LeavesOpen h.json c.retry.retry_on_statuses (answered code body)
      sound (inl (lo, hi)) (cause, e) =
          let (same, fits) =
            (from_body_open key body found).0
              (cause, sym (success_status key code body lo hi) ∙ e) in
          (same, inl (lo, hi, fits))
      sound (inr out) (cause, e) =
          elim (Bool-cases (is_retryable_status code c.retry.retry_on_statuses)) [
            | inl retry ↦
                let r = retry_status key code body out retry in (ground arith, inr (out, retry))
            | inr no_retry ↦
                let (bad, r) = other_status key code body out no_retry in absurd (ground arith)
          ]

      complete :
          (found ≡ key) × LeavesOpen h.json c.retry.retry_on_statuses (answered code body)
          → (cause : RawCause) × (read_raw_reply h c key (answered code body)
              ≡ err (acceptance_unknown cause found))
      complete (same, inl (lo, hi, fits)) =
          let (cause, e) = (from_body_open key body found).1 (same, fits) in
          (cause, success_status key code body lo hi ∙ e)
      complete (same, inr (out, retry)) =
          (returned_status code, rw same (retry_status key code body out retry))
