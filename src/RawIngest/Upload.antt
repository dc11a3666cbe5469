-- ===== src/RawIngest/Upload.antt =====
-- `IngestRawLines`: when an upload is refused here, when it counts as accepted, and when its
-- acceptance is unknown.
use custd_sdk_go.Base.{
  Bool-cases, Option-cases, Result, Text, arith, codes, err, inl, inr, lookup, none, not, ok, refl,
  some, true, ℕ, ◌≡◌, ◌↔◌, ◌<◌, ◌⊎◌, ap, sym, ◌∙◌, is_empty, subst, text_eq, ◌^◌, ◌++◌, ◌&&◌,
  lookup-insert,
}
use custd_sdk_go.Config.{ClientConfig}
use custd_sdk_go.Client.{Reply, set_if}
use custd_sdk_go.DataScope.{is_data_scope_uuid}
use custd_sdk_go.Ids.Uuid.{IsBytes}
use custd_sdk_go.Ids.{Bytes16, new_raw_request_idempotency_key, raw_key_is_valid}
use custd_sdk_go.Ids.RawKey.{raw_key_is_valid-new}
use custd_sdk_go.RawIngest.{
  RawIngestInput, RawIngestRequest, RawIngestResult, RawHost, RawError, RawCause, check_raw_path,
  raw_ingest_path, target_query, read_raw_reply, raw_headers, raw_request, send_raw,
  ingest_raw_lines, new_raw_ingest_request, acceptance_unknown, no_parser, parser_not_uuid,
  bad_target, bad_key, refused,
}
use custd_sdk_go.RawIngest.Checks.{
  IsTarget, IsUploadable, IsLocal, OnlyLocal, check_raw_path-OnlyLocal, check_raw_path_iff,
  IsKey-passes_sound, key_passes_complete, key_not_empty,
}
use custd_sdk_go.RawIngest.Replies.{Accepts, LeavesOpen, read_raw_reply_ok, read_raw_reply_open}

module _ {F W : Type 0} (h : RawHost W) (c : ClientConfig F) where
  -- The path of an upload whose checks passed.
  abbrev pub raw_path : RawIngestRequest → Text
  raw_path r = codes "/api/v1/raw" ++ target_query h.escape r.target

  -- The outcome of the one request of an upload.
  abbrev pub exchange : RawIngestRequest → W → Reply × W
  exchange r w = h.send (raw_request h c (raw_path r) r) w

  path_passed :
      (r : RawIngestRequest)
      → check_raw_path r ≡ none
      → raw_ingest_path h.escape r ≡ ok (raw_path r)
  unfolding raw_ingest_path
  path_passed r e = rw (e, raw_ingest_path) refl

  path_refused :
      (r : RawIngestRequest) (e : RawError)
      → check_raw_path r ≡ some e
      → raw_ingest_path h.escape r ≡ err e
  unfolding raw_ingest_path
  path_refused r e found = rw (found, raw_ingest_path) refl

  uploaded :
      (r : RawIngestRequest) (w : W)
      → IsUploadable r
      → ingest_raw_lines h c r w
        ≡ (read_raw_reply h c r.idempotency_key (exchange r w).0, (exchange r w).1)
  unfolding ingest_raw_lines send_raw
  uploaded r w (parser, target, key) =
      let checked = (check_raw_path_iff r).1 (parser, target) in
      rw (path_passed r checked, ingest_raw_lines, key_passes_complete r.idempotency_key key) refl

  -- What the code does on a request that is not uploadable, as its checks decide it.
  ingest_cases :
      (r : RawIngestRequest) (w : W)
      → IsUploadable r ⊎ ((e : RawError) × IsLocal e × (ingest_raw_lines h c r w ≡ (err e, w)))
  unfolding ingest_raw_lines
  ingest_cases r w = elim (Option-cases (check_raw_path r)) [
    | inl passed ↦
        elim (Bool-cases
          (not (is_empty r.idempotency_key) && not (raw_key_is_valid r.idempotency_key))) [
            | inl bad ↦ inr (bad_key, tt, rw (path_passed r passed, ingest_raw_lines, bad) refl)
            | inr good ↦
                let (parser, target) = (check_raw_path_iff r).0 passed in
                inl (parser, target, IsKey-passes_sound r.idempotency_key good)
          ]
    | inr (e, found) ↦ inr (
      e,
      subst OnlyLocal found (check_raw_path-OnlyLocal r),
      rw (path_refused r e found, ingest_raw_lines) refl,
    )
  ]

  -- A request that is not uploadable is refused with a local error, and nothing is sent.
  pub ingest_raw_lines_refused :
      (r : RawIngestRequest) (w : W)
      → (IsUploadable r → ⊥)
      → (e : RawError) × IsLocal e × (ingest_raw_lines h c r w ≡ (err e, w))
  ingest_raw_lines_refused r w unfit = elim (ingest_cases r w) [
    | inl u ↦ absurd (unfit u)
    | inr refused_here ↦ refused_here
  ]

  -- An upload returns a result exactly if its request is uploadable, and the reply to the one
  -- request that is sent is a 2xx response whose body is the receipt with that result.
  pub ingest_raw_lines_ok_iff :
      (r : RawIngestRequest) (w : W) (res : RawIngestResult)
      → ((ingest_raw_lines h c r w).0 ≡ ok res)
        ↔ (IsUploadable r × Accepts h.json res (exchange r w).0)
  ingest_raw_lines_ok_iff r w res = (
    λ e. elim (ingest_cases r w) [
      | inl u ↦ (
        u,
        (read_raw_reply_ok h c r.idempotency_key (exchange r w).0 res).0
            (sym (ap (λ x. x.0) (uploaded r w u)) ∙ e),
      )
      | inr (bad, here, found) ↦ let same = sym (ap (λ x. x.0) found) ∙ e in absurd (ground arith)
    ],
    λ (u, a).
        ap (λ x. x.0) (uploaded r w u)
        ∙ (read_raw_reply_ok h c r.idempotency_key (exchange r w).0 res).1 a,
  )

  -- An upload reports that its acceptance is unknown, under a key, exactly if its request is
  -- uploadable and carries that key, and the reply leaves the acceptance open: there is no response,
  -- its body cannot be read, its status is one to retry on, or it is a 2xx response with no receipt.
  pub ingest_raw_lines_unknown_iff :
      (r : RawIngestRequest) (w : W) (key : Text)
      → ((cause : RawCause) × ((ingest_raw_lines h c r w).0 ≡ err (acceptance_unknown cause key)))
        ↔ (IsUploadable r
            × ((key ≡ r.idempotency_key)
                × LeavesOpen h.json c.retry.retry_on_statuses (exchange r w).0))
  ingest_raw_lines_unknown_iff r w key = (
    λ (cause, e). elim (ingest_cases r w) [
      | inl u ↦ (
        u,
        (read_raw_reply_open h c r.idempotency_key (exchange r w).0 key).0
            (cause, sym (ap (λ x. x.0) (uploaded r w u)) ∙ e),
      )
      | inr (bad, here, found) ↦ absurd (not_unknown bad cause here (sym (ap (λ x. x.0) found) ∙ e))
    ],
    λ (u, a).
        let (cause, e) = (read_raw_reply_open h c r.idempotency_key (exchange r w).0 key).1 a in
        (cause, ap (λ x. x.0) (uploaded r w u) ∙ e),
  )
    where
      not_unknown :
          (bad : RawError) (cause : RawCause)
          → IsLocal bad
          → ◌≡◌ {A = Result RawError RawIngestResult} (err bad) (err (acceptance_unknown cause key))
          → ⊥
      not_unknown no_parser cause l e = absurd (ground arith)
      not_unknown parser_not_uuid cause l e = absurd (ground arith)
      not_unknown bad_target cause l e = absurd (ground arith)
      not_unknown bad_key cause l e = absurd (ground arith)
      not_unknown (refused x) cause l e = l
      not_unknown (acceptance_unknown x k) cause l e = l

  -- A prepared request whose parser is a UUID and whose target is sound is uploadable, with the
  -- key that was minted at a positive time that an `int64` holds, and the request that is sent names
  -- that key and the parser in its headers.
  pub new_raw_ingest_request-Sent :
      (input : RawIngestInput) (millis : ℕ) (b : Bytes16)
      → 0 < millis
      → millis < 2 ^ 63
      → IsBytes b
      → is_data_scope_uuid input.parser_uuid ≡ true
      → IsTarget input.target
      → let r = new_raw_ingest_request input millis b in
        let headers = (raw_request h c (raw_path r) r).headers in
        IsUploadable r
        × (lookup (codes "Idempotency-Key") headers
            ≡ some (new_raw_request_idempotency_key millis b))
        × (lookup (codes "X-Parser-UUID") headers ≡ some input.parser_uuid)
  unfolding new_raw_ingest_request raw_request raw_headers set_if text_eq codes
  new_raw_ingest_request-Sent input millis b p lt v parser target =
      let key = new_raw_request_idempotency_key millis b in
      let valid = raw_key_is_valid-new millis b p lt v in
      let given = key_not_empty key valid in
      (
        (parser, target, inr valid),
        rw (given, raw_headers)
            (lookup-insert (codes "Idempotency-Key") (codes "Idempotency-Key") key _),
        rw (given, raw_headers)
            (lookup-insert (codes "Idempotency-Key") (codes "X-Parser-UUID") key _
              ∙ lookup-insert (codes "X-Parser-UUID") (codes "X-Parser-UUID") input.parser_uuid _),
      )
