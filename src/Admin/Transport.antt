-- ===== src/Admin/Transport.antt =====
-- admin.go: `request`, `requestWithMetadata`, `requestNonAdmin` and `requestBytes`, each through the
-- injected `HTTPClient` or an `http.Client`.
use custd_sdk_go.Base.{
  ℕ, ◌+◌, List, [], ◌∷◌, Bool, true, false, Option, none, some, Result, ok, err, Text, codes,
  byte_len, ltb, ◌>>=◌, ◌>>◌, require, fail_if,
}
use custd_sdk_go.Config.{ClientConfig}
use custd_sdk_go.Errors.{SdkError, plain, wrapped, check_status}
use custd_sdk_go.Client.{HttpRequest, client_headers}
use custd_sdk_go.Admin.{
  AdminHost, AdminResponse, AdminReply, not_created, failed, unreadable, answered, Session,
  record_metadata, response_header, request_id_header, merge_headers, acting_company_path,
  max_admin_binary_response_bytes, endpoint, non_admin_endpoint, apply_request_labels,
  with_request_labels,
}

-- The decoded response, where one is wanted and the body is not empty.
abbrev pub Outcome : Type 0 → Type 0
Outcome R = Result SdkError (Option R)

abbrev pub request_failed : SdkError → SdkError
request_failed e = wrapped (codes "custd: admin request failed") e

abbrev pub too_large : SdkError
too_large = plain (codes "custd: admin response exceeds 64 MiB")

module _ {F W P R : Type 0} (h : AdminHost W P R) (c : ClientConfig F) where
  unfoldable pub encode_payload : Text → Option P → Result SdkError Text
  encode_payload message none = ok []
  encode_payload message (some p) = elim (h.marshal p) [
    | none ↦ err (plain message)
    | some body ↦ ok body
  ]

  -- `wants` says whether the caller gives a place for the response.
  unfoldable pub decode_admin_response : Bool → Text → Outcome R
  decode_admin_response false body = ok none
  decode_admin_response true [] = ok none
  decode_admin_response true (b ∷ body) = elim (h.unmarshal (b ∷ body)) [
    | none ↦ err (plain (codes "custd: decode admin response"))
    | some r ↦ ok (some r)
  ]

  unfoldable pub read_response : Bool → AdminResponse → Outcome R
  unfolding decode_admin_response
  read_response wants r =
      require (check_status h.problems c.retry.retry_on_statuses r.status_code r.response_body)
      >> decode_admin_response wants r.response_body

  unfoldable pub admin_request : Text → Text → Text → List (Text × Text) → HttpRequest
  admin_request method url body headers = record {
    method = method;
    url = url;
    headers = headers;
    body = body;
  }

  unfoldable pub noted : AdminResponse → W → Session W → Session W
  unfolding record_metadata response_header request_id_header
  noted r w s = record {
    recorder = record_metadata (response_header request_id_header r.response_headers) s.recorder;
    world = w;
  }

  -- What comes of the injected client's reply, and of the `http.Client`'s.
  unfoldable pub concluded :
      Bool → Result SdkError AdminResponse × W → Session W → Outcome R × Session W
  unfolding read_response noted
  concluded wants (err e, w) s = (err (request_failed e), record s { world = w })
  concluded wants (ok r, w) s = (read_response wants r, noted r w s)

  unfoldable pub concluded_http : Bool → AdminReply × W → Session W → Outcome R × Session W
  unfolding read_response noted
  concluded_http wants (not_created m, w) s =
      (err (wrapped (codes "custd: create admin request") (plain m)), record s { world = w })
  concluded_http wants (failed m, w) s = (err (request_failed (plain m)), record s { world = w })
  concluded_http wants (unreadable m, w) s =
      (err (wrapped (codes "custd: read admin response") (plain m)), record s { world = w })
  concluded_http wants (answered r, w) s = (read_response wants r, noted r w s)

  unfoldable pub request_via_doer :
      (HttpRequest → W → Result SdkError AdminResponse × W)
      → Text
      → Text
      → Text
      → Bool
      → List (Text × Text)
      → Session W
      → Outcome R × Session W
  unfolding concluded admin_request
  request_via_doer client method path body wants extra s =
      let headers = apply_request_labels c (merge_headers extra (client_headers c false)) in
      concluded wants (client (admin_request method (endpoint c path) body headers) s.world) s

  unfoldable pub request_via_http :
      Text → Text → Text → Bool → List (Text × Text) → Session W → Outcome R × Session W
  unfolding concluded_http admin_request
  request_via_http method path body wants extra s =
      let headers = merge_headers extra (client_headers c false) in
      concluded_http wants (h.send (admin_request method (endpoint c path) body headers) s.world) s

  -- The injected client where there is one.
  unfoldable pub request_via :
      Option (HttpRequest → W → Result SdkError AdminResponse × W)
      → Text
      → Text
      → Text
      → Bool
      → List (Text × Text)
      → Session W
      → Outcome R × Session W
  unfolding request_via_doer request_via_http
  request_via (some client) method path body wants extra s =
      request_via_doer client method path body wants extra s
  request_via none method path body wants extra s = request_via_http method path body wants extra s

  -- `k` goes on with the body.
  unfoldable pub with_body : {A : Type 0} → Result SdkError Text → (SdkError → A) → (Text → A) → A
  with_body (err e) stop k = stop e
  with_body (ok body) stop k = k body

  unfoldable pub request_with_headers :
      Text → Text → Option P → Bool → List (Text × Text) → Session W → Outcome R × Session W
  unfolding encode_payload request_via with_body
  request_with_headers method path payload wants extra s =
      with_body (encode_payload (codes "custd: marshal admin request") payload) (λ e. (err e, s))
        (λ body.
          request_via h.injected method (acting_company_path c.acting_company_slug path) body wants
            extra s)

  unfoldable pub request : Text → Text → Option P → Bool → Session W → Outcome R × Session W
  unfolding request_with_headers
  request method path payload wants s = request_with_headers method path payload wants [] s

  -- What the injected client or the `http.Client` answers, an error with the words the caller uses.
  unfoldable pub doer_answer :
      Text → Result SdkError AdminResponse × W → Result SdkError AdminResponse × W
  doer_answer fail (err e, w) = (err (wrapped fail e), w)
  doer_answer fail (ok r, w) = (ok r, w)

  unfoldable pub http_answer :
      Text → Text → Text → AdminReply × W → Result SdkError AdminResponse × W
  http_answer create fail read (not_created m, w) = (err (wrapped create (plain m)), w)
  http_answer create fail read (failed m, w) = (err (wrapped fail (plain m)), w)
  http_answer create fail read (unreadable m, w) = (err (wrapped read (plain m)), w)
  http_answer create fail read (answered r, w) = (ok r, w)

  unfoldable pub exchange_via :
      Option (HttpRequest → W → Result SdkError AdminResponse × W)
      → Text
      → Text
      → Text
      → HttpRequest
      → W
      → Result SdkError AdminResponse × W
  unfolding doer_answer http_answer
  exchange_via (some client) create fail read r w = doer_answer fail (client r w)
  exchange_via none create fail read r w = http_answer create fail read (h.send r w)

  unfoldable pub reply_or_error :
      Text → Text → Text → HttpRequest → W → Result SdkError AdminResponse × W
  unfolding exchange_via
  reply_or_error create fail read r w = exchange_via h.injected create fail read r w

  unfoldable pub exchange_admin : HttpRequest → W → Result SdkError AdminResponse × W
  unfolding reply_or_error
  exchange_admin r w =
      reply_or_error (codes "custd: create admin request") (codes "custd: admin request failed")
        (codes "custd: read admin response") r w

  -- The request identifier of an answer beside the outcome; none where there is no answer.
  unfoldable pub answered_with : Bool → Result SdkError AdminResponse × W → (Text × Outcome R) × W
  unfolding read_response response_header request_id_header
  answered_with wants (err e, w) = (([], err e), w)
  answered_with wants (ok r, w) =
      ((response_header request_id_header r.response_headers, read_response wants r), w)

  -- The request identifier of the answer, beside the outcome.
  unfoldable pub request_with_metadata_headers :
      Text → Text → Option P → Bool → List (Text × Text) → W → (Text × Outcome R) × W
  unfolding encode_payload with_body exchange_admin admin_request answered_with
  request_with_metadata_headers method path payload wants extra w =
      with_body (encode_payload (codes "custd: marshal admin request") payload)
        (λ e. (([], err e), w))
        (λ body.
          let url = endpoint c (acting_company_path c.acting_company_slug path) in
          let headers = merge_headers (with_request_labels c extra) (client_headers c false) in
          answered_with wants (exchange_admin (admin_request method url body headers) w))

  unfoldable pub request_with_metadata : Text → Text → Option P → Bool → W → (Text × Outcome R) × W
  unfolding request_with_metadata_headers
  request_with_metadata method path payload wants w =
      request_with_metadata_headers method path payload wants [] w

  unfoldable pub request_non_admin : Text → Text → Option P → Bool → W → Outcome R × W
  unfolding encode_payload with_body reply_or_error admin_request read_response
  request_non_admin method path payload wants w =
      with_body (encode_payload (codes "custd: marshal non-admin request") payload)
        (λ e. (err e, w))
        (λ body.
          let sent =
            admin_request method (non_admin_endpoint c path) body (client_headers c false) in
          let (reply, w') =
            reply_or_error (codes "custd: create non-admin request")
              (codes "custd: non-admin request failed") (codes "custd: read response") sent w in
          (reply >>= λ r. read_response wants r, w'))

  -- The injected client's body is whole; `limited` is what `io.LimitReader` leaves of one that an
  -- `http.Client` reads. Of a header only its first value is kept.
  unfoldable pub bytes_via_doer :
      Result SdkError AdminResponse → Result SdkError (Text × List (Text × Text))
  bytes_via_doer (err e) = err (request_failed e)
  bytes_via_doer (ok r) =
      require (check_status h.problems c.retry.retry_on_statuses r.status_code r.response_body)
      >> fail_if (ltb max_admin_binary_response_bytes (byte_len r.response_body)) too_large
      >> ok (r.response_body, r.response_headers)

  unfoldable pub bytes_via_http :
      (ℕ → Text → Text) → AdminReply → Result SdkError (Text × List (Text × Text))
  bytes_via_http limited (not_created m) =
      err (wrapped (codes "custd: create admin request") (plain m))
  bytes_via_http limited (failed m) = err (request_failed (plain m))
  bytes_via_http limited (unreadable m) =
      err (wrapped (codes "custd: read admin response") (plain m))
  bytes_via_http limited (answered r) =
      let body = limited (max_admin_binary_response_bytes + 1) r.response_body in
      require (check_status h.problems c.retry.retry_on_statuses r.status_code body)
      >> fail_if (ltb max_admin_binary_response_bytes (byte_len body)) too_large
      >> ok (body, r.response_headers)

  unfoldable pub bytes_via :
      Option (HttpRequest → W → Result SdkError AdminResponse × W)
      → (ℕ → Text → Text)
      → HttpRequest
      → W
      → Result SdkError (Text × List (Text × Text)) × W
  unfolding bytes_via_doer bytes_via_http
  bytes_via (some client) limited sent w =
      let (response, w') = client sent w in (bytes_via_doer response, w')
  bytes_via none limited sent w =
      let (reply, w') = h.send sent w in (bytes_via_http limited reply, w')

  unfoldable pub request_bytes :
      (ℕ → Text → Text) → Text → Text → W → Result SdkError (Text × List (Text × Text)) × W
  unfolding admin_request bytes_via
  request_bytes limited method path w =
      bytes_via h.injected limited
        (admin_request method (endpoint c path) [] (client_headers c false)) w
