-- ===== src/Admin/Bytes.antt =====
-- Which binary answers `requestBytes` hands on.
use custd_sdk_go.Base.{
  ℕ, List, [], ◌≤◌, ◌<◌, ◌+◌, false, Bool-cases, Option-cases, Option, none, some, Result, ok, err,
  Text, byte_len, ltb, inl, inr, ◌≡◌, ◌↔◌, refl, sym, ap, ◌∙◌, arith, subst, ok_injective, ◌>>◌,
  require, fail_if,
}
use custd_sdk_go.Config.{ClientConfig}
use custd_sdk_go.Errors.{SdkError, check_status}
use custd_sdk_go.Client.{HttpRequest, client_headers}
use custd_sdk_go.Admin.{
  AdminHost, AdminResponse, AdminReply, not_created, failed, unreadable, answered, endpoint,
  max_admin_binary_response_bytes,
}
use custd_sdk_go.Admin.Transport.{
  bytes_via_doer, bytes_via_http, bytes_via, request_bytes, too_large, admin_request,
}

-- `io.LimitReader`: a text of at most `n` bytes is read whole, of a longer one `n` bytes.
pub record IsLimit (limited : ℕ → Text → Text) : Type 0 where
  pub whole : (n : ℕ) (s : Text) → byte_len s ≤ n → limited n s ≡ s
  pub full : (n : ℕ) (s : Text) → n < byte_len s → byte_len (limited n s) ≡ n

module _ {F W P R : Type 0} (h : AdminHost W P R) (c : ClientConfig F) where
  -- The answer that a request gets, from the injected client or else from an `http.Client`.
  abbrev pub IsAnswer :
      Option (HttpRequest → W → Result SdkError AdminResponse × W)
      → HttpRequest
      → W
      → AdminResponse
      → Type 0
  IsAnswer (some client) sent w r = (client sent w).0 ≡ ok r
  IsAnswer none sent w r = (h.send sent w).0 ≡ answered r

  -- A 2xx answer of at most 64 MiB, as it was given.
  abbrev pub IsHandedOn : AdminResponse → Text × List (Text × Text) → Type 0
  IsHandedOn r given =
      (200 ≤ r.status_code)
      × (r.status_code < 300)
      × (byte_len r.response_body ≤ max_admin_binary_response_bytes)
      × (given ≡ (r.response_body, r.response_headers))

  check_status-none :
      (code : ℕ) (body : Text)
      → (check_status h.problems c.retry.retry_on_statuses code body ≡ none)
        ↔ ((200 ≤ code) × (code < 300))
  unfolding check_status
  check_status-none code body = (λ e. (ground arith, ground arith), λ (low, high). ground arith)

  passed_iff :
      (code : ℕ) (body : Text) (headers : List (Text × Text)) (given : Text × List (Text × Text))
      → (require (check_status h.problems c.retry.retry_on_statuses code body)
            >> fail_if (ltb max_admin_binary_response_bytes (byte_len body)) too_large
            >> ok (body, headers)
          ≡ ok given)
        ↔ ((200 ≤ code)
            × (code < 300)
            × (byte_len body ≤ max_admin_binary_response_bytes)
            × (given ≡ (body, headers)))
  passed_iff code body headers given = (
    λ e. elim (Option-cases (check_status h.problems c.retry.retry_on_statuses code body)) [
      | inr (bad, refused) ↦ absurd (ground (arith, rw refused at e))
      | inl success ↦ elim (Bool-cases (ltb max_admin_binary_response_bytes (byte_len body))) [
        | inl big ↦ absurd (ground (arith, rw (success, big) at e))
        | inr fits ↦
            let (low, high) = (check_status-none code body).0 success in
            (
              low,
              high,
              ground arith,
              sym (ok_injective (body, headers) given (rw (success, fits) at e)),
            )
      ]
    ],
    λ (low, high, small, same).
        let success = (check_status-none code body).1 (low, high) in
        let fits : ltb max_admin_binary_response_bytes (byte_len body) ≡ false = ground arith in
        rw (success, fits) (ap ok (sym same)),
  )

  some_injective : {A : Type 0} (a b : A) → some a ≡ some b → a ≡ b
  some_injective a b e = ground arith

  doer_iff :
      (response : Result SdkError AdminResponse) (given : Text × List (Text × Text))
      → (bytes_via_doer h c response ≡ ok given)
        ↔ ((r : AdminResponse) × (response ≡ ok r) × IsHandedOn r given)
  unfolding bytes_via_doer
  doer_iff (err e) given = (λ x. absurd (ground arith), λ (r, x, _). absurd (ground arith))
  doer_iff (ok r) given =
      let passed = passed_iff r.status_code r.response_body r.response_headers given in
      (
        λ x. (r, refl, passed.0 x),
        λ (r', same, handed).
            passed.1 (subst (λ q. IsHandedOn q given) (sym (ok_injective r r' same)) handed),
      )

  module _ (limited : ℕ → Text → Text) (limit : IsLimit limited) where
    -- What is read of a body is small exactly if the body is, and then it is the body.
    limited_small :
        (s : Text)
        → byte_len (limited (max_admin_binary_response_bytes + 1) s)
          ≤ max_admin_binary_response_bytes
        → byte_len s ≤ max_admin_binary_response_bytes
    limited_small s small =
        elim (Bool-cases (ltb (max_admin_binary_response_bytes + 1) (byte_len s))) [
          | inl long ↦
              let cut = limit.full (max_admin_binary_response_bytes + 1) s (ground arith) in
              absurd (omega (arith, cut, small))
          | inr short ↦
              let kept = limit.whole (max_admin_binary_response_bytes + 1) s (ground arith) in
              rw kept at small
        ]

    http_iff :
        (reply : AdminReply) (given : Text × List (Text × Text))
        → (bytes_via_http h c limited reply ≡ ok given)
          ↔ ((r : AdminResponse) × (reply ≡ answered r) × IsHandedOn r given)
    unfolding bytes_via_http
    http_iff (not_created m) given =
        (λ x. absurd (ground arith), λ (r, x, _). absurd (ground arith))
    http_iff (failed m) given = (λ x. absurd (ground arith), λ (r, x, _). absurd (ground arith))
    http_iff (unreadable m) given = (λ x. absurd (ground arith), λ (r, x, _). absurd (ground arith))
    http_iff (answered r) given =
        let body = limited (max_admin_binary_response_bytes + 1) r.response_body in
        let passed = passed_iff r.status_code body r.response_headers given in
        (
          λ x.
              let (low, high, small, same) = passed.0 x in
              let fits = limited_small r.response_body small in
              let kept =
                limit.whole (max_admin_binary_response_bytes + 1) r.response_body (omega arith) in
              (r, refl, (low, high, fits, same ∙ ap (λ b. (b, r.response_headers)) kept)),
          λ (r', same, handed).
              let (low, high, small, taken) =
                subst (λ q. IsHandedOn q given) (sym (answered_injective r r' same)) handed in
              let kept =
                limit.whole (max_admin_binary_response_bytes + 1) r.response_body (omega arith) in
              passed.1
                (low, high, rw kept small, taken ∙ ap (λ b. (b, r.response_headers)) (sym kept)),
        )
      where
        answered_injective : (a b : AdminResponse) → answered a ≡ answered b → a ≡ b
        answered_injective a b e = ground arith

    via_iff :
        (client : Option (HttpRequest → W → Result SdkError AdminResponse × W)) (sent : HttpRequest)
        (w : W) (given : Text × List (Text × Text))
        → ((bytes_via h c client limited sent w).0 ≡ ok given)
          ↔ ((r : AdminResponse) × IsAnswer client sent w r × IsHandedOn r given)
    unfolding bytes_via
    via_iff (some client) sent w given = doer_iff (client sent w).0 given
    via_iff none sent w given = http_iff (h.send sent w).0 given

    -- `requestBytes` returns a body with its headers exactly if its one request is answered, by the
    -- injected client or else by an `http.Client`, with a 2xx answer of at most 64 MiB, and then they
    -- are those of the answer: a longer answer is refused and never cut.
    pub request_bytes_iff :
        (method path : Text) (w : W) (given : Text × List (Text × Text))
        → ((request_bytes h c limited method path w).0 ≡ ok given) ↔ (
            (r : AdminResponse) × IsAnswer h.injected
              (admin_request h c method (endpoint c path) [] (client_headers c false))
              w
              r
            × IsHandedOn r given)
    unfolding request_bytes
    request_bytes_iff method path w given =
        via_iff h.injected (admin_request h c method (endpoint c path) [] (client_headers c false))
          w given
