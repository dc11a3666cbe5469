-- ===== src/Authority/Decision.antt =====
-- When an application is authorised, and what is sent to find out.
use custd_sdk_go.Base.{
  Bool-cases, Option, Option-cases, Result, Text, arith, codes, err, false, inl, inr, lookup, none,
  ok, refl, some, true, ◌≡◌, ◌↔◌, ◌<◌, ◌≤◌, ◌⊎◌, ap, sym, subst, ok_injective, ◌∙◌, is_empty, ◌++◌,
  text_eq, trim_space,
}
use custd_sdk_go.Config.{ClientConfig}
use custd_sdk_go.Errors.{check_status, SdkError}
use custd_sdk_go.Client.{HttpRequest, trim_right_slashes, is_secure_or_local_http}
use custd_sdk_go.Authority.{
  ApplicationAuthorityRequest, RawDecision, HttpResponse, AuthorityHost, denied, deny,
  token_required, url_insecure, not_encoded, decide, authority_request,
  request_application_authority, read_decision, read_authority, send_authority,
  check_application_authority, send_fresh,
}

decide_authorized :
    (d : RawDecision)
    → ((decide d).0.authorized ≡ true)
      ↔ ((d.raw_authorized ≡ some true) × ((reason : Text) × (d.raw_reason ≡ some reason)))
unfolding decide deny denied
decide_authorized d = (
  λ e. elim (Option-cases d.raw_authorized) [
    | inl missing ↦ absurd (ground arith)
    | inr (authorized, given) ↦ elim (Option-cases d.raw_reason) [
      | inl missing ↦ absurd (ground arith)
      | inr (reason, said) ↦ (ground arith, (reason, said))
    ]
  ],
  λ (given, (reason, said)). rw (given, said, decide),
)

module _ {F W : Type 0} (h : AuthorityHost W) (c : ClientConfig F) where
  -- A 2xx response whose body decodes to an authorisation with a reason.
  abbrev pub Authorizes : HttpResponse → Type 0
  Authorizes response =
      (200 ≤ response.status_code)
      × (response.status_code < 300)
      × ((d : RawDecision) × (h.unmarshal response.response_body ≡ some d)
          × (d.raw_authorized ≡ some true)
          × ((reason : Text) × (d.raw_reason ≡ some reason)))

  success_passes :
      (response : HttpResponse)
      → 200 ≤ response.status_code
      → response.status_code < 300
      → check_status h.problems c.retry.retry_on_statuses response.status_code
          response.response_body
        ≡ none
  unfolding check_status
  success_passes response lo hi = ground arith

  read_authority-Authorizes :
      (response : HttpResponse)
      → Authorizes response
      → (read_authority h c (ok response)).0.authorized ≡ true
  unfolding read_authority read_decision
  read_authority-Authorizes response (lo, hi, (d, decoded, chosen, said)) =
      rw (success_passes response lo hi, read_authority, decoded, read_decision)
        ((decide_authorized d).1 (chosen, said))

  read_authority_authorized :
      (outcome : Result SdkError HttpResponse)
      → ((read_authority h c outcome).0.authorized ≡ true)
        ↔ ((response : HttpResponse) × (outcome ≡ ok response) × Authorizes response)
  unfolding read_authority read_decision check_status deny denied
  read_authority_authorized (err e) =
      (λ x. absurd (ground arith), λ (response, x, y). absurd (ground arith))
  read_authority_authorized (ok response) = (
    λ e.
        elim (Option-cases (
          check_status h.problems c.retry.retry_on_statuses response.status_code
            response.response_body)) [
              | inl success ↦ elim (Option-cases (h.unmarshal response.response_body)) [
                | inl bad ↦ absurd (ground arith)
                | inr (d, decoded) ↦
                    let (chosen, said) = (decide_authorized d).0 (ground arith) in
                    (response, refl, (ground arith, ground arith, (d, decoded, chosen, said)))
              ]
              | inr (bad, refused) ↦ absurd (ground arith)
            ],
    λ (other, same, granted).
        read_authority-Authorizes response
          (subst Authorizes (sym (ok_injective response other same)) granted),
  )

  -- What is asked: a token that is not blank, of a server whose URL is secure or local, in a request
  -- that can be encoded.
  abbrev pub Asks : ApplicationAuthorityRequest → Text → Type 0
  Asks r body =
      (is_empty (trim_space r.access_token) ≡ false)
      × (is_secure_or_local_http h.urls c.base_url ≡ true)
      × (h.marshal r ≡ some body)

  asked :
      (r : ApplicationAuthorityRequest) (w : W) (body : Text)
      → Asks r body
      → check_application_authority h c r w ≡ (
        read_authority h c (request_application_authority h c (authority_request h c r body) w).0,
        (request_application_authority h c (authority_request h c r body) w).1,
      )
  unfolding check_application_authority send_authority
  asked r w body (given, secure, encoded) =
      rw (given, check_application_authority, secure, encoded, send_authority) refl

  asked_or_denied :
      (r : ApplicationAuthorityRequest) (w : W)
      → ((body : Text) × Asks r body)
        ⊎ ((e : SdkError) × (check_application_authority h c r w ≡ (deny e, w)))
  unfolding check_application_authority send_authority
  asked_or_denied r w = elim (Bool-cases (is_empty (trim_space r.access_token))) [
    | inl blank ↦ inr (token_required, rw (blank, check_application_authority) refl)
    | inr given ↦ elim (Bool-cases (is_secure_or_local_http h.urls c.base_url)) [
      | inr insecure ↦ inr (url_insecure, rw (given, check_application_authority, insecure) refl)
      | inl secure ↦ elim (Option-cases (h.marshal r)) [
        | inl bad ↦
            inr (
              not_encoded,
              rw (given, check_application_authority, secure, bad, send_authority) refl,
            )
        | inr (body, encoded) ↦ inl (body, (given, secure, encoded))
      ]
    ]
  ]

  -- A call decides that the application is authorised exactly if the token is not blank, the URL is
  -- secure or local, the request encodes, and its response is 2xx with a body that decodes to an
  -- authorisation with a reason; in every other case the decision beside the error is a denial.
  pub check_application_authority_authorized :
      (r : ApplicationAuthorityRequest) (w : W)
      → ((check_application_authority h c r w).0.0.authorized ≡ true) ↔ (
          (body : Text) × Asks r body
          × ((response : HttpResponse) × ((request_application_authority h c
                  (authority_request h c r body)
                  w).0
                ≡ ok response)
              × Authorizes response))
  unfolding deny denied
  check_application_authority_authorized r w = (
    λ e. elim (asked_or_denied r w) [
      | inl (body, asks) ↦ (
        body,
        asks,
        (read_authority_authorized _).0
            (sym (ap (λ x. x.0.0.authorized) (asked r w body asks)) ∙ e),
      )
      | inr (bad, refused) ↦
          let no_authority = sym (ap (λ x. x.0.0.authorized) refused) ∙ e in absurd (ground arith)
    ],
    λ (body, asks, granted).
        ap (λ x. x.0.0.authorized) (asked r w body asks) ∙ (read_authority_authorized _).1 granted,
  )

  -- The world once this client was given the request, once: the injected one, or else a fresh one.
  abbrev pub sent_by :
      Option (HttpRequest → W → Result SdkError HttpResponse × W) → HttpRequest → W → W
  sent_by none request w = (h.send request w).1
  sent_by (some client) request w = (client request w).1

  -- The request of the check: the application's own token, whatever key the client has.
  abbrev pub IsCheck : ApplicationAuthorityRequest → HttpRequest → Type 0
  IsCheck r request =
      (request.method ≡ codes "POST")
      × (request.url ≡ trim_right_slashes c.base_url ++ codes "/oauth/authority-check")
      × (lookup (codes "Authorization") request.headers ≡ some (codes "Bearer " ++ r.access_token))
      × (h.marshal r ≡ some request.body)

  requested :
      (request : HttpRequest) (w : W)
      → h.is_cancelled w ≡ false
      → (request_application_authority h c request w).1 ≡ sent_by h.injected request w
  unfolding request_application_authority send_fresh
  requested request w live = elim (Option-cases h.injected) [
    | inl missing ↦ rw (live, missing, request_application_authority) refl
    | inr (client, given) ↦ rw (live, given, request_application_authority) refl
  ]

  not_requested :
      (request : HttpRequest) (w : W)
      → h.is_cancelled w ≡ true
      → (request_application_authority h c request w).1 ≡ w
  unfolding request_application_authority
  not_requested request w dead = rw (dead, request_application_authority) refl

  -- A call leaves the world as it was, or gives one request to the injected client, or to a fresh
  -- one where none is injected, and does so once. The request is the check's, with the application's
  -- own token whatever key the client has, and it is sent only if the token is not blank, the URL is
  -- secure or local and the context is not cancelled.
  pub check_application_authority_sends :
      (r : ApplicationAuthorityRequest) (w : W)
      → ((check_application_authority h c r w).1 ≡ w)
        ⊎ ((request : HttpRequest) × IsCheck r request
            × ((check_application_authority h c r w).1 ≡ sent_by h.injected request w)
            × (is_empty (trim_space r.access_token) ≡ false)
            × (is_secure_or_local_http h.urls c.base_url ≡ true)
            × (h.is_cancelled w ≡ false))
  unfolding authority_request lookup text_eq codes
  check_application_authority_sends r w = elim (asked_or_denied r w) [
    | inl (body, asks) ↦
        let request = authority_request h c r body in
        let moved = ap (λ x. x.1) (asked r w body asks) in
        elim (Bool-cases (h.is_cancelled w)) [
          | inl dead ↦ inl (moved ∙ not_requested request w dead)
          | inr live ↦ inr (
            request,
            (refl, refl, refl, asks.2),
            moved ∙ requested request w live,
            asks.0,
            asks.1,
            live,
          )
        ]
    | inr (bad, refused) ↦ inl (ap (λ x. x.1) refused)
  ]
