-- ===== src/Issuer/Documents.antt =====
-- The documents of an issuer: what a fetch returns is what the URL was answered with.
use custd_sdk_go.Base.{
  List, Option, Option-cases, Result, Text, arith, err, inl, inr, none, ok, refl, some, ℕ, ◌≡◌, ap,
  ◌∙◌, ◌≤◌, ◌<◌,
}
use custd_sdk_go.Errors.{SdkError, check_status}
use custd_sdk_go.Authority.{HttpResponse}
use custd_sdk_go.Client.{HttpRequest, Reply, not_created, failed, unreadable, answered}
use custd_sdk_go.Issuer.{
  IssuerHost, decode_or, same_origin_redirect, read_issuer_answer, read_issuer_reply,
  read_issuer_response, fetch_via, issuer_request, fetch_issuer_document,
}

module _ {W : Type 0} (h : IssuerHost W) (retry_set : List ℕ) where
  -- The status and the body that a reply has, where it has one.
  abbrev pub reply_answer : Reply → Option (ℕ × Text)
  reply_answer (not_created m) = none
  reply_answer (failed m) = none
  reply_answer (unreadable m) = none
  reply_answer (answered code body) = some (code, body)

  abbrev pub response_answer : Result SdkError HttpResponse → Option (ℕ × Text)
  response_answer (err e) = none
  response_answer (ok r) = some (r.status_code, r.response_body)

  -- What the request for a URL is answered with, by the injected client or a fresh one, and the
  -- world behind it.
  abbrev pub answer_via :
      Option (HttpRequest → W → Result SdkError HttpResponse × W) → Text → W → Option (ℕ × Text) × W
  answer_via (some client) url w =
      (response_answer (client (issuer_request url) w).0, (client (issuer_request url) w).1)
  answer_via none url w =
      let sent = h.send (same_origin_redirect h retry_set) (issuer_request url) w in
      (reply_answer sent.0, sent.1)

  -- The document `a` is what the URL is answered with, in a 2xx response, where `before` is the world
  -- before the request and `after` the one behind it.
  abbrev IsReadVia :
      {A : Type 0}
      → Option (HttpRequest → W → Result SdkError HttpResponse × W)
      → (Text → Option A)
      → A
      → Text
      → W
      → A
      → W
      → Type 0
  IsReadVia client decode blank url before a after =
      (code : ℕ) × (body : Text) × (answer_via client url before ≡ (some (code, body), after))
      × (200 ≤ code)
      × (code < 300)
      × (decode_or decode blank body ≡ ok a)

  abbrev pub IsReadAt : {A : Type 0} → (Text → Option A) → A → Text → W → A → W → Type 0
  IsReadAt decode blank url before a after = IsReadVia h.injected decode blank url before a after

  Answered : {A : Type 0} → (Text → Option A) → A → A → Option (ℕ × Text) → Type 0
  Answered decode blank a given =
      (code : ℕ) × (body : Text) × (given ≡ some (code, body))
      × (200 ≤ code)
      × (code < 300)
      × (decode_or decode blank body ≡ ok a)

  read_answer_ok :
      {A : Type 0} (decode : Text → Option A) (blank a : A) (code : ℕ) (body : Text)
      → read_issuer_answer h retry_set decode blank code body ≡ ok a
      → Answered decode blank a (some (code, body))
  unfolding read_issuer_answer check_status Answered
  read_answer_ok decode blank a code body x =
      elim (Option-cases (check_status h.problems retry_set code body)) [
        | inl success ↦
            (code, body, refl, ground arith, ground arith, rw (success, read_issuer_answer) at x)
        | inr (bad, refused) ↦ absurd (ground arith)
      ]

  read_reply_ok :
      {A : Type 0} (decode : Text → Option A) (blank a : A) (reply : Reply)
      → read_issuer_reply h retry_set decode blank reply ≡ ok a
      → Answered decode blank a (reply_answer reply)
  unfolding read_issuer_reply
  read_reply_ok decode blank a (not_created m) x = absurd (ground arith)
  read_reply_ok decode blank a (failed m) x = absurd (ground arith)
  read_reply_ok decode blank a (unreadable m) x = absurd (ground arith)
  read_reply_ok decode blank a (answered code body) x = read_answer_ok decode blank a code body x

  read_response_ok :
      {A : Type 0} (decode : Text → Option A) (blank a : A)
      (response : Result SdkError HttpResponse)
      → read_issuer_response h retry_set decode blank response ≡ ok a
      → Answered decode blank a (response_answer response)
  unfolding read_issuer_response
  read_response_ok decode blank a (err e) x = absurd (ground arith)
  read_response_ok decode blank a (ok r) x =
      read_answer_ok decode blank a r.status_code r.response_body x

  read_at :
      {A : Type 0} (client : Option (HttpRequest → W → Result SdkError HttpResponse × W))
      (decode : Text → Option A) (blank a : A) (url : Text) (w w' : W) (given : Option (ℕ × Text))
      → answer_via client url w ≡ (given, w')
      → Answered decode blank a given
      → IsReadVia client decode blank url w a w'
  unfolding Answered
  read_at client decode blank a url w w' given sent (code, body, same, low, high, decoded) =
      (code, body, sent ∙ ap (λ g. (g, w')) same, low, high, decoded)

  fetch_via_ok :
      {A : Type 0} (client : Option (HttpRequest → W → Result SdkError HttpResponse × W))
      (decode : Text → Option A) (blank a : A) (url : Text) (w : W)
      → (fetch_via h retry_set client decode blank url w).0 ≡ ok a
      → IsReadVia client decode blank url w a (fetch_via h retry_set client decode blank url w).1
  unfolding fetch_via
  fetch_via_ok none decode blank a url w x =
      let sent = h.send (same_origin_redirect h retry_set) (issuer_request url) w in
      read_at none decode blank a url w sent.1 (reply_answer sent.0) refl
        (read_reply_ok decode blank a sent.0 x)
  fetch_via_ok (some client) decode blank a url w x =
      let sent = client (issuer_request url) w in
      read_at (some client) decode blank a url w sent.1 (response_answer sent.0) refl
        (read_response_ok decode blank a sent.0 x)

  pub fetch_issuer_document_ok :
      {A : Type 0} (decode : Text → Option A) (blank a : A) (url : Text) (w : W)
      → (fetch_issuer_document h retry_set decode blank url w).0 ≡ ok a
      → IsReadAt decode blank url w a (fetch_issuer_document h retry_set decode blank url w).1
  unfolding fetch_issuer_document
  fetch_issuer_document_ok decode blank a url w x = fetch_via_ok h.injected decode blank a url w x
