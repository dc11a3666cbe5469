-- ===== src/Admin/Sending.antt =====
-- What the transport of the administration client sends and keeps.
use custd_sdk_go.Base.{
  List, [], ◌∷◌, ◌++◌, Bool, true, false, not, Option, none, some, Result, ok, err, Text, codes,
  is_empty, ◌≡◌, refl, sym, ap, ◌∙◌, insert, text_eq,
}
use custd_sdk_go.Config.{ClientConfig}
use custd_sdk_go.Errors.{SdkError, plain, wrapped}
use custd_sdk_go.Client.{HttpRequest, client_headers, set_if, sdk_identity}
use custd_sdk_go.Admin.{
  AdminHost, AdminResponse, AdminReply, not_created, failed, unreadable, answered, Session,
  record_metadata, merge_headers, apply_request_labels, with_request_labels, endpoint,
  acting_company_path,
}
use custd_sdk_go.Admin.Transport.{
  Outcome, encode_payload, request_via_doer, request_with_headers, request, request_with_metadata,
  request_with_metadata_headers, reply_or_error, exchange_admin, admin_request, noted,
  answered_with, concluded, concluded_http, request_via, request_via_http, exchange_via,
  doer_answer, http_answer, with_body,
}

abbrev labelled : Bool → Bool → Bool → Text → Text → Text → List (Text × Text)
labelled a b k command client key = set_if a (codes "X-Custd-Command") command (
    set_if b (codes "X-Custd-Client") client (
      set_if k (codes "Authorization") key (
        (codes "Content-Type", codes "application/json")
        ∷ (codes "X-Custd-Sdk", sdk_identity)
        ∷ [])))

kept_under :
    (a b k : Bool) (command client key : Text)
    → (set_if a
          (codes "X-Custd-Command")
          command
          (set_if b (codes "X-Custd-Client") client (labelled a b k command client key))
        ≡ labelled a b k command client key)
      × (merge_headers
            (set_if a
              (codes "X-Custd-Command")
              command
              (set_if b (codes "X-Custd-Client") client []))
            (labelled a b k command client key)
          ≡ labelled a b k command client key)
unfolding set_if insert text_eq codes merge_headers
kept_under true true true command client key = (refl, refl)
kept_under true true false command client key = (refl, refl)
kept_under true false true command client key = (refl, refl)
kept_under true false false command client key = (refl, refl)
kept_under false true true command client key = (refl, refl)
kept_under false true false command client key = (refl, refl)
kept_under false false true command client key = (refl, refl)
kept_under false false false command client key = (refl, refl)

module _ {F W P R : Type 0} (h : AdminHost W P R) (c : ClientConfig F) where
  -- The labels that the client's own headers have are set again to the same values, before or after.
  labels_kept :
      (apply_request_labels c (client_headers c false) ≡ client_headers c false)
      × (merge_headers (with_request_labels c []) (client_headers c false) ≡ client_headers c false)
  unfolding apply_request_labels with_request_labels merge_headers client_headers set_if
  labels_kept =
      kept_under (not (is_empty c.command_label)) (not (is_empty c.client_label))
        (not (is_empty c.api_key)) c.command_label c.client_label (codes "Bearer " ++ c.api_key)

  nothing_noted : (recorder : Option Text) → record_metadata [] recorder ≡ recorder
  unfolding record_metadata is_empty
  nothing_noted none = refl
  nothing_noted (some previous) = refl

  -- The outcome and the recorder's identifier that the function with metadata gives.
  unfoldable pub with_metadata : (Text × Outcome R) × W → Session W → Outcome R × Session W
  with_metadata ((id, r), w) s = (r, record { recorder = record_metadata id s.recorder; world = w })

  nothing_with_metadata :
      (r : Outcome R) (w : W) (s : Session W)
      → (r, record { recorder = s.recorder; world = w }) ≡ with_metadata (([], r), w) s
  unfolding with_metadata
  nothing_with_metadata r w s =
      ap (λ n. (r, record { recorder = n; world = w })) (sym (nothing_noted s.recorder))

  concluded_agrees :
      (wants : Bool) (reply : Result SdkError AdminResponse × W) (s : Session W)
      → concluded h c wants reply s
        ≡ with_metadata
            (answered_with h c wants (doer_answer h c (codes "custd: admin request failed") reply))
            s
  unfolding concluded answered_with doer_answer noted with_metadata
  concluded_agrees wants (err e, w) s =
      nothing_with_metadata (err (wrapped (codes "custd: admin request failed") e)) w s
  concluded_agrees wants (ok r, w) s = refl

  concluded_http_agrees :
      (wants : Bool) (reply : AdminReply × W) (s : Session W)
      → concluded_http h c wants reply s
        ≡ with_metadata
            (answered_with h c wants (
              http_answer h c
                (codes "custd: create admin request")
                (codes "custd: admin request failed")
                (codes "custd: read admin response")
                reply))
            s
  unfolding concluded_http answered_with http_answer noted with_metadata
  concluded_http_agrees wants (not_created m, w) s =
      nothing_with_metadata (err (wrapped (codes "custd: create admin request") (plain m))) w s
  concluded_http_agrees wants (failed m, w) s =
      nothing_with_metadata (err (wrapped (codes "custd: admin request failed") (plain m))) w s
  concluded_http_agrees wants (unreadable m, w) s =
      nothing_with_metadata (err (wrapped (codes "custd: read admin response") (plain m))) w s
  concluded_http_agrees wants (answered r, w) s = refl

  request_via_agrees :
      (client : Option (HttpRequest → W → Result SdkError AdminResponse × W))
      (method path body : Text) (wants : Bool) (s : Session W)
      → request_via h c client method path body wants [] s
        ≡ with_metadata
            (answered_with h c wants (
              exchange_via h c client
                (codes "custd: create admin request")
                (codes "custd: admin request failed")
                (codes "custd: read admin response")
                (admin_request h c method
                  (endpoint c path)
                  body
                  (merge_headers (with_request_labels c []) (client_headers c false)))
                s.world))
            s
  unfolding request_via request_via_doer request_via_http exchange_via merge_headers
  request_via_agrees (some client) method path body wants s =
      ap
        (λ hs.
          concluded h c wants (client (admin_request h c method (endpoint c path) body hs) s.world)
            s)
        (labels_kept.0 ∙ sym labels_kept.1)
      ∙ concluded_agrees wants
          (client
            (admin_request h c method (endpoint c path) body
              (merge_headers (with_request_labels c []) (client_headers c false)))
            s.world)
          s
  request_via_agrees none method path body wants s =
      ap
        (λ hs.
          concluded_http h c wants
            (h.send (admin_request h c method (endpoint c path) body hs) s.world) s)
        (sym labels_kept.1)
      ∙ concluded_http_agrees wants
          (h.send
            (admin_request h c method (endpoint c path) body
              (merge_headers (with_request_labels c []) (client_headers c false)))
            s.world)
          s

  with_body_agrees :
      (encoded : Result SdkError Text) (s : Session W) (k : Text → Outcome R × Session W)
      (k' : Text → (Text × Outcome R) × W)
      → ((body : Text) → k body ≡ with_metadata (k' body) s)
      → with_body h c encoded (λ e. (err e, s)) k
        ≡ with_metadata (with_body h c encoded (λ e. (([], err e), s.world)) k') s
  unfolding with_body
  with_body_agrees (err e) s k k' same = nothing_with_metadata (err e) s.world s
  with_body_agrees (ok body) s k k' same = same body

  -- `request` and `requestWithMetadata` send the same request and agree on what comes of it: the
  -- identifier that one returns is the one that the other leaves in the recorder, a refusal included.
  pub request_agrees :
      (method path : Text) (payload : Option P) (wants : Bool) (s : Session W)
      → request h c method path payload wants s
        ≡ with_metadata (request_with_metadata h c method path payload wants s.world) s
  unfolding request request_with_headers request_with_metadata request_with_metadata_headers
      exchange_admin reply_or_error
  request_agrees method path payload wants s =
      let address = acting_company_path c.acting_company_slug path in
      with_body_agrees (encode_payload h c (codes "custd: marshal admin request") payload) s
        (λ body. request_via h c h.injected method address body wants [] s)
        (λ body. answered_with h c wants (
          exchange_admin h c
            (admin_request h c method (endpoint c address) body
              (merge_headers (with_request_labels c []) (client_headers c false)))
            s.world))
        (λ body. request_via_agrees h.injected method address body wants s)
