-- ===== src/Admin/OneRequest.antt =====
-- What an operation does to the world: at most one request, and which.
use custd_sdk_go.Base.{
  [], Bool, false, Option, none, some, Option-cases, Result, ok, err, Text, codes, inl, inr, ◌⊎◌,
  ◌≡◌, refl, ◌>>=◌,
}
use custd_sdk_go.Config.{ClientConfig}
use custd_sdk_go.Errors.{SdkError, plain}
use custd_sdk_go.Client.{HttpRequest, client_headers}
use custd_sdk_go.Admin.{
  AdminHost, AdminResponse, Session, endpoint, non_admin_endpoint, acting_company_path,
  merge_headers, apply_request_labels, with_request_labels,
}
use custd_sdk_go.Admin.Transport.{
  Outcome, encode_payload, with_body, concluded, request_via, request_via_doer,
  request_with_headers, noted, answered_with, doer_answer, reply_or_error, exchange_via,
  exchange_admin, request_with_metadata_headers, request_non_admin, read_response, admin_request,
}
use custd_sdk_go.Admin.Call.{Call, Channel, admin_channel, metadata_channel, non_admin_channel}
use custd_sdk_go.Admin.Operations.{AdminRequest, Refusal, admin_call, admin_refusal}
use custd_sdk_go.Admin.Performing.{send_on, send_call, perform}

-- Where a call goes.
unfoldable pub target_on : {F : Type 0} → ClientConfig F → Channel → Text → Text
target_on c admin_channel path = endpoint c (acting_company_path c.acting_company_slug path)
target_on c metadata_channel path = endpoint c (acting_company_path c.acting_company_slug path)
target_on c non_admin_channel path = non_admin_endpoint c path

unfoldable pub target : {F P : Type 0} → ClientConfig F → Call P → Text
unfolding target_on
target c k = target_on c k.channel k.path

module _ {F W P R : Type 0} (host : AdminHost W P R) (c : ClientConfig F)
    (client : HttpRequest → W → Result SdkError AdminResponse × W) where
  -- The host with this client injected.
  abbrev pub with_client : AdminHost W P R
  with_client = record host { injected = some client }

  -- The body of a request: nothing, or the payload as it is marshalled.
  abbrev pub IsBody : Option P → Text → Type 0
  IsBody none body = body ≡ []
  IsBody (some p) body = host.marshal p ≡ some body

  abbrev pub IsNotMarshalled : Option P → Type 0
  IsNotMarshalled none = ⊥
  IsNotMarshalled (some p) = host.marshal p ≡ none

  -- One request with this method, this URL and this payload was made in the world; or the payload
  -- does not marshal and the world is as it was.
  abbrev pub IsSent : Text → Text → Option P → W → W → Type 0
  IsSent method url payload before after =
      ((r : HttpRequest) × (after ≡ (client r before).1)
        × (r.method ≡ method)
        × (r.url ≡ url)
        × IsBody payload r.body)
      ⊎ (IsNotMarshalled payload × (after ≡ before))

  encoded_cases :
      (message : Text) (payload : Option P)
      → ((body : Text) × (encode_payload with_client c message payload ≡ ok body)
          × IsBody payload body)
        ⊎ ((e : SdkError) × (encode_payload with_client c message payload ≡ err e)
            × IsNotMarshalled payload)
  unfolding encode_payload
  encoded_cases message none = inl ([], refl, refl)
  encoded_cases message (some p) = elim (Option-cases (host.marshal p)) [
    | inl bad ↦ inr (plain message, rw (bad, encode_payload) refl, bad)
    | inr (body, good) ↦ inl (body, rw (good, encode_payload) refl, good)
  ]

  with_body_cases :
      {A : Type 0} (Q : A → Type 0) (message : Text) (payload : Option P) (stop : SdkError → A)
      (k : Text → A)
      → ((e : SdkError) → IsNotMarshalled payload → Q (stop e))
      → ((body : Text) → IsBody payload body → Q (k body))
      → Q (with_body with_client c (encode_payload with_client c message payload) stop k)
  unfolding with_body
  with_body_cases Q message payload stop k h g = elim (encoded_cases message payload) [
    | inl (body, encoded, is_body) ↦ rw encoded (g body is_body)
    | inr (e, failed, bad) ↦ rw failed (h e bad)
  ]

  concluded_world :
      (wants : Bool) (reply : Result SdkError AdminResponse × W) (s : Session W)
      → (concluded with_client c wants reply s).1.world ≡ reply.1
  unfolding concluded noted
  concluded_world wants (err e, w) s = refl
  concluded_world wants (ok r, w) s = refl

  answered_world :
      (wants : Bool) (fail : Text) (reply : Result SdkError AdminResponse × W)
      → (answered_with with_client c wants (doer_answer with_client c fail reply)).1 ≡ reply.1
  unfolding answered_with doer_answer
  answered_world wants fail (err e, w) = refl
  answered_world wants fail (ok r, w) = refl

  doer_world :
      (fail : Text) (reply : Result SdkError AdminResponse × W)
      → (doer_answer with_client c fail reply).1 ≡ reply.1
  unfolding doer_answer
  doer_world fail (err e, w) = refl
  doer_world fail (ok r, w) = refl

  send_on-IsOneRequest :
      (channel : Channel) (k : Call P) (s : Session W)
      → IsSent k.method
          (target_on c channel k.path)
          k.payload
          s.world
          (send_on with_client c channel k s).1.world
  unfolding send_on target_on request_with_headers request_via request_via_doer
      request_with_metadata_headers exchange_admin reply_or_error exchange_via request_non_admin
      admin_request
  send_on-IsOneRequest admin_channel k s =
      let request : Text → HttpRequest = λ body.
        admin_request with_client c k.method
          (endpoint c (acting_company_path c.acting_company_slug k.path)) body
          (apply_request_labels c (merge_headers k.headers (client_headers c false))) in
      with_body_cases
        (λ x.
          IsSent k.method (endpoint c (acting_company_path c.acting_company_slug k.path)) k.payload
            s.world x.1.world)
        (codes "custd: marshal admin request") k.payload (λ e. (err e, s))
        (λ body.
          request_via with_client c (some client) k.method
            (acting_company_path c.acting_company_slug k.path) body k.wants k.headers s)
        (λ e bad. inr (bad, refl))
        (λ body is_body. inl (
          request body,
          concluded_world k.wants (client (request body) s.world) s,
          refl,
          refl,
          is_body,
        ))
  send_on-IsOneRequest metadata_channel k s =
      let request : Text → HttpRequest = λ body.
        admin_request with_client c k.method
          (endpoint c (acting_company_path c.acting_company_slug k.path)) body
          (merge_headers (with_request_labels c k.headers) (client_headers c false)) in
      with_body_cases
        (λ x.
          IsSent k.method (endpoint c (acting_company_path c.acting_company_slug k.path)) k.payload
            s.world x.1)
        (codes "custd: marshal admin request") k.payload (λ e. (([], err e), s.world))
        (λ body.
          answered_with with_client c k.wants (exchange_admin with_client c (request body) s.world))
        (λ e bad. inr (bad, refl))
        (λ body is_body. inl (
          request body,
          answered_world k.wants (codes "custd: admin request failed")
              (client (request body) s.world),
          refl,
          refl,
          is_body,
        ))
  send_on-IsOneRequest non_admin_channel k s =
      let request : Text → HttpRequest = λ body.
        admin_request with_client c k.method (non_admin_endpoint c k.path) body
          (client_headers c false) in
      let asked : Text → Result SdkError AdminResponse × W = λ body.
        reply_or_error with_client c (codes "custd: create non-admin request")
          (codes "custd: non-admin request failed") (codes "custd: read response") (request body)
          s.world in
      with_body_cases {A = Outcome R × W}
        (λ x. IsSent k.method (non_admin_endpoint c k.path) k.payload s.world x.1)
        (codes "custd: marshal non-admin request") k.payload (λ e. (err e, s.world))
        (λ body. ((asked body).0 >>= λ r. read_response with_client c k.wants r, (asked body).1))
        (λ e bad. inr (bad, refl))
        (λ body is_body. inl (
          request body,
          doer_world (codes "custd: non-admin request failed") (client (request body) s.world),
          refl,
          refl,
          is_body,
        ))

  -- With an injected client, each modelled operation, all of which the SDK makes with one call of a
  -- request function, sends exactly one request, with the operation's method, address and payload, if
  -- its checks pass and its payload marshals; otherwise it sends nothing.
  pub perform-IsOneRequest :
      (op : AdminRequest P) (s : Session W)
      → ((admin_refusal op ≡ none)
          × IsSent
              (admin_call op).method
              (target c (admin_call op))
              (admin_call op).payload
              s.world
              (perform with_client c op s).1.world)
        ⊎ ((why : Refusal) × (admin_refusal op ≡ some why)
            × (perform with_client c op s ≡ (err why, s)))
  unfolding perform send_call target
  perform-IsOneRequest op s = elim (Option-cases (admin_refusal op)) [
    | inl accepted ↦ inl (
      accepted,
      rw (perform, accepted) (send_on-IsOneRequest (admin_call op).channel (admin_call op) s),
    )
    | inr (why, refused) ↦ inr (why, refused, rw (perform, refused) refl)
  ]
