-- ===== src/Authority.antt =====
-- application_authority.go: the online check of one application's access token. The context, the
-- network, encoding/json and net/url are parameters; a call returns a decision beside its error, as
-- the Go function does.
pub mod Decision
mod Tests
use custd_sdk_go.Base.{
  ℕ, List, [], ◌∷◌, ◌++◌, Bool, true, false, not, Option, none, some, Result, ok, err, Text, codes,
  is_empty, if◌then◌else◌, trim_space,
}
use custd_sdk_go.Config.{ClientConfig}
use custd_sdk_go.Errors.{ProblemDecoder, SdkError, plain, wrapped, cancelled, check_status}
use custd_sdk_go.Client.{
  UrlParser, is_secure_or_local_http, HttpRequest, Reply, not_created, failed, unreadable, answered,
  trim_right_slashes, sdk_identity,
}

pub record ApplicationAuthorityRequest : Type 0 where
  pub access_token : Text

pub record ApplicationAuthorityDecision : Type 0 where
  pub authorized : Bool
  pub reason : Text

-- The decoded body, each field a pointer.
pub record RawDecision : Type 0 where
  pub raw_authorized : Option Bool
  pub raw_reason : Option Text

pub record HttpResponse : Type 0 where
  pub status_code : ℕ
  pub response_body : Text

-- `injected` is `config.HTTPClient`, `send` a fresh `http.Client`, and `is_cancelled` is `ctx.Err()`.
pub record AuthorityHost (W : Type 0) : Type 0 where
  pub urls : UrlParser
  pub problems : ProblemDecoder
  pub marshal : ApplicationAuthorityRequest → Option Text
  pub unmarshal : Text → Option RawDecision
  pub is_cancelled : W → Bool
  pub injected : Option (HttpRequest → W → Result SdkError HttpResponse × W)
  pub send : HttpRequest → W → Reply × W

-- A decision and an error.
abbrev pub Verdict : Type 0
Verdict = ApplicationAuthorityDecision × Option SdkError

unfoldable pub denied : ApplicationAuthorityDecision
denied = record { authorized = false; reason = [] }

unfoldable pub deny : SdkError → Verdict
deny e = (denied, some e)

abbrev pub token_required : SdkError
token_required = plain (codes "custd: application access token is required")

abbrev pub url_insecure : SdkError
url_insecure = plain (codes "custd: base URL must use https unless it targets localhost")

abbrev pub not_encoded : SdkError
not_encoded = plain (codes "custd: encode application authority request")

unfoldable pub read_authority_reply : Reply → Result SdkError HttpResponse
read_authority_reply (not_created m) =
    err (wrapped (codes "custd: create application authority request") (plain m))
read_authority_reply (failed m) =
    err (wrapped (codes "custd: application authority request failed") (plain m))
read_authority_reply (unreadable m) =
    err (wrapped (codes "custd: read application authority decision") (plain m))
read_authority_reply (answered code body) = ok (record { status_code = code; response_body = body })

unfoldable pub decide : RawDecision → Verdict
decide d = elim d.raw_authorized [
  | none ↦ incomplete
  | some authorized ↦ elim d.raw_reason [
    | none ↦ incomplete
    | some reason ↦ (record { authorized = authorized; reason = reason }, none)
  ]
]
  where
    incomplete : Verdict
    incomplete =
        deny (plain (codes "custd: application authority decision requires authorized and reason"))

module _ {F W : Type 0} (h : AuthorityHost W) (c : ClientConfig F) where
  unfoldable pub authority_request : ApplicationAuthorityRequest → Text → HttpRequest
  authority_request r body = record {
    method = codes "POST";
    url = trim_right_slashes c.base_url ++ codes "/oauth/authority-check";
    headers =
        (codes "Content-Type", codes "application/json")
        ∷ (codes "X-Custd-Sdk", sdk_identity)
        ∷ (codes "Authorization", codes "Bearer " ++ r.access_token)
        ∷ [];
    body = body;
  }

  unfoldable pub send_fresh : HttpRequest → W → Result SdkError HttpResponse × W
  unfolding read_authority_reply
  send_fresh request w = let (reply, w') = h.send request w in (read_authority_reply reply, w')

  unfoldable pub request_application_authority : HttpRequest → W → Result SdkError HttpResponse × W
  unfolding send_fresh
  request_application_authority request w =
      if h.is_cancelled w
      then (err cancelled, w)
      else elim h.injected [ none ↦ send_fresh request w | some client ↦ client request w ]

  unfoldable pub read_decision : Text → Verdict
  unfolding decide deny
  read_decision body = elim (h.unmarshal body) [
    | none ↦ deny (plain (codes "custd: decode application authority decision"))
    | some d ↦ decide d
  ]

  unfoldable pub read_authority : Result SdkError HttpResponse → Verdict
  unfolding read_decision deny
  read_authority (err e) = deny e
  read_authority (ok response) =
      elim (check_status h.problems c.retry.retry_on_statuses response.status_code
        response.response_body) [ some e ↦ deny e | none ↦ read_decision response.response_body ]

  unfoldable pub send_authority : ApplicationAuthorityRequest → W → Verdict × W
  unfolding authority_request request_application_authority read_authority deny
  send_authority r w = elim (h.marshal r) [
    | none ↦ (deny not_encoded, w)
    | some body ↦
        let (response, w') = request_application_authority (authority_request r body) w in
        (read_authority response, w')
  ]

  unfoldable pub check_application_authority : ApplicationAuthorityRequest → W → Verdict × W
  unfolding send_authority deny
  check_application_authority r w =
      if is_empty (trim_space r.access_token)
      then (deny token_required, w)
      else if not (is_secure_or_local_http h.urls c.base_url)
      then (deny url_insecure, w)
      else send_authority r w
