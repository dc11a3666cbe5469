-- ===== src/Issuer.antt =====
-- diagnostics.go, `InspectIssuer`: the discovery document and the keys of an OAuth issuer. The
-- parsing and printing of URLs by net/url, `strings.EqualFold`, the network and encoding/json are
-- parameters. A redirect is followed inside net/http, which asks `CheckRedirect` first.
pub mod Origin
pub mod Inspection
pub mod Documents
pub mod Inspected
mod Tests
use custd_sdk_go.Base.{
  ℕ, List, [], ◌∷◌, ◌++◌, Bool, true, false, not, ◌||◌, Option, none, some, Result, ok, err, Text,
  codes, is_empty, if◌then◌else◌, trim_space, text_eq, ◌&&◌,
}
use custd_sdk_go.Errors.{ProblemDecoder, SdkError, plain, wrapped, check_status}
use custd_sdk_go.Authority.{HttpResponse}
use custd_sdk_go.Client.{
  UrlParser, is_secure_or_local_http, HttpRequest, Reply, not_created, failed, unreadable, answered,
  trim_right_slashes,
}

-- What the code reads of a parsed URL; `printed` is `parsed.String()`.
pub record IssuerUrl : Type 0 where
  pub scheme : Text
  pub host : Text
  pub has_user : Bool
  pub fragment : Text
  pub printed : Text

pub record AuthorizationServerMetadata : Type 0 where
  pub issuer : Text
  pub authorization_endpoint : Text
  pub token_endpoint : Text
  pub jwks_uri : Text
  pub device_authorization_endpoint : Text

pub record Jwk : Type 0 where
  pub key_id : Text
  pub key_type : Text
  pub key_use : Text
  pub algorithm : Text

pub record IssuerInspection : Type 0 where
  pub metadata : AuthorizationServerMetadata
  pub keys : List Jwk

pub data IssuerError : Type 0 where
  untrusted_issuer endpoint_not_absolute endpoint_insecure off_origin : IssuerError
  issuer_mismatch no_signing_keys : IssuerError
  fetch_failed : SdkError → IssuerError

-- `CheckRedirect`: the URL to go to and those of the requests so far, the first one first; an error
-- refuses.
abbrev pub RedirectCheck : Type 0
RedirectCheck = IssuerUrl → List IssuerUrl → Option SdkError

-- `injected` is `config.HTTPClient`, and `send` a fresh `http.Client` with a redirect check.
pub record IssuerHost (W : Type 0) : Type 0 where
  pub urls : UrlParser
  pub parse : Text → Option IssuerUrl
  pub equal_fold : Text → Text → Bool
  pub problems : ProblemDecoder
  pub decode_metadata : Text → Option AuthorizationServerMetadata
  pub decode_keys : Text → Option (List Jwk)
  pub injected : Option (HttpRequest → W → Result SdkError HttpResponse × W)
  pub send : RedirectCheck → HttpRequest → W → Reply × W

unfoldable pub empty_metadata : AuthorizationServerMetadata
empty_metadata = record {
  issuer = [];
  authorization_endpoint = [];
  token_endpoint = [];
  jwks_uri = [];
  device_authorization_endpoint = [];
}

-- `parsed.Host == "" || parsed.User != nil || parsed.Fragment != ""`
unfoldable pub is_not_plain : IssuerUrl → Bool
is_not_plain u = is_empty u.host || u.has_user || not (is_empty u.fragment)

-- `decodeAdminResponse`: an empty body leaves the zero value.
unfoldable pub decode_or {ℓ} : {A : Type ℓ} → (Text → Option A) → A → Text → Result IssuerError A
decode_or decode blank body = if is_empty body then ok blank else elim (decode body) [
  | none ↦ err (fetch_failed (plain (codes "custd: decode admin response")))
  | some a ↦ ok a
]

unfoldable pub issuer_request : Text → HttpRequest
issuer_request url = record {
  method = codes "GET";
  url = url;
  headers = (codes "Accept", codes "application/json") ∷ [];
  body = [];
}

unfoldable pub finish_inspection :
    AuthorizationServerMetadata
    → Result IssuerError (List Jwk)
    → Result IssuerError IssuerInspection
finish_inspection metadata (err e) = err e
finish_inspection metadata (ok []) = err no_signing_keys
finish_inspection metadata (ok (key ∷ keys)) =
    ok (record { metadata = metadata; keys = key ∷ keys })

module _ {W : Type 0} (h : IssuerHost W) (retry_set : List ℕ) where
  unfoldable pub trusted_url : IssuerUrl → Result IssuerError Text
  trusted_url u =
      if is_not_plain u || not (is_secure_or_local_http h.urls u.printed)
      then err untrusted_issuer
      else ok (trim_right_slashes u.printed)

  unfoldable pub trusted_issuer_url : Text → Result IssuerError Text
  unfolding trusted_url
  trusted_issuer_url raw = elim (h.parse (trim_space raw)) [
    | none ↦ err untrusted_issuer
    | some u ↦ trusted_url u
  ]

  unfoldable pub on_origin : IssuerUrl → IssuerUrl → Result IssuerError Text
  on_origin u origin =
      if is_empty origin.host
      then err untrusted_issuer
      else if not (h.equal_fold u.scheme origin.scheme) || not (h.equal_fold u.host origin.host)
      then err off_origin
      else ok u.printed

  unfoldable pub trusted_endpoint : IssuerUrl → Text → Result IssuerError Text
  unfolding on_origin
  trusted_endpoint u issuer =
      if is_not_plain u
      then err endpoint_not_absolute
      else if not (is_secure_or_local_http h.urls u.printed)
      then err endpoint_insecure
      else elim (h.parse issuer) [ none ↦ err untrusted_issuer | some origin ↦ on_origin u origin ]

  unfoldable pub trusted_issuer_endpoint : Text → Text → Result IssuerError Text
  unfolding trusted_endpoint
  trusted_issuer_endpoint raw issuer = elim (h.parse (trim_space raw)) [
    | none ↦ err endpoint_not_absolute
    | some u ↦ trusted_endpoint u issuer
  ]

  -- A redirect must stay on the origin of the first request.
  unfoldable pub same_origin_redirect : RedirectCheck
  same_origin_redirect u [] = none
  same_origin_redirect u (first ∷ later) =
      if not (h.equal_fold u.scheme first.scheme) || not (h.equal_fold u.host first.host)
      then some (plain (codes "custd: issuer request redirected to another origin"))
      else none

  unfoldable pub read_issuer_answer {ℓ} :
      {A : Type ℓ} → (Text → Option A) → A → ℕ → Text → Result IssuerError A
  unfolding decode_or
  read_issuer_answer decode blank code body = elim (check_status h.problems retry_set code body) [
    | some e ↦ err (fetch_failed e)
    | none ↦ decode_or decode blank body
  ]

  unfoldable pub read_issuer_reply {ℓ} :
      {A : Type ℓ} → (Text → Option A) → A → Reply → Result IssuerError A
  unfolding read_issuer_answer
  read_issuer_reply decode blank (not_created m) =
      err (fetch_failed (wrapped (codes "custd: create issuer request") (plain m)))
  read_issuer_reply decode blank (failed m) =
      err (fetch_failed (wrapped (codes "custd: issuer request failed") (plain m)))
  read_issuer_reply decode blank (unreadable m) =
      err (fetch_failed (wrapped (codes "custd: read issuer response") (plain m)))
  read_issuer_reply decode blank (answered code body) = read_issuer_answer decode blank code body

  unfoldable pub read_issuer_response {ℓ} :
      {A : Type ℓ} → (Text → Option A) → A → Result SdkError HttpResponse → Result IssuerError A
  unfolding read_issuer_answer
  read_issuer_response decode blank (err e) =
      err (fetch_failed (wrapped (codes "custd: issuer request failed") e))
  read_issuer_response decode blank (ok r) =
      read_issuer_answer decode blank r.status_code r.response_body

  unfoldable pub fetch_via {ℓ} :
      {A : Type ℓ}
      → Option (HttpRequest → W → Result SdkError HttpResponse × W)
      → (Text → Option A)
      → A
      → Text
      → W
      → Result IssuerError A × W
  unfolding read_issuer_reply read_issuer_response issuer_request same_origin_redirect
  fetch_via (some client) decode blank url w =
      let (response, w') = client (issuer_request url) w in
      (read_issuer_response decode blank response, w')
  fetch_via none decode blank url w =
      let (reply, w') = h.send same_origin_redirect (issuer_request url) w in
      (read_issuer_reply decode blank reply, w')

  unfoldable pub fetch_issuer_document {ℓ} :
      {A : Type ℓ} → (Text → Option A) → A → Text → W → Result IssuerError A × W
  unfolding fetch_via
  fetch_issuer_document decode blank url w = fetch_via h.injected decode blank url w

  unfoldable pub read_keys :
      AuthorizationServerMetadata → Text → W → Result IssuerError IssuerInspection × W
  unfolding fetch_issuer_document finish_inspection
  read_keys metadata url w =
      let (keys, w') = fetch_issuer_document h.decode_keys [] url w in
      (finish_inspection metadata keys, w')

  unfoldable pub follow_metadata :
      Text
      → Result IssuerError AuthorizationServerMetadata
      → W
      → Result IssuerError IssuerInspection × W
  unfolding trusted_issuer_endpoint read_keys
  follow_metadata issuer (err e) w = (err e, w)
  follow_metadata issuer (ok metadata) w =
      if not (text_eq metadata.issuer issuer)
      then (err issuer_mismatch, w)
      else elim (trusted_issuer_endpoint metadata.jwks_uri issuer) [
        | err e ↦ (err e, w)
        | ok url ↦ read_keys metadata url w
      ]

  unfoldable pub inspect_trusted : Text → W → Result IssuerError IssuerInspection × W
  unfolding fetch_issuer_document follow_metadata
  inspect_trusted issuer w =
      let (metadata, w') =
        fetch_issuer_document h.decode_metadata empty_metadata
          (issuer ++ codes "/.well-known/oauth-authorization-server") w in
      follow_metadata issuer metadata w'

  unfoldable pub inspect_issuer : Text → W → Result IssuerError IssuerInspection × W
  unfolding trusted_issuer_url inspect_trusted
  inspect_issuer raw w = elim (trusted_issuer_url raw) [
    | err e ↦ (err e, w)
    | ok issuer ↦ inspect_trusted issuer w
  ]
