-- ===== src/Client.antt =====
-- client.go: `Track`, `Flush`, `Close` and the sending of one batch, run by one goroutine. What
-- other goroutines do between the steps of a flush is in `Delivery`. The world `W` holds the
-- network, the clock and the source of identifiers; the standard library's parsing, marshalling
-- and compression are parameters.
pub mod Secure
pub mod Flushing
pub mod Flusher
pub mod Tracking
mod Tests
use mathlib.Core.Option
use custd_sdk_go.Base.{
  ==_iff, All, Bool, Bool-cases, List, Option, Option-cases, Result, Text, [], all, any, ap, ap₂,
  arith, byte_len, codes, drop, drop-drop, err, fail_if, false, has_prefix, has_prefix-append,
  if◌then◌else◌, inl, inr, insert, is_empty, is_empty_sound, is_none, is_some, is_space, leb,
  leb→le, length, length-append, length-drop, length-take, le→leb, lookup, lookup-insert, ltb,
  ltb→lt, lt→ltb, map, max, min, none, not, ok, refl, reject_if, require, reverse, rune_len, some,
  subst, suc, sym, take, take-append-drop, tests, text_eq, text_eq_sound, text_eq_iff, text_eq_refl,
  trim_left, trim_space, true, zero, ℕ, ◌%◌, ◌&&◌, ◌*◌, ◌++◌, ◌+◌, ◌-◌, ◌/◌, ◌<◌, ◌==◌, ◌>>=◌, ◌>>◌,
  ◌^◌, ◌orelse◌, ◌||◌, ◌↔◌, ◌∙◌, ◌∷◌, ◌≡◌, ◌≢◌, ◌≤◌, ◌⊎◌,
}
use custd_sdk_go.Base.Int.{ℤ, to_ℕ}
use custd_sdk_go.Config.{ClientConfig, RetryConfig}
use custd_sdk_go.Errors.{
  ProblemDecoder, SdkError, request, plain, new_retryable_transport_error, parse_problem,
}
use custd_sdk_go.Batch.{BatchDecoder, check_batch_response, maybe_compress}
use custd_sdk_go.Queue.{Queue, enqueue, dequeue, requeue, new_queue}
use custd_sdk_go.Event.{EventEnvelope, EventError, validate_event, apply_environment_label}
use custd_sdk_go.Retry.{with_retry}

-- `url.Parse`: the parts that the SDK reads.
pub record Url : Type 0 where
  pub scheme : Text
  pub host : Text
  pub hostname : Text

pub record UrlParser : Type 0 where
  pub parse : Text → Option Url
  pub is_loopback_ip : Text → Bool

unfoldable pub is_local_host : UrlParser → Text → Bool
is_local_host p host =
    text_eq host (codes "localhost")
    || text_eq host (codes "host.docker.internal")
    || p.is_loopback_ip host

unfoldable pub is_secure_or_local_http : UrlParser → Text → Bool
is_secure_or_local_http p raw = elim (p.parse raw) [
  | none ↦ false
  | some u ↦
      if is_empty u.host
      then false
      else if text_eq u.scheme (codes "https")
      then true
      else if not (text_eq u.scheme (codes "http"))
      then false
      else is_local_host p u.hostname
]

pub record HttpRequest : Type 0 where
  pub method : Text
  pub url : Text
  pub headers : List (Text × Text)
  pub body : Text

-- `newHTTPRequest` refused it, the transport failed, the body could not be read, or a response.
pub data Reply : Type 0 where
  not_created failed unreadable : Text → Reply
  answered : ℕ → Text → Reply

-- `strings.TrimRight(s, "/")`.
drop_slashes : Text → Text
drop_slashes [] = []
drop_slashes (c ∷ s) = let rest = drop_slashes s in if c == b'/' then rest else c ∷ s

unfoldable pub trim_right_slashes : Text → Text
unfolding drop_slashes
trim_right_slashes s = reverse (drop_slashes (reverse s))

-- An entry of `headers` under a test, `headers[key] = value`.
unfoldable pub set_if : Bool → Text → Text → List (Text × Text) → List (Text × Text)
set_if test key value headers = if test then insert key value headers else headers

unfoldable pub sdk_identity : Text
sdk_identity = codes "go/3.35.2"

unfoldable pub client_headers : {F : Type 0} → ClientConfig F → Bool → List (Text × Text)
client_headers c gzipped =
    set_if (not (is_empty c.command_label)) (codes "X-Custd-Command") c.command_label (
      set_if (not (is_empty c.client_label)) (codes "X-Custd-Client") c.client_label (
        set_if (not (is_empty c.api_key)) (codes "Authorization") (codes "Bearer " ++ c.api_key) (
          set_if gzipped (codes "Content-Encoding") (codes "gzip") (
            (codes "Content-Type", codes "application/json")
            ∷ (codes "X-Custd-Sdk", sdk_identity)
            ∷ []))))

unfoldable pub batch_endpoint : {F : Type 0} → ClientConfig F → Text
unfolding trim_right_slashes
batch_endpoint c = trim_right_slashes c.base_url ++ codes "/api/v1/events/batch"

-- The effects and the library code that the client calls.
pub record Host (W : Type 0) : Type 0 where
  pub urls : UrlParser
  pub decoder : BatchDecoder
  pub marshal : List EventEnvelope → Option Text
  pub gzip : Text → Option Text
  pub send : HttpRequest → W → Reply × W
  pub wait : ℕ → W → Option SdkError × W
  pub uuid : W → Text × W

pub data TrackError : Type 0 where
  invalid : EventError → TrackError
  flush_failed : SdkError → TrackError
  -- The Go code would panic.
  panicked : TrackError

pub record ClientState (W : Type 0) : Type 0 where
  pub queue : Queue EventEnvelope
  pub closed : Bool
  pub world : W

module _ {W : Type 0} (uuid : W → Text × W) where
  -- A field that is empty gets a fresh identifier.
  unfoldable pub draw : Text → W → Text × W
  draw current w = if is_empty current then uuid w else (current, w)

  unfoldable pub fill_envelope_defaults : EventEnvelope → W → EventEnvelope × W
  unfolding draw
  fill_envelope_defaults e w =
      let (u₁, w₁) = draw e.event_uuid w in
      let (u₂, w₂) = draw e.session_id w₁ in
      let (u₃, w₃) = draw e.anonymous_id w₂ in
      (record e { event_uuid = u₁; session_id = u₂; anonymous_id = u₃ }, w₃)

module _ {F W : Type 0} (h : Host W) (c : ClientConfig F) where
  unfoldable pub validate_transport : Option SdkError
  validate_transport =
      reject_if (not (is_secure_or_local_http h.urls c.base_url))
        (plain (codes "custd: base URL must use https unless it targets localhost"))
      orelse reject_if
          (not (is_empty c.token_url) && not (is_secure_or_local_http h.urls c.token_url))
          (plain (codes "custd: token URL must use https unless it targets localhost"))

  unfoldable pub read_reply : ℕ → Reply → Option SdkError
  read_reply sent (not_created m) = some (plain m)
  read_reply sent (failed m) = some (request (new_retryable_transport_error m))
  read_reply sent (unreadable m) = some (plain m)
  read_reply sent (answered code body) =
      check_batch_response h.decoder c.retry.retry_on_statuses code body sent

  unfoldable pub batch_request : Text → Bool → HttpRequest
  batch_request body gzipped = record {
    method = codes "POST";
    url = batch_endpoint c;
    headers = client_headers c gzipped;
    body = body;
  }

  -- One attempt.
  unfoldable pub send_batch : List EventEnvelope → W → Option SdkError × W
  unfolding read_reply batch_request
  send_batch events w = elim (h.marshal events) [
    | none ↦ (some (plain (codes "custd: marshal event batch")), w)
    | some json ↦ elim (maybe_compress h.gzip c.compression_enabled c.compression_threshold json) [
      | none ↦ (some (plain (codes "custd: gzip batch body")), w)
      | some (body, gzipped) ↦
          let (reply, w') = h.send (batch_request body gzipped) w in
          (read_reply (length events) reply, w')
    ]
  ]

  unfoldable pub send_batch_with_retry : List EventEnvelope → W → Option SdkError × W
  unfolding validate_transport
  send_batch_with_retry events w = elim validate_transport [
    | some e ↦ (some e, w)
    | none ↦ with_retry (send_batch events) h.wait c.retry.max_attempts w
  ]

  -- The queue after the send: a failed batch goes back to the front.
  unfoldable pub settle :
      Option SdkError → List EventEnvelope → Queue EventEnvelope → Queue EventEnvelope
  settle none batch q = q
  settle (some e) batch q = requeue batch q

  unfoldable pub send_and_settle :
      List EventEnvelope → Queue EventEnvelope → ClientState W → Option SdkError × ClientState W
  unfolding settle
  send_and_settle batch rest s =
      let (r, w) = send_batch_with_retry batch s.world in
      (r, record s { queue = settle r batch rest; world = w })

  unfoldable pub flush : ClientState W → Option SdkError × ClientState W
  unfolding send_and_settle
  flush s =
      let (batch, rest) = dequeue (to_ℕ c.batch_size) s.queue in
      elim batch [
        | [] ↦ (none, record s { queue = rest })
        | e ∷ es ↦ send_and_settle (e ∷ es) rest s
      ]

  -- `Track` from the enqueue on, with the flush that a full batch triggers.
  unfoldable pub admit : EventEnvelope → ClientState W → Option TrackError × ClientState W
  admit e s = elim (enqueue (apply_environment_label c.environment e) s.queue) [
    | none ↦ (some panicked, s)
    | some (q, n) ↦ elim (leb (to_ℕ c.batch_size) n) [
      | false ↦ (none, record s { queue = q })
      | true ↦ let (r, s') = flush (record s { queue = q }) in (Option.map flush_failed r, s')
    ]
  ]

  unfoldable pub track : EventEnvelope → ClientState W → Option TrackError × ClientState W
  unfolding fill_envelope_defaults admit
  track e s =
      let (e', w) = fill_envelope_defaults h.uuid e s.world in
      elim (validate_event e') [
        | some why ↦ (some (invalid why), record s { world = w })
        | none ↦ admit e' (record s { world = w })
      ]

  -- `closeOnce` makes the second call do nothing. The background flusher has stopped.
  unfoldable pub close : ClientState W → Option SdkError × ClientState W
  unfolding flush
  close s = if s.closed then (none, s) else flush (record s { closed = true })

  unfoldable pub new_client : W → ClientState W
  unfolding new_queue
  new_client w = record { queue = new_queue (to_ℕ c.max_queue_size); closed = false; world = w }
