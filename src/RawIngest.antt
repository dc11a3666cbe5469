-- ===== src/RawIngest.antt =====
-- raw_ingest.go: the upload of raw lines: the source target, the prepared request with its
-- idempotency key, the one request that is sent, and the reading of its acceptance. The escaping of
-- query values by net/url and the readings of JSON by encoding/json are parameters.
pub mod Receipt
pub mod Checks
pub mod Replies
pub mod Upload
mod Tests
use custd_sdk_go.Base.{
  ℕ, ◌+◌, List, [], ◌∷◌, ◌++◌, Bool, true, false, not, ◌&&◌, ◌||◌, Option, none, some, Result, ok,
  err, Text, codes, is_empty, if◌then◌else◌, leb, ltb, ◌>>=◌, insert, reject_if, ◌orelse◌,
}
use custd_sdk_go.Config.{ClientConfig}
use custd_sdk_go.Errors.{
  ProblemDecoder, SdkError, plain, wrapped, check_status, is_retryable_status,
}
use custd_sdk_go.Client.{
  HttpRequest, Reply, not_created, failed, unreadable, answered, client_headers, set_if,
  trim_right_slashes,
}
use custd_sdk_go.DataScope.{valid_data_scope_code, is_data_scope_uuid}
use custd_sdk_go.Ids.{Bytes16, new_raw_request_idempotency_key, raw_key_is_valid}
use custd_sdk_go.Response.{
  ResponseError, RawFields, JsonReader, decode_json_object, require_json_boolean,
  require_json_natural,
}

pub record RawSourceTarget : Type 0 where
  pub sub_client : Text
  pub resource : Text

unfoldable pub target_is_zero : RawSourceTarget → Bool
target_is_zero t = is_empty t.sub_client && is_empty t.resource

pub record RawIngestInput : Type 0 where
  pub content : Text
  pub parser_uuid : Text
  pub target : Option RawSourceTarget

pub record RawIngestRequest : Type 0 where
  pub content : Text
  pub parser_uuid : Text
  pub target : Option RawSourceTarget
  pub idempotency_key : Text

-- The clock and the random bytes are arguments.
unfoldable pub new_raw_ingest_request : RawIngestInput → ℕ → Bytes16 → RawIngestRequest
new_raw_ingest_request input millis bytes = record {
  content = input.content;
  parser_uuid = input.parser_uuid;
  target = input.target;
  idempotency_key = new_raw_request_idempotency_key millis bytes;
}

pub record RawIngestResult : Type 0 where
  pub success : Bool
  pub processed : ℕ
  pub failed : ℕ

-- Why an acceptance is unknown.
pub data RawCause : Type 0 where
  transport unread_body : Text → RawCause
  returned_status : ℕ → RawCause
  malformed_body : ResponseError → RawCause

pub data RawError : Type 0 where
  no_parser parser_not_uuid bad_target bad_key : RawError
  -- The error of `checkStatus`, or of the creation of the request.
  refused : SdkError → RawError
  -- `RawAcceptanceUnknownError`, with the key of the request.
  acceptance_unknown : RawCause → Text → RawError

-- `RawSourceTarget.Validate`.
unfoldable pub validate_source_target : RawSourceTarget → Option RawError
unfolding target_is_zero
validate_source_target t =
    if target_is_zero t
    then none
    else reject_if
        (not (valid_data_scope_code t.sub_client) || not (valid_data_scope_code t.resource))
        bad_target

unfoldable pub validate_optional_target : Option RawSourceTarget → Option RawError
unfolding validate_source_target
validate_optional_target none = none
validate_optional_target (some t) = validate_source_target t

-- The checks of `rawIngestPath`.
unfoldable pub check_raw_path : RawIngestRequest → Option RawError
unfolding validate_optional_target
check_raw_path r =
    reject_if (is_empty r.parser_uuid) no_parser
    orelse reject_if (not (is_data_scope_uuid r.parser_uuid)) parser_not_uuid
    orelse validate_optional_target r.target

module _ (escape : Text → Text) where
  -- `Encode` sorts by key.
  unfoldable pub target_query : Option RawSourceTarget → Text
  target_query none = []
  target_query (some t) =
      if target_is_zero t
      then []
      else codes "?resource=" ++ escape t.resource ++ codes "&subClient=" ++ escape t.sub_client

  unfoldable pub raw_ingest_path : RawIngestRequest → Result RawError Text
  unfolding check_raw_path target_query
  raw_ingest_path r = elim (check_raw_path r) [
    | some e ↦ err e
    | none ↦ ok (codes "/api/v1/raw" ++ target_query r.target)
  ]

module _ (json : JsonReader) where
  unfoldable pub decode_raw_ingest_result : Text → Result ResponseError RawIngestResult
  decode_raw_ingest_result body = decode_json_object json body >>= λ fields.
      require_json_boolean json fields (codes "success") >>= λ success.
      require_json_natural json fields (codes "processed") >>= λ processed.
      require_json_natural json fields (codes "failed") >>= λ failed.
      ok (record { success = success; processed = processed; failed = failed })

  unfoldable pub raw_ingest_result_from_body : Text → Text → Result RawError RawIngestResult
  raw_ingest_result_from_body body key = elim (decode_raw_ingest_result body) [
    | err e ↦ err (acceptance_unknown (malformed_body e) key)
    | ok result ↦ ok result
  ]

-- The effects and the library code that an upload calls.
pub record RawHost (W : Type 0) : Type 0 where
  pub problems : ProblemDecoder
  pub json : JsonReader
  pub escape : Text → Text
  pub send : HttpRequest → W → Reply × W

module _ {F W : Type 0} (h : RawHost W) (c : ClientConfig F) where
  unfoldable pub check_raw_status : ℕ → Text → Text → Option RawError
  check_raw_status code body key =
      if leb 200 code && ltb code 300
      then none
      else if is_retryable_status code c.retry.retry_on_statuses
      then some (acceptance_unknown (returned_status code) key)
      else elim (check_status h.problems c.retry.retry_on_statuses code body) [
        | none ↦ none
        | some e ↦ some (refused e)
      ]

  unfoldable pub read_raw_reply : Text → Reply → Result RawError RawIngestResult
  unfolding check_raw_status raw_ingest_result_from_body
  read_raw_reply key (not_created m) =
      err (refused (wrapped (codes "custd: create raw ingest request") (plain m)))
  read_raw_reply key (failed m) = err (acceptance_unknown (transport m) key)
  read_raw_reply key (unreadable m) = err (acceptance_unknown (unread_body m) key)
  read_raw_reply key (answered code body) = elim (check_raw_status code body key) [
    | some e ↦ err e
    | none ↦ raw_ingest_result_from_body h.json body key
  ]

  unfoldable pub raw_headers : RawIngestRequest → List (Text × Text)
  raw_headers r =
      set_if (not (is_empty r.idempotency_key)) (codes "Idempotency-Key") r.idempotency_key (
        insert (codes "X-Parser-UUID") r.parser_uuid (
          insert (codes "Content-Type") (codes "text/plain; charset=utf-8")
            (client_headers c false)))

  unfoldable pub raw_request : Text → RawIngestRequest → HttpRequest
  unfolding raw_headers
  raw_request path r = record {
    method = codes "POST";
    url = trim_right_slashes c.base_url ++ path;
    headers = raw_headers r;
    body = r.content;
  }

  unfoldable pub send_raw : Text → RawIngestRequest → W → Result RawError RawIngestResult × W
  unfolding raw_request read_raw_reply
  send_raw path r w =
      let (reply, w') = h.send (raw_request path r) w in
      (read_raw_reply r.idempotency_key reply, w')

  unfoldable pub ingest_raw_lines : RawIngestRequest → W → Result RawError RawIngestResult × W
  unfolding raw_ingest_path send_raw
  ingest_raw_lines r w = elim (raw_ingest_path h.escape r) [
    | err e ↦ (err e, w)
    | ok path ↦
        if not (is_empty r.idempotency_key) && not (raw_key_is_valid r.idempotency_key)
        then (err bad_key, w)
        else send_raw path r w
  ]
