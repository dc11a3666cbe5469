-- ===== src/Admin.antt =====
-- admin.go: the transport of the administration client. A request goes to the injected `HTTPClient`
-- or to an `http.Client`; encoding/json and the network are parameters. `R` stands for every
-- response type. Header names are compared as they are written in the SDK.
pub mod Transport
pub mod Routing
pub mod Call
pub mod Operations
pub mod Performing
pub mod Sending
pub mod Bytes
pub mod OneRequest
pub mod AuditExport
pub mod Reading
pub mod Download
mod Tests
use custd_sdk_go.Base.{
  ℕ, ◌*◌, ◌^◌, List, [], ◌∷◌, ◌++◌, Bool, true, false, not, Option, none, some, Result, ok, err,
  Text, codes, is_empty, if◌then◌else◌, text_eq, byte_len, lookup, insert, ltb, ◌==◌, leb, ◌+◌,
  ◌&&◌, any,
}
use custd_sdk_go.Config.{ClientConfig}
use custd_sdk_go.Errors.{ProblemDecoder, SdkError, plain, wrapped, check_status}
use custd_sdk_go.Client.{HttpRequest, trim_right_slashes, client_headers, set_if}
use custd_sdk_go.Url.{Values, encode_values}
use custd_sdk_go.Url.Reading.{cut, parse_query}

pub record AdminResponse : Type 0 where
  pub status_code : ℕ
  pub response_headers : List (Text × Text)
  pub response_body : Text

-- `http.NewRequestWithContext` refused it, the transport failed, the body could not be read, or a
-- response.
pub data AdminReply : Type 0 where
  not_created failed unreadable : Text → AdminReply
  answered : AdminResponse → AdminReply

pub record AdminHost (W P R : Type 0) : Type 0 where
  pub problems : ProblemDecoder
  pub marshal : P → Option Text
  pub unmarshal : Text → Option R
  pub injected : Option (HttpRequest → W → Result SdkError AdminResponse × W)
  pub send : HttpRequest → W → AdminReply × W

-- The world, and the identifier that the context's recorder holds where it has one.
pub record Session (W : Type 0) : Type 0 where
  pub recorder : Option Text
  pub world : W

unfoldable pub record_metadata : Text → Option Text → Option Text
record_metadata id none = none
record_metadata id (some previous) = if is_empty id then some previous else some id

unfoldable pub lower_letter : ℕ → ℕ
lower_letter c = if leb b'A' c && leb c b'Z' then c + 32 else c

-- `strings.EqualFold` on ASCII texts.
unfoldable pub equal_fold : Text → Text → Bool
unfolding lower_letter
equal_fold [] [] = true
equal_fold [] (d ∷ t) = false
equal_fold (c ∷ s) [] = false
equal_fold (c ∷ s) (d ∷ t) = lower_letter c == lower_letter d && equal_fold s t

unfoldable pub response_header : Text → List (Text × Text) → Text
unfolding equal_fold
response_header name [] = []
response_header name ((key, value) ∷ headers) =
    let rest = response_header name headers in if equal_fold key name then value else rest

unfoldable pub request_id_header : Text
request_id_header = codes "X-Request-Id"

-- `headers[key] = value` for every entry.
unfoldable pub merge_headers : List (Text × Text) → List (Text × Text) → List (Text × Text)
merge_headers [] headers = headers
merge_headers ((key, value) ∷ extra) headers = merge_headers extra (insert key value headers)

unfoldable pub company_slug_query_parameter : Text
company_slug_query_parameter = codes "companySlug"

-- `query.Get`
unfoldable pub get_value : Text → Values → Text
get_value key m = elim (lookup key m) [ none ↦ [] | some v ↦ v ]

-- `req.URL` is the path up to the first `?` and the query behind it: what the SDK builds parses, and
-- `String` writes the path again as it was.
unfoldable pub acting_company_path : Text → Text → Text
unfolding company_slug_query_parameter get_value
acting_company_path company path =
    if is_empty company
    then path
    else let (address, query) = cut b'?' path in
      if not (is_empty (get_value company_slug_query_parameter (parse_query query)))
      then path
      else address
        ++ b'?' ∷ encode_values (insert company_slug_query_parameter company (parse_query query))

unfoldable pub max_admin_binary_response_bytes : ℕ
max_admin_binary_response_bytes = 64 * 2 ^ 20

module _ {F : Type 0} (c : ClientConfig F) where
  unfoldable pub endpoint : Text → Text
  endpoint path = trim_right_slashes c.base_url ++ (codes "/api/v1/admin" ++ path)

  unfoldable pub non_admin_endpoint : Text → Text
  non_admin_endpoint path = trim_right_slashes c.base_url ++ (codes "/api/v1" ++ path)

  unfoldable pub apply_request_labels : List (Text × Text) → List (Text × Text)
  apply_request_labels headers =
      set_if (not (is_empty c.command_label)) (codes "X-Custd-Command") c.command_label
        (set_if (not (is_empty c.client_label)) (codes "X-Custd-Client") c.client_label headers)

  -- `withRequestLabels`: the caller's map is copied.
  unfoldable pub with_request_labels : List (Text × Text) → List (Text × Text)
  unfolding apply_request_labels
  with_request_labels headers = apply_request_labels headers
