-- ===== src/Admin/Tests.antt =====
-- Requests with arguments that hold delimiters, and clients that count their calls.
use custd_sdk_go.Base.{
  ℕ, zero, suc, leb, List, [], ◌∷◌, true, false, not, ◌&&◌, none, some, Result, ok, Text, codes,
  All, is_empty, text_eq, text_eq_iff, byte_len, refl, ◌≡◌, ◌↔◌, ◌⊎◌, err, Bool, arith, all,
  if◌then◌else◌,
}
use custd_sdk_go.Base.Int.{pos}
use custd_sdk_go.Config.{ClientConfig}
use custd_sdk_go.Errors.{SdkError}
use custd_sdk_go.Client.{HttpRequest, client_headers}
use custd_sdk_go.Url.Utf8.{is_text, is_text-IsText, are_texts}
use custd_sdk_go.Url.Reading.{cut, parse_query}
use custd_sdk_go.Admin.{
  AdminHost, AdminResponse, answered, Session, acting_company_path, endpoint, get_value,
  company_slug_query_parameter,
}
use custd_sdk_go.Admin.Routing.{server_route, IsName}
use custd_sdk_go.Admin.Transport.{request, request_with_metadata, request_bytes, admin_request}
use custd_sdk_go.Admin.Operations.{
  AdminRequest, admin_call, admin_route, admin_refusal, Refusal, loses_action, schemas,
}
use custd_sdk_go.Admin.Operations.Schemas.{register, schema_route}
use custd_sdk_go.Admin.Performing.{perform}
use custd_sdk_go.Admin.Reading.{admin_call-route, acting_company_path-query, query_value}
use custd_sdk_go.Admin.Bytes.{IsLimit, IsAnswer, IsHandedOn, request_bytes_iff}
use custd_sdk_go.Admin.Sending.{with_metadata, request_agrees}
use custd_sdk_go.Admin.OneRequest.{IsSent, target, with_client, perform-IsOneRequest}

abbrev console_config : ClientConfig ℕ
console_config = record {
  base_url = codes "https://custd.example/";
  acting_company_slug = codes "acme";
  command_label = [];
  client_label = codes "console";
  api_key = codes "k";
  client_id = [];
  client_secret = [];
  token_url = [];
  audience = [];
  scopes = [];
  environment = [];
  batch_size = pos 2;
  flush_interval = pos 1;
  max_retries = pos 0;
  max_queue_size = pos 3;
  retry = record {
    max_attempts = pos 2;
    base_delay = pos 1;
    max_delay = pos 1;
    jitter = 20;
    retry_on_statuses = 503 ∷ [];
  };
  compression_enabled = some false;
  compression_threshold = pos 1024;
}

abbrev created : AdminResponse
created = record {
  status_code = 201;
  response_headers = (codes "x-request-id", codes "r-1") ∷ [];
  response_body = codes "ok";
}

-- The world counts the requests; a payload is its own encoding.
abbrev counting_host : AdminHost ℕ Text Text
counting_host = record {
  problems = record { as_problem = λ _. none; as_flat = λ _. none };
  marshal = λ p. some p;
  unmarshal = λ b. some b;
  injected = none;
  send = λ r w. (answered created, suc w);
}

abbrev counting_client : HttpRequest → ℕ → Result SdkError AdminResponse × ℕ
counting_client r w = (ok created, suc w)

abbrev opening : Session ℕ
opening = record { recorder = some []; world = 0 }

-- A slug that would reshape the path if it were not escaped.
abbrev hostile : AdminRequest Text
hostile = schemas (register (codes "a/../b?c") (codes "d%2fe") (codes "{}"))

-- A test for names.
abbrev is_name : Text → Bool
is_name s =
    is_text s && not (is_empty s) && not (text_eq s (codes ".")) && not (text_eq s (codes ".."))

is_name-IsName : (s : Text) → is_name s ≡ true → IsName s
unfolding is_empty
is_name-IsName s e = (
  is_text-IsText s (ground arith),
  λ blank. absurd (ground (arith, blank)),
  λ dot. absurd (ground (arith, (text_eq_iff s (codes ".")).1 dot)),
  λ dots. absurd (ground (arith, (text_eq_iff s (codes "..")).1 dots)),
)

are_names : (ss : List Text) → all is_name ss ≡ true → All IsName ss
are_names [] e = tt
are_names (s ∷ ss) e = (is_name-IsName s (ground arith), are_names ss (ground arith))

admin_call-route_example : server_route (admin_call hostile).path ≡ some (admin_route hostile)
unfolding admin_route loses_action is_text schema_route codes is_empty text_eq
admin_call-route_example = admin_call-route hostile refl (are_names (admin_route hostile) refl)

abbrev label_path : Text
label_path = codes "/data-labels?includeDisabled=true"

acting_company_path-query_example :
    query_value (codes "companySlug") (acting_company_path (codes "acme") label_path) ≡ (
      if not (is_empty (codes "acme"))
        && is_empty (get_value company_slug_query_parameter (parse_query (cut b'?' label_path).1))
        && text_eq company_slug_query_parameter (codes "companySlug")
      then some (codes "acme")
      else query_value (codes "companySlug") label_path)
unfolding is_text codes parse_query cut are_texts is_empty
acting_company_path-query_example =
    acting_company_path-query (codes "acme") label_path (codes "companySlug")
      (is_text-IsText (codes "acme") refl)
      ((is_text-IsText (codes "includeDisabled") refl, is_text-IsText (codes "true") refl), tt)

request_agrees_example :
    request counting_host console_config (codes "GET") (codes "/tenants") none true opening
    ≡ with_metadata counting_host console_config
        (request_with_metadata counting_host console_config
          (codes "GET")
          (codes "/tenants")
          none
          true
          0)
        opening
request_agrees_example =
    request_agrees counting_host console_config (codes "GET") (codes "/tenants") none true opening

-- A reader that leaves spaces of a body that is too long.
abbrev spaces : ℕ → Text
spaces zero = []
spaces (suc n) = b' ' ∷ spaces n

abbrev spaced : ℕ → Text → Text
spaced n s = if leb (byte_len s) n then s else spaces n

byte_len-spaces : (n : ℕ) → byte_len (spaces n) ≡ n
unfolding byte_len
byte_len-spaces zero = refl
byte_len-spaces (suc n) = omega (arith, byte_len-spaces n)

spaced-IsLimit : IsLimit spaced
spaced-IsLimit = record {
  whole = λ n s short. let fits : leb (byte_len s) n ≡ true = ground arith in rw fits refl;
  full = λ n s long.
      let over : leb (byte_len s) n ≡ false = ground arith in rw over (byte_len-spaces n);
}

abbrev export : HttpRequest
export =
    admin_request counting_host console_config (codes "GET")
      (endpoint console_config (codes "/audit/events/export?format=csv")) []
      (client_headers console_config false)

request_bytes_iff_example :
    ((request_bytes counting_host console_config spaced
        (codes "GET")
        (codes "/audit/events/export?format=csv")
        0).0
      ≡ ok (codes "ok", created.response_headers))
    ↔ ((r : AdminResponse) × IsAnswer counting_host console_config none export 0 r
        × IsHandedOn counting_host console_config r (codes "ok", created.response_headers))
request_bytes_iff_example =
    request_bytes_iff counting_host console_config spaced spaced-IsLimit (codes "GET")
      (codes "/audit/events/export?format=csv") 0 (codes "ok", created.response_headers)

perform-IsOneRequest_example :
    ((admin_refusal hostile ≡ none)
      × IsSent counting_host console_config counting_client
          (admin_call hostile).method
          (target console_config (admin_call hostile))
          (admin_call hostile).payload
          0
          (perform
            (with_client counting_host console_config counting_client)
            console_config
            hostile
            opening).1.world)
    ⊎ ((why : Refusal) × (admin_refusal hostile ≡ some why)
        × (perform
              (with_client counting_host console_config counting_client)
              console_config
              hostile
              opening
            ≡ (err why, opening)))
perform-IsOneRequest_example =
    perform-IsOneRequest counting_host console_config counting_client hostile opening
