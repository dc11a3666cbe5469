-- ===== src/Authority/Tests.antt =====
-- A server that authorises the application, and one whose URL is not secure.
use custd_sdk_go.Base.{
  Text, [], codes, false, none, ok, refl, some, text_eq, is_empty, true, if◌then◌else◌, trim_space,
  ℕ, ◌+◌, ◌∷◌, ◌≡◌, ◌↔◌, ◌⊎◌,
}
use custd_sdk_go.Base.Int.{pos}
use custd_sdk_go.Config.{ClientConfig}
use custd_sdk_go.Errors.{check_status}
use custd_sdk_go.Client.{HttpRequest, answered, is_secure_or_local_http}
use custd_sdk_go.Authority.{
  ApplicationAuthorityRequest, AuthorityHost, HttpResponse, authority_request,
  request_application_authority, check_application_authority,
}
use custd_sdk_go.Authority.Decision.{
  IsCheck, sent_by, Asks, Authorizes, check_application_authority_authorized,
  check_application_authority_sends,
}

abbrev authority_config : ClientConfig ℕ
authority_config = record {
  base_url = codes "https://custd.example";
  acting_company_slug = [];
  command_label = [];
  client_label = [];
  api_key = codes "k";
  client_id = [];
  client_secret = [];
  token_url = [];
  audience = [];
  scopes = [];
  environment = [];
  batch_size = pos 2;
  flush_interval = pos 1;
  max_retries = pos 0;
  max_queue_size = pos 3;
  retry = record {
    max_attempts = pos 2;
    base_delay = pos 1;
    max_delay = pos 1;
    jitter = 20;
    retry_on_statuses = 503 ∷ [];
  };
  compression_enabled = some false;
  compression_threshold = pos 1024;
}

abbrev server : Text → AuthorityHost ℕ
server scheme = record {
  urls = record {
    parse = λ _. some (record { scheme = scheme; host = codes "h"; hostname = codes "h" });
    is_loopback_ip = λ _. false;
  };
  problems = record { as_problem = λ _. none; as_flat = λ _. none };
  marshal = λ r. some r.access_token;
  unmarshal = λ body.
      if text_eq body (codes "{}")
      then some (record { raw_authorized = some true; raw_reason = some (codes "active") })
      else none;
  is_cancelled = λ _. false;
  injected = none;
  send = λ _ w. (answered 200 (codes "{}"), w + 1);
}

abbrev application : ApplicationAuthorityRequest
application = record { access_token = codes "t" }

check_application_authority_authorized_example :
    ((check_application_authority
        (server (codes "https"))
        authority_config
        application
        0).0.0.authorized
      ≡ true)
    ↔ ((body : Text) × Asks (server (codes "https")) authority_config application body
        × ((response : HttpResponse) × ((request_application_authority
                (server (codes "https"))
                authority_config
                (authority_request (server (codes "https")) authority_config application body)
                0).0
              ≡ ok response)
            × Authorizes (server (codes "https")) authority_config response))
check_application_authority_authorized_example =
    check_application_authority_authorized (server (codes "https")) authority_config application 0

check_application_authority_sends_example :
    ((check_application_authority (server (codes "https")) authority_config application 0).1 ≡ 0)
    ⊎ ((request : HttpRequest) × IsCheck
          (server (codes "https"))
          authority_config
          application
          request
        × ((check_application_authority (server (codes "https")) authority_config application 0).1
            ≡ sent_by
                (server (codes "https"))
                authority_config
                (server (codes "https")).injected
                request
                0)
        × (is_empty (trim_space (codes "t")) ≡ false)
        × (is_secure_or_local_http (server (codes "https")).urls authority_config.base_url ≡ true)
        × ((server (codes "https")).is_cancelled 0 ≡ false))
check_application_authority_sends_example =
    check_application_authority_sends (server (codes "https")) authority_config application 0

granted :
    (check_application_authority
      (server (codes "https"))
      authority_config
      application
      0).0.0.authorized
    ≡ true
unfolding check_application_authority codes is_empty trim_space is_secure_or_local_http text_eq
    check_status
granted = refl
