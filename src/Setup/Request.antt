-- ===== src/Setup/Request.antt =====
-- The requests that pass the local validation.
use custd_sdk_go.Base.{
  Text, [], arith, false, none, refl, true, ◌∷◌, ◌≡◌, ◌≢◌, ◌↔◌, is_empty, is_empty_complete,
  trim_space,
}
use custd_sdk_go.Event.{collect_missing_required_fields}
use custd_sdk_go.Client.{UrlParser, is_secure_or_local_http}
use custd_sdk_go.Setup.{ProducerSetupRequest, missing_setup_fields, validate_producer_setup_request}

-- Four texts that are not blank, and two URLs that are https or local.
abbrev pub IsSetup : UrlParser → ProducerSetupRequest → Type 0
IsSetup urls r =
    (trim_space r.base_url ≢ [])
    × (trim_space r.token_url ≢ [])
    × (trim_space r.tenant_slug ≢ [])
    × (trim_space r.client_id ≢ [])
    × (is_secure_or_local_http urls r.base_url ≡ true)
    × (is_secure_or_local_http urls r.token_url ≡ true)

given_text : (s : Text) → is_empty s ≡ false → s ≢ []
unfolding is_empty
given_text [] h e = absurd (ground arith)
given_text (c ∷ s) h e = absurd (ground arith)

all_given :
    (r : ProducerSetupRequest)
    → missing_setup_fields r ≡ []
    → (is_empty (trim_space r.base_url) ≡ false)
      × (is_empty (trim_space r.token_url) ≡ false)
      × (is_empty (trim_space r.tenant_slug) ≡ false)
      × (is_empty (trim_space r.client_id) ≡ false)
unfolding missing_setup_fields collect_missing_required_fields
all_given r h = (ground arith, ground arith, ground arith, ground arith)

-- A request passes exactly if its base URL, token URL, tenant slug and client id are not blank and
-- the two URLs are https or local.
pub validate_producer_setup_request_iff :
    (urls : UrlParser) (r : ProducerSetupRequest)
    → (validate_producer_setup_request urls r ≡ none) ↔ IsSetup urls r
unfolding validate_producer_setup_request
validate_producer_setup_request_iff urls r = (
  λ h.
      let missing : missing_setup_fields r ≡ [] = ground arith in
      let (base, token, tenant, client) = all_given r missing in
      (
        given_text _ base,
        given_text _ token,
        given_text _ tenant,
        given_text _ client,
        ground arith,
        ground arith,
      ),
  λ (base, token, tenant, client, base_secure, token_secure).
      rw
        (
          validate_producer_setup_request,
          missing_setup_fields,
          collect_missing_required_fields,
          is_empty_complete _ base,
          is_empty_complete _ token,
          is_empty_complete _ tenant,
          is_empty_complete _ client,
          base_secure,
          token_secure,
        )
        refl,
)
