-- ===== src/Setup.antt =====
-- setup.go: the request for a producer, its local validation, the bundle that is shown, and the
-- scopes that are asked for. The calls of the administration client that `SetupProducer` makes, and
-- the reading of schema files, are left out.
pub mod Scopes
pub mod Request
mod Tests
use custd_sdk_go.Base.{
  List, [], ◌∷◌, ◌++◌, Bool, true, false, not, ◌||◌, Option, none, some, Text, codes, is_empty,
  if◌then◌else◌, trim_space, text_eq, any, reject_if, ◌orelse◌, ◌==◌,
}
use custd_sdk_go.Errors.{SdkError, Problem, as_request}
use custd_sdk_go.Errors.Rendering.{sort_strings}
use custd_sdk_go.Event.{collect_missing_required_fields}
use custd_sdk_go.Client.{UrlParser, is_secure_or_local_http}

pub record ProducerSetupRequest : Type 0 where
  pub base_url : Text
  pub token_url : Text
  pub audience : Text
  pub tenant_slug : Text
  pub company_name : Text
  pub client_id : Text
  pub scopes : List Text
  pub environment : Text
  pub ensure_tenant : Bool
  pub schema_dir : Text

pub data SetupError : Type 0 where
  missing_setup : List Text → SetupError
  insecure_base_url insecure_token_url : SetupError

unfoldable pub missing_setup_fields : ProducerSetupRequest → List Text
unfolding collect_missing_required_fields
missing_setup_fields r = collect_missing_required_fields (
    (codes "base URL", is_empty (trim_space r.base_url))
    ∷ (codes "token URL", is_empty (trim_space r.token_url))
    ∷ (codes "tenant slug", is_empty (trim_space r.tenant_slug))
    ∷ (codes "client ID", is_empty (trim_space r.client_id))
    ∷ [])

unfoldable pub validate_producer_setup_request :
    UrlParser → ProducerSetupRequest → Option SetupError
unfolding missing_setup_fields
validate_producer_setup_request urls r = elim (missing_setup_fields r) [
  | [] ↦
      reject_if (not (is_secure_or_local_http urls r.base_url)) insecure_base_url
      orelse reject_if (not (is_secure_or_local_http urls r.token_url)) insecure_token_url
  | name ∷ names ↦ some (missing_setup (name ∷ names))
]

-- `seen[scope]`
unfoldable pub is_member : Text → List Text → Bool
is_member s seen = any (text_eq s) seen

-- The loop over the scopes, from those that were seen.
unfoldable pub collect_scopes : List Text → List Text → List Text
unfolding is_member
collect_scopes seen [] = []
collect_scopes seen (scope ∷ scopes) =
    elim (is_empty (trim_space scope) || is_member (trim_space scope) seen) [
      | true ↦ collect_scopes seen scopes
      | false ↦ trim_space scope ∷ collect_scopes (trim_space scope ∷ seen) scopes
    ]

unfoldable pub or_default_scope : List Text → List Text
or_default_scope [] = codes "events.write" ∷ []
or_default_scope (s ∷ ss) = s ∷ ss

unfoldable pub normalize_scopes : List Text → List Text
unfolding collect_scopes or_default_scope
normalize_scopes scopes = sort_strings (or_default_scope (collect_scopes [] scopes))
