-- ===== src/Issuer/Tests.antt =====
-- An issuer on `https://id`, with the requests kept as the world.
use custd_sdk_go.Base.{
  All, List, Text, [], codes, false, none, ok, refl, some, text_eq, ◌∷◌, ◌≡◌, ◌≢◌, ◌++◌, arith,
  is_empty, trim_space,
}
use custd_sdk_go.Errors.{check_status}
use custd_sdk_go.Client.{HttpRequest, answered, is_secure_or_local_http, trim_right_slashes}
use custd_sdk_go.Issuer.{
  IssuerUrl, AuthorizationServerMetadata, Jwk, IssuerInspection, IssuerHost, is_not_plain,
  empty_metadata, inspect_issuer,
}
use custd_sdk_go.Issuer.Documents.{IsReadAt}
use custd_sdk_go.Issuer.Inspected.{AreKeysOf, inspect_issuer_ok}
use custd_sdk_go.Issuer.Inspection.{IsIssuer, IsPublic, inspect_issuer-preserves}

abbrev id_url : Text → IssuerUrl
id_url printed = record {
  scheme = codes "https";
  host = codes "id";
  has_user = false;
  fragment = [];
  printed = printed;
}

abbrev id_metadata : AuthorizationServerMetadata
id_metadata = record {
  issuer = codes "https://id";
  authorization_endpoint = [];
  token_endpoint = [];
  jwks_uri = codes "https://id/keys";
  device_authorization_endpoint = [];
}

abbrev id_key : Jwk
id_key = record {
  key_id = codes "k1";
  key_type = codes "RSA";
  key_use = codes "sig";
  algorithm = codes "RS256";
}

abbrev id_host : IssuerHost (List HttpRequest)
id_host = record {
  urls = record {
    parse = λ _. some (record { scheme = codes "https"; host = codes "id"; hostname = codes "id" });
    is_loopback_ip = λ _. false;
  };
  parse = λ s. some (id_url s);
  equal_fold = text_eq;
  problems = record { as_problem = λ _. none; as_flat = λ _. none };
  decode_metadata = λ _. some id_metadata;
  decode_keys = λ _. some (id_key ∷ []);
  injected = none;
  send = λ check request w. (answered 200 (codes "{}"), request ∷ w);
}

abbrev inspected : IssuerInspection
inspected = record { metadata = id_metadata; keys = id_key ∷ [] }

inspection_done : (inspect_issuer id_host (503 ∷ []) (codes "https://id") []).0 ≡ ok inspected
unfolding inspect_issuer codes is_not_plain is_empty is_secure_or_local_http text_eq check_status
    trim_right_slashes trim_space
inspection_done = refl

inspect_issuer_ok_example :
    IsIssuer id_host (503 ∷ []) (codes "https://id") inspected.metadata.issuer
    × (inspected.keys ≢ [])
    × ((between : List HttpRequest) × IsReadAt id_host
          (503 ∷ [])
          id_host.decode_metadata
          empty_metadata
          (inspected.metadata.issuer ++ codes "/.well-known/oauth-authorization-server")
          []
          inspected.metadata
          between
        × AreKeysOf id_host
            (503 ∷ [])
            inspected.metadata.issuer
            inspected.metadata
            inspected.keys
            between
            (inspect_issuer id_host (503 ∷ []) (codes "https://id") []).1)
inspect_issuer_ok_example =
    inspect_issuer_ok id_host (503 ∷ []) (codes "https://id") [] inspected inspection_done

inspect_issuer-preserves_example :
    All
      (IsPublic id_host (503 ∷ []) (codes "https://id"))
      (inspect_issuer id_host (503 ∷ []) (codes "https://id") []).1
inspect_issuer-preserves_example =
    inspect_issuer-preserves id_host (503 ∷ []) (codes "https://id")
      (All (IsPublic id_host (503 ∷ []) (codes "https://id")))
      (λ client given request w is_public before. absurd (ground (arith, given)))
      (λ check keeps request w is_public before. (is_public, before)) [] tt
