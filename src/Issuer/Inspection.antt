-- ===== src/Issuer/Inspection.antt =====
-- What an inspection sends.
use custd_sdk_go.Base.{
  Bool-cases, List, Option, Option-cases, Result, Result-cases, Text, [], codes, err, inl, inr, ok,
  refl, some, ℕ, ◌∷◌, ◌≡◌, ◌⊎◌, trim_space, ◌++◌, text_eq,
}
use custd_sdk_go.Errors.{SdkError}
use custd_sdk_go.Authority.{HttpResponse}
use custd_sdk_go.Client.{HttpRequest, trim_right_slashes}
use custd_sdk_go.Issuer.{
  IssuerUrl, IssuerHost, IssuerError, AuthorizationServerMetadata, RedirectCheck,
  same_origin_redirect, fetch_via, empty_metadata, issuer_request, trusted_issuer_url,
  trusted_issuer_endpoint, fetch_issuer_document, read_keys, follow_metadata, inspect_trusted,
  inspect_issuer,
}
use custd_sdk_go.Issuer.Origin.{
  IsTrusted, SameOrigin, KeepsOrigin, same_origin_redirect-KeepsOrigin,
  trusted_issuer_url-IsTrusted, trusted_issuer_endpoint-SameOrigin,
}

module _ {W : Type 0} (h : IssuerHost W) (retry_set : List ℕ) where
  -- The issuer is the text of the trusted URL that `raw` parses to, less its slashes at the end.
  abbrev pub IsIssuer : Text → Text → Type 0
  IsIssuer raw issuer =
      (u : IssuerUrl) × (h.parse (trim_space raw) ≡ some u)
      × IsTrusted h u
      × (issuer ≡ trim_right_slashes u.printed)

  -- The text of a trusted URL on the issuer's origin, as it is parsed from `raw`.
  abbrev pub IsOnOrigin : Text → Text → Text → Type 0
  IsOnOrigin raw issuer url =
      (u : IssuerUrl) × (o : IssuerUrl) × (h.parse (trim_space raw) ≡ some u)
      × IsTrusted h u
      × (h.parse issuer ≡ some o)
      × SameOrigin h u o
      × (url ≡ u.printed)

  -- A request of the inspection of `raw`: no header but `Accept`, so no credential, to the discovery
  -- document of the trusted issuer or to a trusted URL on its origin.
  abbrev pub IsPublic : Text → HttpRequest → Type 0
  IsPublic raw request =
      (request.headers ≡ (codes "Accept", codes "application/json") ∷ [])
      × (request.method ≡ codes "GET")
      × ((issuer : Text) × IsIssuer raw issuer
          × ((request.url ≡ issuer ++ codes "/.well-known/oauth-authorization-server")
              ⊎ ((named : Text) × IsOnOrigin named issuer request.url)))

  module _ (raw : Text) (P : W → Type 0)
      (asked : (client : HttpRequest → W → Result SdkError HttpResponse × W)
        → h.injected ≡ some client
        → (request : HttpRequest) (w : W) → IsPublic raw request
        → P w
        → P (client request w).1)
      (followed : (check : RedirectCheck)
        → KeepsOrigin h check
        → (request : HttpRequest) (w : W) → IsPublic raw request
        → P w
        → P (h.send check request w).1) where
    fetch-preserves :
        {A : Type 0} (decode : Text → Option A) (blank : A) (url : Text) (w : W)
        → IsPublic raw (issuer_request url)
        → P w
        → P (fetch_issuer_document h retry_set decode blank url w).1
    unfolding fetch_issuer_document fetch_via
    fetch-preserves decode blank url w is_public p = elim (Option-cases h.injected) [
      | inl missing ↦ rw missing (
          followed (same_origin_redirect h retry_set) (same_origin_redirect-KeepsOrigin h retry_set)
            (issuer_request url) w is_public p)
      | inr (client, given) ↦ rw given (asked client given (issuer_request url) w is_public p)
    ]

    follow_metadata-preserves :
        (issuer : Text) (metadata : Result IssuerError AuthorizationServerMetadata) (w : W)
        → IsIssuer raw issuer
        → P w
        → P (follow_metadata h retry_set issuer metadata w).1
    unfolding follow_metadata read_keys issuer_request
    follow_metadata-preserves issuer (err e) w trusted p = p
    follow_metadata-preserves issuer (ok metadata) w trusted p =
        elim (Bool-cases (text_eq metadata.issuer issuer)) [
          | inr differs ↦ rw (differs, follow_metadata) p
          | inl same ↦
              elim (Result-cases (trusted_issuer_endpoint h retry_set metadata.jwks_uri issuer)) [
                | inl (e, refused) ↦ rw (same, follow_metadata, refused) p
                | inr (url, found) ↦
                    let on_origin =
                      trusted_issuer_endpoint-SameOrigin h retry_set metadata.jwks_uri issuer url
                        found in
                    rw (same, follow_metadata, found)
                      (fetch-preserves h.decode_keys [] url w
                        (refl, refl, (issuer, trusted, inr (metadata.jwks_uri, on_origin))) p)
              ]
        ]

    -- Whatever is kept true of the world by the requests that carry no credential and go to the
    -- trusted issuer or its origin, an inspection keeps true. They go to the injected client, or to
    -- an `http.Client` under a redirect check that lets nothing pass but the origin of the first
    -- request. What the `http.Client` itself adds to a request that follows a redirect is its own.
    pub inspect_issuer-preserves : (w : W) → P w → P (inspect_issuer h retry_set raw w).1
    unfolding inspect_issuer inspect_trusted issuer_request
    inspect_issuer-preserves w p = elim (Result-cases (trusted_issuer_url h retry_set raw)) [
      | inl (e, refused) ↦ rw (refused, inspect_issuer) p
      | inr (issuer, found) ↦
          let trusted = trusted_issuer_url-IsTrusted h retry_set raw issuer found in
          rw (found, inspect_issuer)
            (follow_metadata-preserves issuer _ _ trusted (
              fetch-preserves h.decode_metadata empty_metadata _ w
                (refl, refl, (issuer, trusted, inl refl)) p))
    ]
