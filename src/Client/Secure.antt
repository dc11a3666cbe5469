-- ===== src/Client/Secure.antt =====
-- The URLs that the client sends to, and what `validateTransport` refuses.
use custd_sdk_go.Base.{
  Bool-cases, Option-cases, Text, [], arith, codes, false, inl, inr, is_empty, refl, some, text_eq,
  text_eq_iff, true, ◌∷◌, ◌≡◌, ◌≢◌, ◌⊎◌,
}
use custd_sdk_go.Config.{ClientConfig}
use custd_sdk_go.Errors.{SdkError, plain}
use custd_sdk_go.Client.{
  Host, Url, UrlParser, is_local_host, is_secure_or_local_http, validate_transport,
}

module _ (urls : UrlParser) where
  -- `localhost`, the host of a container, or a loopback address.
  abbrev pub IsLocal : Text → Type 0
  IsLocal host =
      (host ≡ codes "localhost")
      ⊎ ((host ≡ codes "host.docker.internal") ⊎ (urls.is_loopback_ip host ≡ true))

  -- A URL with a host whose scheme is https, or http to a local host.
  abbrev pub IsSecure : Text → Type 0
  IsSecure raw =
      (u : Url) × (urls.parse raw ≡ some u)
      × (u.host ≢ [])
      × ((u.scheme ≡ codes "https") ⊎ ((u.scheme ≡ codes "http") × IsLocal u.hostname))

  is_local_host-IsLocal : (host : Text) → is_local_host urls host ≡ true → IsLocal host
  unfolding is_local_host
  is_local_host-IsLocal host e = elim (Bool-cases (text_eq host (codes "localhost"))) [
    | inl named ↦ inl ((text_eq_iff host (codes "localhost")).0 named)
    | inr other ↦ elim (Bool-cases (text_eq host (codes "host.docker.internal"))) [
      | inl docker ↦ inr (inl ((text_eq_iff host (codes "host.docker.internal")).0 docker))
      | inr neither ↦ inr (inr (ground arith))
    ]
  ]

  nonempty_ne : (s : Text) → is_empty s ≡ false → s ≢ []
  unfolding is_empty
  nonempty_ne s e same = ground (arith, same)

  pub is_secure_or_local_http-IsSecure :
      (raw : Text) → is_secure_or_local_http urls raw ≡ true → IsSecure raw
  unfolding is_secure_or_local_http
  is_secure_or_local_http-IsSecure raw e = elim (Option-cases (urls.parse raw)) [
    | inl bad ↦ absurd (ground arith)
    | inr (u, parsed) ↦ elim (Bool-cases (is_empty u.host)) [
      | inl blank ↦ absurd (ground arith)
      | inr given ↦ elim (Bool-cases (text_eq u.scheme (codes "https"))) [
        | inl https ↦ (
          u,
          parsed,
          nonempty_ne u.host given,
          inl ((text_eq_iff u.scheme (codes "https")).0 https),
        )
        | inr other ↦ elim (Bool-cases (text_eq u.scheme (codes "http"))) [
          | inl http ↦ (
            u,
            parsed,
            nonempty_ne u.host given,
            inr (
              (text_eq_iff u.scheme (codes "http")).0 http,
              is_local_host-IsLocal u.hostname (ground arith),
            ),
          )
          | inr neither ↦ absurd (ground arith)
        ]
      ]
    ]
  ]

module _ {F W : Type 0} (h : Host W) (c : ClientConfig F) where
  -- The base URL, or a token URL that is configured, is neither https nor local.
  abbrev pub IsInsecure : Type 0
  IsInsecure =
      (¬ IsSecure h.urls c.base_url) ⊎ ((c.token_url ≢ []) × (¬ IsSecure h.urls c.token_url))

  refused_url : (raw : Text) → (¬ IsSecure h.urls raw) → is_secure_or_local_http h.urls raw ≡ false
  refused_url raw insecure = elim (Bool-cases (is_secure_or_local_http h.urls raw)) [
    | inl secure ↦ absurd (insecure (is_secure_or_local_http-IsSecure h.urls raw secure))
    | inr refused ↦ refused
  ]

  given_url : (raw : Text) → raw ≢ [] → is_empty raw ≡ false
  unfolding is_empty
  given_url [] given = absurd (given refl)
  given_url (x ∷ raw) given = refl

  abbrev base_refused : SdkError
  base_refused = plain (codes "custd: base URL must use https unless it targets localhost")

  abbrev token_refused : SdkError
  token_refused = plain (codes "custd: token URL must use https unless it targets localhost")

  pub IsInsecure-refused : IsInsecure → (e : SdkError) × (validate_transport h c ≡ some e)
  unfolding validate_transport
  IsInsecure-refused (inl base) =
      let refused = refused_url c.base_url base in
      (base_refused, rw (refused, validate_transport) refl)
  IsInsecure-refused (inr (given, token)) =
      let refused = refused_url c.token_url token in
      let named = given_url c.token_url given in
      elim (Bool-cases (is_secure_or_local_http h.urls c.base_url)) [
        | inl secure ↦ (token_refused, rw (secure, named, refused, validate_transport) refl)
        | inr base ↦ (base_refused, rw (base, validate_transport) refl)
      ]
