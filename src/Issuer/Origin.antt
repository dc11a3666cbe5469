-- ===== src/Issuer/Origin.antt =====
-- The URLs that an inspection trusts.
use custd_sdk_go.Base.{
  List, Option-cases, Text, arith, false, inl, inr, none, ok, some, true, ℕ, ◌≡◌, ◌∷◌, is_empty,
  trim_space,
}
use custd_sdk_go.Client.{is_secure_or_local_http, trim_right_slashes}
use custd_sdk_go.Issuer.{
  IssuerUrl, IssuerHost, is_not_plain, trusted_url, trusted_issuer_url, on_origin, trusted_endpoint,
  trusted_issuer_endpoint, RedirectCheck, same_origin_redirect,
}

module _ {W : Type 0} (h : IssuerHost W) where
  -- A URL with a host, no user and no fragment, that is https or local.
  abbrev pub IsTrusted : IssuerUrl → Type 0
  IsTrusted u =
      (is_empty u.host ≡ false)
      × (u.has_user ≡ false)
      × (is_empty u.fragment ≡ true)
      × (is_secure_or_local_http h.urls u.printed ≡ true)

  -- The scheme and the host of the two URLs agree up to case.
  abbrev pub SameOrigin : IssuerUrl → IssuerUrl → Type 0
  SameOrigin u o = (h.equal_fold u.scheme o.scheme ≡ true) × (h.equal_fold u.host o.host ≡ true)

  pub trusted_issuer_url-IsTrusted :
      (retry_set : List ℕ) (raw issuer : Text)
      → trusted_issuer_url h retry_set raw ≡ ok issuer
      → (u : IssuerUrl) × (h.parse (trim_space raw) ≡ some u)
        × IsTrusted u
        × (issuer ≡ trim_right_slashes u.printed)
  unfolding trusted_issuer_url trusted_url is_not_plain
  trusted_issuer_url-IsTrusted retry_set raw issuer e =
      elim (Option-cases (h.parse (trim_space raw))) [
        | inl bad ↦ absurd (ground arith)
        | inr (u, parsed) ↦
            (u, parsed, (ground arith, ground arith, ground arith, ground arith), ground arith)
      ]

  pub trusted_issuer_endpoint-SameOrigin :
      (retry_set : List ℕ) (raw issuer url : Text)
      → trusted_issuer_endpoint h retry_set raw issuer ≡ ok url
      → (u : IssuerUrl) × (o : IssuerUrl) × (h.parse (trim_space raw) ≡ some u)
        × IsTrusted u
        × (h.parse issuer ≡ some o)
        × SameOrigin u o
        × (url ≡ u.printed)
  unfolding trusted_issuer_endpoint trusted_endpoint is_not_plain on_origin
  trusted_issuer_endpoint-SameOrigin retry_set raw issuer url e =
      elim (Option-cases (h.parse (trim_space raw))) [
        | inl bad ↦ absurd (ground arith)
        | inr (u, parsed) ↦ elim (Option-cases (h.parse issuer)) [
          | inl bad ↦ absurd (ground arith)
          | inr (o, known) ↦ (
            u,
            o,
            parsed,
            (ground arith, ground arith, ground arith, ground arith),
            known,
            (ground arith, ground arith),
            ground arith,
          )
        ]
      ]

  -- What a redirect check lets pass stays on the origin of the first request.
  abbrev pub KeepsOrigin : RedirectCheck → Type 0
  KeepsOrigin check =
      (u first : IssuerUrl) (later : List IssuerUrl)
      → check u (first ∷ later) ≡ none
      → SameOrigin u first

  pub same_origin_redirect-KeepsOrigin :
      (retry_set : List ℕ) → KeepsOrigin (same_origin_redirect h retry_set)
  unfolding same_origin_redirect
  same_origin_redirect-KeepsOrigin retry_set u first later e = (ground arith, ground arith)
