-- ===== src/Issuer/Inspected.antt =====
-- Where what an inspection returns was read.
use custd_sdk_go.Base.{
  Bool-cases, List, Result, Result-cases, Text, [], arith, codes, err, inl, inr, ok, refl, ℕ, ◌∷◌,
  ◌≡◌, ◌≢◌, sym, subst, ◌++◌, text_eq, text_eq_iff, ok_injective, ap, ◌∙◌,
}
use custd_sdk_go.Issuer.{
  IssuerHost, IssuerError, IssuerInspection, AuthorizationServerMetadata, Jwk, empty_metadata,
  trusted_issuer_url, trusted_issuer_endpoint, fetch_issuer_document, finish_inspection, read_keys,
  follow_metadata, inspect_trusted, inspect_issuer,
}
use custd_sdk_go.Issuer.Origin.{trusted_issuer_url-IsTrusted, trusted_issuer_endpoint-SameOrigin}
use custd_sdk_go.Issuer.Inspection.{IsIssuer, IsOnOrigin}
use custd_sdk_go.Issuer.Documents.{IsReadAt, fetch_issuer_document_ok}

abbrev fetched_as : List Jwk → Result IssuerError (List Jwk)
fetched_as keys = ok keys

finish_inspection_ok :
    (metadata : AuthorizationServerMetadata) (keys : Result IssuerError (List Jwk))
    (r : IssuerInspection)
    → finish_inspection metadata keys ≡ ok r
    → (r.metadata ≡ metadata) × (keys ≡ ok r.keys) × (r.keys ≢ [])
unfolding finish_inspection
finish_inspection_ok metadata (err e) r x = absurd (ground arith)
finish_inspection_ok metadata (ok []) r x = absurd (ground arith)
finish_inspection_ok metadata (ok (key ∷ keys)) r x =
    let same = ok_injective _ r x in
    subst
      (λ s. (s.metadata ≡ metadata) × (fetched_as (key ∷ keys) ≡ fetched_as s.keys) × (s.keys ≢ []))
      same (refl, refl, λ e. absurd (ground arith))

module _ {W : Type 0} (h : IssuerHost W) (retry_set : List ℕ) where
  -- The keys were read, behind the metadata, at the URL that the metadata names, which is trusted
  -- and on the issuer's origin.
  abbrev pub AreKeysOf : Text → AuthorizationServerMetadata → List Jwk → W → W → Type 0
  AreKeysOf issuer metadata keys before after =
      (url : Text) × IsOnOrigin h retry_set metadata.jwks_uri issuer url
      × IsReadAt h retry_set h.decode_keys [] url before keys after

  follow_metadata_ok :
      (issuer : Text) (metadata : AuthorizationServerMetadata) (w : W) (r : IssuerInspection)
      → (follow_metadata h retry_set issuer (ok metadata) w).0 ≡ ok r
      → (r.metadata ≡ metadata)
        × (metadata.issuer ≡ issuer)
        × (r.keys ≢ [])
        × AreKeysOf issuer metadata r.keys w (follow_metadata h retry_set issuer (ok metadata) w).1
  unfolding follow_metadata read_keys
  follow_metadata_ok issuer metadata w r x = elim (Bool-cases (text_eq metadata.issuer issuer)) [
    | inr differs ↦ absurd (ground arith)
    | inl same ↦
        elim (Result-cases (trusted_issuer_endpoint h retry_set metadata.jwks_uri issuer)) [
          | inl (e, refused) ↦ absurd (ground arith)
          | inr (url, found) ↦
              let (kept, fetched, some_keys) =
                finish_inspection_ok metadata _ r (rw (same, follow_metadata, found) at x) in
              rw (same, follow_metadata, found)
                (
                  kept,
                  (text_eq_iff metadata.issuer issuer).0 same,
                  some_keys,
                  (
                    url,
                    trusted_issuer_endpoint-SameOrigin h retry_set metadata.jwks_uri issuer url
                        found,
                    fetch_issuer_document_ok h retry_set h.decode_keys [] r.keys url w fetched,
                  ),
                )
        ]
  ]

  followed_ok :
      (issuer : Text) (found : Result IssuerError AuthorizationServerMetadata) (w : W)
      (r : IssuerInspection)
      → (follow_metadata h retry_set issuer found w).0 ≡ ok r
      → (found ≡ ok r.metadata)
        × (r.metadata.issuer ≡ issuer)
        × (r.keys ≢ [])
        × AreKeysOf issuer r.metadata r.keys w (follow_metadata h retry_set issuer found w).1
  unfolding follow_metadata
  followed_ok issuer (err e) w r x = absurd (ground arith)
  followed_ok issuer (ok metadata) w r x =
      let (kept, named, some_keys, keys) = follow_metadata_ok issuer metadata w r x in
      (
        ap ok (sym kept),
        ap (λ m. m.issuer) kept ∙ named,
        some_keys,
        subst
            (λ m.
              AreKeysOf issuer m r.keys w (follow_metadata h retry_set issuer (ok metadata) w).1)
            (sym kept) keys,
      )

  inspect_trusted_ok :
      (issuer : Text) (w : W) (r : IssuerInspection)
      → (inspect_trusted h retry_set issuer w).0 ≡ ok r
      → (r.metadata.issuer ≡ issuer)
        × (r.keys ≢ [])
        × ((between : W) × IsReadAt h retry_set h.decode_metadata empty_metadata
              (issuer ++ codes "/.well-known/oauth-authorization-server")
              w
              r.metadata
              between
            × AreKeysOf issuer r.metadata r.keys between (inspect_trusted h retry_set issuer w).1)
  unfolding inspect_trusted
  inspect_trusted_ok issuer w r x =
      let url = issuer ++ codes "/.well-known/oauth-authorization-server" in
      let fetched = fetch_issuer_document h retry_set h.decode_metadata empty_metadata url w in
      let (found, named, some_keys, keys) = followed_ok issuer fetched.0 fetched.1 r x in
      (
        named,
        some_keys,
        (
          fetched.1,
          fetch_issuer_document_ok h retry_set h.decode_metadata empty_metadata r.metadata url w
              found,
          keys,
        ),
      )

  -- What an inspection returns is the metadata that the discovery document of the trusted issuer of
  -- `raw` holds, which names that issuer, and at least one key, all of them read behind it from the
  -- URL that this metadata gives for keys, which is trusted and on the issuer's origin; both were
  -- answered with 2xx, and nothing else was requested.
  pub inspect_issuer_ok :
      (raw : Text) (w : W) (r : IssuerInspection)
      → (inspect_issuer h retry_set raw w).0 ≡ ok r
      → IsIssuer h retry_set raw r.metadata.issuer
        × (r.keys ≢ [])
        × ((between : W) × IsReadAt h retry_set h.decode_metadata empty_metadata
              (r.metadata.issuer ++ codes "/.well-known/oauth-authorization-server")
              w
              r.metadata
              between
            × AreKeysOf r.metadata.issuer r.metadata r.keys between
                (inspect_issuer h retry_set raw w).1)
  unfolding inspect_issuer
  inspect_issuer_ok raw w r x = elim (Result-cases (trusted_issuer_url h retry_set raw)) [
    | inl (e, refused) ↦ absurd (ground arith)
    | inr (issuer, found) ↦
        let (named, some_keys, (between, metadata, keys)) =
          inspect_trusted_ok issuer w r (rw (found, inspect_issuer) at x) in
        let trusted = trusted_issuer_url-IsTrusted h retry_set raw issuer found in
        rw (found, inspect_issuer)
          (
            subst (IsIssuer h retry_set raw) (sym named) trusted,
            some_keys,
            subst
                (λ i.
                  (v : W) × IsReadAt h retry_set h.decode_metadata empty_metadata
                    (i ++ codes "/.well-known/oauth-authorization-server") w r.metadata v
                  × AreKeysOf i r.metadata r.keys v (inspect_trusted h retry_set issuer w).1)
                (sym named) (between, metadata, keys),
          )
  ]
