-- ===== src/Admin/Download/Integrity.antt =====
-- An offboarding download is accepted exactly when its headers describe its body.
use custd_sdk_go.Base.{
  ℕ, List, [], ◌∷◌, ◌*◌, ◌/◌, ◌%◌, ◌≤◌, ◌<◌, true, false, not, Option, none, some, Result, ok, Text,
  All, all, byte_len, length, ltb, ◌==◌, text_eq, text_eq_refl, text_eq_sound, ◌>>◌, trim_space,
  ◌≡◌, ◌↔◌, refl, sym, ap, ◌∙◌, arith, ok_injective, bind_ok, fail_if, fail_if_ok,
}
use custd_sdk_go.Errors.{SdkError}
use custd_sdk_go.Admin.Download.{
  OffboardingDownloadResponse, max_offboarding_download_bytes, oversized, checksum_invalid,
  checksum_mismatch, length_mismatch, lower_hex, encode_hex, to_lower, is_hex, is_sha256_text,
  parse_length, read_length, check_download, verified_offboarding_download,
}

lower_hex-is_hex : (n : ℕ) → n < 16 → is_hex (lower_hex n) ≡ true
unfolding is_hex lower_hex
lower_hex-is_hex n h = ground arith

encode_hex-all : (bs : List ℕ) → All (λ b. b < 256) bs → all is_hex (encode_hex bs) ≡ true
unfolding encode_hex
encode_hex-all [] h = refl
encode_hex-all (b ∷ bs) h =
    rw (lower_hex-is_hex (b / 16) (omega (arith, h.0)), lower_hex-is_hex (b % 16) (omega arith))
      (encode_hex-all bs h.1)

length-encode_hex : (bs : List ℕ) → length (encode_hex bs) ≡ 2 * length bs
unfolding encode_hex
length-encode_hex [] = refl
length-encode_hex (b ∷ bs) = omega (arith, length-encode_hex bs)

-- A digest is the text of 32 bytes.
encode_hex-is_sha256_text :
    (bs : List ℕ) → length bs ≡ 32 → All (λ b. b < 256) bs → is_sha256_text (encode_hex bs) ≡ true
unfolding is_sha256_text
encode_hex-is_sha256_text bs h k =
    let long : (length (encode_hex bs) == 64) ≡ true = ground (arith, length-encode_hex bs) in
    rw (long, encode_hex-all bs k) refl

-- What the headers must say of a body.
abbrev pub IsIntact : (Text → List ℕ) → Text → Text → Text → Type 0
IsIntact sha256 body length_header checksum_header =
    (byte_len body ≤ max_offboarding_download_bytes)
    × (parse_length (trim_space length_header) ≡ some (byte_len body))
    × (to_lower (trim_space checksum_header) ≡ encode_hex (sha256 body))

read_length_ok :
    (o : Option ℕ) (f : ℕ → Result SdkError OffboardingDownloadResponse)
    (d : OffboardingDownloadResponse)
    → read_length o f ≡ ok d
    → (n : ℕ) × (o ≡ some n) × (f n ≡ ok d)
unfolding read_length
read_length_ok none f d h = absurd (ground arith)
read_length_ok (some n) f d h = (n, refl, h)

-- What is handed on of a body.
abbrev pub intact : (Text → List ℕ) → Text → OffboardingDownloadResponse
intact sha256 body = record {
  bytes = body;
  checksum_sha256 = encode_hex (sha256 body);
  byte_size = byte_len body;
}

module _ (sha256 : Text → List ℕ) (size : (s : Text) → length (sha256 s) ≡ 32)
    (bytes : (s : Text) → All (λ b. b < 256) (sha256 s)) where
  check_download_complete :
      (body : Text)
      → byte_len body ≤ max_offboarding_download_bytes
      → check_download sha256 body (encode_hex (sha256 body)) (byte_len body)
        ≡ ok (record {
          bytes = body;
          checksum_sha256 = encode_hex (sha256 body);
          byte_size = byte_len body;
        })
  unfolding check_download
  check_download_complete body h =
      let small : ltb max_offboarding_download_bytes (byte_len body) ≡ false = ground arith in
      let same : (byte_len body == byte_len body) ≡ true = ground arith in
      rw
        (
          small,
          encode_hex-is_sha256_text (sha256 body) (size body) (bytes body),
          text_eq_refl (encode_hex (sha256 body)),
          same,
        )
        refl

  check_download_sound :
      (body checksum : Text) (declared : ℕ) (d : OffboardingDownloadResponse)
      → check_download sha256 body checksum declared ≡ ok d
      → (checksum ≡ encode_hex (sha256 body)) × (declared ≡ byte_len body)
  unfolding check_download
  check_download_sound body checksum declared d h =
      let digest = encode_hex (sha256 body) in
      let small : Result SdkError (Unit {0}) =
        fail_if (ltb max_offboarding_download_bytes declared) oversized in
      let form : Result SdkError (Unit {0}) =
        fail_if (not (is_sha256_text checksum)) checksum_invalid in
      let match : Result SdkError (Unit {0}) =
        fail_if (not (text_eq checksum digest)) checksum_mismatch in
      let last : Result SdkError (Unit {0}) =
        fail_if (not (declared == byte_len body)) length_mismatch in
      let done : Result SdkError OffboardingDownloadResponse =
        ok (record { bytes = body; checksum_sha256 = checksum; byte_size = declared }) in
      let (u, all_passed, sent) = bind_ok (small >> form >> match >> last) (λ _. done) d h in
      let (v, three_passed, counted) = bind_ok (small >> form >> match) (λ _. last) u all_passed in
      let (w, two_passed, matched) = bind_ok (small >> form) (λ _. match) v three_passed in
      let same_digest = fail_if_ok (not (text_eq checksum digest)) checksum_mismatch v matched in
      let same_size = fail_if_ok (not (declared == byte_len body)) length_mismatch u counted in
      (text_eq_sound checksum digest (ground (arith, same_digest)), ground (arith, same_size))

  verified_offboarding_download_sound :
      (body length_header checksum_header : Text) (d : OffboardingDownloadResponse)
      → verified_offboarding_download sha256 body length_header checksum_header ≡ ok d
      → IsIntact sha256 body length_header checksum_header
  unfolding verified_offboarding_download
  verified_offboarding_download_sound body length_header checksum_header d h =
      let checksum = to_lower (trim_space checksum_header) in
      let (u, small, rest) =
        bind_ok (fail_if (ltb max_offboarding_download_bytes (byte_len body)) oversized)
          (λ _.
            read_length (parse_length (trim_space length_header))
              (check_download sha256 body checksum))
          d h in
      let (declared, read, checked) =
        read_length_ok (parse_length (trim_space length_header))
          (check_download sha256 body checksum) d rest in
      let (same_digest, same_size) = check_download_sound body checksum declared d checked in
      let fits =
        fail_if_ok (ltb max_offboarding_download_bytes (byte_len body)) oversized u small in
      (ground (arith, fits), read ∙ ap some same_size, same_digest)

  verified_offboarding_download_complete :
      (body length_header checksum_header : Text)
      → IsIntact sha256 body length_header checksum_header
      → verified_offboarding_download sha256 body length_header checksum_header
        ≡ ok (intact sha256 body)
  unfolding verified_offboarding_download
  verified_offboarding_download_complete body length_header checksum_header h =
      let fits : ltb max_offboarding_download_bytes (byte_len body) ≡ false = ground (arith, h.0) in
      rw (fits, h.1, h.2) (check_download_complete body h.0)

  -- A download is accepted exactly when its body is at most 64 MiB, the length header is its number
  -- of bytes and the checksum header, its case aside, is the digest; what is accepted is the body
  -- with these two. SHA-256 gives 32 bytes.
  pub verified_offboarding_download_iff :
      (body length_header checksum_header : Text) (d : OffboardingDownloadResponse)
      → (verified_offboarding_download sha256 body length_header checksum_header ≡ ok d)
        ↔ (IsIntact sha256 body length_header checksum_header × (d ≡ intact sha256 body))
  verified_offboarding_download_iff body length_header checksum_header d = (
    λ h.
        let good = verified_offboarding_download_sound body length_header checksum_header d h in
        let whole =
          verified_offboarding_download_complete body length_header checksum_header good in
        (good, ok_injective d (intact sha256 body) (sym h ∙ whole)),
    λ h.
        verified_offboarding_download_complete body length_header checksum_header h.0
        ∙ ap ok (sym h.1),
  )
