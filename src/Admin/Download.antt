-- ===== src/Admin/Download.antt =====
-- admin_extended.go: the offboarding download, checked against its headers. SHA-256 is a parameter.
pub mod Integrity
mod Tests
use custd_sdk_go.Base.{
  ℕ, List, zero, suc, ◌+◌, ◌-◌, ◌*◌, ◌/◌, ◌%◌, ◌^◌, [], ◌∷◌, ◌++◌, Bool, true, false, not, ◌&&◌,
  ◌||◌, Option, none, some, Result, ok, err, Text, codes, is_empty, if◌then◌else◌, byte_len, length,
  ltb, leb, ◌==◌, all, map, text_eq, trim_space, require, fail_if, ◌>>=◌, ◌>>◌,
}
use custd_sdk_go.Base.Int.{ℤ, pos, negsuc, is_negative}
use custd_sdk_go.Base.Decimal.{parse_digits}
use custd_sdk_go.Config.{ClientConfig}
use custd_sdk_go.Errors.{ProblemDecoder, SdkError, plain, wrapped, check_status}
use custd_sdk_go.Client.{HttpRequest, client_headers}
use custd_sdk_go.Url.{path_escape}
use custd_sdk_go.Admin.{AdminResponse, lower_letter, endpoint, response_header}

pub record OffboardingDownloadResponse : Type 0 where
  pub bytes : Text
  pub checksum_sha256 : Text
  pub byte_size : ℕ

unfoldable pub max_offboarding_download_bytes : ℕ
max_offboarding_download_bytes = 64 * 2 ^ 20

-- `hex.EncodeToString`.
unfoldable pub lower_hex : ℕ → ℕ
lower_hex n = if ltb n 10 then 48 + n else 87 + n

unfoldable pub encode_hex : List ℕ → Text
unfolding lower_hex
encode_hex [] = []
encode_hex (b ∷ bs) = lower_hex (b / 16) ∷ lower_hex (b % 16) ∷ encode_hex bs

-- `strings.ToLower` as far as a hexadecimal text goes: no other character becomes a digit.
unfoldable pub to_lower : Text → Text
unfolding lower_letter
to_lower s = map lower_letter s

unfoldable pub is_hex : ℕ → Bool
is_hex c = (leb 48 c && leb c 57) || (leb b'a' c && leb c b'f') || (leb b'A' c && leb c b'F')

-- `hex.DecodeString` gives `sha256.Size` bytes.
unfoldable pub is_sha256_text : Text → Bool
unfolding is_hex
is_sha256_text s = length s == 64 && all is_hex s

-- A number of digits that does not exceed a bound.
unfoldable pub parse_bounded : ℕ → Text → Option ℕ
parse_bounded bound s = elim (parse_digits s) [
  | none ↦ none
  | some n ↦ if leb n bound then some n else none
]

-- `strconv.ParseInt(s, 10, 64)`, of which a negative number is an error here too.
unfoldable pub parse_length : Text → Option ℕ
unfolding parse_bounded
parse_length [] = none
parse_length (c ∷ s) =
    if c == b'+'
    then parse_bounded (2 ^ 63 - 1) s
    else if c == b'-'
    then elim (parse_digits s) [ some zero ↦ some 0 | _ ↦ none ]
    else parse_bounded (2 ^ 63 - 1) (c ∷ s)

abbrev pub oversized : SdkError
oversized = plain (codes "custd: offboarding download exceeds 64 MiB")

abbrev pub length_invalid : SdkError
length_invalid = plain (codes "custd: offboarding download content length is invalid")

abbrev pub checksum_invalid : SdkError
checksum_invalid = plain (codes "custd: offboarding download checksum header is invalid")

abbrev pub checksum_mismatch : SdkError
checksum_mismatch = plain (codes "custd: offboarding download checksum mismatch")

abbrev pub length_mismatch : SdkError
length_mismatch = plain (codes "custd: offboarding download content length mismatch")

-- The declared length, where the header has one.
unfoldable pub read_length :
    Option ℕ
    → (ℕ → Result SdkError OffboardingDownloadResponse)
    → Result SdkError OffboardingDownloadResponse
read_length none f = err length_invalid
read_length (some n) f = f n

module _ (sha256 : Text → List ℕ) where
  unfoldable pub check_download : Text → Text → ℕ → Result SdkError OffboardingDownloadResponse
  check_download body checksum declared =
      fail_if (ltb max_offboarding_download_bytes declared) oversized
      >> fail_if (not (is_sha256_text checksum)) checksum_invalid
      >> fail_if (not (text_eq checksum (encode_hex (sha256 body)))) checksum_mismatch
      >> fail_if (not (declared == byte_len body)) length_mismatch
      >> ok (record { bytes = body; checksum_sha256 = checksum; byte_size = declared })

  unfoldable pub verified_offboarding_download :
      Text → Text → Text → Result SdkError OffboardingDownloadResponse
  unfolding check_download read_length
  verified_offboarding_download body length_header checksum_header =
      fail_if (ltb max_offboarding_download_bytes (byte_len body)) oversized
      >> read_length (parse_length (trim_space length_header))
          (check_download body (to_lower (trim_space checksum_header)))

module _ {F : Type 0} (problems : ProblemDecoder) (c : ClientConfig F)
    (sha256 : Text → List ℕ) where
  unfoldable pub read_download : AdminResponse → Result SdkError OffboardingDownloadResponse
  unfolding response_header verified_offboarding_download
  read_download r =
      require (check_status problems c.retry.retry_on_statuses r.status_code r.response_body)
      >> verified_offboarding_download sha256 r.response_body
          (response_header (codes "Content-Length") r.response_headers)
          (response_header (codes "X-Checksum-SHA256") r.response_headers)

  -- `Download` with an injected client.
  unfoldable pub download_via_doer :
      {W : Type 0}
      → (HttpRequest → W → Result SdkError AdminResponse × W)
      → Text
      → W
      → Result SdkError OffboardingDownloadResponse × W
  unfolding read_download
  download_via_doer client request_uuid w =
      let path =
        codes "/offboarding/requests/" ++ (path_escape request_uuid ++ codes "/download") in
      let (reply, w') =
        client
          (record {
            method = codes "GET";
            url = endpoint c path;
            headers = client_headers c false;
            body = [];
          })
          w in
      elim reply [
        | err e ↦ (err (wrapped (codes "custd: offboarding download failed") e), w')
        | ok r ↦ (read_download r, w')
      ]
