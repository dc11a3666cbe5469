-- ===== src/RawIngest/Tests.antt =====
-- Uploads to hosts that answer with a receipt, with a page and not at all.
use custd_sdk_go.Base.{
  [], arith, codes, err, false, inl, inr, lookup, none, ok, refl, some, text_eq, is_empty, true,
  byte_len, trim_space, if◌then◌else◌, ℕ, ◌+◌, ◌∷◌, ◌≡◌, ◌↔◌,
}
use custd_sdk_go.Base.Int.{pos}
use custd_sdk_go.Pattern.{data_scope_uuid_matches, code_matches, raw_key_matches}
use custd_sdk_go.Base.Decimal.{itoa, parse_digits}
use custd_sdk_go.Config.{ClientConfig}
use custd_sdk_go.Client.{Reply, failed, answered}
use custd_sdk_go.DataScope.{is_data_scope_uuid, valid_data_scope_code}
use custd_sdk_go.Ids.{
  raw_key_is_valid, set_version, set_variant, parse_int64, Bytes16, new_raw_request_idempotency_key,
}
use custd_sdk_go.Ids.Uuid.{IsBytes}
use custd_sdk_go.Response.{
  JsonReader, decode_json_object, require_json_boolean, require_json_natural,
}
use custd_sdk_go.RawIngest.{
  RawIngestInput, RawIngestRequest, RawIngestResult, RawHost, RawCause, ingest_raw_lines,
  new_raw_ingest_request, acceptance_unknown, decode_raw_ingest_result,
}
use custd_sdk_go.RawIngest.Checks.{IsTarget, IsUploadable}
use custd_sdk_go.RawIngest.Replies.{Accepts, LeavesOpen}
use custd_sdk_go.RawIngest.Upload.{ingest_raw_lines_ok_iff, ingest_raw_lines_unknown_iff}

abbrev upload_config : ClientConfig ℕ
upload_config = record {
  base_url = codes "https://custd.example";
  acting_company_slug = [];
  command_label = [];
  client_label = [];
  api_key = codes "k";
  client_id = [];
  client_secret = [];
  token_url = [];
  audience = [];
  scopes = [];
  environment = [];
  batch_size = pos 10;
  flush_interval = pos 1;
  max_retries = pos 0;
  max_queue_size = pos 3;
  retry = record {
    max_attempts = pos 10;
    base_delay = pos 1;
    max_delay = pos 1;
    jitter = 20;
    retry_on_statuses = 503 ∷ [];
  };
  compression_enabled = some false;
  compression_threshold = pos 1024;
}

-- A reader that knows the object `{}`, the Boolean `true` and the numbers `7` and `1.5`.
abbrev small_reader : JsonReader
small_reader = record {
  object = λ s.
      if text_eq s (codes "{}")
      then some (
          some (
            (codes "success", codes "true")
            ∷ (codes "processed", codes "7")
            ∷ (codes "failed", codes "0")
            ∷ []))
      else none;
  list = λ _. none;
  boolean = λ s. if text_eq s (codes "true") then some true else none;
  number = λ s. some s;
}

-- The world counts the requests.
abbrev answering : Reply → RawHost ℕ
answering reply = record {
  problems = record { as_problem = λ _. none; as_flat = λ _. none };
  json = small_reader;
  escape = λ s. s;
  send = λ _ w. (reply, w + 1);
}

abbrev lines : RawIngestInput
lines = record {
  content = codes "GET / 200";
  parser_uuid = codes "11111111-2222-4333-8444-555555555555";
  target = some (record { sub_client = codes "north"; resource = codes "web:1" });
}

abbrev key_bytes : Bytes16
key_bytes = record {
  b₀ = 1;
  b₁ = 22;
  b₂ = 255;
  b₃ = 4;
  b₄ = 5;
  b₅ = 6;
  b₆ = 77;
  b₇ = 8;
  b₈ = 9;
  b₉ = 10;
  b₁₀ = 111;
  b₁₁ = 12;
  b₁₂ = 13;
  b₁₃ = 14;
  b₁₄ = 15;
  b₁₅ = 0;
}

key_bytes-IsBytes : IsBytes key_bytes
key_bytes-IsBytes = omega arith

lines_parser : is_data_scope_uuid lines.parser_uuid ≡ true
unfolding is_data_scope_uuid codes data_scope_uuid_matches
lines_parser = refl

lines_target : IsTarget lines.target
unfolding valid_data_scope_code codes byte_len code_matches
lines_target = inr (refl, refl)

abbrev prepared : RawIngestRequest
prepared = new_raw_ingest_request lines 1760000000000 key_bytes

abbrev receipt : RawIngestResult
receipt = record { success = true; processed = 7; failed = 0 }

accepted :
    (ingest_raw_lines (answering (answered 202 (codes "{}"))) upload_config prepared 3).0
    ≡ ok receipt
unfolding ingest_raw_lines codes new_raw_ingest_request is_empty is_data_scope_uuid
    data_scope_uuid_matches valid_data_scope_code byte_len code_matches
    new_raw_request_idempotency_key itoa raw_key_is_valid parse_digits raw_key_matches set_version
    set_variant decode_raw_ingest_result decode_json_object text_eq require_json_boolean
    require_json_natural parse_int64 lookup trim_space
accepted = refl

ingest_raw_lines_ok_iff_example :
    ((ingest_raw_lines (answering (answered 202 (codes "{}"))) upload_config prepared 3).0
      ≡ ok receipt)
    ↔ (IsUploadable prepared × Accepts small_reader receipt (answered 202 (codes "{}")))
ingest_raw_lines_ok_iff_example =
    ingest_raw_lines_ok_iff (answering (answered 202 (codes "{}"))) upload_config prepared 3 receipt

ingest_raw_lines_unknown_iff_example :
    ((cause : RawCause) × ((ingest_raw_lines
          (answering (failed (codes "reset")))
          upload_config
          prepared
          3).0
        ≡ err (acceptance_unknown cause prepared.idempotency_key)))
    ↔ (IsUploadable prepared
        × ((prepared.idempotency_key ≡ prepared.idempotency_key)
            × LeavesOpen small_reader (503 ∷ []) (failed (codes "reset"))))
ingest_raw_lines_unknown_iff_example =
    ingest_raw_lines_unknown_iff (answering (failed (codes "reset"))) upload_config prepared 3
      prepared.idempotency_key

-- A request with a key that is no key.
abbrev unkeyed : RawIngestRequest
unkeyed = record prepared { idempotency_key = codes "retry-1" }

unkeyed-IsUploadable : IsUploadable unkeyed → ⊥
unfolding raw_key_is_valid codes
unkeyed-IsUploadable u = elim (u.2) [
  | inl e ↦ absurd (ground arith)
  | inr e ↦ absurd (ground arith)
]
