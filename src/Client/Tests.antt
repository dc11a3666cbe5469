-- ===== src/Client/Tests.antt =====
-- A client with three queued events and a batch size of two, and hosts that answer or refuse.
use custd_sdk_go.Base.{
  Text, [], arith, byte_len, codes, drop, false, inl, inr, is_empty, none, refl, some, text_eq, ℕ,
  ◌+◌, ◌∷◌, ◌≡◌,
}
use custd_sdk_go.Base.Int.{pos, not_positive, to_ℕ}
use custd_sdk_go.Errors.{SdkError, plain, check_status}
use custd_sdk_go.Event.{EventEnvelope}
use custd_sdk_go.Config.{ClientConfig}
use custd_sdk_go.Queue.{IsBounded, dequeue}
use custd_sdk_go.Retry.{with_retry, retry_loop, max_attempts}
use custd_sdk_go.Batch.{check_batch_response, maybe_compress}
use custd_sdk_go.Client.{
  Host, ClientState, answered, validate_transport, is_secure_or_local_http, read_reply, send_batch,
  send_batch_with_retry, send_and_settle, flush, close, is_local_host,
}
use custd_sdk_go.Client.Secure.{IsInsecure}
use custd_sdk_go.Client.Flushing.{
  flush_failed-queue, flush_ok-queue, flush_insecure, close-remaining,
}
use custd_sdk_go.Client.Flusher.{log_failure, run_flusher, ticks, run_flusher-empties}

abbrev event_of : Text → EventEnvelope
event_of id = record {
  event_uuid = id;
  event_type_slug = codes "order.completed";
  schema_version = codes "1.0.0";
  timestamp = codes "2026-01-01T00:00:00Z";
  session_id = codes "s1";
  anonymous_id = codes "a1";
  user_uuid = [];
  company_slug = codes "acme";
  environment = codes "dev";
  labels = none;
  context = record {
    page = none;
    device = some (record { kind = codes "server"; os = []; browser = [] });
    locale = [];
    timezone = [];
    ip = [];
  };
  payload = some (codes "{}");
}

abbrev small_config : ClientConfig ℕ
small_config = record {
  base_url = codes "https://custd.example";
  acting_company_slug = [];
  command_label = [];
  client_label = [];
  api_key = codes "k";
  client_id = [];
  client_secret = [];
  token_url = [];
  audience = [];
  scopes = [];
  environment = [];
  batch_size = pos 2;
  flush_interval = pos 1;
  max_retries = pos 0;
  max_queue_size = pos 3;
  retry = record {
    max_attempts = pos 2;
    base_delay = pos 1;
    max_delay = pos 1;
    jitter = 20;
    retry_on_statuses = 503 ∷ [];
  };
  compression_enabled = some false;
  compression_threshold = pos 1024;
}

-- Every URL parses to the scheme that is given; every request is answered with the status.
abbrev host_of : Text → ℕ → Host ℕ
host_of scheme status = record {
  urls = record {
    parse = λ _. some (record { scheme = scheme; host = codes "h"; hostname = codes "h" });
    is_loopback_ip = λ _. false;
  };
  decoder = record {
    problems = record { as_problem = λ _. none; as_flat = λ _. none };
    raw = λ _. none;
    response = λ _. none;
  };
  marshal = λ _. some (codes "[]");
  gzip = λ _. none;
  send = λ _ w. (answered status [], w + 1);
  wait = λ _ w. (none, w);
  uuid = λ w. (codes "fresh", w + 1);
}

abbrev three_queued : ClientState ℕ
three_queued = record {
  queue = record {
    events = event_of (codes "u1") ∷ event_of (codes "u2") ∷ event_of (codes "u3") ∷ [];
    capacity = 3;
  };
  closed = false;
  world = 0;
}

three_queued-IsBounded : IsBounded three_queued.queue
three_queued-IsBounded = record { positive = omega arith; within = omega arith }

abbrev insecure : SdkError
insecure = plain (codes "custd: base URL must use https unless it targets localhost")

insecure-refused : validate_transport (host_of (codes "http") 200) small_config ≡ some insecure
unfolding validate_transport is_secure_or_local_http is_local_host is_empty text_eq codes
insecure-refused = refl

insecure-flush : (flush (host_of (codes "http") 200) small_config three_queued).0 ≡ some insecure
unfolding flush dequeue to_ℕ send_and_settle send_batch_with_retry validate_transport
    is_secure_or_local_http is_local_host is_empty text_eq codes
insecure-flush = refl

flush_failed-queue_example :
    (flush (host_of (codes "http") 200) small_config three_queued).1.queue ≡ three_queued.queue
flush_failed-queue_example =
    flush_failed-queue (host_of (codes "http") 200) small_config three_queued insecure
      three_queued-IsBounded insecure-flush

not_https : IsInsecure (host_of (codes "http") 200) small_config
unfolding codes
not_https = inl (λ (u, parsed, given, schemes). elim schemes [
  | inl https ↦ absurd (ground (arith, parsed, https))
  | inr (http, is_local) ↦ elim is_local [
    | inl named ↦ absurd (ground (arith, parsed, named))
    | inr other ↦ elim other [
      | inl docker ↦ absurd (ground (arith, parsed, docker))
      | inr loopback ↦ absurd (ground (arith, loopback))
    ]
  ]
])

flush_insecure_example :
    ((flush (host_of (codes "http") 200) small_config three_queued).1.world ≡ 0)
    × ((flush (host_of (codes "http") 200) small_config three_queued).1.queue ≡ three_queued.queue)
flush_insecure_example =
    flush_insecure (host_of (codes "http") 200) small_config three_queued three_queued-IsBounded
      not_https

accepted-flush : (flush (host_of (codes "https") 202) small_config three_queued).0 ≡ none
unfolding flush dequeue to_ℕ send_and_settle send_batch_with_retry validate_transport
    is_secure_or_local_http is_empty text_eq codes with_retry retry_loop max_attempts not_positive
    send_batch maybe_compress byte_len read_reply check_batch_response check_status
accepted-flush = refl

flush_ok-queue_example :
    (flush (host_of (codes "https") 202) small_config three_queued).1.queue.events
    ≡ drop (to_ℕ (pos 2)) three_queued.queue.events
flush_ok-queue_example =
    flush_ok-queue (host_of (codes "https") 202) small_config three_queued accepted-flush

accepted-close : (close (host_of (codes "https") 202) small_config three_queued).0 ≡ none
unfolding close flush dequeue to_ℕ send_and_settle send_batch_with_retry validate_transport
    is_secure_or_local_http is_empty text_eq codes with_retry retry_loop max_attempts not_positive
    send_batch maybe_compress byte_len read_reply check_batch_response check_status
accepted-close = refl

close-remaining_example :
    (close (host_of (codes "https") 202) small_config three_queued).1.queue.events
    ≡ drop (to_ℕ (pos 2)) three_queued.queue.events
close-remaining_example =
    close-remaining (host_of (codes "https") 202) small_config three_queued refl accepted-close

flushed_twice-silent :
    (run_flusher (host_of (codes "https") 202) small_config (ticks 2) three_queued).0 ≡ []
unfolding run_flusher log_failure flush dequeue to_ℕ send_batch_with_retry is_secure_or_local_http
    is_empty codes text_eq with_retry max_attempts not_positive send_batch maybe_compress
    check_batch_response check_status
flushed_twice-silent = refl

run_flusher-empties_example :
    (run_flusher (host_of (codes "https") 202) small_config (ticks 2) three_queued).1.queue.events
    ≡ []
unfolding to_ℕ
run_flusher-empties_example =
    run_flusher-empties (host_of (codes "https") 202) small_config 2 three_queued
      three_queued-IsBounded (rw flushed_twice-silent (omega arith))
