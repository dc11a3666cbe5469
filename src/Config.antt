-- ===== src/Config.antt =====
-- config.go, and `applyDefaults` with `applyRetryDefaults` of client.go. Durations are nanoseconds.
-- `float64` is a parameter: the type `F`, the test `x <= 0` and the literal 0.2.
pub mod Laws
mod Tests
use custd_sdk_go.Base.{
  ==_iff, All, Bool, Bool-cases, List, Option, Option-cases, Result, Text, [], all, any, ap, ap₂,
  arith, byte_len, codes, drop, drop-drop, err, fail_if, false, has_prefix, has_prefix-append,
  if◌then◌else◌, inl, inr, insert, is_empty, is_empty_sound, is_none, is_some, is_space, leb,
  leb→le, length, length-append, length-drop, length-take, le→leb, lookup, lookup-insert, ltb,
  ltb→lt, lt→ltb, map, max, min, none, not, ok, refl, reject_if, require, reverse, rune_len, some,
  subst, suc, sym, take, take-append-drop, tests, text_eq, text_eq_sound, text_eq_iff, text_eq_refl,
  trim_left, trim_space, true, zero, ℕ, ◌%◌, ◌&&◌, ◌*◌, ◌++◌, ◌+◌, ◌-◌, ◌/◌, ◌<◌, ◌==◌, ◌>>=◌, ◌>>◌,
  ◌^◌, ◌orelse◌, ◌||◌, ◌↔◌, ◌∙◌, ◌∷◌, ◌≡◌, ◌≢◌, ◌≤◌, ◌⊎◌,
}
use custd_sdk_go.Base.Int.{ℤ, pos, negsuc, not_positive}

pub record RetryConfig (F : Type 0) : Type 0 where
  pub max_attempts : ℤ
  pub base_delay : ℤ
  pub max_delay : ℤ
  pub jitter : F
  pub retry_on_statuses : List ℕ

-- The transport `HTTPClient` is an argument of the functions that send.
pub record ClientConfig (F : Type 0) : Type 0 where
  pub base_url : Text
  pub acting_company_slug : Text
  pub command_label : Text
  pub client_label : Text
  pub api_key : Text
  pub client_id : Text
  pub client_secret : Text
  pub token_url : Text
  pub audience : Text
  pub scopes : List Text
  pub environment : Text
  pub batch_size : ℤ
  pub flush_interval : ℤ
  pub max_retries : ℤ
  pub max_queue_size : ℤ
  pub retry : RetryConfig F
  pub compression_enabled : Option Bool
  pub compression_threshold : ℤ

pub record FloatOps (F : Type 0) : Type 0 where
  pub not_above_zero : F → Bool
  pub default_jitter : F

-- The field of `cfg` where it is positive, else that of the defaults.
unfoldable pub positive_or : ℤ → ℤ → ℤ
positive_or value default = if not_positive value then default else value

unfoldable pub statuses_or : List ℕ → List ℕ → List ℕ
statuses_or [] default = default
statuses_or (s ∷ ss) default = s ∷ ss

unfoldable pub enabled_or : Option Bool → Option Bool → Option Bool
enabled_or none default = default
enabled_or (some b) default = some b

module _ {F : Type 0} (fl : FloatOps F) where
  unfoldable pub default_retry_config : RetryConfig F
  default_retry_config = record {
    max_attempts = pos 3;
    base_delay = pos 200_000_000;
    max_delay = pos 2_000_000_000;
    jitter = fl.default_jitter;
    retry_on_statuses = 408 ∷ 429 ∷ 500 ∷ 502 ∷ 503 ∷ 504 ∷ [];
  }

  unfoldable pub default_client_config : ClientConfig F
  unfolding default_retry_config
  default_client_config = record {
    base_url = [];
    acting_company_slug = [];
    command_label = [];
    client_label = [];
    api_key = [];
    client_id = [];
    client_secret = [];
    token_url = [];
    audience = [];
    scopes = [];
    environment = [];
    batch_size = pos 20;
    flush_interval = pos 30_000_000_000;
    max_retries = pos 0;
    max_queue_size = pos 1000;
    retry = default_retry_config;
    compression_enabled = some true;
    compression_threshold = pos 1024;
  }

  unfoldable pub apply_retry_defaults : RetryConfig F → RetryConfig F → RetryConfig F
  unfolding positive_or statuses_or
  apply_retry_defaults cfg defaults = record {
    max_attempts = positive_or cfg.max_attempts defaults.max_attempts;
    base_delay = positive_or cfg.base_delay defaults.base_delay;
    max_delay = positive_or cfg.max_delay defaults.max_delay;
    jitter = if fl.not_above_zero cfg.jitter then defaults.jitter else cfg.jitter;
    retry_on_statuses = statuses_or cfg.retry_on_statuses defaults.retry_on_statuses;
  }

  unfoldable pub fill_config : ClientConfig F → ClientConfig F
  unfolding default_client_config apply_retry_defaults positive_or enabled_or
  fill_config cfg = record cfg {
    batch_size = positive_or cfg.batch_size default_client_config.batch_size;
    flush_interval = positive_or cfg.flush_interval default_client_config.flush_interval;
    max_queue_size = positive_or cfg.max_queue_size default_client_config.max_queue_size;
    compression_enabled =
        enabled_or cfg.compression_enabled default_client_config.compression_enabled;
    compression_threshold =
        positive_or cfg.compression_threshold default_client_config.compression_threshold;
    retry = apply_retry_defaults cfg.retry default_client_config.retry;
  }

  -- The argument is a pointer. The code fills the caller's record in place and returns a copy.
  unfoldable pub apply_defaults : Option (ClientConfig F) → ClientConfig F
  unfolding fill_config default_client_config
  apply_defaults none = default_client_config
  apply_defaults (some cfg) = fill_config cfg
