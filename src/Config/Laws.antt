-- ===== src/Config/Laws.antt =====
-- Every configuration that a client runs with is usable, and filling it twice changes nothing.
use custd_sdk_go.Base.{
  Bool, Bool-cases, List, Option, [], false, if◌then◌else◌, inl, inr, is_some, none, refl, some,
  true, ℕ, ◌∷◌, ◌≡◌, ◌≢◌,
}
use custd_sdk_go.Base.Int.{ℤ, pos, not_positive}
use custd_sdk_go.Config.{
  ClientConfig, FloatOps, positive_or, statuses_or, enabled_or, apply_defaults,
}

positive_or-positive : (x d : ℤ) → not_positive d ≡ false → not_positive (positive_or x d) ≡ false
unfolding positive_or
positive_or-positive x d h = elim (Bool-cases (not_positive x)) [
  | inl e ↦ rw e h
  | inr e ↦ rw (e, e)
]

positive_or_self : (x d : ℤ) → not_positive x ≡ false → positive_or x d ≡ x
unfolding positive_or
positive_or_self x d h = rw h

module _ {F : Type 0} (fl : FloatOps F) where
  pub record IsUsable (c : ClientConfig F) : Type 0 where
    pub batch_size : not_positive c.batch_size ≡ false
    pub flush_interval : not_positive c.flush_interval ≡ false
    pub max_queue_size : not_positive c.max_queue_size ≡ false
    pub threshold : not_positive c.compression_threshold ≡ false
    pub compression : is_some c.compression_enabled ≡ true
    pub attempts : not_positive c.retry.max_attempts ≡ false
    pub base_delay : not_positive c.retry.base_delay ≡ false
    pub max_delay : not_positive c.retry.max_delay ≡ false
    pub jitter : fl.not_above_zero c.retry.jitter ≡ false
    pub statuses : c.retry.retry_on_statuses ≢ []

  statuses_or-ne : (xs ds : List ℕ) → ds ≢ [] → statuses_or xs ds ≢ []
  unfolding statuses_or
  statuses_or-ne [] ds h = h
  statuses_or-ne (x ∷ xs) ds h = λ e. cc

  enabled_or-some : (o : Option Bool) (b : Bool) → is_some (enabled_or o (some b)) ≡ true
  unfolding enabled_or
  enabled_or-some none b = refl
  enabled_or-some (some c) b = refl

  jitter-ok :
      (x : F)
      → fl.not_above_zero fl.default_jitter ≡ false
      → fl.not_above_zero (if fl.not_above_zero x then fl.default_jitter else x) ≡ false
  jitter-ok x h = elim (Bool-cases (fl.not_above_zero x)) [ inl e ↦ rw e h | inr e ↦ rw (e, e) ]

  -- Provided that 0.2 is above 0, every configuration that `applyDefaults` returns has a positive
  -- batch size, queue size, threshold, interval, number of attempts, delays and jitter, and a
  -- decision on compression and a list of statuses, whatever the caller passed, nil included.
  pub apply_defaults-IsUsable :
      (c : Option (ClientConfig F))
      → fl.not_above_zero fl.default_jitter ≡ false
      → IsUsable (apply_defaults fl c)
  unfolding apply_defaults not_positive
  apply_defaults-IsUsable none h = record {
    batch_size = refl;
    flush_interval = refl;
    max_queue_size = refl;
    threshold = refl;
    compression = refl;
    attempts = refl;
    base_delay = refl;
    max_delay = refl;
    jitter = h;
    statuses = λ e. cc;
  }
  apply_defaults-IsUsable (some c) h = record {
    batch_size = positive_or-positive c.batch_size (pos 20) refl;
    flush_interval = positive_or-positive c.flush_interval (pos 30_000_000_000) refl;
    max_queue_size = positive_or-positive c.max_queue_size (pos 1000) refl;
    threshold = positive_or-positive c.compression_threshold (pos 1024) refl;
    compression = enabled_or-some c.compression_enabled true;
    attempts = positive_or-positive c.retry.max_attempts (pos 3) refl;
    base_delay = positive_or-positive c.retry.base_delay (pos 200_000_000) refl;
    max_delay = positive_or-positive c.retry.max_delay (pos 2_000_000_000) refl;
    jitter = jitter-ok c.retry.jitter h;
    statuses = statuses_or-ne c.retry.retry_on_statuses _ (λ e. cc);
  }

  enabled_or_self : (o d : Option Bool) → is_some o ≡ true → enabled_or o d ≡ o
  unfolding enabled_or
  enabled_or_self none d h = cc
  enabled_or_self (some b) d h = refl

  statuses_or_self : (xs ds : List ℕ) → xs ≢ [] → statuses_or xs ds ≡ xs
  unfolding statuses_or
  statuses_or_self [] ds h = absurd (h refl)
  statuses_or_self (x ∷ xs) ds h = refl

  -- A usable configuration is passed on as it is: every value that the caller set stands.
  pub apply_defaults_usable : (c : ClientConfig F) → IsUsable c → apply_defaults fl (some c) ≡ c
  unfolding apply_defaults
  apply_defaults_usable c u = λ i. record c {
    batch_size = positive_or_self c.batch_size (pos 20) u.batch_size i;
    flush_interval = positive_or_self c.flush_interval (pos 30_000_000_000) u.flush_interval i;
    max_queue_size = positive_or_self c.max_queue_size (pos 1000) u.max_queue_size i;
    compression_enabled = enabled_or_self c.compression_enabled (some true) u.compression i;
    compression_threshold = positive_or_self c.compression_threshold (pos 1024) u.threshold i;
    retry = record {
      max_attempts = positive_or_self c.retry.max_attempts (pos 3) u.attempts i;
      base_delay = positive_or_self c.retry.base_delay (pos 200_000_000) u.base_delay i;
      max_delay = positive_or_self c.retry.max_delay (pos 2_000_000_000) u.max_delay i;
      jitter = jitter_self i;
      retry_on_statuses =
          statuses_or_self c.retry.retry_on_statuses (408 ∷ 429 ∷ 500 ∷ 502 ∷ 503 ∷ 504 ∷ [])
            u.statuses i;
    };
  }
    where
      jitter_self :
          (if fl.not_above_zero c.retry.jitter then fl.default_jitter else c.retry.jitter)
          ≡ c.retry.jitter
      jitter_self = rw u.jitter
