-- ===== src/Client/Tracking.antt =====
-- What `Track` does on every branch.
use mathlib.Core.Option
use custd_sdk_go.Base.{Option, [], drop, length, none, some, ◌++◌, ◌<◌, ◌≤◌, ◌∷◌, ◌≡◌, ◌≢◌, ◌⊎◌}
use custd_sdk_go.Base.Int.{to_ℕ}
use custd_sdk_go.Config.{ClientConfig}
use custd_sdk_go.Errors.{SdkError}
use custd_sdk_go.Queue.{IsBounded}
use custd_sdk_go.Queue.Spec.{last_n}
use custd_sdk_go.Event.{EventEnvelope, validate_event, apply_environment_label}
use custd_sdk_go.Client.{
  Host, ClientState, TrackError, invalid, flush_failed, panicked, flush, fill_envelope_defaults,
  track,
}
use custd_sdk_go.Event.{EventError}

module _ {F W : Type 0} (h : Host W) (c : ClientConfig F) where
  -- The state once the stamped event is in the queue.
  pub enqueued : EventEnvelope → ClientState W → ClientState W
  enqueued e s = record s {
    queue = record s.queue {
      events =
          last_n s.queue.capacity (s.queue.events ++ apply_environment_label c.environment e ∷ []);
    };
  }

  -- The batch is not full and the event is queued; or a flush sends the first batch; or it fails.
  abbrev pub Kept : EventEnvelope → ClientState W → Option TrackError → ClientState W → Type 0
  Kept e s r s' =
      ((length (enqueued e s).queue.events < to_ℕ c.batch_size)
        × (r ≡ none)
        × (s'.queue ≡ (enqueued e s).queue))
      ⊎ ((to_ℕ c.batch_size ≤ length (enqueued e s).queue.events)
          × (((r ≡ none)
                × ((flush h c (enqueued e s)).0 ≡ none)
                × (s'.queue.events ≡ drop (to_ℕ c.batch_size) (enqueued e s).queue.events))
              ⊎ ((x : SdkError) × (r ≡ some (flush_failed x))
                  × ((flush h c (enqueued e s)).0 ≡ some x)
                  × (s'.queue ≡ (enqueued e s).queue))))

  -- No panic, and the bound is kept.
  abbrev Safe : Option TrackError → ClientState W → Type 0
  Safe r s' = (r ≢ some panicked) × IsBounded s'.queue

  -- The state in which a filled event is admitted.
  abbrev pub filled : EventEnvelope → ClientState W → ClientState W
  filled e s = record s { world = (fill_envelope_defaults h.uuid e s.world).1 }

  -- Refused and not queued, or valid and admitted.
  abbrev pub Outcome : EventEnvelope → ClientState W → Type 0
  Outcome e s =
      ((why : EventError) × (validate_event (fill_envelope_defaults h.uuid e s.world).0 ≡ some why)
        × ((track h c e s).0 ≡ some (invalid why))
        × ((track h c e s).1 ≡ filled e s))
      ⊎ ((validate_event (fill_envelope_defaults h.uuid e s.world).0 ≡ none)
          × Kept (fill_envelope_defaults h.uuid e s.world).0 (filled e s) (track h c e s).0
              (track h c e s).1)
