-- ===== src/Client/Flushing.antt =====
-- What a flush, a close and a track leave in the queue, on every outcome.
use custd_sdk_go.Base.{
  Bool-cases, List, Option-cases, [], ap, arith, drop, false, inl, inr, length, ltb, none, refl,
  some, subst, sym, true, ℕ, ◌++◌, ◌∙◌, ◌∷◌, ◌≡◌,
}
use custd_sdk_go.Base.Int.{to_ℕ}
use custd_sdk_go.Config.{ClientConfig}
use custd_sdk_go.Errors.{SdkError}
use custd_sdk_go.Queue.{Queue, IsBounded, dequeue, requeue}
use custd_sdk_go.Queue.Laws.{requeue-dequeue, dequeue-IsBounded, dequeue_split}
use custd_sdk_go.Queue.Spec.{drop_all}
use custd_sdk_go.Event.{EventEnvelope}
use custd_sdk_go.Client.Secure.{IsInsecure, IsInsecure-refused}
use custd_sdk_go.Client.{
  Host, ClientState, validate_transport, send_batch_with_retry, settle, send_and_settle, flush,
  close,
}

module _ {F W : Type 0} (h : Host W) (c : ClientConfig F) where
  dequeue_empty : {E : Type 0} (n : ℕ) (q : Queue E) → (dequeue n q).0 ≡ [] → (dequeue n q).1 ≡ q
  dequeue_empty n q e =
      let (split, _, same) = dequeue_split n q in
      λ i. record { events = rest_eq split i; capacity = same i }
    where
      rest_eq :
          ((dequeue n q).0 ++ (dequeue n q).1.events ≡ q.events) → (dequeue n q).1.events ≡ q.events
      rest_eq split = subst (λ b. b ++ (dequeue n q).1.events ≡ q.events) e split

  -- The queue after a flush, by what the flush returns.
  flush-settle :
      (s : ClientState W)
      → ((flush h c s).1.queue
          ≡ settle h c
              (flush h c s).0
              (dequeue (to_ℕ c.batch_size) s.queue).0
              (dequeue (to_ℕ c.batch_size) s.queue).1)
        × ((flush h c s).1.closed ≡ s.closed)
  unfolding flush
  flush-settle s = go (dequeue (to_ℕ c.batch_size) s.queue).0 refl
    where
      go :
          (b : List EventEnvelope)
          → (dequeue (to_ℕ c.batch_size) s.queue).0 ≡ b
          → ((flush h c s).1.queue
              ≡ settle h c
                  (flush h c s).0
                  (dequeue (to_ℕ c.batch_size) s.queue).0
                  (dequeue (to_ℕ c.batch_size) s.queue).1)
            × ((flush h c s).1.closed ≡ s.closed)
      go [] e = rw (e, flush) (refl, refl)
      go (x ∷ xs) e = rw (e, flush) (refl, refl)

  -- A flush that fails leaves the queue as it was: no event is lost, reordered or sent twice to
  -- the queue.
  pub flush_failed-queue :
      (s : ClientState W) (e : SdkError)
      → IsBounded s.queue
      → (flush h c s).0 ≡ some e
      → (flush h c s).1.queue ≡ s.queue
  unfolding settle
  flush_failed-queue s e v failed =
      (flush-settle s).0
      ∙ ap
          (λ r.
            settle h c r (dequeue (to_ℕ c.batch_size) s.queue).0
              (dequeue (to_ℕ c.batch_size) s.queue).1)
          failed
      ∙ requeue-dequeue (to_ℕ c.batch_size) s.queue v

  -- A flush that succeeds takes the first `BatchSize` events off the queue, and no more.
  pub flush_ok-queue :
      (s : ClientState W)
      → (flush h c s).0 ≡ none
      → (flush h c s).1.queue.events ≡ drop (to_ℕ c.batch_size) s.queue.events
  unfolding settle dequeue
  flush_ok-queue s done =
      ap (λ q. q.events)
        ((flush-settle s).0
          ∙ ap
              (λ r.
                settle h c r (dequeue (to_ℕ c.batch_size) s.queue).0
                  (dequeue (to_ℕ c.batch_size) s.queue).1)
              done)
      ∙ dropped
    where
      dropped :
          (dequeue (to_ℕ c.batch_size) s.queue).1.events ≡ drop (to_ℕ c.batch_size) s.queue.events
      dropped = elim (Bool-cases (ltb (length s.queue.events) (to_ℕ c.batch_size))) [
        | inl more ↦ rw more (
            drop_all (length s.queue.events) s.queue.events (omega arith)
            ∙ sym (drop_all (to_ℕ c.batch_size) s.queue.events (ground arith)))
        | inr enough ↦ rw enough
      ]

  pub flush-IsBounded : (s : ClientState W) → IsBounded s.queue → IsBounded (flush h c s).1.queue
  unfolding settle
  flush-IsBounded s v = elim (Option-cases (flush h c s).0) [
    | inl done ↦
        subst IsBounded
          (sym (
            (flush-settle s).0
            ∙ ap
                (λ r.
                  settle h c r (dequeue (to_ℕ c.batch_size) s.queue).0
                    (dequeue (to_ℕ c.batch_size) s.queue).1)
                done))
          (dequeue-IsBounded (to_ℕ c.batch_size) s.queue v)
    | inr (e, failed) ↦ subst IsBounded (sym (flush_failed-queue s e v failed)) v
  ]

  refused_send :
      (b : List EventEnvelope) (w : W) (e : SdkError)
      → validate_transport h c ≡ some e
      → send_batch_with_retry h c b w ≡ (some e, w)
  unfolding send_batch_with_retry
  refused_send b w e refused = rw (refused, send_batch_with_retry)

  refused_flush :
      (s : ClientState W) (e : SdkError)
      → IsBounded s.queue
      → validate_transport h c ≡ some e
      → ((flush h c s).1.world ≡ s.world) × ((flush h c s).1.queue ≡ s.queue)
  unfolding flush
  refused_flush s e v refused = go (dequeue (to_ℕ c.batch_size) s.queue).0 refl
    where
      go :
          (b : List EventEnvelope)
          → (dequeue (to_ℕ c.batch_size) s.queue).0 ≡ b
          → ((flush h c s).1.world ≡ s.world) × ((flush h c s).1.queue ≡ s.queue)
      go [] q = rw (q, flush) (refl, dequeue_empty (to_ℕ c.batch_size) s.queue q)
      go (x ∷ xs) q =
          rw (q, flush, refused_send (x ∷ xs) s.world e refused, send_and_settle)
            (
              refl,
              subst (λ b. requeue b (dequeue (to_ℕ c.batch_size) s.queue).1 ≡ s.queue) q
                  (requeue-dequeue (to_ℕ c.batch_size) s.queue v),
            )

  -- Where the base URL, or a token URL that is configured, is neither https nor local, a flush sends
  -- nothing: the world is untouched and the queue is as it was.
  pub flush_insecure :
      (s : ClientState W)
      → IsBounded s.queue
      → IsInsecure h c
      → ((flush h c s).1.world ≡ s.world) × ((flush h c s).1.queue ≡ s.queue)
  flush_insecure s v insecure =
      let (e, refused) = IsInsecure-refused h c insecure in refused_flush s e v refused

  -- `Close` on an open client is one flush: if it succeeds, the events beyond the first
  -- `BatchSize` are still in the queue.
  pub close-remaining :
      (s : ClientState W)
      → s.closed ≡ false
      → (close h c s).0 ≡ none
      → (close h c s).1.queue.events ≡ drop (to_ℕ c.batch_size) s.queue.events
  unfolding close
  close-remaining s opened done = elim (Bool-cases s.closed) [
    | inl e ↦ absurd (ground arith)
    | inr e ↦ rw (e, close) (flush_ok-queue (record s { closed = true }) (rw (e, close) at done))
  ]

  closed_step : (s : ClientState W) → s.closed ≡ true → close h c s ≡ (none, s)
  unfolding close
  closed_step s e = rw (e, close)

  -- A second `Close` does nothing.
  pub close_twice : (s : ClientState W) → close h c (close h c s).1 ≡ (none, (close h c s).1)
  unfolding close
  close_twice s = elim (Bool-cases s.closed) [
    | inl e ↦ closed_step (close h c s).1 (rw (e, close))
    | inr e ↦
        closed_step (close h c s).1 (rw (e, close) (flush-settle (record s { closed = true })).1)
  ]
