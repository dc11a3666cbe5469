-- ===== src/Delivery.antt =====
-- The queue between goroutines (client.go, queue.go): `Track` enqueues while flushes are in flight,
-- since `Flush` releases its lock before it sends. Each step runs one queue method under the queue's
-- mutex. What was tracked, delivered and dropped is recorded beside the program's own state.
pub mod Conservation
pub mod NoLoss
mod Tests
use custd_sdk_go.Base.{
  ==_iff, All, Bool, Bool-cases, List, Option, Option-cases, Result, Text, [], all, any, ap, ap₂,
  arith, byte_len, codes, drop, drop-drop, err, fail_if, false, has_prefix, has_prefix-append,
  if◌then◌else◌, inl, inr, insert, is_empty, is_empty_sound, is_none, is_some, is_space, leb,
  leb→le, length, length-append, length-drop, length-take, le→leb, lookup, lookup-insert, ltb,
  ltb→lt, lt→ltb, map, max, min, none, not, ok, refl, reject_if, require, reverse, rune_len, some,
  subst, suc, sym, take, take-append-drop, tests, text_eq, text_eq_sound, text_eq_iff, text_eq_refl,
  trim_left, trim_space, true, zero, ℕ, ◌%◌, ◌&&◌, ◌*◌, ◌++◌, ◌+◌, ◌-◌, ◌/◌, ◌<◌, ◌==◌, ◌>>=◌, ◌>>◌,
  ◌^◌, ◌orelse◌, ◌||◌, ◌↔◌, ◌∙◌, ◌∷◌, ◌≡◌, ◌≢◌, ◌≤◌, ◌⊎◌,
}
use custd_sdk_go.Queue.{Queue, enqueue, dequeue, requeue, new_queue}

pub record Delivery (E : Type 0) : Type 0 where
  pub queue : Queue E
  pub in_flight : List (List E)
  pub delivered : List E
  pub dropped : List E
  pub tracked : List E

module _ {E : Type 0} where
  -- What a queue of this capacity loses of these events.
  abbrev pub overflow : ℕ → List E → List E
  overflow capacity es = take (length es - capacity) es

  pub start : ℕ → Delivery E
  start capacity = record {
    queue = new_queue capacity;
    in_flight = [];
    delivered = [];
    dropped = [];
    tracked = [];
  }

  pub data Step (batch_size : ℕ) (s : Delivery E) : Delivery E → Type 0 where
    -- `Track` enqueues an event.
    tracks :
        (e : E) (q : Queue E) (n : ℕ)
        → enqueue e s.queue ≡ some (q, n)
        → Step batch_size s (record s {
          queue = q;
          tracked = s.tracked ++ e ∷ [];
          dropped = s.dropped ++ overflow s.queue.capacity (s.queue.events ++ e ∷ []);
        })
    -- A flush takes a batch that is not empty.
    begins :
        (dequeue batch_size s.queue).0 ≢ []
        → Step batch_size s (record s {
          queue = (dequeue batch_size s.queue).1;
          in_flight = (dequeue batch_size s.queue).0 ∷ s.in_flight;
        })
    -- The send of some batch in flight succeeds.
    succeeds :
        (before after : List (List E)) (batch : List E)
        → s.in_flight ≡ before ++ batch ∷ after
        → Step batch_size s
            (record s { in_flight = before ++ after; delivered = s.delivered ++ batch })
    -- The send of some batch in flight fails, and the batch is put back.
    fails :
        (before after : List (List E)) (batch : List E)
        → s.in_flight ≡ before ++ batch ∷ after
        → Step batch_size s (record s {
          in_flight = before ++ after;
          queue = requeue batch s.queue;
          dropped = s.dropped ++ overflow s.queue.capacity (batch ++ s.queue.events);
        })

  pub data Reach (batch_size capacity : ℕ) : Delivery E → Type 0 where
    here : Reach batch_size capacity (start capacity)
    next :
        {s t : Delivery E}
        → Reach batch_size capacity s
        → Step batch_size s t
        → Reach batch_size capacity t
