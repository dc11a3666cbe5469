-- ===== src/Delivery/Conservation.antt =====
-- No event is lost or doubled between the queue, the batches in flight and the server, but for what
-- the queue drops when it is full.
use custd_sdk_go.Base.{
  Bool, List, [], ap, arith, if◌then◌else◌, length, some, suc, take-append-drop, ℕ, ◌++◌, ◌+◌, ◌-◌,
  ◌<◌, ◌∷◌, ◌≡◌,
}
use custd_sdk_go.Queue.{Queue, IsBounded, enqueue, dequeue, new_queue}
use custd_sdk_go.Queue.Laws.{
  enqueue-last_n, requeue-last_n, requeue-IsBounded, dequeue-IsBounded, dequeue_split,
}
use custd_sdk_go.Queue.Spec.{last_n, length-last_n-le}
use custd_sdk_go.Delivery.{
  Delivery, overflow, start, Step, tracks, begins, succeeds, fails, Reach, here, next,
}

module _ {E : Type 0} (p : E → Bool) where
  -- How many events of the list pass the test.
  abbrev pub count : List E → ℕ
  count [] = 0
  count (x ∷ xs) = if p x then suc (count xs) else count xs

  abbrev pub count_all : List (List E) → ℕ
  count_all [] = 0
  count_all (b ∷ bs) = count b + count_all bs

  pub count-append : (xs ys : List E) → count (xs ++ ys) ≡ count xs + count ys
  count-append [] ys = omega arith
  count-append (x ∷ xs) ys = ground (arith, count-append xs ys)

  pub count_all-append :
      (xs ys : List (List E)) → count_all (xs ++ ys) ≡ count_all xs + count_all ys
  count_all-append [] ys = omega arith
  count_all-append (x ∷ xs) ys = omega (arith, count_all-append xs ys)

  -- The kept part and the lost part together.
  count-overflow : (c : ℕ) (es : List E) → count (overflow c es) + count (last_n c es) ≡ count es
  count-overflow c es = omega (
    arith,
    count-append (overflow c es) (last_n c es),
    ap count (take-append-drop (length es - c) es),
  )

module _ {E : Type 0} (batch_size : ℕ) where
  -- Each event that was tracked is in exactly one place, by any test on events.
  pub record Conserves (p : E → Bool) (s : Delivery E) : Type 0 where
    pub bounded : IsBounded s.queue
    pub balance :
        count p s.tracked
        ≡ count p s.queue.events + count_all p s.in_flight + count p s.delivered + count p s.dropped

  module _ (p : E → Bool) where
    tracks-Conserves :
        (s : Delivery E) (e : E) (q : Queue E) (n : ℕ)
        → enqueue e s.queue ≡ some (q, n)
        → Conserves p s
        → Conserves p (record s {
          queue = q;
          tracked = s.tracked ++ e ∷ [];
          dropped = s.dropped ++ overflow s.queue.capacity (s.queue.events ++ e ∷ []);
        })
    tracks-Conserves s e q n h v =
        let kept : q
            ≡ record s.queue { events = last_n s.queue.capacity (s.queue.events ++ e ∷ []) } =
          cc (enqueue-last_n e s.queue v.bounded) in
        rw kept (record {
          bounded = record {
            positive = v.bounded.positive;
            within = length-last_n-le s.queue.capacity (s.queue.events ++ e ∷ []);
          };
          balance = omega (
            arith,
            v.balance,
            count-append p s.tracked (e ∷ []),
            count-append p s.queue.events (e ∷ []),
            count-append p s.dropped (overflow s.queue.capacity (s.queue.events ++ e ∷ [])),
            count-overflow p s.queue.capacity (s.queue.events ++ e ∷ []),
          );
        })

    Step-Conserves : {s t : Delivery E} → Step batch_size s t → Conserves p s → Conserves p t
    Step-Conserves {s} (tracks e q n h) v = tracks-Conserves s e q n h v
    Step-Conserves {s} (begins ne) v = record {
      bounded = dequeue-IsBounded batch_size s.queue v.bounded;
      balance = omega (
        arith,
        v.balance,
        ap (count p) (dequeue_split batch_size s.queue).0,
        count-append p (dequeue batch_size s.queue).0 (dequeue batch_size s.queue).1.events,
      );
    }
    Step-Conserves {s} (succeeds before after batch e) v = record {
      bounded = v.bounded;
      balance = omega (
        arith,
        v.balance,
        ap (count_all p) e,
        count_all-append p before (batch ∷ after),
        count_all-append p before after,
        count-append p s.delivered batch,
      );
    }
    Step-Conserves {s} (fails before after batch e) v = record {
      bounded = requeue-IsBounded batch s.queue v.bounded;
      balance = omega (
        arith,
        v.balance,
        ap (count_all p) e,
        count_all-append p before (batch ∷ after),
        count_all-append p before after,
        ap (λ q. count p q.events) (requeue-last_n batch s.queue),
        count-append p batch s.queue.events,
        count-append p s.dropped (overflow s.queue.capacity (batch ++ s.queue.events)),
        count-overflow p s.queue.capacity (batch ++ s.queue.events),
      );
    }

  -- After any interleaving of tracks, flushes, successes and failures on a fresh client, the queue
  -- is within its bound and every tracked event stands exactly once among the queued, those in
  -- flight, the delivered and the dropped: any test counts as many on both sides.
  pub Reach-Conserves :
      (capacity : ℕ) (p : E → Bool) {s : Delivery E}
      → 0 < capacity
      → Reach batch_size capacity s
      → Conserves p s
  unfolding start new_queue
  Reach-Conserves capacity p pos here = omega arith
  Reach-Conserves capacity p pos (next r st) =
      Step-Conserves p st (Reach-Conserves capacity p pos r)
