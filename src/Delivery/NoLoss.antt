-- ===== src/Delivery/NoLoss.antt =====
-- Nothing is dropped as long as the queue could hold every event that was tracked.
use custd_sdk_go.Base.{
  List, [], ap, arith, length, length-append, refl, suc, take, true, zero, ℕ, ◌++◌, ◌-◌, ◌<◌, ◌∙◌,
  ◌∷◌, ◌≡◌, ◌≤◌,
}
use custd_sdk_go.Queue.{new_queue}
use custd_sdk_go.Queue.Laws.{enqueue-last_n, requeue-last_n, dequeue_split}
use custd_sdk_go.Queue.Spec.{last_n}
use custd_sdk_go.Delivery.{
  Delivery, overflow, start, Step, tracks, begins, succeeds, fails, Reach, here, next,
}
use custd_sdk_go.Delivery.Conservation.{
  count, count_all, count_all-append, Conserves, Reach-Conserves,
}

module _ {E : Type 0} where
  count-true : (xs : List E) → count (λ _. true) xs ≡ length xs
  count-true [] = refl
  count-true (x ∷ xs) = ap suc (count-true xs)

  take_none : (k : ℕ) (xs : List E) → k ≡ 0 → take k xs ≡ []
  take_none zero xs h = refl
  take_none (suc k) xs h = absurd (omega arith)

  overflow_fits : (c : ℕ) (es : List E) → length es ≤ c → overflow c es ≡ []
  overflow_fits c es h = take_none (length es - c) es (omega arith)

  append_none : (xs ys : List E) → xs ≡ [] → ys ≡ [] → xs ++ ys ≡ []
  append_none xs ys h k = rw (h, k)

module _ {E : Type 0} (batch_size capacity : ℕ) where
  record Spares (s : Delivery E) : Type 0 where
    same : s.queue.capacity ≡ capacity
    spared : length s.tracked ≤ capacity → s.dropped ≡ []

  Step-Spares :
      {s t : Delivery E}
      → Step batch_size s t
      → Conserves batch_size (λ _. true) s
      → Spares s
      → Spares t
  Step-Spares {s} (tracks e q n h) v k =
      let kept : q
          ≡ record s.queue { events = last_n s.queue.capacity (s.queue.events ++ e ∷ []) } =
        cc (enqueue-last_n e s.queue v.bounded) in
      record {
        same = ap (λ r. r.capacity) kept ∙ k.same;
        spared = λ few.
            append_none s.dropped _ (k.spared (omega (arith, length-append s.tracked (e ∷ [])))) (
              overflow_fits s.queue.capacity (s.queue.events ++ e ∷ []) (
                omega (
                  arith,
                  k.same,
                  v.balance,
                  count-true s.tracked,
                  count-true s.queue.events,
                  length-append s.tracked (e ∷ []),
                  length-append s.queue.events (e ∷ []),
                )));
      }
  Step-Spares {s} (begins ne) v k = record {
    same = (dequeue_split batch_size s.queue).2 ∙ k.same;
    spared = k.spared;
  }
  Step-Spares (succeeds before after batch e) v k = record { same = k.same; spared = k.spared }
  Step-Spares {s} (fails before after batch e) v k = record {
    same = ap (λ r. r.capacity) (requeue-last_n batch s.queue) ∙ k.same;
    spared = λ few. append_none s.dropped _ (k.spared few) (
        overflow_fits s.queue.capacity (batch ++ s.queue.events) (
          omega (
            arith,
            few,
            k.same,
            v.balance,
            count-true s.tracked,
            count-true s.queue.events,
            count-true batch,
            ap (count_all (λ _. true)) e,
            count_all-append (λ _. true) before (batch ∷ after),
            length-append batch s.queue.events,
          )));
  }

  Reach-Spares : {s : Delivery E} → 0 < capacity → Reach batch_size capacity s → Spares s
  unfolding start new_queue
  Reach-Spares pos here = record { same = refl; spared = λ _. refl }
  Reach-Spares pos (next r st) =
      Step-Spares st (Reach-Conserves batch_size capacity (λ _. true) pos r) (Reach-Spares pos r)

  -- While no more events were tracked than the queue can hold, none is dropped, however many sends
  -- fail and in whatever order the flushes end.
  pub Reach-dropped :
      {s : Delivery E}
      → 0 < capacity
      → Reach batch_size capacity s
      → length s.tracked ≤ capacity
      → s.dropped ≡ []
  Reach-dropped pos r few = (Reach-Spares pos r).spared few
