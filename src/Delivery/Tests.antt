-- ===== src/Delivery/Tests.antt =====
-- Two events, a flush of both that fails, and a third event that pushes out the oldest.
use custd_sdk_go.Base.{List, [], arith, refl, ℕ, ◌==◌, ◌∷◌, ◌≡◌}
use custd_sdk_go.Queue.{
  Queue, enqueue, make_room, dequeue, requeue, keep_newest, new_queue, drop_oldest,
}
use custd_sdk_go.Delivery.{Delivery, start, tracks, begins, fails, Reach, here, next}
use custd_sdk_go.Delivery.Conservation.{Conserves, Reach-Conserves}
use custd_sdk_go.Delivery.NoLoss.{Reach-dropped}

abbrev queue_of : List ℕ → Queue ℕ
queue_of es = record { events = es; capacity = 2 }

abbrev after_failure : Delivery ℕ
after_failure = record {
  queue = queue_of (7 ∷ 8 ∷ []);
  in_flight = [];
  delivered = [];
  dropped = [];
  tracked = 7 ∷ 8 ∷ [];
}

after_failure-Reach : Reach 2 2 after_failure
unfolding start new_queue enqueue make_room dequeue requeue keep_newest
after_failure-Reach =
    next
      (next
        (next (next here (tracks 7 (queue_of (7 ∷ [])) 1 refl))
          (tracks 8 (queue_of (7 ∷ 8 ∷ [])) 2 refl))
        (begins (λ e. cc)))
      (fails [] [] (7 ∷ 8 ∷ []) refl)

abbrev after_overflow : Delivery ℕ
after_overflow = record {
  queue = queue_of (8 ∷ 9 ∷ []);
  in_flight = [];
  delivered = [];
  dropped = 7 ∷ [];
  tracked = 7 ∷ 8 ∷ 9 ∷ [];
}

after_overflow-Reach : Reach 2 2 after_overflow
unfolding enqueue make_room drop_oldest
after_overflow-Reach = next after_failure-Reach (tracks 9 (queue_of (8 ∷ 9 ∷ [])) 2 refl)

Reach-Conserves_example : Conserves 2 (λ n. n == 7) after_overflow
Reach-Conserves_example = Reach-Conserves 2 2 (λ n. n == 7) (omega arith) after_overflow-Reach

Reach-dropped_example : after_failure.dropped ≡ []
Reach-dropped_example = Reach-dropped 2 2 (omega arith) after_failure-Reach (omega arith)
