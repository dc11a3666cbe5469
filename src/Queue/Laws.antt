-- ===== src/Queue/Laws.antt =====
-- The queue's methods against its history: which events are kept, in which order, and how many.
use custd_sdk_go.Base.{
  map, ℕ, min, ◌∙◌, sym, ◌-◌, ◌<◌, ◌≡◌, refl, ap, List, [], ◌∷◌, ◌++◌, some, leb, ltb, length, drop,
  length-append, length-take, take-append-drop, arith, Bool-cases, inl, inr, ltb→lt, leb→le, Option,
  if◌then◌else◌, length-drop, none,
}
use mathlib.Core.Option
use mathlib.Core.List.{append-nil, append_assoc}
use custd_sdk_go.Queue.{
  Queue, IsBounded, new_queue, drop_oldest, make_room, enqueue, dequeue, requeue,
}
use custd_sdk_go.Queue.Spec.{
  last_n, last_n_all, drop-cong, drop-append, length-last_n-le, last_n-append-last_n,
}

module _ {ℓ} {E : Type ℓ} where
  pub new_queue-IsBounded : (capacity : ℕ) → 0 < capacity → IsBounded (new_queue {E = E} capacity)
  unfolding new_queue
  new_queue-IsBounded capacity h = omega arith

  drop_oldest-drop : (es : List E) → 0 < length es → drop_oldest es ≡ some (drop 1 es)
  unfolding drop_oldest
  drop_oldest-drop [] h = elim h [ ]
  drop_oldest-drop (x ∷ es) h = refl

  make_room-last_n :
      (q : Queue E) → IsBounded q → make_room q ≡ some (last_n (q.capacity - 1) q.events)
  unfolding make_room
  make_room-last_n q v = elim (Bool-cases (leb q.capacity (length q.events))) [
    | inl full ↦
        let h = leb→le _ _ full in
        rw full (
          drop_oldest-drop q.events (omega arith)
          ∙ ap some (drop-cong {j = 1} q.events (omega arith)))
    | inr room ↦ rw room (ap some (sym (last_n_all (q.capacity - 1) q.events (ground arith))))
  ]

  last_n-snoc :
      (c : ℕ) (es : List E) (e : E) → 0 < c → last_n (c - 1) es ++ e ∷ [] ≡ last_n c (es ++ e ∷ [])
  last_n-snoc c es e h =
      sym (drop-append (length es - (c - 1)) es (e ∷ []) (omega arith))
      ∙ drop-cong (es ++ e ∷ []) (omega (arith, length-append es (e ∷ [])))

  -- On a queue within its bound `enqueue` does not panic: it keeps the last `capacity` entries of
  -- the old ones followed by the new one, leaves the capacity, and returns the new length.
  pub enqueue-last_n :
      (e : E) (q : Queue E)
      → IsBounded q
      → enqueue e q
        ≡ some (
          record q { events = last_n q.capacity (q.events ++ e ∷ []) },
          length (last_n q.capacity (q.events ++ e ∷ [])),
        )
  unfolding enqueue
  enqueue-last_n e q v =
      rw (make_room-last_n q v, enqueue) (rw (last_n-snoc q.capacity q.events e v.positive))

  -- `requeue` puts the batch in front and keeps the last `capacity` entries of both.
  pub requeue-last_n :
      (batch : List E) (q : Queue E)
      → requeue batch q ≡ record q { events = last_n q.capacity (batch ++ q.events) }
  unfolding requeue
  requeue-last_n batch q = elim (Bool-cases (ltb q.capacity (length (batch ++ q.events)))) [
    | inl over ↦ rw over
    | inr fits ↦ rw fits (
        ap (λ es. record q { events = es })
          (sym (last_n_all q.capacity (batch ++ q.events) (ground arith))))
  ]

  -- `dequeue` splits off the first `n` events, or all if there are fewer, and loses none.
  pub dequeue_split :
      (n : ℕ) (q : Queue E)
      → ((dequeue n q).0 ++ (dequeue n q).1.events ≡ q.events)
        × (length (dequeue n q).0 ≡ min n (length q.events))
        × ((dequeue n q).1.capacity ≡ q.capacity)
  unfolding dequeue
  dequeue_split n q = elim (Bool-cases (ltb (length q.events) n)) [
    | inl more ↦ rw more (
      take-append-drop (length q.events) q.events,
      omega (arith, length-take (length q.events) q.events, ltb→lt _ _ more),
      refl,
    )
    | inr some_left ↦
        rw some_left (take-append-drop n q.events, ground (arith, length-take n q.events), refl)
  ]

  -- A batch that is taken and put back with nothing in between leaves the queue as it was.
  pub requeue-dequeue :
      (n : ℕ) (q : Queue E) → IsBounded q → requeue (dequeue n q).0 (dequeue n q).1 ≡ q
  requeue-dequeue n q v =
      let (split, _, same) = dequeue_split n q in
      rw (requeue-last_n (dequeue n q).0 (dequeue n q).1, split, same)
        (ap (λ es. record q { events = es }) (last_n_all q.capacity q.events v.within))

  pub requeue-IsBounded : (batch : List E) (q : Queue E) → IsBounded q → IsBounded (requeue batch q)
  requeue-IsBounded batch q v =
      rw (requeue-last_n batch q)
        (record { positive = v.positive; within = length-last_n-le q.capacity (batch ++ q.events) })

  pub dequeue-IsBounded : (n : ℕ) (q : Queue E) → IsBounded q → IsBounded (dequeue n q).1
  unfolding dequeue
  dequeue-IsBounded n q v =
      let m = if ltb (length q.events) n then length q.events else n in
      record { positive = v.positive; within = omega (arith, length-drop m q.events) }

-- One call of a method by some goroutine.
pub data Call {ℓ} (E : Type ℓ) : Type ℓ where
  enqueues : E → Call E
  dequeues : ℕ → Call E
  requeues : List E → Call E

module _ {ℓ} {E : Type ℓ} where
  -- The queue after the call; `none` if the call panics.
  pub call : Call E → Queue E → Option (Queue E)
  call (enqueues e) q = Option.map (λ r. r.0) (enqueue e q)
  call (dequeues n) q = some (dequeue n q).1
  call (requeues batch) q = some (requeue batch q)

  pub calls : List (Call E) → Queue E → Option (Queue E)
  calls [] q = some q
  calls (c ∷ cs) q = elim (call c q) [ none ↦ none | some q' ↦ calls cs q' ]

  call_total :
      (c : Call E) (q : Queue E)
      → IsBounded q
      → (q' : Queue E) × (call c q ≡ some q') × IsBounded q' × (q'.capacity ≡ q.capacity)
  unfolding call
  call_total (enqueues e) q v = (
    record q { events = last_n q.capacity (q.events ++ e ∷ []) },
    rw (enqueue-last_n e q v),
    record { positive = v.positive; within = length-last_n-le q.capacity (q.events ++ e ∷ []) },
    refl,
  )
  call_total (dequeues n) q v =
      ((dequeue n q).1, refl, dequeue-IsBounded n q v, (dequeue_split n q).2)
  call_total (requeues batch) q v = (
    requeue batch q,
    refl,
    requeue-IsBounded batch q v,
    ap (λ r. r.capacity) (requeue-last_n batch q),
  )

  -- From a queue within its bound no sequence of calls panics, and it ends within the same bound.
  pub calls_total :
      (cs : List (Call E)) (q : Queue E)
      → IsBounded q
      → (q' : Queue E) × (calls cs q ≡ some q') × IsBounded q' × (q'.capacity ≡ q.capacity)
  unfolding calls
  calls_total [] q v = (q, refl, v, refl)
  calls_total (c ∷ cs) q v =
      let (q₁, e₁, v₁, k₁) = call_total c q v in
      let (q₂, e₂, v₂, k₂) = calls_total cs q₁ v₁ in (q₂, rw (e₁, calls) e₂, v₂, k₂ ∙ k₁)

  -- Events put into a fresh queue, none taken out: the last `capacity` of them remain, in order.
  pub calls-enqueues :
      (es : List E) (q : Queue E)
      → IsBounded q
      → calls (map enqueues es) q ≡ some (record q { events = last_n q.capacity (q.events ++ es) })
  unfolding calls call
  calls-enqueues [] q v =
      rw (append-nil q.events)
        (ap (λ es. some (record q { events = es })) (sym (last_n_all q.capacity q.events v.within)))
  calls-enqueues (e ∷ es) q v =
      let kept = last_n q.capacity (q.events ++ e ∷ []) in
      let bounded : IsBounded (record q { events = kept }) = record {
        positive = v.positive;
        within = length-last_n-le q.capacity (q.events ++ e ∷ []);
      } in
      rw (enqueue-last_n e q v, calls)
        (calls-enqueues es (record q { events = kept }) bounded
          ∙ ap (λ es'. some (record q { events = es' }))
              (last_n-append-last_n q.capacity (q.events ++ e ∷ []) es
                ∙ ap (last_n q.capacity) (append_assoc q.events (e ∷ []) es)))
