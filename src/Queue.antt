-- ===== src/Queue.antt =====
-- queue.go: the bounded in-memory event queue. Each method runs under the queue's mutex, so it is
-- one step on the state. An `Option` result is `none` where the Go code would panic.
pub mod Spec
pub mod Laws
mod Tests
use custd_sdk_go.Base.{
  ℕ, ◌-◌, ◌≤◌, ◌<◌, List, [], ◌∷◌, ◌++◌, Option, none, some, leb, ltb, if◌then◌else◌, length, take,
  drop,
}

pub record Queue {ℓ} (E : Type ℓ) : Type ℓ where
  pub events : List E
  pub capacity : ℕ

-- The capacity is positive and is not exceeded.
pub record IsBounded {ℓ} {E : Type ℓ} (q : Queue E) : Type 0 where
  pub positive : 0 < q.capacity
  pub within : length q.events ≤ q.capacity

module _ {ℓ} {E : Type ℓ} where
  unfoldable pub new_queue : ℕ → Queue E
  new_queue capacity = record { events = []; capacity = capacity }

  -- `q.events[1:]`, which panics on an empty slice.
  unfoldable pub drop_oldest : List E → Option (List E)
  drop_oldest [] = none
  drop_oldest (e ∷ es) = some es

  -- The slice after the room test of `enqueue`.
  unfoldable pub make_room : Queue E → Option (List E)
  unfolding drop_oldest
  make_room q = if leb q.capacity (length q.events) then drop_oldest q.events else some q.events

  unfoldable pub enqueue : E → Queue E → Option (Queue E × ℕ)
  unfolding make_room
  enqueue event q = elim (make_room q) [
    | none ↦ none
    | some es ↦ some (record q { events = es ++ event ∷ [] }, length (es ++ event ∷ []))
  ]

  -- The clamp of `n` and the two slices of `dequeue`; a negative `n` is not passed by the client.
  unfoldable pub dequeue : ℕ → Queue E → List E × Queue E
  dequeue n q =
      let m = if ltb (length q.events) n then length q.events else n in
      (take m q.events, record q { events = drop m q.events })

  -- `if len(q.events) > q.capacity { q.events = q.events[len(q.events)-q.capacity:] }`
  unfoldable pub keep_newest : ℕ → List E → List E
  keep_newest capacity es = if ltb capacity (length es) then drop (length es - capacity) es else es

  unfoldable pub requeue : List E → Queue E → Queue E
  unfolding keep_newest
  requeue batch q = record q { events = keep_newest q.capacity (batch ++ q.events) }

  unfoldable pub len : Queue E → ℕ
  len q = length q.events
