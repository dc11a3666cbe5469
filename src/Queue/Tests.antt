-- ===== src/Queue/Tests.antt =====
-- A queue of three places.
use custd_sdk_go.Base.{List, [], arith, length, some, ℕ, ◌∷◌, ◌≡◌}
use custd_sdk_go.Queue.{Queue, IsBounded, enqueue}
use custd_sdk_go.Queue.Spec.{last_n}
use custd_sdk_go.Queue.Laws.{enqueue-last_n, Call, enqueues, dequeues, requeues, calls, calls_total}

abbrev full_queue : Queue ℕ
full_queue = record { events = 1 ∷ 2 ∷ 3 ∷ []; capacity = 3 }

full_queue-IsBounded : IsBounded full_queue
full_queue-IsBounded = record { positive = omega arith; within = omega arith }

abbrev four : List ℕ
four = 1 ∷ 2 ∷ 3 ∷ 4 ∷ []

enqueue-last_n_example :
    enqueue 4 full_queue
    ≡ some (record { events = last_n 3 four; capacity = 3 }, length (last_n 3 four))
enqueue-last_n_example = enqueue-last_n 4 full_queue full_queue-IsBounded

abbrev some_calls : List (Call ℕ)
some_calls = enqueues 4 ∷ dequeues 2 ∷ enqueues 5 ∷ requeues (2 ∷ 3 ∷ []) ∷ []

calls_total_example :
    (q : Queue ℕ) × (calls some_calls full_queue ≡ some q) × IsBounded q × (q.capacity ≡ 3)
calls_total_example = calls_total some_calls full_queue full_queue-IsBounded
