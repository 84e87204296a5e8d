-- ===== src/AsyncQueue.antt =====
-- async_queue.c: a queue of many senders and one receiver that carries data. The lists are kept as
-- lists of the data; the nodes come from the slice allocator and go back to it.
pub mod Order
use cmsis_rtos.Base.{ℕ, List, [], ◌∷◌, Option, none, some}

pub record AsyncQueue : Type 0 where
  pub head : List ℕ
  pub tail : List ℕ

abbrev pub async_queue : List ℕ → List ℕ → AsyncQueue
async_queue h t = record { head = h; tail = t }

-- `osAsyncQueueInit`
unfoldable pub async_queue_init : AsyncQueue
async_queue_init = async_queue [] []

-- The loop of `list_reverse`, and the whole.
unfoldable pub reverse_onto : List ℕ → List ℕ → List ℕ
reverse_onto [] top = top
reverse_onto (x ∷ list) top = reverse_onto list (x ∷ top)

unfoldable pub list_reverse : List ℕ → List ℕ
list_reverse list = reverse_onto list []

-- `osAsyncQueueGet` from a head that is not NULL, and the whole; `none` for NULL.
unfoldable pub take_head : AsyncQueue → Option ℕ × AsyncQueue
take_head q = elim q.head [ [] ↦ (none, q) | x ∷ list ↦ (some x, record q { head = list }) ]

unfoldable pub async_queue_get : AsyncQueue → Option ℕ × AsyncQueue
async_queue_get q = elim q.head [
  | [] ↦ take_head (async_queue (list_reverse q.tail) [])
  | x ∷ list ↦ take_head q
]

-- `osAsyncQueuePut`, in the round whose exclusive store succeeds.
unfoldable pub async_queue_put : ℕ → AsyncQueue → AsyncQueue
async_queue_put x q = record q { tail = x ∷ q.tail }
