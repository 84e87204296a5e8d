-- ===== src/Queue.antt =====
-- queue.c, queue.h: the lock-free queue of many senders and one receiver. A node is its address, 0
-- for NULL, and the memory of the nodes is the function from a node to its field `next`.
pub mod Segment
pub mod Reverse
pub mod Fifo
pub mod Runs
use cmsis_rtos.Base.{ℕ, zero, suc, true, false, Option, none, some, ◌==◌, if◌then◌else◌}

abbrev pub Links : Type 0
Links = ℕ → ℕ

abbrev pub link : Links → ℕ → ℕ → Links
link n p v q = if q == p then v else n q

-- `struct _Queue` with the links of its nodes.
pub record Queue : Type 0 where
  pub head : ℕ
  pub tail : ℕ
  pub next : Links

abbrev pub queue : ℕ → ℕ → Links → Queue
queue h t n = record { head = h; tail = t; next = n }

-- `queue_init`
unfoldable pub queue_init : Links → Queue
queue_init n = queue 0 0 n

-- `queue_push`, in the round whose exclusive store succeeds.
unfoldable pub queue_push : ℕ → Queue → Queue
queue_push el q = record q { next = link q.next el q.tail; tail = el }

-- The loop `while (el->next)` that turns the taken list round, within a number of rounds: the last
-- node, the list of the others and the links. `none` is a loop that has not ended.
unfoldable pub turn_round : ℕ → ℕ → ℕ → Links → Option (ℕ × ℕ × Links)
turn_round zero el head n = none
turn_round (suc rounds) el head n = elim (n el == 0) [
  | true ↦ some (el, head, n)
  | false ↦ turn_round rounds (n el) el (link n el head)
]

-- `queue_pop`, 0 for NULL.
unfoldable pub queue_pop : ℕ → Queue → Option (ℕ × Queue)
queue_pop rounds q =
    if q.head == 0
    then (if q.tail == 0 then some (0, q) else elim (turn_round rounds q.tail 0 q.next) [
      | none ↦ none
      | some (el, head, n) ↦ some (el, queue head 0 n)
    ])
    else some (q.head, record q { head = q.next q.head })
