-- ===== src/Mail.antt =====
-- message.c, mail.c: the message and mail queues of CMSIS-RTOS 1, made of a pool of pool.c and the
-- lock-free queue of queue.c. A block of the pool is the address of a node, and the words of the nodes are
-- kept by address, which holds for blocks of 8 bytes or more; the memory of a pool is not at NULL.
pub mod Count
pub mod Blocks
pub mod Flow
pub mod Full
pub mod Cycle
use cmsis_rtos.Base.{
  ℕ, zero, suc, ◌+◌, ◌-◌, ◌*◌, Option, none, some, ◌==◌, ◌&&◌, if◌then◌else◌, bit_or,
}
use cmsis_rtos.Base.Word.{u32, add32, sub32}
use cmsis_rtos.Scheduler.{Event, event, semaphore, timeout}
use cmsis_rtos.Rtos.{os_ok, error_timeout_resource}
use cmsis_rtos.Queue.{Queue, queue_init, queue_push, queue_pop, Links}
use cmsis_rtos.Pool.{Pool, pool_create, pool_alloc, pool_free}

abbrev pub mail : ℕ
mail = 0x08

abbrev pub message : ℕ
message = 0x10

-- `struct os_messageQ_cb` and `struct os_mailQ_cb`, which are alike, at the address `at`, with the field
-- `info` of a message by its address.
pub record MailQ : Type 0 where
  pub at : ℕ
  pub queue : Queue
  pub pool : Pool
  pub owner : ℕ
  pub info : ℕ → ℕ

-- `osMessageCreate` and `osMailCreate` at an address, with the pool's memory at `base`.
unfoldable pub mail_create : ℕ → ℕ → ℕ → ℕ → ℕ → Links → (ℕ → ℕ) → MailQ
mail_create at queue_sz item_sz base thread_id next info = record {
  at = at;
  queue = queue_init next;
  pool = pool_create queue_sz item_sz base;
  owner = thread_id;
  info = info;
}

-- `osEventWait`: from the event asked for and the interval in microseconds to the event that the thread
-- finds when it runs again, and the queue, which other threads have changed by then.
abbrev pub Waiting : Type 0
Waiting = Event → ℕ → MailQ → Event × MailQ

-- The loop `while ((msg = osPoolAlloc(…))==NULL)` within a number of rounds: the block, 0 for a timeout.
-- `none` is a loop that has not ended.
unfoldable pub take_block : ℕ → Waiting → ℕ → MailQ → Option (ℕ × MailQ)
take_block zero svc millisec q = none
take_block (suc rounds) svc millisec q = elim (pool_alloc q.pool) [
  | some (block, pool) ↦ some (block, record q { pool = pool })
  | none ↦
      let (e, q') =
        svc (event (bit_or semaphore timeout) (add32 q.at 8)) (u32 (millisec * 1000)) q in
      let rest = take_block rounds svc millisec q' in
      if e.status == timeout then some (0, q') else rest
]

-- The wait for a node in an empty queue: the event that the call returns at once, if any.
unfoldable pub await_node : ℕ → Waiting → ℕ → MailQ → Option Event × MailQ
await_node kind svc millisec q =
    let (e, q') = svc (event (bit_or kind timeout) (add32 q.at 4)) (u32 (millisec * 1000)) q in
    if (q.queue.head == 0) && (q.queue.tail == 0)
    then (if e.status == timeout then some e else none, q')
    else (none, q)

-- `osMessagePut`
unfoldable pub message_put : ℕ → Waiting → ℕ → ℕ → MailQ → Option (ℕ × MailQ)
message_put rounds svc info millisec q = elim (take_block rounds svc millisec q) [
  | none ↦ none
  | some (msg, q') ↦
      if msg == 0
      then some (error_timeout_resource, q')
      else some (
        os_ok,
        record q' {
          queue = queue_push msg q'.queue;
          info = λ p. if p == msg then info else q'.info p;
        },
      )
]

-- `osMessageGet` after the wait, with the rounds of the loop in `queue_pop`.
unfoldable pub message_from : ℕ → Option Event × MailQ → Option (Event × MailQ)
message_from rounds (some e, q) = some (e, q)
message_from rounds (none, q) = elim (queue_pop rounds q.queue) [
  | none ↦ none
  | some (msg, queue) ↦
      some (event message (q.info msg), record q { queue = queue; pool = (pool_free q.pool msg).1 })
]

-- `osMessageGet`
unfoldable pub message_get : ℕ → Waiting → ℕ → MailQ → Option (Event × MailQ)
message_get rounds svc millisec q = message_from rounds (await_node message svc millisec q)

-- `osMailAlloc`, 0 for NULL; the data of a mail stand behind its link.
unfoldable pub mail_alloc : ℕ → Waiting → ℕ → MailQ → Option (ℕ × MailQ)
mail_alloc rounds svc millisec q = elim (take_block rounds svc millisec q) [
  | none ↦ none
  | some (block, q') ↦ some (if block == 0 then 0 else add32 block 4, q')
]

-- `osMailPut`
unfoldable pub mail_put : ℕ → MailQ → ℕ × MailQ
mail_put mem q = (os_ok, record q { queue = queue_push (sub32 mem 4) q.queue })

-- `osMailGet` after the wait.
unfoldable pub mail_from : ℕ → Option Event × MailQ → Option (Event × MailQ)
mail_from rounds (some e, q) = some (e, q)
mail_from rounds (none, q) = elim (queue_pop rounds q.queue) [
  | none ↦ none
  | some (node, queue) ↦
      some (event mail (if node == 0 then 0 else add32 node 4), record q { queue = queue })
]

-- `osMailGet`
unfoldable pub mail_get : ℕ → Waiting → ℕ → MailQ → Option (Event × MailQ)
mail_get rounds svc millisec q = mail_from rounds (await_node mail svc millisec q)

-- `osMailFree`
unfoldable pub mail_free : ℕ → MailQ → ℕ × MailQ
mail_free mem q = let r = pool_free q.pool (sub32 mem 4) in (r.0, record q { pool = r.1 })
