-- ===== src/MessageQueue.antt =====
-- message_queue.c: the message queues of CMSIS-RTOS 2. The two linked lists are kept as lists of
-- messages; a message is the block of the pool that it stands in, with its priority and its bytes.
pub mod Order
pub mod Flow
use cmsis_rtos.Base.{
  ℕ, zero, suc, ◌+◌, Bool, List, [], ◌∷◌, Option, none, some, ◌==◌, if◌then◌else◌, leb,
}
use cmsis_rtos.Base.Word.{u32}
use cmsis_rtos.Semaphore.{init, enter, leave}
use cmsis_rtos.Scheduler.{has, timeout}
use cmsis_rtos.MemoryPool.{
  MemoryPool, memory_pool_new, memory_pool_alloc, memory_pool_free, memory_pool_get_space,
}

-- `struct _PriorityList`
pub record Message : Type 0 where
  pub node : ℕ
  pub prio : ℕ
  pub bytes : List ℕ

abbrev pub message : ℕ → ℕ → List ℕ → Message
message n p d = record { node = n; prio = p; bytes = d }

-- `struct _osMessageQueue`
pub record MessageQueue : Type 0 where
  pub count : ℕ
  pub pool : MemoryPool
  pub msg_size : ℕ
  pub tail : List Message
  pub head : List Message

abbrev pub error_timeout : ℕ
error_timeout = 0xFFFFFFFE

-- The bytes that `memcpy` takes.
abbrev pub copy : ℕ → List ℕ → List ℕ
copy zero bytes = []
copy (suc n) [] = []
copy (suc n) (b ∷ bytes) = b ∷ copy n bytes

-- `osMessageQueueNew`, with the memory of its pool at `base`; the header of a message has 8 bytes.
unfoldable pub message_queue_new : ℕ → ℕ → ℕ → MessageQueue
unfolding init
message_queue_new msg_count msg_size base = record {
  count = init 0;
  pool = memory_pool_new msg_count (u32 (msg_size + 8)) base;
  msg_size = msg_size;
  tail = [];
  head = [];
}

-- `osMessageQueueGetCount`, `osMessageQueueGetSpace`
unfoldable pub message_queue_get_count : MessageQueue → ℕ
message_queue_get_count q = q.count

unfoldable pub message_queue_get_space : MessageQueue → ℕ
unfolding memory_pool_get_space
message_queue_get_space q = memory_pool_get_space q.pool

-- The inner loop of `osMessageQueueGet`: a message goes behind those of its priority or a higher
-- one.
unfoldable pub insert : Message → List Message → List Message
insert m [] = m ∷ []
insert m (x ∷ xs) = if leb m.prio x.prio then x ∷ insert m xs else m ∷ x ∷ xs

-- The outer loop, over the messages of the senders, last sent first.
unfoldable pub sort_in : List Message → List Message → List Message
sort_in [] head = head
sort_in (m ∷ ms) head = sort_in ms (insert m head)

-- What `osMessageQueueGet` ends with.
pub data Reply : Type 0 where
  -- `osOK`, with the priority and the bytes of the message.
  received : ℕ → List ℕ → Reply
  timed_out : Reply
  -- A read through NULL: the counter was not 0 and yet there was no message.
  fault : Reply

-- `osMessageQueueGet` when its thread has a token of the counter.
unfoldable pub deliver : MessageQueue → Reply × MessageQueue
deliver q = elim (sort_in q.tail q.head) [
  | [] ↦ (fault, q)
  | m ∷ rest ↦ (
    received m.prio (copy q.msg_size m.bytes),
    record q { pool = (memory_pool_free m.node q.pool).1; tail = []; head = rest },
  )
]

-- `osMessageQueueGet`. `svc` is the call SVC_EVENT_WAIT: the status of the event and the queue when
-- the thread runs again.
unfoldable pub message_queue_get :
    (MessageQueue → ℕ × MessageQueue) → MessageQueue → Reply × MessageQueue
unfolding deliver
message_queue_get svc q =
    let r = enter q.count in
    let q' = record q { count = r.cell } in
    let (status, q'') = svc q' in
    if r.count == 0
    then (if has status timeout then (timed_out, q'') else deliver q'')
    else deliver q'

-- `osMessageQueuePut`, with the same call when the pool has no block left.
unfoldable pub message_queue_put :
    (MessageQueue → ℕ × MessageQueue) → List ℕ → ℕ → MessageQueue → ℕ × MessageQueue
message_queue_put svc bytes prio q =
    let (block, pool) =
      memory_pool_alloc (λ p. let (status, q') = svc (record q { pool = p }) in (status, q'.pool))
        q.pool in
    let now = if q.pool.count == 0 then (svc q).1 else q in
    elim block [
      | none ↦ (error_timeout, record now { pool = pool })
      | some node ↦ (
        0,
        record now {
          count = (leave now.count).cell;
          pool = pool;
          tail = message node prio (copy now.msg_size bytes) ∷ now.tail;
        },
      )
    ]
