-- ===== src/Tests/Messages.antt =====
-- memory_pool.c and message_queue.c at concrete inputs.
use cmsis_rtos.Base.{ℕ, ◌+◌, ◌≤◌, none, some, ◌≡◌, ◌≢◌, refl, [], ◌∷◌, length, Distinct, arith}
use cmsis_rtos.Base.Word.{sub32}
use cmsis_rtos.Semaphore.{init, enter, leave, fetch_add_loop}
use cmsis_rtos.Scheduler.{Thread, event, semaphore, poll, poll_semaphore, event_wait}
use cmsis_rtos.MemoryPool.{
  MemoryPool, memory_pool, memory_pool_new, memory_pool_alloc, memory_pool_free, link_blocks,
  atomic_list_pop, atomic_list_push,
}
use cmsis_rtos.MemoryPool.Waits.{kernel_pool_wait}
use cmsis_rtos.MemoryPool.Runs as PoolRuns
use cmsis_rtos.MessageQueue.{
  message, MessageQueue, message_queue_new, message_queue_get, message_queue_put,
  message_queue_get_count, message_queue_get_space,
}
use cmsis_rtos.MessageQueue.Order.{Delivered}
use cmsis_rtos.MessageQueue.Flow as Flow

abbrev no_wait : MemoryPool → ℕ × MemoryPool
no_wait p = (0, p)

abbrev third : Thread
third = record { id = 3; signals = 0; event = event 0 0; wait_timestamp = 0; wait_timeout = 0 }

-- Both blocks are taken, the first one is released, and a wait takes the token of it without the block.
cycled : PoolRuns.Reach (memory_pool_new 2 12 1000, []) (memory_pool 0 (1000 ∷ []), 1012 ∷ [])
unfolding memory_pool_new init link_blocks memory_pool_alloc memory_pool_free enter leave
    fetch_add_loop atomic_list_pop atomic_list_push poll poll_semaphore event_wait kernel_pool_wait
cycled =
    PoolRuns.Reach.next
      (PoolRuns.Reach.next
        (PoolRuns.Reach.next
          (PoolRuns.Reach.next PoolRuns.Reach.start (
            PoolRuns.Step.alloc (memory_pool 2 (1000 ∷ 1012 ∷ [])) [] (some 1000)
              (memory_pool 1 (1012 ∷ [])) no_wait (omega arith) refl))
          (PoolRuns.Step.alloc (memory_pool 1 (1012 ∷ [])) (1000 ∷ []) (some 1012)
            (memory_pool 0 []) no_wait (omega arith) refl))
        (PoolRuns.Step.free (memory_pool 0 []) (1012 ∷ []) [] 1000))
      (PoolRuns.Step.alloc_waits (memory_pool 1 (1000 ∷ [])) (1012 ∷ []) [] 100 900 20000 third none
        (memory_pool 0 (1000 ∷ [])) refl refl)

memory_pool-never_twice_example : Distinct (1000 ∷ 1012 ∷ []) × (0 ≤ 1) × ◌≡◌ {A = ℕ} (1 + 1) 2
memory_pool-never_twice_example =
    PoolRuns.memory_pool-never_twice 2 12 1000 (memory_pool 0 (1000 ∷ [])) (1012 ∷ []) (omega arith)
      (omega arith) (omega arith) (omega arith) cycled

abbrev sleeper : Thread
sleeper = record {
  id = 2;
  signals = 0;
  event = event semaphore 1;
  wait_timestamp = 0;
  wait_timeout = 0;
}

-- Another thread releases the block 1000.
abbrev give_block : MemoryPool → MemoryPool
give_block p = memory_pool 1 (1000 ∷ p.free)

abbrev no_event : MessageQueue → ℕ × MessageQueue
no_event q = (0, q)

-- A new queue for two messages, and the queue after a message was sent.
abbrev one_message : MessageQueue
one_message = (message_queue_put no_event (7 ∷ 8 ∷ 9 ∷ []) 4 (message_queue_new 2 2 1000)).1

one_sent : Flow.Reach (message_queue_new 2 2 1000) one_message
unfolding message_queue_new memory_pool_new init
one_sent =
    Flow.Reach.next Flow.Reach.start (Flow.Step.put no_event (7 ∷ 8 ∷ 9 ∷ []) 4 (omega arith))

message_queue_runs_example :
    (message_queue_get_count one_message ≡ length (one_message.tail) + length (one_message.head))
    × (message_queue_get_count one_message + message_queue_get_space one_message ≡ 2)
message_queue_runs_example =
    Flow.message_queue_runs 2 2 1000 (omega arith) (omega arith) (omega arith) one_sent

one_count : one_message.count ≢ 0
unfolding message_queue_put message_queue_new memory_pool_new init link_blocks memory_pool_alloc
    enter leave fetch_add_loop atomic_list_pop
one_count = omega arith

message_queue_get_runs_example :
    Delivered
      (record one_message { count = sub32 one_message.count 1 })
      (message_queue_get no_event one_message)
message_queue_get_runs_example =
    Flow.message_queue_get_runs no_event 2 2 1000 (omega arith) (omega arith) (omega arith) one_sent
      one_count

abbrev two_equal : MessageQueue
two_equal = record {
  count = 2;
  pool = memory_pool 0 [];
  msg_size = 1;
  tail = message 1012 3 (8 ∷ []) ∷ message 1000 3 (7 ∷ []) ∷ [];
  head = [];
}
