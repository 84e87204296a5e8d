-- ===== src/MemoryPool/Waits.antt =====
-- `osMemoryPoolAlloc` when it waits, with the wait as the scheduler of thread.c makes it.
use cmsis_rtos.Base.{
  ℕ, ◌-◌, ◌^◌, ◌<◌, ◌≡◌, ◌≢◌, refl, ne→==, ap, ap₂, bit_or, false, List, none, ◌==◌, arith,
}
use cmsis_rtos.Semaphore.{enter}
use cmsis_rtos.Scheduler.{Event, Thread, event_wait, poll, semaphore, running}
use cmsis_rtos.Scheduler.Poll.{poll-semaphore}
use cmsis_rtos.MemoryPool.{MemoryPool, memory_pool, memory_pool_alloc}

-- The system call of the thread `t` from `start` on: the other threads change the pool by `others`,
-- and the scheduler comes to `t` at `now`. The counter is the cell 1.
unfoldable pub kernel_pool_wait :
    ℕ → ℕ → (MemoryPool → MemoryPool) → Thread → ℕ → MemoryPool → ℕ × MemoryPool
kernel_pool_wait start now others t interval p =
    let q = others p in
    let r = poll now (event_wait start semaphore 1 interval t) (λ _. q.count) in
    (r.thread.event.status, memory_pool (r.cells 1) q.free)

pub alloc_after_wait :
    (svc : MemoryPool → ℕ × MemoryPool) (free : List ℕ) (status : ℕ) (q : MemoryPool)
    → svc (memory_pool 0 free) ≡ (status, q)
    → status ≢ semaphore
    → memory_pool_alloc svc (memory_pool 0 free) ≡ (none, q)
unfolding memory_pool_alloc enter
alloc_after_wait svc free status q e ne =
    let other : (status == semaphore) ≡ false = ne→== status semaphore ne in
    rw (e, other, memory_pool_alloc, enter) refl

-- When the pool is empty and another thread releases blocks meanwhile, the wait takes a token of
-- the counter, and yet `osMemoryPoolAlloc` returns NULL and takes no block.
pub memory_pool_alloc_loses :
    (start now interval : ℕ) (others : MemoryPool → MemoryPool) (t : Thread) (free : List ℕ)
    (q : MemoryPool)
    → others (memory_pool 0 free) ≡ q
    → 0 < q.count
    → q.count < 2 ^ 31
    → memory_pool_alloc (kernel_pool_wait start now others t interval) (memory_pool 0 free)
      ≡ (none, memory_pool (q.count - 1) q.free)
unfolding kernel_pool_wait
memory_pool_alloc_loses start now interval others t free q e pos small =
    let (_, told, taken) =
      poll-semaphore start now interval 1 q.count t (λ _. q.count) refl pos small in
    alloc_after_wait (kernel_pool_wait start now others t interval) free (bit_or semaphore running)
      (memory_pool (q.count - 1) q.free)
      (rw (e, kernel_pool_wait)
        (ap₂ (λ s c. (s, memory_pool c q.free)) (ap Event.status told) (ap (λ m. m 1) taken)))
      (omega arith)
