-- ===== src/MemoryPool.antt =====
-- memory_pool.c: the memory pools of CMSIS-RTOS 2. The free blocks are a stack linked through their
-- first words; it is kept as the list of their addresses.
pub mod Blocks
pub mod Waits
pub mod Runs
use cmsis_rtos.Base.{
  ℕ, zero, suc, ◌+◌, ◌*◌, ◌/◌, List, [], ◌∷◌, Option, none, some, ◌==◌, if◌then◌else◌,
}
use cmsis_rtos.Base.Word.{u32, sub32}
use cmsis_rtos.Semaphore.{init, enter, leave}
use cmsis_rtos.Scheduler.{semaphore}

-- `struct _osMemoryPool`
pub record MemoryPool : Type 0 where
  pub count : ℕ
  pub free : List ℕ

abbrev pub memory_pool : ℕ → List ℕ → MemoryPool
memory_pool c f = record { count = c; free = f }

-- The loop `while (--block_count)` of `osMemoryPoolNew`: the blocks that it links from `elem` on in
-- this number of rounds.
unfoldable pub link_blocks : ℕ → ℕ → ℕ → List ℕ
link_blocks zero elem stride = elem ∷ []
link_blocks (suc rounds) elem stride = elem ∷ link_blocks rounds (elem + stride) stride

-- `osMemoryPoolNew` with its memory at `base`; the size is rounded up to words.
unfoldable pub memory_pool_new : ℕ → ℕ → ℕ → MemoryPool
unfolding init
memory_pool_new block_count block_size base =
    memory_pool (init block_count)
      (link_blocks (sub32 block_count 1) base (u32 (block_size + 3) / 4 * 4))

-- `atomic_list_push` and `atomic_list_pop`, in the round whose exclusive store succeeds.
unfoldable pub atomic_list_push : ℕ → List ℕ → List ℕ
atomic_list_push elem top = elem ∷ top

unfoldable pub atomic_list_pop : List ℕ → Option ℕ × List ℕ
atomic_list_pop [] = (none, [])
atomic_list_pop (ref ∷ top) = (some ref, top)

-- `osMemoryPoolAlloc`, `none` for NULL. `svc` is the call SVC_EVENT_WAIT: the status of the event and
-- the pool when the thread runs again.
unfoldable pub memory_pool_alloc :
    (MemoryPool → ℕ × MemoryPool) → MemoryPool → Option ℕ × MemoryPool
memory_pool_alloc svc p =
    let r = enter p.count in
    let p' = record p { count = r.cell } in
    let (status, p'') = svc p' in
    let (now, free) = atomic_list_pop p'.free in
    let (later, free') = atomic_list_pop p''.free in
    if r.count == 0
    then (if status == semaphore then (later, record p'' { free = free' }) else (none, p''))
    else (now, record p' { free = free })

-- `osMemoryPoolFree`
unfoldable pub memory_pool_free : ℕ → MemoryPool → ℕ × MemoryPool
memory_pool_free block p = (0, memory_pool (leave p.count).cell (atomic_list_push block p.free))

-- `osMemoryPoolGetSpace`, and `osMemoryPoolGetCount`, which is the same with the sign changed.
unfoldable pub memory_pool_get_space : MemoryPool → ℕ
memory_pool_get_space p = p.count

unfoldable pub memory_pool_get_count : MemoryPool → ℕ
memory_pool_get_count p = sub32 0 p.count
