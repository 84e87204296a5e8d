-- ===== src/MemoryPool/Runs.antt =====
-- Any number of operations of memory_pool.c, those that wait among them.
use cmsis_rtos.Base.{
  ℕ, ◌+◌, ◌^◌, ◌≤◌, ◌<◌, ◌≡◌, ◌≢◌, refl, ap, sym, subst, true, false, List, [], ◌∷◌, ◌++◌, Option,
  none, some, length, Distinct, ◌==◌, ne→==, arith,
}
use cmsis_rtos.Base.Word.{sub32}
use cmsis_rtos.Semaphore.{enter, leave, fetch_add_loop}
use cmsis_rtos.Scheduler.{
  Thread, poll, poll_signal, poll_semaphore, poll_timeout, event_wait, has, semaphore, running,
}
use cmsis_rtos.Scheduler.Poll.{poll-running}
use cmsis_rtos.MemoryPool.{
  MemoryPool, memory_pool, memory_pool_new, atomic_list_push, atomic_list_pop, memory_pool_alloc,
  memory_pool_free,
}
use cmsis_rtos.MemoryPool.Waits.{kernel_pool_wait, alloc_after_wait}
use cmsis_rtos.MemoryPool.Blocks.{
  Shares, memory_pool_alloc-Shares, memory_pool_free-Shares, memory_pool_new-Shares,
}

-- The blocks in use after a call of `osMemoryPoolAlloc`.
abbrev with_block : Option ℕ → List ℕ → List ℕ
with_block none held = held
with_block (some block) held = block ∷ held

-- The pool and the blocks in use: `alloc` finds the counter above 0. `alloc_waits` found it at 0; the
-- pool is `p` when the scheduler comes to the thread and lets it run, after the steps of the others.
-- `free` releases a block in use.
pub data Step : MemoryPool × List ℕ → MemoryPool × List ℕ → Type 0 where
  alloc :
      (p : MemoryPool) (held : List ℕ) (answer : Option ℕ) (p' : MemoryPool)
      (svc : MemoryPool → ℕ × MemoryPool)
      → p.count ≢ 0
      → memory_pool_alloc svc p ≡ (answer, p')
      → Step (p, held) (p', with_block answer held)
  alloc_waits :
      (p : MemoryPool) (held before : List ℕ) (begin now interval : ℕ) (t : Thread)
      (answer : Option ℕ) (p' : MemoryPool)
      → (poll now (event_wait begin semaphore 1 interval t) (λ _. p.count)).ready ≡ true
      → memory_pool_alloc (kernel_pool_wait begin now (λ _. p) t interval) (memory_pool 0 before)
        ≡ (answer, p')
      → Step (p, held) (p', with_block answer held)
  free :
      (p : MemoryPool) (before after : List ℕ) (block : ℕ)
      → Step (p, before ++ (block ∷ after)) ((memory_pool_free block p).1, before ++ after)

pub data Reach (s : MemoryPool × List ℕ) : MemoryPool × List ℕ → Type 0 where
  start : Reach s s
  next : {t u : MemoryPool × List ℕ} → Reach s t → Step t u → Reach s u

-- The pool with the counter at the number of its free blocks.
abbrev counted : MemoryPool → MemoryPool
counted p = memory_pool (length p.free) p.free

-- The blocks are shared, and the counter is not above the number of the free ones.
abbrev Lends : MemoryPool × List ℕ → ℕ → Type 0
Lends s total = Shares (counted s.0) s.1 total × (s.0.count ≤ length s.0.free)

alloc_now :
    (svc : MemoryPool → ℕ × MemoryPool) (p : MemoryPool) (block : ℕ) (rest : List ℕ)
    → p.count ≢ 0
    → p.free ≡ block ∷ rest
    → memory_pool_alloc svc p ≡ (some block, memory_pool (sub32 p.count 1) rest)
unfolding memory_pool_alloc enter atomic_list_pop
alloc_now svc p block rest ne e =
    let counter : (p.count == 0) ≡ false = ne→== p.count 0 ne in
    rw (counter, e, counter, memory_pool_alloc, enter, atomic_list_pop) refl

alloc-Lends :
    (svc : MemoryPool → ℕ × MemoryPool) (p : MemoryPool) (held : List ℕ) (total : ℕ)
    → total < 2 ^ 32
    → p.count ≢ 0
    → Lends (p, held) total
    → let (answer, p') = memory_pool_alloc svc p in Lends (p', with_block answer held) total
alloc-Lends svc p held total l ne (shares, behind) =
    let (block, full', _, rest, shares') =
      memory_pool_alloc-Shares svc (counted p) held total shares l (omega (arith, ne, behind)) in
    let lent : Lends (memory_pool (sub32 p.count 1) full'.free, block ∷ held) total = (
      subst (λ c. Shares (memory_pool c full'.free) (block ∷ held) total) shares'.counted shares',
      omega (arith, ne, behind, ap length rest, shares.sum),
    ) in
    subst (λ r. Lends (r.1, with_block r.0 held) total)
      (sym (alloc_now svc p block full'.free ne rest)) lent

-- The scheduler takes one token at most from a counter.
poll_takes : (now c : ℕ) (t : Thread) → c < 2 ^ 32 → (poll now t (λ _. c)).cells 1 ≤ c
unfolding poll poll_signal poll_semaphore poll_timeout enter
poll_takes now c t h = ground arith

running_lem : has semaphore running ≡ false
running_lem = refl

-- A wait that has ended changes no free block, and `osMemoryPoolAlloc` answers NULL after it.
alloc_waits-Lends :
    (p : MemoryPool) (held before : List ℕ) (begin now interval : ℕ) (t : Thread) (total : ℕ)
    → total < 2 ^ 32
    → (poll now (event_wait begin semaphore 1 interval t) (λ _. p.count)).ready ≡ true
    → Lends (p, held) total
    → let (answer, p') =
        memory_pool_alloc (kernel_pool_wait begin now (λ _. p) t interval) (memory_pool 0 before) in
      Lends (p', with_block answer held) total
unfolding kernel_pool_wait
alloc_waits-Lends p held before begin now interval t total l ready (shares, behind) =
    let waiting = event_wait begin semaphore 1 interval t in
    let r = poll now waiting (λ _. p.count) in
    let told = poll-running now waiting (λ _. p.count) ready in
    let other : r.thread.event.status ≢ semaphore =
      λ e. cc (ap (λ status. has status running) e, told, running_lem) in
    let took = poll_takes now p.count waiting (omega (arith, behind, shares.sum)) in
    subst (λ r. Lends (r.1, with_block r.0 held) total)
      (sym (
        alloc_after_wait (kernel_pool_wait begin now (λ _. p) t interval) before
          r.thread.event.status (memory_pool (r.cells 1) p.free) refl other))
      (shares, omega (arith, took, behind))

Step-Lends :
    {s s' : MemoryPool × List ℕ} (total : ℕ)
    → total < 2 ^ 32
    → Step s s'
    → Lends s total
    → Lends s' total
unfolding memory_pool_free atomic_list_push leave fetch_add_loop
Step-Lends total l (alloc p held answer p' svc ne e) h =
    subst (λ r. Lends (r.1, with_block r.0 held) total) e (alloc-Lends svc p held total l ne h)
Step-Lends total l (alloc_waits p held before begin now interval t answer p' ready e) h =
    subst (λ r. Lends (r.1, with_block r.0 held) total) e
      (alloc_waits-Lends p held before begin now interval t total l ready h)
Step-Lends total l (free p before after block) (shares, behind) =
    let shares' = memory_pool_free-Shares (counted p) before after block total shares l in
    (
      subst (λ c. Shares (memory_pool c (block ∷ p.free)) (before ++ after) total) shares'.counted
          shares',
      omega (arith, behind, shares.sum),
    )

Reach-Lends :
    {s s' : MemoryPool × List ℕ} (total : ℕ)
    → total < 2 ^ 32
    → Reach s s'
    → Lends s total
    → Lends s' total
Reach-Lends total l start h = h
Reach-Lends total l (next r st) h = Step-Lends total l st (Reach-Lends total l r h)

-- Over any sequence of operations from a new pool of `n` blocks, below 2 ^ 32 and of a size that is not
-- 0 and at most 2 ^ 32 - 4, no block is in use twice, none is both free and in use, and the free blocks
-- and those in use are `n`. Calls of `osMemoryPoolAlloc` that wait, with the wait as the scheduler
-- makes it, are among the operations, and the counter never exceeds the number of the free blocks.
pub memory_pool-never_twice :
    (n block_size base : ℕ) (p : MemoryPool) (held : List ℕ)
    → 0 < n
    → n < 2 ^ 32
    → 0 < block_size
    → block_size + 3 < 2 ^ 32
    → Reach (memory_pool_new n block_size base, []) (p, held)
    → Distinct (p.free ++ held) × (p.count ≤ length p.free) × (length p.free + length held ≡ n)
memory_pool-never_twice n block_size base p held pos l size fits r =
    let new = memory_pool_new-Shares n block_size base pos l size fits in
    let shared : Shares (counted (memory_pool_new n block_size base)) [] n =
      subst (λ c. Shares (memory_pool c (memory_pool_new n block_size base).free) [] n) new.counted
        new in
    let (shares, behind) = Reach-Lends n l r (shared, omega (arith, new.counted)) in
    (shares.distinct, behind, shares.sum)
