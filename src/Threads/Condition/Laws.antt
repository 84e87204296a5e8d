-- ===== src/Threads/Condition/Laws.antt =====
-- Which waiters a signal and a broadcast wake, and what the wait does to the mutex.
use cmsis_rtos.Base.{ℕ, ◌+◌, ◌<◌, ◌^◌, ◌≡◌, ◌≢◌, refl, ◌==◌, List, [], ◌∷◌, arith, if◌then◌else◌}
use cmsis_rtos.Base.Word.{u32, add32}
use cmsis_rtos.Semaphore.{enter, leave, fetch_add_loop}
use cmsis_rtos.Scheduler.{Cells}
use cmsis_rtos.Threads.Mutex.{mutex, busy, mtx_trylock}
use cmsis_rtos.Threads.Condition.{Condition, wake, cnd_signal, cnd_broadcast, cnd_enqueue}

-- How many waiters in the list use the mutex at `p`.
abbrev pub count_of : ℕ → List ℕ → ℕ
count_of p [] = 0
count_of p (q ∷ qs) = (if q == p then 1 else 0) + count_of p qs

wake_cell : (p q : ℕ) (m : Cells) → q ≢ 0 → wake p m q ≡ (if p == q then add32 (m q) 1 else m q)
unfolding wake leave fetch_add_loop
wake_cell p q m ne = ground arith

wake-lt : (p q : ℕ) (m : Cells) → q ≢ 0 → m q < 2 ^ 32 → wake p m q < 2 ^ 32
wake-lt p q m ne h = ground (arith, wake_cell p q m)

-- A broadcast empties the list and gives every mutex one token for each of its waiters.
pub cnd_broadcast_lem :
    (waiters : List ℕ) (m : Cells) (q : ℕ)
    → q ≢ 0
    → m q < 2 ^ 32
    → ((cnd_broadcast waiters m).waiters ≡ [])
      × ((cnd_broadcast waiters m).cells q ≡ u32 (m q + count_of q waiters))
unfolding cnd_broadcast
cnd_broadcast_lem [] m q ne h = (refl, omega arith)
cnd_broadcast_lem (p ∷ ps) m q ne h =
    let (gone, cells) = cnd_broadcast_lem ps (wake p m) q ne (wake-lt p q m ne h) in
    (gone, ground (arith, cells, wake_cell p q m ne))

-- A signal wakes the thread that came last, and no other.
pub signal_last :
    (p : ℕ) (c : Condition)
    → p ≢ 0
    → let queued = cnd_enqueue p c in
      let signalled = cnd_signal queued.waiters queued.cells in
      (signalled.waiters ≡ c.waiters)
      × ((q : ℕ) → signalled.cells q ≡ (if q == p then 1 else c.cells q))
unfolding cnd_enqueue cnd_signal wake leave fetch_add_loop
signal_last p c ne = (refl, λ q. ground arith)

-- The wait does not unlock its mutex: to every other thread it stays locked until a signal comes,
-- whatever its count was.
pub enqueue_keeps_locked :
    (p owner other : ℕ) (c : Condition)
    → other ≢ owner
    → mtx_trylock other (mutex ((cnd_enqueue p c).cells p) owner)
      ≡ (busy, mutex ((cnd_enqueue p c).cells p) owner)
unfolding cnd_enqueue mtx_trylock enter
enqueue_keeps_locked p owner other c ne = ground arith
