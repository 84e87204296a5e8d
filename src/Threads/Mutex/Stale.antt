-- ===== src/Threads/Mutex/Stale.antt =====
-- The owner of an unlocked mutex is not cleared, and `mtx_trylock` is two steps.
use cmsis_rtos.Base.{ℕ, ◌≡◌, arith}
use cmsis_rtos.Semaphore.{enter, leave, fetch_add_loop}
use cmsis_rtos.Threads.Mutex.{mutex, success, mtx_trylock, mtx_unlock, trylock_enter, trylock_rest}

-- Two threads can own a mutex at a time: `a` locks and unlocks it; `b` locks it and is interrupted
-- between the two steps; `a` locks again and is let in as the owner that it was; so is `b` when it
-- goes on.
pub two_owners :
    (a b : ℕ)
    → let free = (mtx_unlock (mtx_trylock a (mutex 1 0)).1).1 in
      let (count, taken) = trylock_enter free in
      let (second, both) = mtx_trylock a taken in
      (second ≡ success) × ((trylock_rest b count both).0 ≡ success)
unfolding mtx_trylock mtx_unlock enter leave fetch_add_loop
two_owners a b = ground arith
