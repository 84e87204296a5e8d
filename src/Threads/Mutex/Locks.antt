-- ===== src/Threads/Mutex/Locks.antt =====
-- What the calls return and leave behind, when no lock is nested.
use cmsis_rtos.Base.{ℕ, ◌≡◌, ◌≢◌, arith, false, true}
use cmsis_rtos.Semaphore.{enter, leave, fetch_add_loop}
use cmsis_rtos.Threads.Mutex.{
  Mutex, mutex, success, busy, timed_out, mtx_trylock, mtx_unlock, mtx_timedlock,
}
use cmsis_rtos.Scheduler.{has, semaphore, timeout}

-- A free mutex is locked, and then refused to every other thread, which changes nothing; the
-- unlock makes it free again for any thread.
pub trylock_cycle :
    (me other owner : ℕ)
    → other ≢ me
    → (mtx_trylock me (mutex 1 owner) ≡ (success, mutex 0 me))
      × (mtx_trylock other (mutex 0 me) ≡ (busy, mutex 0 me))
      × (mtx_unlock (mutex 0 me) ≡ (success, mutex 1 me))
unfolding mtx_trylock mtx_unlock enter leave fetch_add_loop
trylock_cycle me other owner ne = (ground arith, ground arith, ground arith)

-- On a mutex held by another thread `mtx_timedlock` waits, and goes by the status of the wait: it
-- owns the mutex after the semaphore flag, has a timeout after the timeout flag alone, and is busy
-- after neither.
pub timedlock_waits :
    (svc : Mutex → ℕ × Mutex) (me owner : ℕ)
    → owner ≢ me
    → let (status, m) = svc (mutex 0 owner) in
      let r = mtx_timedlock svc me (mutex 0 owner) in
      (has status semaphore ≡ true → r ≡ (success, record m { owner = me }))
      × (has status semaphore ≡ false → has status timeout ≡ true → r ≡ (timed_out, m))
      × (has status semaphore ≡ false → has status timeout ≡ false → r ≡ (busy, m))
unfolding mtx_timedlock mtx_trylock enter
timedlock_waits svc me owner ne = (λ a. ground arith, λ a b. ground arith, λ a b. ground arith)
