-- ===== src/Threads/Mutex.antt =====
-- c11_mutex.c. `thrd_t` is a number, 0 for NULL.
pub mod Locks
pub mod Nested
pub mod Stale
use cmsis_rtos.Base.{ℕ, zero, suc, not, ◌==◌, if◌then◌else◌, bit_and}
use cmsis_rtos.Base.Word.{sub32}
use cmsis_rtos.Semaphore.{init, enter, leave, is_positive}
use cmsis_rtos.Scheduler.{has, semaphore, timeout}

-- `struct os_mutex_cb`
pub record Mutex : Type 0 where
  pub count : ℕ
  pub owner : ℕ

abbrev pub mutex : ℕ → ℕ → Mutex
mutex c o = record { count = c; owner = o }

-- The results of threads.h that the functions return.
pub data Status : Type 0 where
  success busy timed_out : Status

unfoldable pub mtx_init : Mutex
unfolding init
mtx_init = mutex (init 1) 0

unfoldable pub mtx_destroy : Mutex → Mutex
unfolding init
mtx_destroy m = mutex (init 0) 0

unfoldable pub mtx_unlock : Mutex → Status × Mutex
mtx_unlock m = (success, record m { count = (leave m.count).cell })

-- `mtx_trylock` in its two steps: `semaphore_enter`, which returns the count before, and the rest.
unfoldable pub trylock_enter : Mutex → ℕ × Mutex
trylock_enter m = let r = enter m.count in (r.count, record m { count = r.cell })

unfoldable pub trylock_rest : ℕ → ℕ → Mutex → Status × Mutex
trylock_rest me count m =
    if is_positive count
    then (success, record m { owner = me })
    else if m.owner == me
    then (success, record m { count = sub32 m.count 1 })
    else (busy, m)

unfoldable pub mtx_trylock : ℕ → Mutex → Status × Mutex
unfolding trylock_enter trylock_rest
mtx_trylock me m = let (count, m') = trylock_enter m in trylock_rest me count m'

-- `mtx_timedlock`, and `mtx_lock` when the wait has no end. `svc` is the call SVC_CLOCK_WAIT: the
-- status of the event and the mutex when the thread runs again.
unfoldable pub mtx_timedlock : (Mutex → ℕ × Mutex) → ℕ → Mutex → Status × Mutex
mtx_timedlock svc me m =
    let (res, m') = mtx_trylock me m in
    elim res [
      | busy ↦
          let (status, m'') = svc m' in
          if has status semaphore
          then (success, record m'' { owner = me })
          else if has status timeout
          then (timed_out, m'')
          else (busy, m'')
      | other ↦ (other, m')
    ]
