-- ===== src/Rtos/Fast.antt =====
-- The calls that need not wait.
use cmsis_rtos.Base.{ℕ, ◌+◌, ◌^◌, ◌<◌, ◌≡◌, arith}
use cmsis_rtos.Semaphore.{enter}
use cmsis_rtos.Scheduler.{Cells, update}
use cmsis_rtos.Rtos.{Wait, os_ok, semaphore_wait, mutex_wait, semaphore_acquire}

-- With tokens at hand no call waits: each takes one token of its cell and changes no other;
-- `osSemaphoreWait` returns how many are left, the others success.
pub wait_with_tokens :
    (svc : Wait) (p millisec c : ℕ) (m : Cells)
    → m p ≡ c + 1
    → c + 1 < 2 ^ 32
    → (semaphore_wait svc p millisec m ≡ (c, update m p c))
      × (mutex_wait svc p millisec m ≡ (os_ok, update m p c))
      × (semaphore_acquire svc p millisec m ≡ (os_ok, update m p c))
unfolding semaphore_wait mutex_wait semaphore_acquire enter
wait_with_tokens svc p millisec c m e h = (ground arith, ground arith, ground arith)
