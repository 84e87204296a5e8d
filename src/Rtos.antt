-- ===== src/Rtos.antt =====
-- semaphore.c, mutex.c, semaphore2.c: the semaphores and mutexes of CMSIS-RTOS, with `osEventWait`
-- of thread.c, on the cells of the scheduler. A call returns its value beside the memory.
pub mod Fast
pub mod Slow
pub mod Exclusion
use cmsis_rtos.Base.{ℕ, ◌*◌, ◌-◌, ◌^◌, Bool, ◌==◌, if◌then◌else◌}
use cmsis_rtos.Base.Word.{u32, sub32}
use cmsis_rtos.Semaphore.{init, enter, leave}
use cmsis_rtos.Scheduler.{
  Event, event, Thread, Cells, update, semaphore, timeout, running, poll, event_wait,
}

-- `osStatus` of cmsis_os.h, and `osStatus_t` of cmsis_os2.h as a bit pattern.
abbrev pub os_ok : ℕ
os_ok = 0

abbrev pub error_timeout_resource : ℕ
error_timeout_resource = 0xC1

abbrev pub error_timeout : ℕ
error_timeout = 2 ^ 32 - 2

abbrev pub error_isr : ℕ
error_isr = 2 ^ 32 - 6

abbrev pub minus_one : ℕ
minus_one = 2 ^ 32 - 1

-- A system call that waits for an event: from the event asked for and the interval in microseconds to the event
-- that the thread finds when it runs again, and the memory then.
abbrev pub Wait : Type 0
Wait = Event → ℕ → Cells → Event × Cells

-- `osEventWait`: milliseconds into microseconds, in 32 bits.
unfoldable pub os_event_wait : Wait → Wait
os_event_wait svc e millisec m = svc e (u32 (millisec * 1000)) m

-- The system call as the kernel makes it: the thread `t` waits from `start` on, the other threads
-- change the memory by `others`, and the scheduler comes to `t` at `now`.
unfoldable pub kernel_wait : ℕ → ℕ → (Cells → Cells) → Thread → Wait
kernel_wait start now others t e interval m =
    let p = poll now (event_wait start e.status e.value interval t) (others m) in
    (p.thread.event, p.cells)

-- `osSemaphoreCreate`, `osMutexCreate`; `osSemaphoreRelease`, `osMutexRelease`; `osSemaphoreDelete`,
-- `osMutexDelete`.
unfoldable pub semaphore_create : ℕ → ℕ → Cells → Cells
unfolding init
semaphore_create p count m = update m p (init count)

unfoldable pub mutex_create : ℕ → Cells → Cells
unfolding init
mutex_create p m = update m p (init 1)

unfoldable pub semaphore_release : ℕ → Cells → ℕ × Cells
semaphore_release p m = (os_ok, update m p (leave (m p)).cell)

unfoldable pub mutex_release : ℕ → Cells → ℕ × Cells
mutex_release p m = (os_ok, update m p (leave (m p)).cell)

unfoldable pub semaphore_delete : ℕ → Cells → ℕ × Cells
unfolding init
semaphore_delete p m = (os_ok, update m p (init 0))

unfoldable pub mutex_delete : ℕ → Cells → ℕ × Cells
unfolding init
mutex_delete p m = (os_ok, update m p (init 0))

module _ (svc : Wait) where
  -- `osSemaphoreWait`
  unfoldable pub semaphore_wait : ℕ → ℕ → Cells → ℕ × Cells
  semaphore_wait p millisec m =
      let r = enter (m p) in
      let m' = update m p r.cell in
      let (e, m'') = os_event_wait svc (event semaphore p) millisec m' in
      if r.count == 0
      then (if e.status == timeout then minus_one else sub32 e.value 1, m'')
      else (sub32 r.count 1, m')

  -- `osMutexWait`
  unfoldable pub mutex_wait : ℕ → ℕ → Cells → ℕ × Cells
  mutex_wait p millisec m =
      let r = enter (m p) in
      let m' = update m p r.cell in
      let (e, m'') = os_event_wait svc (event semaphore p) millisec m' in
      if r.count == 0
      then (if e.status == timeout then error_timeout_resource else os_ok, m'')
      else (os_ok, m')

  -- `osSemaphoreAcquire` of semaphore2.c, which makes the system call itself
  unfoldable pub semaphore_acquire : ℕ → ℕ → Cells → ℕ × Cells
  semaphore_acquire p millisec m =
      let r = enter (m p) in
      let m' = update m p r.cell in
      let (e, m'') = svc (event semaphore p) (u32 (millisec * 1000)) m' in
      if r.count == 0
      then (
        if e.status == semaphore
            then os_ok
            else if e.status == timeout
            then error_timeout
            else error_isr,
        m'',
      )
      else (os_ok, m')
