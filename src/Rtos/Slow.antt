-- ===== src/Rtos/Slow.antt =====
-- The calls that wait, with the events that the scheduler really hands back.
use cmsis_rtos.Base.{
  ◌∙◌, ℕ, ◌+◌, ◌*◌, ◌^◌, ◌≤◌, ◌<◌, ◌≡◌, ◌≢◌, refl, ap, ap₂, bit_or, fun_ext, ◌==◌, if◌then◌else◌,
  arith,
}
use cmsis_rtos.Base.Word.{u32, sub32}
use cmsis_rtos.Semaphore.{enter}
use cmsis_rtos.Scheduler.{
  Cells, Thread, Event, update, wait_forever, event, semaphore, timeout, running,
}
use cmsis_rtos.Scheduler.Poll.{poll-semaphore, poll-semaphore_empty}
use cmsis_rtos.Rtos.{
  Wait, os_ok, minus_one, error_timeout, error_timeout_resource, error_isr, kernel_wait,
  os_event_wait, semaphore_wait, mutex_wait, semaphore_acquire,
}

-- On an empty cell `semaphore_enter` leaves the memory as it is and returns 0.
enter_empty : (p : ℕ) (m : Cells) → m p ≡ 0 → update m p (enter (m p)).cell ≡ m
unfolding enter
enter_empty p m e = fun_ext λ q. ground arith

enter_empty_count : (p : ℕ) (m : Cells) → m p ≡ 0 → (enter (m p)).count ≡ 0
unfolding enter
enter_empty_count p m e = ground arith

module _ (svc : Wait) (p millisec : ℕ) (m : Cells) (e : m p ≡ 0) where
  abbrev woken : Event × Cells
  woken = svc (event semaphore p) (u32 (millisec * 1000)) m

  mutex_wait_slow :
      mutex_wait svc p millisec m
      ≡ (if woken.0.status == timeout then error_timeout_resource else os_ok, woken.1)
  unfolding mutex_wait os_event_wait
  mutex_wait_slow = rw (enter_empty p m e, enter_empty_count p m e)

  semaphore_wait_slow :
      semaphore_wait svc p millisec m
      ≡ (if woken.0.status == timeout then minus_one else sub32 woken.0.value 1, woken.1)
  unfolding semaphore_wait os_event_wait
  semaphore_wait_slow = rw (enter_empty p m e, enter_empty_count p m e)

  semaphore_acquire_slow : semaphore_acquire svc p millisec m ≡ (
    if woken.0.status == semaphore
        then os_ok
        else if woken.0.status == timeout
        then error_timeout
        else error_isr,
    woken.1,
  )
  unfolding semaphore_acquire
  semaphore_acquire_slow = rw (enter_empty p m e, enter_empty_count p m e)

module _ (start now : ℕ) (others : Cells → Cells) (t : Thread) (p : ℕ) where
  -- What the scheduler hands back at the end of a wait that ran into its timeout.
  kernel_wait-timeout :
      (d interval : ℕ) (m : Cells)
      → others m p ≡ 0
      → start < 2 ^ 32
      → d < 2 ^ 32
      → now ≡ u32 (start + d)
      → interval ≢ wait_forever
      → interval ≤ d
      → kernel_wait start now others t (event semaphore p) interval m
        ≡ (event (bit_or timeout running) p, others m)
  unfolding kernel_wait
  kernel_wait-timeout d interval m e h k at_d ne late =
      let (same, _, thread) = poll-semaphore_empty start d interval p t (others m) e h k ne in
      rw at_d (ap₂ (λ a b. (a, b)) (ap Thread.event thread ∙ ground arith) same)

  -- What it hands back to a thread that got a token.
  kernel_wait-token :
      (c interval : ℕ) (m : Cells)
      → others m p ≡ c + 1
      → c + 1 < 2 ^ 31
      → kernel_wait start now others t (event semaphore p) interval m
        ≡ (event (bit_or semaphore running) (c + 1), update (others m) p c)
  unfolding kernel_wait
  kernel_wait-token c interval m e small =
      let (_, gives, took) =
        poll-semaphore start now interval p (c + 1) t (others m) e (omega arith) small in
      ap₂ (λ a b. (a, b)) gives (took ∙ ap (update (others m) p) (omega arith))

-- A wait on an empty cell that runs into its timeout leaves the memory as the other threads made
-- it, and is reported as no timeout: the status that the scheduler leaves has the running flag
-- beside the timeout flag, and the calls compare it with the timeout flag alone. `osMutexWait`
-- reports success, `osSemaphoreWait` the address of the cell less one, `osSemaphoreAcquire` a call
-- from an interrupt.
pub wait_timed_out :
    (start d p millisec : ℕ) (others : Cells → Cells) (t : Thread) (m : Cells)
    → m p ≡ 0
    → others m p ≡ 0
    → start < 2 ^ 32
    → d < 2 ^ 32
    → u32 (millisec * 1000) ≢ wait_forever
    → u32 (millisec * 1000) ≤ d
    → let svc = kernel_wait start (u32 (start + d)) others t in
      (mutex_wait svc p millisec m ≡ (os_ok, others m))
      × (semaphore_wait svc p millisec m ≡ (sub32 p 1, others m))
      × (semaphore_acquire svc p millisec m ≡ (error_isr, others m))
wait_timed_out start d p millisec others t m e e' h k ne late =
    let now = u32 (start + d) in
    let svc = kernel_wait start now others t in
    let end =
      kernel_wait-timeout start now others t p d (u32 (millisec * 1000)) m e' h k refl ne late in
    (
      rw (mutex_wait_slow svc p millisec m e, end),
      rw (semaphore_wait_slow svc p millisec m e, end),
      rw (semaphore_acquire_slow svc p millisec m e, end),
    )

-- A thread that waits on an empty cell until others have left `c + 1` tokens there takes one of
-- them: `osMutexWait` returns success and `osSemaphoreWait` the number of tokens left. But
-- `osSemaphoreAcquire` returns an error, with the token taken: it compares the status with the
-- semaphore flag alone, and the running flag stands beside it.
pub wait_granted :
    (start now p millisec c : ℕ) (others : Cells → Cells) (t : Thread) (m : Cells)
    → m p ≡ 0
    → others m p ≡ c + 1
    → c + 1 < 2 ^ 31
    → let svc = kernel_wait start now others t in
      (mutex_wait svc p millisec m ≡ (os_ok, update (others m) p c))
      × (semaphore_wait svc p millisec m ≡ (c, update (others m) p c))
      × (semaphore_acquire svc p millisec m ≡ (error_isr, update (others m) p c))
wait_granted start now p millisec c others t m e e' small =
    let svc = kernel_wait start now others t in
    let end = kernel_wait-token start now others t p c (u32 (millisec * 1000)) m e' small in
    let less : sub32 (c + 1) 1 ≡ c = omega arith in
    (
      rw (mutex_wait_slow svc p millisec m e, end),
      rw (semaphore_wait_slow svc p millisec m e, end) (ap (λ n. (n, update (others m) p c)) less),
      rw (semaphore_acquire_slow svc p millisec m e, end),
    )
