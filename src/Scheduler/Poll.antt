-- ===== src/Scheduler/Poll.antt =====
-- What one round of the scheduler makes of a thread that waits.
use cmsis_rtos.Base.{
  ◌-◌, leb, if◌then◌else◌, ℕ, ◌+◌, ◌^◌, ◌<◌, ◌≡◌, ◌≢◌, fun_ext, true, false, not, arith, ◌==◌,
  bit_and, bit_or,
}
use cmsis_rtos.Base.Word.{u32, sub32}
use cmsis_rtos.Semaphore.{enter}
use cmsis_rtos.Scheduler.{
  usleep_wait, usleep_spins, update, Thread, Cells, polled, event, has, running, signal, semaphore,
  timeout, poll, poll_timeout, poll_signal, poll_semaphore, event_wait, wait_forever,
}

-- The time since the wait began, by the difference of two readings of a clock that wraps.
pub sub32-add : (start d : ℕ) → start < 2 ^ 32 → d < 2 ^ 32 → sub32 (u32 (start + d)) start ≡ d
sub32-add start d h k = omega arith

-- A thread that waits for a semaphore with a token left is ready, takes exactly one token of that
-- semaphore and is told the count before; no other semaphore changes.
pub poll-semaphore :
    (start now interval p c : ℕ) (t : Thread) (m : Cells)
    → m p ≡ c
    → 0 < c
    → c < 2 ^ 31
    → let r = poll now (event_wait start semaphore p interval t) m in
      (r.ready ≡ true)
      × (r.thread.event ≡ event (bit_or semaphore running) c)
      × (r.cells ≡ update m p (c - 1))
unfolding poll poll_semaphore event_wait enter
poll-semaphore start now interval p c t m e pos small =
    (ground arith, ground arith, fun_ext λ q. ground arith)

-- A thread that waits for a semaphore with no token changes no memory. It is ready exactly when its
-- interval has passed, and its status then says timeout; until then it stays as it is. The clock
-- may wrap in between.
pub poll-semaphore_empty :
    (start d interval p : ℕ) (t : Thread) (m : Cells)
    → m p ≡ 0
    → start < 2 ^ 32
    → d < 2 ^ 32
    → interval ≢ wait_forever
    → let r = poll (u32 (start + d)) (event_wait start semaphore p interval t) m in
      (r.cells ≡ m)
      × (r.ready ≡ leb interval d)
      × (r.thread ≡ (
          let waiting = event_wait start semaphore p interval t in
          if leb interval d
          then record waiting { event = event (bit_or timeout running) p }
          else waiting))
unfolding poll poll_semaphore poll_timeout event_wait enter
poll-semaphore_empty start d interval p t m e h k ne = (
  fun_ext λ q. ground arith,
  ground (arith, sub32-add start d),
  ground (arith, sub32-add start d),
)

-- Without a timeout it is never ready.
pub poll-semaphore_forever :
    (start now p : ℕ) (t : Thread) (m : Cells)
    → m p ≡ 0
    → (poll now (event_wait start semaphore p wait_forever t) m).ready ≡ false
unfolding poll poll_semaphore poll_timeout event_wait enter
poll-semaphore_forever start now p t m e = ground arith

-- A thread that waits for signals without a timeout is ready exactly when one of them is pending,
-- and is told which of those it waits for are; otherwise its event stays as it is. No memory changes.
pub poll-signal :
    (now flags : ℕ) (t : Thread) (m : Cells)
    → let waiting = event_wait now signal flags wait_forever t in
      let pending = bit_and t.signals flags in
      ((poll now waiting m).ready ≡ not (pending == 0))
      × ((poll now waiting m).thread.event
          ≡ (if pending == 0 then event signal flags else event (bit_or signal running) pending))
      × ((poll now waiting m).cells ≡ m)
unfolding poll poll_signal poll_timeout event_wait
poll-signal now flags t m = (ground arith, ground arith, ground arith)

-- A thread that polls ready has the running flag in its status.
pub poll-running :
    (now : ℕ) (t : Thread) (m : Cells)
    → (poll now t m).ready ≡ true
    → has (poll now t m).thread.event.status running ≡ true
unfolding poll poll_signal poll_semaphore poll_timeout
poll-running now t m r = ground arith

-- A round leaves a thread that is not ready as it is.
pub poll_not_ready :
    (now : ℕ) (t : Thread) (m : Cells) → (poll now t m).ready ≡ false → (poll now t m).thread ≡ t
unfolding poll poll_signal poll_semaphore poll_timeout
poll_not_ready now t m r = ground arith

-- A running thread is ready at once, and nothing changes.
pub poll_running_lem :
    (now : ℕ) (t : Thread) (m : Cells)
    → has t.event.status running ≡ true
    → poll now t m ≡ polled true t m
unfolding poll
poll_running_lem now t m r = ground arith

-- The sleep of `svc_handler_usleep` from 1000 microseconds on: the thread is ready exactly when its
-- interval has passed since it began, and changes no memory. The clock may wrap in between.
pub usleep_wait_lem :
    (start d interval : ℕ) (t : Thread) (m : Cells)
    → start < 2 ^ 32
    → d < 2 ^ 32
    → let r = poll (u32 (start + d)) (usleep_wait start interval t) m in
      (r.ready ≡ leb interval d) × (r.cells ≡ m)
unfolding poll poll_timeout usleep_wait
usleep_wait_lem start d interval t m h k = (ground (arith, sub32-add start d), ground arith)

-- The busy loop below 1000 microseconds tests the wrong way round: it is left at once while its
-- interval has not passed, and goes on when it has.
pub usleep_spins_lem :
    (start d interval : ℕ)
    → start < 2 ^ 32
    → d < 2 ^ 32
    → usleep_spins start (u32 (start + d)) interval ≡ leb interval d
unfolding usleep_spins
usleep_spins_lem start d interval h k = ground (arith, sub32-add start d)
