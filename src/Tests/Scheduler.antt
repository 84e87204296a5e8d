-- ===== src/Tests/Scheduler.antt =====
-- thread.c at concrete inputs.
use cmsis_rtos.Base.{fun_ext, ◌≡◌, refl, inl, true, List, [], ◌∷◌, some, length, arith}
use cmsis_rtos.Semaphore.{enter}
use cmsis_rtos.Scheduler.{
  Thread, Cells, event, running, semaphore, has, poll, poll_timeout, poll_semaphore, state,
  schedule,
}
use cmsis_rtos.Scheduler.Rounds.{schedule-ready, schedule_total}

abbrev runner : Thread
runner = record {
  id = 1;
  signals = 0;
  event = event running 0;
  wait_timestamp = 0;
  wait_timeout = 0;
}

abbrev waiter : Thread
waiter = record {
  id = 2;
  signals = 6;
  event = event semaphore 100;
  wait_timestamp = 0;
  wait_timeout = 0;
}

abbrev no_tokens : Cells
no_tokens p = 0

abbrev three_tokens : Cells
three_tokens p = 3

schedule-ready_example :
    schedule 2 (λ i. i) (runner ∷ waiter ∷ runner ∷ []) no_tokens
    ≡ some (state (runner ∷ runner ∷ waiter ∷ []) no_tokens)
unfolding poll poll_semaphore poll_timeout enter
schedule-ready_example =
    schedule-ready (waiter ∷ []) 2 (λ i. i) runner runner [] no_tokens no_tokens
      (refl, fun_ext λ q. ground arith) refl (omega arith)

schedule_total_example :
    (t : Thread) × (others : List Thread) × (m' : Cells) × (schedule 2
        (λ i. i)
        (runner ∷ waiter ∷ [])
        no_tokens
      ≡ some (state (t ∷ others) m'))
    × (has t.event.status running ≡ true)
    × (length others ≡ 1)
schedule_total_example = schedule_total (λ i. i) runner (waiter ∷ []) no_tokens (inl refl)
