-- ===== src/Tests/Rtos.antt =====
-- semaphore.c, mutex.c, semaphore2.c at concrete inputs.
use cmsis_rtos.Base.{ℕ, ◌+◌, ◌≡◌, refl, [], ◌∷◌, replicate, arith}
use cmsis_rtos.Base.Word.{u32, sub32}
use cmsis_rtos.Semaphore.{enter, leave, fetch_add_loop}
use cmsis_rtos.Scheduler.{Cells, Thread, update, event, semaphore}
use cmsis_rtos.Rtos.{
  os_ok, error_isr, kernel_wait, semaphore_wait, mutex_wait, semaphore_acquire, Wait,
}
use cmsis_rtos.Rtos.Slow.{wait_timed_out, wait_granted}
use cmsis_rtos.Rtos.Exclusion.{system, outside, waiting, inside, Step, Reach, mutual_exclusion}

-- One task holds the mutex, another one waits for it.
contended : Reach (system 1 (replicate 2 outside) 0) (system 0 (inside ∷ waiting ∷ []) 0)
unfolding enter
contended =
    Reach.next (Reach.next Reach.start (Step.call_enters 0 refl (omega arith)))
      (Step.call_waits 1 refl refl)

-- Then the first one has released it.
released : Reach (system 1 (replicate 2 outside) 0) (system 1 (outside ∷ waiting ∷ []) 0)
unfolding leave fetch_add_loop
released = Reach.next contended (Step.release 0 refl)

mutual_exclusion_example : ◌≡◌ {A = ℕ} 0 0
mutual_exclusion_example = mutual_exclusion 2 0 0 contended refl refl refl

abbrev sleeper : Thread
sleeper = record {
  id = 2;
  signals = 0;
  event = event semaphore 8;
  wait_timestamp = 0;
  wait_timeout = 0;
}

abbrev empty : Cells
empty p = 0

-- Another thread leaves two tokens in the cell 8.
abbrev give_two : Cells → Cells
give_two m = update m 8 2

abbrev granted : Wait
granted = kernel_wait 100 900 give_two sleeper

abbrev expired : Wait
expired = kernel_wait 100 (u32 (100 + 20000)) (λ m. m) sleeper

abbrev two_tokens : Cells
two_tokens p = 2

wait_granted_example :
    (mutex_wait granted 8 10 empty ≡ (os_ok, update (give_two empty) 8 1))
    × (semaphore_wait granted 8 10 empty ≡ (1, update (give_two empty) 8 1))
    × (semaphore_acquire granted 8 10 empty ≡ (error_isr, update (give_two empty) 8 1))
wait_granted_example = wait_granted 100 900 8 10 1 give_two sleeper empty refl refl (omega arith)

wait_timed_out_example :
    (mutex_wait expired 8 10 empty ≡ (os_ok, empty))
    × (semaphore_wait expired 8 10 empty ≡ (sub32 8 1, empty))
    × (semaphore_acquire expired 8 10 empty ≡ (error_isr, empty))
wait_timed_out_example =
    wait_timed_out 100 20000 8 10 (λ m. m) sleeper empty refl refl (omega arith) (omega arith)
      (omega arith) (omega arith)
