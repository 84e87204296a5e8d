-- ===== src/Tests/Delivery.antt =====
-- The whole scheduler at a concrete kernel.
use cmsis_rtos.Base.{
  ◌<◌, ◌≤◌, ◌⊎◌, ◌≢◌, inl, ℕ, ◌+◌, ◌≡◌, ◌*◌, ◌^◌, ◌||◌, refl, true, false, some, ◌==◌,
  if◌then◌else◌, arith,
}
use cmsis_rtos.Base.Bits.{test_bit}
use cmsis_rtos.Scheduler.{event, running, signal, has, poll, schedule}
use cmsis_rtos.Scheduler.Signals.{EventQueue, SigData, signal_queue, sig_queue_try}
use cmsis_rtos.Dispatch.{Tcbs, Kernel, activate, thread_scheduler, signal_set}
use cmsis_rtos.Dispatch.Ended.{thread_scheduler_total}
use cmsis_rtos.Dispatch.Looped.{ring_of, view}
use cmsis_rtos.Dispatch.Whole.{thread_scheduler-schedule}
use cmsis_rtos.Dispatch.Activated.{activate_frame}
use cmsis_rtos.Dispatch.Flags.{signal_set-poll}

-- The thread at 100 runs, the one at 200 waits for the flag 4 and has no stack pointer but 500.
abbrev threads : Tcbs
threads = record {
  thread = λ p. record {
    id = p;
    signals = 0;
    event = if p == 100 then event running 0 else event signal 4;
    wait_timestamp = 0;
    wait_timeout = 0;
  };
  next = λ p. if p == 100 then 200 else 100;
  sp = λ p. p + 300;
  priority = λ p. 3;
  sched_priority = λ p. 3;
  budget = λ p. 0;
  initial_budget = λ p. 400;
  func = λ p. 8000;
  arg = λ p. 7;
}

abbrev kernel : EventQueue → Kernel
kernel q = record {
  signal_queue = q;
  pid_signals = 0;
  current_thread = 100;
  tcbs = threads;
  cells = λ p. 0;
  stacks = 3;
  words = λ p. 0;
}

abbrev sent : SigData
sent = record { signo = 2; thread_id = 200; activation_time = 9 }

abbrev quiet : EventQueue
quiet = signal_queue (λ i. sent)

abbrev queued : EventQueue
queued = record { count = 31; pos = 1; ready = 1; buf = λ i. sent }

thread_scheduler-schedule_example :
    let r = thread_scheduler 2 (λ i. i) 9000 6000 444 (kernel quiet) in
    (view 2 r ≡ schedule 2 (λ i. i) (ring_of 2 (kernel quiet)) (λ p. 0))
    × ((sp : ℕ) (k' : Kernel) → r ≡ some (sp, k') → k'.tcbs.sp k'.current_thread ≡ sp)
unfolding sig_queue_try test_bit
thread_scheduler-schedule_example =
    thread_scheduler-schedule 1 1 (λ i. i) 9000 6000 444 (kernel quiet) refl
      ((refl, (refl, tt)), refl)

thread_scheduler_total_example :
    (sp : ℕ) × (k' : Kernel) × (thread_scheduler 2 (λ i. i) 9000 6000 444 (kernel queued)
      ≡ some (sp, k'))
    × ((q : ℕ)
        → (if q == 100 then 444 else q + 300) ≢ 0
        → k'.tcbs.sp q ≡ (if q == 100 then 444 else q + 300))
thread_scheduler_total_example =
    thread_scheduler_total 2 1 (λ i. i) 9000 6000 444 (kernel queued) (omega arith) (omega arith)
      (omega arith) ((refl, (refl, tt)), refl) (inl refl)

signal_set-poll_example :
    let p = poll 5 ((signal_set 200 4 (kernel quiet)).1.tcbs.thread 200) (λ q. 0) in
    (p.ready ≡ true)
    × (test_bit p.thread.event.value 2 ≡ true)
    × (has p.thread.event.status running ≡ true)
unfolding test_bit
signal_set-poll_example =
    signal_set-poll 200 4 (kernel quiet) 2 5 (λ q. 0) (omega arith) refl refl refl refl

abbrev newcomer : Kernel
newcomer = record (kernel quiet) { tcbs = record threads { sp = λ p. 0 } }

activate_frame_example :
    let (sp, k') = activate 0x20004000 6000 200 newcomer in
    (idx : ℕ) × (idx < 32)
    × (test_bit 3 idx ≡ false)
    × ((i : ℕ) → test_bit k'.stacks i ≡ ((idx == i) || test_bit 3 i))
    × (sp + 68 + idx * 2 ^ 10 ≡ 0x20004000)
    × (k'.words (sp + 32) ≡ 0xFFFFFFFD)
    × (k'.words (sp + 36) ≡ 7)
    × (k'.words (sp + 56) ≡ 6000)
    × (k'.words (sp + 60) ≡ 8000)
    × (k'.words (sp + 64) ≡ 0x01000000)
    × ((a : ℕ) → (a < sp + 32) ⊎ (sp + 68 ≤ a) → k'.words a ≡ 0)
    × (k'.tcbs.sp 200 ≡ sp)
activate_frame_example =
    activate_frame 0x20004000 6000 200 newcomer refl (omega arith) (omega arith) (omega arith)
