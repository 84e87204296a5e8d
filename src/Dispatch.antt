-- ===== src/Dispatch.antt =====
-- thread.c: the whole of `osThreadScheduler`, on a store of threads linked by `next`: the delivery of
-- queued signals, the loop over the ring, and the first activation of a thread. The flags of signals
-- that a thread has are set and cleared here too.
pub mod Delivered
pub mod Ended
pub mod Looped
pub mod Flags
pub mod Whole
pub mod Activated
use cmsis_rtos.Base.{
  ℕ, zero, suc, ◌+◌, ◌-◌, ◌*◌, ◌^◌, Bool, true, false, List, [], ◌∷◌, Option, none, some, ◌==◌, ltb,
  if◌then◌else◌, bit_and, bit_or,
}
use cmsis_rtos.Base.Word.{sub32}
use cmsis_rtos.Base.Bits.{bit_not}
use cmsis_rtos.Scheduler.{Event, event, Thread, Cells, running, signal, poll}
use cmsis_rtos.Scheduler.Signals.{SigData, EventQueue, sig_queue_try, sig_queue_next}
use cmsis_rtos.Ring.{stack_alloc}

-- The fields of `struct _thread` by its address; `thread` has those that the loop reads.
pub record Tcbs : Type 0 where
  pub thread : ℕ → Thread
  pub next : ℕ → ℕ
  pub sp : ℕ → ℕ
  pub priority : ℕ → ℕ
  pub sched_priority : ℕ → ℕ
  pub budget : ℕ → ℕ
  pub initial_budget : ℕ → ℕ
  pub func : ℕ → ℕ
  pub arg : ℕ → ℕ

-- The variables of the scheduler: the queue of signals, the pending ones of the process, the current
-- thread, the threads, the semaphores, the map of the stacks and the words of the memory.
pub record Kernel : Type 0 where
  pub signal_queue : EventQueue
  pub pid_signals : ℕ
  pub current_thread : ℕ
  pub tcbs : Tcbs
  pub cells : Cells
  pub stacks : ℕ
  pub words : ℕ → ℕ

abbrev pub written {ℓ} : {A : Type ℓ} → (ℕ → A) → ℕ → A → ℕ → A
written f p v q = if q == p then v else f q

-- `BUDGET(t,prio)`, and what a thread gets of it; a priority is not negative.
abbrev pub full_budget : ℕ → ℕ
full_budget prio = 516 + prio * 16

abbrev pub granted : ℕ → ℕ → ℕ
granted initial prio = if ltb initial (full_budget prio) then initial else full_budget prio

-- The thread `thr` gets a signal that it has not pending.
unfoldable pub credit : ℕ → Kernel → Kernel
credit thr k =
    let t = k.tcbs.thread thr in
    let prio = k.tcbs.sched_priority thr in
    record k {
      tcbs = record (k.tcbs) {
        thread = written k.tcbs.thread thr (record t {
          event = event (bit_or t.event.status (bit_or signal running)) t.event.value;
        });
        next =
            written k.tcbs.next thr
              (if k.tcbs.next thr == 0 then k.current_thread else k.tcbs.next thr);
        priority = written k.tcbs.priority thr prio;
        budget = written k.tcbs.budget thr (granted (k.tcbs.initial_budget thr) prio);
      };
    }

-- `atomic_fetch_or(&thr->process.signals, sig_mask)`
abbrev pub with_signals : ℕ → ℕ → Kernel → Kernel
with_signals thr signals k = record k {
  tcbs = record (k.tcbs) {
    thread = written k.tcbs.thread thr (record (k.tcbs.thread thr) { signals = signals });
  };
}

-- The loop over the queue of signals within a number of rounds: the thread that it leaves in `thr`, 0
-- for NULL, and the kernel. `none` is a loop that has not ended.
unfoldable pub deliver : ℕ → Kernel → Option (ℕ × Kernel)
deliver zero k = none
deliver (suc rounds) k =
    let (sig, q) = sig_queue_try k.signal_queue in
    let tried = record k { signal_queue = q } in
    elim sig [
      | none ↦ some (0, tried)
      | some d ↦
          let mask = 2 ^ d.signo in
          let taken = record tried { signal_queue = (sig_queue_next q).1 } in
          if d.thread_id == 0
          then (if bit_and mask k.pid_signals == 0
              then deliver rounds (record taken { pid_signals = bit_or k.pid_signals mask })
              else some (0, record tried { pid_signals = bit_or k.pid_signals mask }))
          else (let before = (k.tcbs.thread d.thread_id).signals in
              let after = bit_or before mask in
              if bit_and mask before == 0
              then some (d.thread_id, credit d.thread_id (with_signals d.thread_id after taken))
              else some (d.thread_id, with_signals d.thread_id after tried))
    ]

-- The loop `do … while (1)` from the current thread on, `clock` giving the time at each round.
unfoldable pub look : ℕ → (ℕ → ℕ) → Kernel → Option (ℕ × Kernel)
look zero clock k = none
look (suc rounds) clock k =
    let thr = k.tcbs.next k.current_thread in
    let p = poll (clock 0) (k.tcbs.thread thr) k.cells in
    let k' = record k {
      current_thread = thr;
      tcbs = record (k.tcbs) { thread = written k.tcbs.thread thr p.thread };
      cells = p.cells;
    } in
    elim p.ready [ true ↦ some (thr, k') | false ↦ look rounds (λ i. clock (suc i)) k' ]

-- The words that the first activation puts on a new stack, from `top` down: the function, `osThreadExit`
-- at `exit`, the argument and EXC_RETURN for the process stack; eight words are left for registers.
abbrev pub pushed : ℕ → List ℕ → (ℕ → ℕ) → ℕ → ℕ
pushed top [] words = words
pushed top (w ∷ ws) words = pushed (top - 4) ws (written words (top - 4) w)

abbrev pub frame : ℕ → ℕ → ℕ → List ℕ
frame func arg exit = 0x01000000 ∷ func ∷ exit ∷ 0 ∷ 0 ∷ 0 ∷ 0 ∷ arg ∷ 0xFFFFFFFD ∷ []

-- What follows the loop: a thread without a stack gets one. The result is `thr->sp`.
unfoldable pub activate : ℕ → ℕ → ℕ → Kernel → ℕ × Kernel
activate base exit thr k =
    let (stacks, top) = stack_alloc base k.stacks in
    let sp = top - 68 in
    if k.tcbs.sp thr == 0
    then (
      sp,
      record k {
        tcbs = record (k.tcbs) { sp = written k.tcbs.sp thr sp };
        stacks = stacks;
        words = pushed top (frame (k.tcbs.func thr) (k.tcbs.arg thr) exit) k.words;
      },
    )
    else (k.tcbs.sp thr, k)

-- `current_thread->sp = stk`
abbrev pub saved : ℕ → Kernel → Kernel
saved stk k = record k { tcbs = record (k.tcbs) { sp = written k.tcbs.sp k.current_thread stk } }

-- `osThreadScheduler` with the stack pointer `stk` of the thread that is left.
unfoldable pub thread_scheduler : ℕ → (ℕ → ℕ) → ℕ → ℕ → ℕ → Kernel → Option (ℕ × Kernel)
thread_scheduler rounds clock base exit stk k = elim (deliver rounds (saved stk k)) [
  | none ↦ none
  | some (thr, k1) ↦ elim (if thr == 0 then look rounds clock k1 else some (thr, k1)) [
    | none ↦ none
    | some (thr', k2) ↦ some (activate base exit thr' k2)
  ]
]

-- `OS_SIGNAL_MASK`, `osSignalSet` and `osSignalClear`: the flags before, and the kernel.
abbrev pub signal_mask : ℕ
signal_mask = 0x7FFFFFFF

unfoldable pub signal_set : ℕ → ℕ → Kernel → ℕ × Kernel
signal_set thr signals k =
    let before = (k.tcbs.thread thr).signals in
    (before, with_signals thr (bit_or before (bit_and signals signal_mask)) k)

unfoldable pub signal_clear : ℕ → ℕ → Kernel → ℕ × Kernel
signal_clear thr signals k =
    let before = (k.tcbs.thread thr).signals in
    (before, with_signals thr (bit_and before (bit_not 32 (bit_and signals signal_mask))) k)
