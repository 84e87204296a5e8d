-- ===== src/Dispatch/Flags.antt =====
-- Flags of signals that a thread waits for.
use cmsis_rtos.Base.{
  ℕ, ◌<◌, ◌≡◌, refl, true, false, Bool-cases, inl, inr, ◌==◌, arith, ==→eq, bit_and,
}
use cmsis_rtos.Base.Bits.{test_bit, test_bit-bit_and, test_bit-bit_or, test_bit-zero}
use cmsis_rtos.Base.Masks.{holds_below, holds_below-true}
use cmsis_rtos.Scheduler.{Thread, Cells, has, running, signal, poll, poll_signal}
use cmsis_rtos.Dispatch.{Kernel, signal_mask, signal_set}

low_bits : (i : ℕ) → i < 31 → test_bit signal_mask i ≡ true
unfolding holds_below test_bit
low_bits i h = holds_below-true 31 (test_bit signal_mask) i refl h

-- The bit of a flag, one of the lowest 31, in the signals of a thread.
flag_set :
    (thr flags : ℕ) (k : Kernel) (i : ℕ)
    → i < 31
    → test_bit flags i ≡ true
    → test_bit ((signal_set thr flags k).1.tcbs.thread thr).signals i ≡ true
unfolding signal_set
flag_set thr flags k i h f =
    let self : (thr == thr) ≡ true = ground arith in
    rw self (
      ground (
        arith,
        test_bit-bit_or (k.tcbs.thread thr).signals (bit_and flags signal_mask) i,
        test_bit-bit_and flags signal_mask i,
        low_bits i h,
        f,
      ))

signal_set-event :
    (thr flags : ℕ) (k : Kernel)
    → ((signal_set thr flags k).1.tcbs.thread thr).event ≡ (k.tcbs.thread thr).event
unfolding signal_set
signal_set-event thr flags k = let self : (thr == thr) ≡ true = ground arith in rw self refl

-- A thread that waits for a flag that it has.
poll-flag :
    (t : Thread) (i now : ℕ) (m : Cells)
    → test_bit t.signals i ≡ true
    → test_bit t.event.value i ≡ true
    → has t.event.status running ≡ false
    → has t.event.status signal ≡ true
    → let p = poll now t m in
      (p.ready ≡ true)
      × (test_bit p.thread.event.value i ≡ true)
      × (has p.thread.event.status running ≡ true)
unfolding poll poll_signal
poll-flag t i now m set wanted waits signals =
    let common : test_bit (bit_and t.signals t.event.value) i ≡ true =
      ground (arith, test_bit-bit_and t.signals t.event.value i, set, wanted) in
    let some_flag : (bit_and t.signals t.event.value == 0) ≡ false =
      elim (Bool-cases (bit_and t.signals t.event.value == 0)) [
        | inr other ↦ other
        | inl zero ↦
            let e = ==→eq (bit_and t.signals t.event.value) 0 zero in
            cc (rw e at common, test_bit-zero i)
      ] in
    rw (waits, signals, some_flag) (refl, common, refl)

-- `osSignalSet` of a flag, one of the lowest 31, that a thread is waiting for lets the thread run when
-- the scheduler comes to it, with the flag in the value of its event.
pub signal_set-poll :
    (thr flags : ℕ) (k : Kernel) (i now : ℕ) (m : Cells)
    → i < 31
    → test_bit flags i ≡ true
    → test_bit (k.tcbs.thread thr).event.value i ≡ true
    → has (k.tcbs.thread thr).event.status running ≡ false
    → has (k.tcbs.thread thr).event.status signal ≡ true
    → let p = poll now ((signal_set thr flags k).1.tcbs.thread thr) m in
      (p.ready ≡ true)
      × (test_bit p.thread.event.value i ≡ true)
      × (has p.thread.event.status running ≡ true)
signal_set-poll thr flags k i now m h f wanted waits signals =
    let t = (signal_set thr flags k).1.tcbs.thread thr in
    let same = signal_set-event thr flags k in
    poll-flag t i now m (flag_set thr flags k i h f) (rw same wanted) (rw same waits)
      (rw same signals)
