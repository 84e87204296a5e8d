-- ===== src/Dispatch/Ended.antt =====
-- `osThreadScheduler` ends: its loop over the queued signals and the one over the threads.
use cmsis_rtos.Base.{
  ℕ, zero, suc, ◌^◌, ◌≤◌, ◌<◌, ◌≡◌, ◌≢◌, refl, sym, ap, ◌∙◌, inl, inr, true, false, Bool-cases,
  Option-cases, some, map, length, ◌∷◌, ◌==◌, if◌then◌else◌, bit_and, bit_or, ◌/◌, ◌%◌, arith,
  subst,
}
use cmsis_rtos.Base.Bits.{
  bit_not, test_bit, test_bit-bit_and, test_bit-bit_not, test_bit-pow, pow_lt, bit_and_le,
}
use cmsis_rtos.Scheduler.{Thread, state, schedule, poll}
use cmsis_rtos.Scheduler.Rounds.{AnyRunning, schedule_total}
use cmsis_rtos.Scheduler.Signals.{EventQueue, SigData, sig_queue_try, sig_queue_next}
use cmsis_rtos.Dispatch.{
  Kernel, written, credit, with_signals, deliver, look, activate, saved, thread_scheduler,
}
use cmsis_rtos.Dispatch.Looped.{around, IsLoop, ring_of, view, look-schedule}
use cmsis_rtos.Dispatch.Delivered.{thread_scheduler-sp}

-- A signal that is taken leaves a smaller word of ready bits.
sig_queue_try_less :
    (q : EventQueue) (d : SigData)
    → q.ready < 2 ^ 32
    → (sig_queue_try q).0 ≡ some d
    → (sig_queue_next (sig_queue_try q).1).1.ready < q.ready
unfolding sig_queue_try sig_queue_next
sig_queue_try_less q d h e =
    let n = q.pos / 2 ^ 16 % 32 in
    let left = bit_and q.ready (bit_not 32 (2 ^ n)) in
    elim (Bool-cases (test_bit q.ready n)) [
      | inr clear ↦ absurd (cc (rw clear at e))
      | inl set ↦
          let within : n < 32 = omega arith in
          let cleared : test_bit left n ≡ false = ground (
            arith,
            test_bit-bit_and q.ready (bit_not 32 (2 ^ n)) n,
            test_bit-bit_not 32 (2 ^ n) n (pow_lt n 32 within) within,
            test_bit-pow n n,
          ) in
          let other : left ≢ q.ready = λ same. cc (ap (λ w. test_bit w n) same, set, cleared) in
          omega (arith, other, bit_and_le 32 q.ready (bit_not 32 (2 ^ n)) h)
    ]

-- The loop over the signals changes no thread when it leaves none to run.
abbrev SameThreads : Kernel → Kernel → Type 0
SameThreads k k' = (k'.tcbs ≡ k.tcbs) × (k'.current_thread ≡ k.current_thread)

deliver_total :
    (rounds : ℕ) (k : Kernel)
    → k.signal_queue.ready < 2 ^ 32
    → k.signal_queue.ready < rounds
    → (thr : ℕ) × (k' : Kernel) × (deliver rounds k ≡ some (thr, k'))
      × ((thr == 0) ≡ true → SameThreads k k')
unfolding deliver
deliver_total zero k h l = absurd (omega arith)
deliver_total (suc rounds) k h l = elim (Option-cases (sig_queue_try k.signal_queue).0) [
  | inl e ↦ (
    0,
    record k { signal_queue = (sig_queue_try k.signal_queue).1 },
    rw (e, deliver) refl,
    λ _. (refl, refl),
  )
  | inr (d, e) ↦
      let q = (sig_queue_next (sig_queue_try k.signal_queue).1).1 in
      let tried = record k { signal_queue = (sig_queue_try k.signal_queue).1 } in
      let taken = record k { signal_queue = q } in
      let after = bit_or (k.tcbs.thread d.thread_id).signals (2 ^ d.signo) in
      let pending = bit_or k.pid_signals (2 ^ d.signo) in
      let fewer = sig_queue_try_less k.signal_queue d h e in
      elim (Bool-cases (d.thread_id == 0)) [
        | inl all ↦ elim (Bool-cases (bit_and (2 ^ d.signo) k.pid_signals == 0)) [
          | inl fresh ↦
              let (thr, k', ends, same) =
                deliver_total rounds (record k { signal_queue = q; pid_signals = pending })
                  (omega (arith, fewer)) (omega (arith, fewer)) in
              (thr, k', rw (e, all, fresh, deliver) ends, same)
          | inr old ↦ (
            0,
            record tried { pid_signals = pending },
            rw (e, all, old, deliver) refl,
            λ _. (refl, refl),
          )
        ]
        | inr one ↦
            elim (Bool-cases (bit_and (2 ^ d.signo) (k.tcbs.thread d.thread_id).signals == 0)) [
              | inl fresh ↦ (
                d.thread_id,
                credit d.thread_id (with_signals d.thread_id after taken),
                rw (e, one, fresh, deliver) refl,
                λ z. absurd (cc (z, one)),
              )
              | inr old ↦ (
                d.thread_id,
                with_signals d.thread_id after tried,
                rw (e, one, old, deliver) refl,
                λ z. absurd (cc (z, one)),
              )
            ]
      ]
]

-- More rounds than it takes change nothing.
look_more :
    (rounds more : ℕ) (clock : ℕ → ℕ) (k : Kernel) (r : ℕ × Kernel)
    → rounds ≤ more
    → look rounds clock k ≡ some r
    → look more clock k ≡ some r
unfolding look
look_more zero more clock k r l e = absurd (cc e)
look_more (suc rounds) zero clock k r l e = absurd (omega arith)
look_more (suc rounds) (suc more) clock k r l e =
    let thr = k.tcbs.next k.current_thread in
    let p = poll (clock 0) (k.tcbs.thread thr) k.cells in
    elim (Bool-cases p.ready) [
      | inl ready ↦ rw (ready, look) (rw (ready, look) at e)
      | inr waits ↦
          rw (waits, look)
            (look_more rounds more (λ i. clock (suc i))
              (record k {
                current_thread = thr;
                tcbs = record (k.tcbs) { thread = written k.tcbs.thread thr p.thread };
                cells = p.cells;
              })
              r (omega arith) (rw (waits, look) at e))
    ]

length-around :
    (f : ℕ → Thread) (n : ℕ) (next : ℕ → ℕ) (p : ℕ) → length (map f (around n next p)) ≡ n
length-around f zero next p = refl
length-around f (suc n) next p = ap suc (length-around f n next (next p))

look_total :
    (rounds n : ℕ) (clock : ℕ → ℕ) (k : Kernel)
    → suc n ≤ rounds
    → IsLoop (suc n) k.tcbs.next k.current_thread
    → AnyRunning (ring_of (suc n) k)
    → (r : ℕ × Kernel) × (look rounds clock k ≡ some r)
look_total rounds n clock k l loop live =
    let p = k.current_thread in
    let ts = map k.tcbs.thread (around n k.tcbs.next (k.tcbs.next p)) in
    let (t, others, m', ends, _, _) = schedule_total clock (k.tcbs.thread p) ts k.cells live in
    let size : length ts ≡ n = length-around k.tcbs.thread n k.tcbs.next (k.tcbs.next p) in
    let shown : view (suc n) (look (suc n) clock k) ≡ some (state (t ∷ others) m') =
      look-schedule (suc n) n clock k loop
      ∙ subst
          (λ s. schedule (suc s) clock (ring_of (suc n) k) k.cells ≡ some (state (t ∷ others) m'))
          size ends in
    elim (Option-cases (look (suc n) clock k)) [
      | inl e ↦ absurd (cc (rw e at shown))
      | inr (r, e) ↦ (r, look_more (suc n) rounds clock k r l e)
    ]

thread_scheduler_ends :
    (rounds n : ℕ) (clock : ℕ → ℕ) (base exit stk : ℕ) (k : Kernel)
    → k.signal_queue.ready < 2 ^ 32
    → k.signal_queue.ready < rounds
    → suc n ≤ rounds
    → IsLoop (suc n) k.tcbs.next k.current_thread
    → AnyRunning (ring_of (suc n) k)
    → (r : ℕ × Kernel) × (thread_scheduler rounds clock base exit stk k ≡ some r)
unfolding thread_scheduler
thread_scheduler_ends rounds n clock base exit stk k h l l' loop live =
    let (thr, k1, delivered, same) = deliver_total rounds (saved stk k) h l in
    elim (Bool-cases (thr == 0)) [
      | inr some_thread ↦
          (activate base exit thr k1, rw (delivered, some_thread, thread_scheduler) refl)
      | inl nobody ↦
          let (tcbs, current) = same nobody in
          let loop' =
            subst (λ t. IsLoop (suc n) t.next k1.current_thread) (sym tcbs)
              (subst (λ p. IsLoop (suc n) k.tcbs.next p) (sym current) loop) in
          let live' =
            subst (λ t. AnyRunning (map t.thread (around (suc n) t.next k1.current_thread)))
              (sym tcbs)
              (subst (λ p. AnyRunning (map k.tcbs.thread (around (suc n) k.tcbs.next p)))
                (sym current) live) in
          let ((thr', k2), looked) = look_total rounds n clock k1 l' loop' live' in
          (activate base exit thr' k2, rw (delivered, nobody, looked, thread_scheduler) refl)
    ]

-- On a ring of `suc n` threads one of which is running, the whole scheduler ends, whatever signals are
-- queued, within any number of rounds that is above the word of the ready bits, below 2 ^ 32, and at
-- least `suc n`. It has then stored its argument as the stack pointer of the current thread, if that is
-- not NULL, and has left every other stack pointer that is not NULL.
pub thread_scheduler_total :
    (rounds n : ℕ) (clock : ℕ → ℕ) (base exit stk : ℕ) (k : Kernel)
    → k.signal_queue.ready < 2 ^ 32
    → k.signal_queue.ready < rounds
    → suc n ≤ rounds
    → IsLoop (suc n) k.tcbs.next k.current_thread
    → AnyRunning (ring_of (suc n) k)
    → (sp : ℕ) × (k' : Kernel) × (thread_scheduler rounds clock base exit stk k ≡ some (sp, k'))
      × ((q : ℕ)
          → (saved stk k).tcbs.sp q ≢ 0
          → k'.tcbs.sp q ≡ (if q == k.current_thread then stk else k.tcbs.sp q))
thread_scheduler_total rounds n clock base exit stk k h l l' loop live =
    let ((sp, k'), ends) = thread_scheduler_ends rounds n clock base exit stk k h l l' loop live in
    (sp, k', ends, λ q. thread_scheduler-sp rounds clock base exit stk k sp k' q ends)
