-- ===== src/Dispatch/Delivered.antt =====
-- Signals that are delivered, and the stack pointers that the scheduler keeps.
use cmsis_rtos.Base.{
  ℕ, zero, suc, ◌^◌, ◌≡◌, ◌≢◌, refl, sym, ap, ◌∙◌, inl, inr, true, false, Bool-cases, Option-cases,
  Option, none, some, ◌==◌, if◌then◌else◌, bit_and, bit_or, arith, subst,
}
use cmsis_rtos.Scheduler.{running, signal, poll}
use cmsis_rtos.Scheduler.Signals.{SigData, sig_queue_try, sig_queue_next}
use cmsis_rtos.Dispatch.{
  Kernel, written, credit, with_signals, deliver, look, activate, saved, thread_scheduler, granted,
}

-- What neither loop changes: the stack pointers and the links' owner.
abbrev SameStacks : Kernel → Option (ℕ × Kernel) → Type 0
SameStacks k none = Unit
SameStacks k (some (thr, k')) = k'.tcbs.sp ≡ k.tcbs.sp

deliver-SameStacks : (rounds : ℕ) (k : Kernel) → SameStacks k (deliver rounds k)
unfolding deliver credit
deliver-SameStacks zero k = tt
deliver-SameStacks (suc rounds) k = elim (Option-cases (sig_queue_try k.signal_queue).0) [
  | inl e ↦ rw (e, deliver) refl
  | inr (d, e) ↦
      let q = (sig_queue_try k.signal_queue).1 in
      let pending = bit_or k.pid_signals (2 ^ d.signo) in
      elim (Bool-cases (d.thread_id == 0)) [
        | inl all ↦ elim (Bool-cases (bit_and (2 ^ d.signo) k.pid_signals == 0)) [
          | inl fresh ↦
              rw (e, all, fresh, deliver)
                (deliver-SameStacks rounds
                  (record k { signal_queue = (sig_queue_next q).1; pid_signals = pending }))
          | inr old ↦ rw (e, all, old, deliver) refl
        ]
        | inr one ↦
            elim (Bool-cases (bit_and (2 ^ d.signo) (k.tcbs.thread d.thread_id).signals == 0)) [
              | inl fresh ↦ rw (e, one, fresh, deliver) refl
              | inr old ↦ rw (e, one, old, deliver) refl
            ]
      ]
]

look-SameStacks : (rounds : ℕ) (clock : ℕ → ℕ) (k : Kernel) → SameStacks k (look rounds clock k)
unfolding look
look-SameStacks zero clock k = tt
look-SameStacks (suc rounds) clock k =
    let thr = k.tcbs.next k.current_thread in
    let p = poll (clock 0) (k.tcbs.thread thr) k.cells in
    elim (Bool-cases p.ready) [
      | inl ready ↦ rw (ready, look) refl
      | inr waits ↦
          rw (waits, look)
            (look-SameStacks rounds (λ i. clock (suc i))
              (record k {
                current_thread = thr;
                tcbs = record (k.tcbs) { thread = written k.tcbs.thread thr p.thread };
                cells = p.cells;
              }))
    ]

-- Only a thread without a stack gets another stack pointer.
activate-sp :
    (base exit thr : ℕ) (k : Kernel) (q : ℕ)
    → k.tcbs.sp q ≢ 0
    → (activate base exit thr k).1.tcbs.sp q ≡ k.tcbs.sp q
unfolding activate
activate-sp base exit thr k q ne = elim (Bool-cases (k.tcbs.sp thr == 0)) [
  | inl none_yet ↦ rw none_yet (ground arith)
  | inr has_one ↦ rw has_one refl
]

abbrev KeepsAt : Kernel → ℕ → Option (ℕ × Kernel) → Type 0
KeepsAt k q none = Unit
KeepsAt k q (some (sp, k')) = k'.tcbs.sp q ≡ k.tcbs.sp q

activate-KeepsAt :
    (base exit thr : ℕ) (k k1 : Kernel) (q : ℕ)
    → k.tcbs.sp q ≢ 0
    → k1.tcbs.sp ≡ k.tcbs.sp
    → KeepsAt k q (some (activate base exit thr k1))
activate-KeepsAt base exit thr k k1 q ne same =
    let here : k1.tcbs.sp q ≡ k.tcbs.sp q = ap (λ f. f q) same in
    activate-sp base exit thr k1 q (λ e. ne (sym here ∙ e)) ∙ here

thread_scheduler-KeepsAt :
    (rounds : ℕ) (clock : ℕ → ℕ) (base exit stk : ℕ) (k : Kernel) (q : ℕ)
    → (saved stk k).tcbs.sp q ≢ 0
    → KeepsAt (saved stk k) q (thread_scheduler rounds clock base exit stk k)
unfolding thread_scheduler
thread_scheduler-KeepsAt rounds clock base exit stk k q ne =
    let delivered = deliver-SameStacks rounds (saved stk k) in
    elim (Option-cases (deliver rounds (saved stk k))) [
      | inl e ↦ rw (e, thread_scheduler) tt
      | inr ((thr, k1), e) ↦
          let same = subst (SameStacks (saved stk k)) e delivered in
          elim (Bool-cases (thr == 0)) [
            | inr some_thread ↦
                rw (e, some_thread, thread_scheduler)
                  (activate-KeepsAt base exit thr (saved stk k) k1 q ne same)
            | inl nobody ↦
                let looked = look-SameStacks rounds clock k1 in
                elim (Option-cases (look rounds clock k1)) [
                  | inl e' ↦ rw (e, nobody, e', thread_scheduler) tt
                  | inr ((thr', k2), e') ↦
                      rw (e, nobody, e', thread_scheduler)
                        (activate-KeepsAt base exit thr' (saved stk k) k2 q ne
                          (subst (SameStacks k1) e' looked ∙ same))
                ]
          ]
    ]

-- A call of the scheduler that ends stores its argument as the stack pointer of the current thread, if that
-- is not NULL, and leaves every other stack pointer that is not NULL.
pub thread_scheduler-sp :
    (rounds : ℕ) (clock : ℕ → ℕ) (base exit stk : ℕ) (k : Kernel) (sp : ℕ) (k' : Kernel) (q : ℕ)
    → thread_scheduler rounds clock base exit stk k ≡ some (sp, k')
    → (saved stk k).tcbs.sp q ≢ 0
    → k'.tcbs.sp q ≡ (if q == k.current_thread then stk else k.tcbs.sp q)
thread_scheduler-sp rounds clock base exit stk k sp k' q h ne =
    subst (KeepsAt (saved stk k) q) h (thread_scheduler-KeepsAt rounds clock base exit stk k q ne)

-- The queue has a signal for a thread that is not NULL and has not got it pending.
pub record Due (d : SigData) (k : Kernel) : Type 0 where
  pub head : (sig_queue_try k.signal_queue).0 ≡ some d
  pub thread : (d.thread_id == 0) ≡ false
  pub fresh : bit_and (2 ^ d.signo) (k.tcbs.thread d.thread_id).signals ≡ 0

-- A signal that is due, for another thread than the current one that has a stack, is delivered at once:
-- the scheduler answers with the stack pointer of that thread, whose flags of signal and running are
-- set, which has the signal, and whose budget is the smaller one of the full budget of its priority
-- and the initial one. The current thread is still the old one.
pub thread_scheduler-Due :
    (rounds : ℕ) (clock : ℕ → ℕ) (base exit stk : ℕ) (k : Kernel) (d : SigData)
    → Due d k
    → (d.thread_id == k.current_thread) ≡ false
    → (k.tcbs.sp d.thread_id == 0) ≡ false
    → (k' : Kernel) × (thread_scheduler (suc rounds) clock base exit stk k
        ≡ some (k.tcbs.sp d.thread_id, k'))
      × (k'.current_thread ≡ k.current_thread)
      × ((k'.tcbs.thread d.thread_id).event.status
          ≡ bit_or (k.tcbs.thread d.thread_id).event.status (bit_or signal running))
      × ((k'.tcbs.thread d.thread_id).signals
          ≡ bit_or (k.tcbs.thread d.thread_id).signals (2 ^ d.signo))
      × (k'.tcbs.budget d.thread_id
          ≡ granted (k.tcbs.initial_budget d.thread_id) (k.tcbs.sched_priority d.thread_id))
unfolding thread_scheduler deliver credit activate
thread_scheduler-Due rounds clock base exit stk k d due other stack =
    let k0 = saved stk k in
    let taken = record k0 { signal_queue = (sig_queue_next (sig_queue_try k.signal_queue).1).1 } in
    let after = bit_or (k.tcbs.thread d.thread_id).signals (2 ^ d.signo) in
    let fresh : (bit_and (2 ^ d.signo) (k.tcbs.thread d.thread_id).signals == 0) ≡ true =
      ground (arith, due.fresh) in
    let self : (d.thread_id == d.thread_id) ≡ true = ground arith in
    (
      credit d.thread_id (with_signals d.thread_id after taken),
      rw (due.head, deliver, due.thread, fresh, due.thread, thread_scheduler, other, stack) refl,
      refl,
      rw self refl,
      rw self refl,
      rw self refl,
    )

-- After such a delivery the next call of the scheduler, which is made by the thread that got the
-- signal, stores the stack pointer of that thread as the one of the thread that was left, whose own is
-- lost; the stack pointer of the thread that got the signal stays the old one.
pub delivered_overwrites :
    (rounds rounds' : ℕ) (clock clock' : ℕ → ℕ) (base exit stk stk' : ℕ) (k : Kernel) (d : SigData)
    (k' : Kernel) (sp' : ℕ) (k'' : Kernel)
    → Due d k
    → (d.thread_id == k.current_thread) ≡ false
    → (k.tcbs.sp d.thread_id == 0) ≡ false
    → stk' ≢ 0
    → thread_scheduler (suc rounds) clock base exit stk k ≡ some (k.tcbs.sp d.thread_id, k')
    → thread_scheduler rounds' clock' base exit stk' k' ≡ some (sp', k'')
    → (k''.tcbs.sp k.current_thread ≡ stk') × (k''.tcbs.sp d.thread_id ≡ k.tcbs.sp d.thread_id)
delivered_overwrites rounds rounds' clock clock' base exit stk stk' k d k' sp' k'' due other stack
      ne first second =
    let (k1, first', current, _, _, _) =
      thread_scheduler-Due rounds clock base exit stk k d due other stack in
    let same : k1 ≡ k' = cc (sym first' ∙ first) in
    let still : k'.current_thread ≡ k.current_thread = rw same at current in
    let there =
      thread_scheduler-sp (suc rounds) clock base exit stk k (k.tcbs.sp d.thread_id) k' d.thread_id
        first (rw other (ground (arith, stack))) in
    let kept : k'.tcbs.sp d.thread_id ≡ k.tcbs.sp d.thread_id = rw other at there in
    let at_current =
      thread_scheduler-sp rounds' clock' base exit stk' k' sp' k'' k.current_thread second
        (ground (arith, still, ne)) in
    let at_thread =
      thread_scheduler-sp rounds' clock' base exit stk' k' sp' k'' d.thread_id second
        (ground (arith, still, other, kept, stack)) in
    (ground (arith, still, at_current), ground (arith, still, other, kept, at_thread))
