-- ===== src/Dispatch/Whole.antt =====
-- `osThreadScheduler` when no signal is queued.
use cmsis_rtos.Base.{
  ℕ, zero, suc, ◌≡◌, refl, ap, ap₂, ◌∙◌, inl, inr, true, Bool-cases, Option-cases, Option, none,
  some, ◌==◌, arith, subst,
}
use cmsis_rtos.Scheduler.{state, schedule, poll}
use cmsis_rtos.Scheduler.Signals.{sig_queue_try}
use cmsis_rtos.Dispatch.{Kernel, written, deliver, look, activate, saved, thread_scheduler}
use cmsis_rtos.Dispatch.Looped.{IsLoop, ring_of, view, look-schedule}

-- The thread of the answer is the current one, and the links stand.
abbrev Chosen : Kernel → Option (ℕ × Kernel) → Type 0
Chosen k none = Unit
Chosen k (some (thr, k')) = k'.current_thread ≡ thr

look-Chosen : (rounds : ℕ) (clock : ℕ → ℕ) (k : Kernel) → Chosen k (look rounds clock k)
unfolding look
look-Chosen zero clock k = tt
look-Chosen (suc rounds) clock k =
    let thr = k.tcbs.next k.current_thread in
    let p = poll (clock 0) (k.tcbs.thread thr) k.cells in
    elim (Bool-cases p.ready) [
      | inl ready ↦ rw (ready, look) refl
      | inr waits ↦
          rw (waits, look)
            (look-Chosen rounds (λ i. clock (suc i))
              (record k {
                current_thread = thr;
                tcbs = record (k.tcbs) { thread = written k.tcbs.thread thr p.thread };
                cells = p.cells;
              }))
    ]

abbrev Own : Option (ℕ × Kernel) → Type 0
Own none = Unit
Own (some (sp, k')) = k'.tcbs.sp k'.current_thread ≡ sp

-- What the activation leaves: the ring and the semaphores, and the answer is the stack pointer of the
-- thread.
activate_keeps :
    (base exit thr n : ℕ) (k : Kernel)
    → let (sp, k') = activate base exit thr k in
      (k'.tcbs.sp thr ≡ sp)
      × (k'.current_thread ≡ k.current_thread)
      × (ring_of n k' ≡ ring_of n k)
      × (k'.cells ≡ k.cells)
unfolding activate
activate_keeps base exit thr n k =
    let self : (thr == thr) ≡ true = ground arith in
    elim (Bool-cases (k.tcbs.sp thr == 0)) [
      | inl none_yet ↦ rw (none_yet, self) (refl, refl, refl, refl)
      | inr has_one ↦ rw has_one (refl, refl, refl, refl)
    ]

-- When no signal is ready in the queue and as many threads as `suc n` are linked to a ring, the whole
-- scheduler ends in the same rounds as the loop over the list of the ring, and leaves the ring and the
-- semaphores that this loop leaves, with its first thread as the current one; the answer is the
-- stack pointer of the current thread.
pub thread_scheduler-schedule :
    (rounds n : ℕ) (clock : ℕ → ℕ) (base exit stk : ℕ) (k : Kernel)
    → (sig_queue_try k.signal_queue).0 ≡ none
    → IsLoop (suc n) k.tcbs.next k.current_thread
    → let r = thread_scheduler (suc rounds) clock base exit stk k in
      (view (suc n) r ≡ schedule (suc rounds) clock (ring_of (suc n) k) k.cells)
      × ((sp : ℕ) (k' : Kernel) → r ≡ some (sp, k') → k'.tcbs.sp k'.current_thread ≡ sp)
unfolding thread_scheduler deliver
thread_scheduler-schedule rounds n clock base exit stk k quiet loop =
    let k1 = record (saved stk k) { signal_queue = (sig_queue_try k.signal_queue).1 } in
    let looked = look-schedule (suc rounds) n clock k1 loop in
    let chosen = look-Chosen (suc rounds) clock k1 in
    elim (Option-cases (look (suc rounds) clock k1)) [
      | inl e ↦ rw (quiet, deliver, thread_scheduler, e) (rw e at looked, λ sp k' h. cc)
      | inr ((thr, k2), e) ↦
          let (own, current, ring, cells) = activate_keeps base exit thr (suc n) k2 in
          let here = subst (Chosen k1) e chosen in
          let shown = rw e at looked in
          let answer : Own (some (activate base exit thr k2)) =
            ap (activate base exit thr k2).1.tcbs.sp (current ∙ here) ∙ own in
          rw (quiet, deliver, thread_scheduler, e)
            (ap₂ (λ r m. some (state r m)) ring cells ∙ shown, λ sp k' h. subst Own h answer)
    ]
