-- ===== src/Dispatch/Activated.antt =====
-- The first activation of a thread.
use cmsis_rtos.Base.{
  ℕ, ◌+◌, ◌-◌, ◌≤◌, ◌<◌, ◌≡◌, refl, ◌⊎◌, inl, inr, true, false, ◌==◌, ◌||◌, ◌≢◌, ◌*◌, ◌^◌, arith,
}
use cmsis_rtos.Base.Bits.{ctz, bit_not, test_bit, test_bit-bit_or, test_bit-pow}
use cmsis_rtos.Pool.{all_ones}
use cmsis_rtos.Pool.Word.{lowest_zero}
use cmsis_rtos.Ring.{stack_alloc}
use cmsis_rtos.Dispatch.{Kernel, pushed, frame, activate}

-- The words of the frame below the top of a stack.
frame_words :
    (top func arg exit : ℕ) (words : ℕ → ℕ)
    → 68 ≤ top
    → let sp = top - 68 in
      let after = pushed top (frame func arg exit) words in
      (after (sp + 32) ≡ 0xFFFFFFFD)
      × (after (sp + 36) ≡ arg)
      × (after (sp + 56) ≡ exit)
      × (after (sp + 60) ≡ func)
      × (after (sp + 64) ≡ 0x01000000)
frame_words top func arg exit words room =
    (ground arith, ground arith, ground arith, ground arith, ground arith)

frame_keeps :
    (top func arg exit : ℕ) (words : ℕ → ℕ)
    → 68 ≤ top
    → (a : ℕ) → (a < top - 68 + 32) ⊎ (top - 68 + 68 ≤ a)
    → pushed top (frame func arg exit) words a ≡ words a
frame_keeps top func arg exit words room a (inl below) = ground arith
frame_keeps top func arg exit words room a (inr above) = ground arith

-- A thread without a stack gets one at its activation, when one of the 32 stacks below `base`, which is
-- at least 2 ^ 15, is free in the 32-bit map: a stack `idx` that was free is taken, and no other, and
-- its highest 68 bytes hold the frame that the return from an exception takes. Behind the place of
-- eight registers stand EXC_RETURN, the argument as R0, `osThreadExit` as the link, the function as the
-- program counter and the flag of Thumb state; no word outside of the frame changes, and the answer,
-- the lower end of the frame, is kept as the stack pointer of the thread.
pub activate_frame :
    (base exit thr : ℕ) (k : Kernel)
    → k.tcbs.sp thr ≡ 0
    → k.stacks < 2 ^ 32
    → k.stacks ≢ all_ones
    → 2 ^ 15 ≤ base
    → let (sp, k') = activate base exit thr k in
      (idx : ℕ) × (idx < 32)
      × (test_bit k.stacks idx ≡ false)
      × ((i : ℕ) → test_bit k'.stacks i ≡ ((idx == i) || test_bit k.stacks i))
      × (sp + 68 + idx * 2 ^ 10 ≡ base)
      × (k'.words (sp + 32) ≡ 0xFFFFFFFD)
      × (k'.words (sp + 36) ≡ k.tcbs.arg thr)
      × (k'.words (sp + 56) ≡ exit)
      × (k'.words (sp + 60) ≡ k.tcbs.func thr)
      × (k'.words (sp + 64) ≡ 0x01000000)
      × ((a : ℕ) → (a < sp + 32) ⊎ (sp + 68 ≤ a) → k'.words a ≡ k.words a)
      × (k'.tcbs.sp thr ≡ sp)
unfolding activate stack_alloc
activate_frame base exit thr k fresh m ne b =
    let idx = ctz 32 (bit_not 32 k.stacks) in
    let (below, clear) = lowest_zero k.stacks m ne in
    let none_yet : (k.tcbs.sp thr == 0) ≡ true = ground (arith, fresh) in
    let self : (thr == thr) ≡ true = ground arith in
    let top = base - idx * 2 ^ 10 in
    let room : 68 ≤ top = omega arith in
    let (exc, arg, link, func, flags) =
      frame_words top (k.tcbs.func thr) (k.tcbs.arg thr) exit k.words room in
    rw (none_yet, self)
      (
        idx,
        below,
        clear,
        λ i. ground (arith, test_bit-bit_or k.stacks (2 ^ idx) i, test_bit-pow idx i),
        omega arith,
        exc,
        arg,
        link,
        func,
        flags,
        frame_keeps top (k.tcbs.func thr) (k.tcbs.arg thr) exit k.words room,
        refl,
      )
