-- ===== src/Heap/Aligned.antt =====
-- Allocations with an alignment above that of pointers.
use cmsis_rtos.Base.{
  ℕ, ◌+◌, ◌-◌, ◌%◌, ◌^◌, ◌≤◌, ◌<◌, ◌≡◌, refl, sym, ap, ◌∙◌, true, false, ltb, ◌==◌, arith, bit_and,
}
use cmsis_rtos.Base.Word.{add32, sub32}
use cmsis_rtos.Base.Bits.{pow_lt}
use cmsis_rtos.Base.Masks.{bit_and_low}
use native.Mathlib.Nat.{pow-le-pow_right, mod-add-mod, mod-eq_of_lt}
use cmsis_rtos.Heap.{Heap, aligned_alloc}

-- `aligned_alloc` for an alignment of 8 or more, at an end of the heap that has this alignment, returns
-- the address 4 bytes behind that end: it has not the alignment, and its block is the one that was put
-- in front to align, which is marked as free.
pub aligned_alloc_misplaced :
    (k size : ℕ) (h : Heap)
    → 3 ≤ k
    → k < 30
    → h.last_block % 2 ^ k ≡ 0
    → h.last_block + 4 < 2 ^ 32
    → let (mem, h') = aligned_alloc (2 ^ k) size h in
      (mem ≡ h.last_block + 4) × (h'.free h.last_block ≡ true) × (mem % 2 ^ k ≡ 4)
unfolding aligned_alloc
aligned_alloc_misplaced k size h low high whole fits =
    let big : 2 ^ 3 ≤ 2 ^ k = pow-le-pow_right (omega arith) low in
    let large : ltb (2 ^ k) 4 ≡ false = ground arith in
    let rest : bit_and h.last_block (2 ^ k - 1) ≡ 0 = bit_and_low k h.last_block ∙ whole in
    let small : 2 ^ k < 2 ^ 30 = pow_lt k 30 high in
    let head : ltb 0 (sub32 (sub32 (2 ^ k) 4) 0) ≡ true = ground arith in
    let self : (h.last_block == h.last_block) ≡ true = ground arith in
    let mem : add32 h.last_block 4 ≡ h.last_block + 4 = omega arith in
    let low_part : (h.last_block + 4) % 2 ^ k ≡ 4 =
      sym (mod-add-mod h.last_block (2 ^ k) 4)
      ∙ ap (λ r. (r + 4) % 2 ^ k) whole
      ∙ ap (λ r. r % 2 ^ k) (omega arith)
      ∙ mod-eq_of_lt (omega arith) in
    rw (large, rest, head, self, mem) (refl, refl, low_part)
