-- ===== src/Ring/Stacks.antt =====
-- The map of the stacks.
use cmsis_rtos.Base.{
  ℕ, ◌+◌, ◌-◌, ◌*◌, ◌/◌, ◌^◌, ◌≤◌, ◌<◌, ◌≡◌, ◌≢◌, bit_or, true, false, arith, ltb, ◌==◌,
  if◌then◌else◌, ◌∙◌,
}
use cmsis_rtos.Base.Word.{sub32}
use cmsis_rtos.Base.Bits.{
  ctz, bit_not, test_bit, test_bit-bit_or, test_bit-bit_and, test_bit-bit_not, test_bit-pow, pow_lt,
}
use cmsis_rtos.Pool.{all_ones}
use cmsis_rtos.Pool.Word.{lowest_zero}
use cmsis_rtos.Ring.{stack_alloc, stack_free}

-- `osStackFree` of a stack pointer less than a KiB below the upper end of stack `idx` gives back this
-- stack and no other.
pub stack_free_bit :
    (base map stk idx used i : ℕ)
    → idx < 32
    → used < 2 ^ 10
    → i < 32
    → stk + used + idx * 2 ^ 10 ≡ base
    → test_bit (stack_free base map stk) i ≡ (if idx == i then false else test_bit map i)
unfolding stack_free
stack_free_bit base map stk idx used i below u h place =
    let slot : sub32 base stk / 2 ^ 10 ≡ idx = omega arith in
    let inside : ltb idx 32 ≡ true = ground arith in
    rw (slot, inside)
      (ground (
        arith,
        test_bit-bit_and map (bit_not 32 (2 ^ idx)) i,
        test_bit-bit_not 32 (2 ^ idx) i (pow_lt idx 32 below) h,
        test_bit-pow idx i,
      ))

-- As long as one of the 32 stacks is free, `osStackAlloc` takes a free one, and no other: its upper end
-- lies as many KiB below the base as its number says. `osStackFree` of any stack pointer less than a
-- KiB below that end makes the map what it was.
pub stack_free-stack_alloc :
    (base map used : ℕ)
    → map < 2 ^ 32
    → map ≢ all_ones
    → 2 ^ 15 ≤ base
    → used < 2 ^ 10
    → let (map', top) = stack_alloc base map in
      (idx : ℕ) × (idx < 32)
      × (top + idx * 2 ^ 10 ≡ base)
      × (test_bit map idx ≡ false)
      × (test_bit map' idx ≡ true)
      × ((i : ℕ) → i < 32 → i ≢ idx → test_bit map' i ≡ test_bit map i)
      × ((i : ℕ) → i < 32 → test_bit (stack_free base map' (top - used)) i ≡ test_bit map i)
unfolding stack_alloc stack_free
stack_free-stack_alloc base map used m ne b u =
    let idx = ctz 32 (bit_not 32 map) in
    let (below, clear) = lowest_zero map m ne in
    (
      idx,
      below,
      omega arith,
      clear,
      ground (arith, test_bit-bit_or map (2 ^ idx) idx, test_bit-pow idx idx),
      λ i h other. ground (arith, test_bit-bit_or map (2 ^ idx) i, test_bit-pow idx i),
      λ i h.
          stack_free_bit base (bit_or map (2 ^ idx)) (base - idx * 2 ^ 10 - used) idx used i below u
            h (omega arith)
          ∙ ground (arith, clear, test_bit-bit_or map (2 ^ idx) i, test_bit-pow idx i),
    )
