-- ===== src/Heap.antt =====
-- malloc.c: the heap is a row of blocks from `heap_base` to `last_block`, each with a word in front that
-- has its size and says whether it is free. Allocation takes from the end, release sets the flag, and
-- the collector joins free blocks.
pub mod Row
pub mod Merged
pub mod Joined
pub mod Held
pub mod Calls
pub mod Aligned
use cmsis_rtos.Base.{
  ℕ, zero, suc, ◌+◌, ◌-◌, ◌*◌, ◌%◌, ◌^◌, Bool, true, false, not, ◌==◌, ltb, leb, if◌then◌else◌,
  bit_and,
}
use cmsis_rtos.Base.Word.{u32, add32, sub32}
use cmsis_rtos.Base.Bits.{bit_not}

-- `R3MemoryBlock` by its address, 4 bytes with a size of 30 bits, and the variables of the heap.
pub record Heap : Type 0 where
  pub size : ℕ → ℕ
  pub free : ℕ → Bool
  pub last_block : ℕ
  pub first_free_block : ℕ

abbrev pub put {ℓ} : {A : Type ℓ} → (ℕ → A) → ℕ → A → ℕ → A
put f p v q = if q == p then v else f q

abbrev pub with_block : ℕ → ℕ → Bool → Heap → Heap
with_block p n is_free h = record h {
  size = put h.size p (n % 2 ^ 30);
  free = put h.free p is_free;
}

abbrev pub alignment : ℕ
alignment = 4

-- `aligned_alloc` when no other thread comes between.
unfoldable pub aligned_alloc : ℕ → ℕ → Heap → ℕ × Heap
aligned_alloc align0 size0 h =
    let align = if ltb align0 alignment then alignment else align0 in
    let mask = align - 1 in
    let size = add32 (bit_and (add32 size0 mask) (bit_not 32 mask)) 4 in
    let addr = h.last_block in
    let head = sub32 (sub32 align 4) (bit_and addr mask) in
    let taken = record h { last_block = add32 addr (add32 head size) } in
    let placed = with_block (add32 addr head) size false taken in
    (add32 addr 4, if ltb 0 head then with_block addr head true placed else placed)

unfoldable pub malloc : ℕ → Heap → ℕ × Heap
malloc size h = aligned_alloc alignment size h

unfoldable pub calloc : ℕ → ℕ → Heap → ℕ × Heap
calloc nelem elsize h = aligned_alloc alignment (u32 (nelem * elsize)) h

-- `free`; what stands behind its `return` is never run.
unfoldable pub free_block : ℕ → Heap → Heap
free_block mem h = record h { free = put h.free (sub32 mem 4) true }

-- The loop of `r3_mem_garbage` at a free block, within a number of rounds.
unfoldable pub join_free : ℕ → ℕ → ℕ → Heap → Heap
join_free zero heap_base block h = h
join_free (suc count) heap_base block h =
    let next = add32 block (h.size block) in
    let joined = record h { size = put h.size block ((h.size block + h.size next) % 2 ^ 30) } in
    let rest = join_free count heap_base block joined in
    if next == h.last_block
    then record h { last_block = block; first_free_block = heap_base }
    else (if h.free next then rest else record h { first_free_block = add32 next (h.size next) })

-- `r3_mem_garbage`
unfoldable pub mem_garbage : ℕ → Heap → Heap
mem_garbage heap_base h =
    let block = h.first_free_block in
    if leb h.last_block block
    then record h { first_free_block = heap_base }
    else (if h.free block
        then join_free 5 heap_base block h
        else record h { first_free_block = add32 block (h.size block) })
