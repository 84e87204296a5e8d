-- ===== src/Pool.antt =====
-- pool.c: pools of blocks of one size, with one bit for each block. Pointers are addresses, 0 for
-- NULL; the memory of the map and of the blocks comes from the caller or from `malloc`.
pub mod Word
pub mod Maps
pub mod Cycle
use cmsis_rtos.Base.{
  ℕ, zero, suc, ◌+◌, ◌*◌, ◌-◌, ◌/◌, ◌%◌, ◌^◌, bit_and, bit_or, Bool, true, false, List, [], ◌∷◌,
  Option, none, some, ◌==◌, ◌&&◌, if◌then◌else◌, ltb, leb, get_or, set, replicate,
}
use cmsis_rtos.Base.Word.{u16, u32, sub32}
use cmsis_rtos.Base.Bits.{ctz, bit_not, test_bit}

-- `struct os_pool_cb`
pub record Pool : Type 0 where
  pub base : ℕ
  pub min : ℕ
  pub maps : ℕ
  pub size : ℕ
  pub item_aligned_size : ℕ
  pub map : List ℕ

abbrev pub all_ones : ℕ
all_ones = 2 ^ 32 - 1

abbrev pub ok : ℕ
ok = 0

abbrev pub error_parameter : ℕ
error_parameter = 0x80

abbrev pub error_resource : ℕ
error_resource = 0x81

-- `osPoolCreate` for `pool_sz` blocks of `item_sz` bytes at `base`.
unfoldable pub pool_create : ℕ → ℕ → ℕ → Pool
pool_create pool_sz item_sz base =
    let count = (pool_sz + 31) / 32 in
    record {
      base = base;
      min = 0;
      maps = u16 count;
      size = u16 pool_sz;
      item_aligned_size = u16 ((item_sz + 3) / 4);
      map = replicate count 0;
    }

-- What the loop on one word of the map ends with.
pub data Outcome : Type 0 where
  -- The block of this number in the word is taken, and the word is now this.
  taken : ℕ → ℕ → Outcome
  -- No block of the word is free.
  full : Outcome
  -- The listed rounds all collided.
  unfinished : Outcome

-- The loop `while (~mask)` of `osPoolAlloc` on one word. The list holds the value of the word that
-- `atomic_fetch_or` finds in each round, since other threads take and free blocks meanwhile.
unfoldable pub alloc_word : List ℕ → ℕ → Outcome
alloc_word [] mask = if mask == all_ones then full else unfinished
alloc_word (cell ∷ cells) mask =
    let idx = ctz 32 (bit_not 32 mask) in
    let rest = alloc_word cells cell in
    if mask == all_ones
    then full
    else (if test_bit cell idx then rest else taken idx (bit_or cell (2 ^ idx)))

-- The loop of `osPoolAlloc` over a number of words from the word `i` on, while no other thread
-- comes between: the block, and the pool. The memory of the blocks ends below 2 ^ 32, so that the
-- 32-bit sum of the address does not wrap.
unfoldable pub alloc_from : ℕ → ℕ → Pool → Option (ℕ × Pool)
alloc_from zero i p = none
alloc_from (suc n) i p =
    let word = get_or p.map i 0 in
    let rest = alloc_from n (i + 1) p in
    elim (alloc_word (word ∷ []) word) [
      | taken idx cell ↦
          some (p.base + (idx + i * 32) * p.item_aligned_size, record p { map = set p.map i cell })
      | full ↦ rest
      | unfinished ↦ none
    ]

-- `osPoolAlloc`, `none` for NULL.
unfoldable pub pool_alloc : Pool → Option (ℕ × Pool)
pool_alloc p = alloc_from (p.maps - p.min) p.min p

-- `osPoolCAlloc`, which also clears bytes of the memory.
unfoldable pub pool_calloc : Pool → (ℕ → ℕ) → Option (ℕ × Pool × (ℕ → ℕ))
pool_calloc p m = elim (pool_alloc p) [
  | none ↦ none
  | some (block, p') ↦
      some (block, p', λ q. if leb block q && ltb q (block + p.item_aligned_size) then 0 else m q)
]

-- The number of a block: the quotient of a signed difference, then cast to `unsigned`.
unfoldable pub block_index : Pool → ℕ → ℕ
block_index p block =
    if ltb block p.base
    then sub32 0 ((p.base - block) / p.item_aligned_size)
    else (block - p.base) / p.item_aligned_size

-- `osPoolFree`
unfoldable pub pool_free : Pool → ℕ → ℕ × Pool
pool_free p block =
    let idx = block_index p block in
    let word = get_or p.map (idx / 32) 0 in
    let mask = 2 ^ (idx % 32) in
    if leb p.size idx then (error_parameter, p) else (
      if test_bit word (idx % 32) then error_resource else ok,
      record p { map = set p.map (idx / 32) (bit_and word (bit_not 32 mask)) },
    )
