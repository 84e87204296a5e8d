-- ===== src/Slice.antt =====
-- r3_slice.c: slices of 8 to 64 bytes in pools by powers of two, cut out of blocks of 128 bytes. The
-- free slices of a pool are a stack linked through their first words; it is kept as the list of their
-- addresses. A size is between 5 and 64: for other sizes the index lies outside of the pools, or C
-- leaves `__builtin_clz` undefined.
pub mod Cover
pub mod Shared
use cmsis_rtos.Base.{
  ℕ, zero, suc, ◌+◌, ◌-◌, ◌*◌, ◌/◌, ◌^◌, List, [], ◌∷◌, ◌++◌, Option, none, some, ◌==◌,
  if◌then◌else◌,
}
use cmsis_rtos.Base.Word.{sub32}
use cmsis_rtos.Base.Masks.{clz}

-- `slice_pools`: the free slices of each pool.
abbrev pub Pools : Type 0
Pools = ℕ → List ℕ

abbrev pub with_pool : Pools → ℕ → List ℕ → Pools
with_pool pools i free j = if j == i then free else pools j

-- `bitn_mask_idx`
unfoldable pub bitn_mask_idx : ℕ → ℕ
bitn_mask_idx size = 32 - clz 32 (sub32 size 1 / 4)

-- `g_slice_free1`, when no other thread comes between.
unfoldable pub slice_free1 : ℕ → ℕ → Pools → Pools
slice_free1 size slice pools = let i = bitn_mask_idx size in with_pool pools i (slice ∷ pools i)

-- The loop of `g_slice_init`, which cuts an array into elements, and the function on the free slices.
unfoldable pub cut : ℕ → ℕ → ℕ → List ℕ
cut size array zero = []
cut size array (suc length) = array ∷ cut size (array + size) length

unfoldable pub slice_init : List ℕ → ℕ → ℕ → ℕ → List ℕ
slice_init free size array length = cut size array length ++ free

-- `g_slice_alloc`: the slice, and the pools and the blocks that are left. The blocks are those that
-- `malloc` gives one after another. `none` is a `malloc` that has no more: the code does not look for
-- that and cuts up the block at NULL.
pub record Alloc : Type 0 where
  pub slice : Option ℕ
  pub pools : Pools
  pub blocks : List ℕ

unfoldable pub slice_alloc : ℕ → Pools → List ℕ → Alloc
slice_alloc size pools [] =
    let i = bitn_mask_idx size in
    elim (pools i) [
      | [] ↦ record { slice = none; pools = pools; blocks = [] }
      | slice ∷ free ↦ record { slice = some slice; pools = with_pool pools i free; blocks = [] }
    ]
slice_alloc size pools (block ∷ blocks) =
    let i = bitn_mask_idx size in
    let refilled = with_pool pools i (slice_init (pools i) (4 * 2 ^ i) block (32 / 2 ^ i)) in
    let again = slice_alloc size refilled blocks in
    elim (pools i) [
      | [] ↦ again
      | slice ∷ free ↦ record {
        slice = some slice;
        pools = with_pool pools i free;
        blocks = block ∷ blocks;
      }
    ]
