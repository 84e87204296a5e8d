-- ===== src/Tests/Pool.antt =====
-- pool.c at concrete inputs.
use cmsis_rtos.Base.{
  ℕ, zero, suc, ◌*◌, ◌^◌, ◌<◌, ◌≡◌, refl, ◌⊎◌, true, [], ◌∷◌, none, get_or, arith,
}
use cmsis_rtos.Base.Bits.{test_bit}
use cmsis_rtos.Pool.{Pool, pool_create, pool_alloc}
use cmsis_rtos.Pool.Maps.{used, IsPool, Taken, pool_alloc-Taken}
use cmsis_rtos.Pool.Cycle.{pool_create-IsPool}

abbrev forty : Pool
forty = pool_create 40 12 1000

forty-IsPool : IsPool forty
forty-IsPool = (pool_create-IsPool 40 12 1000 (omega arith)).0

pool_alloc-Taken_example :
    Taken forty (pool_alloc forty)
    ⊎ ((pool_alloc forty ≡ none) × ((k : ℕ) → k < forty.maps * 32 → used forty k ≡ true))
pool_alloc-Taken_example = pool_alloc-Taken forty forty-IsPool

-- A pool of one block, which is in use.
abbrev one_block : Pool
one_block = record { base = 1000; min = 0; maps = 1; size = 1; item_aligned_size = 4; map = 1 ∷ [] }

one_block-words : (i : ℕ) → get_or (one_block.map) i 0 < 2 ^ 32
one_block-words zero = omega arith
one_block-words (suc i) = omega arith

one_block-IsPool : IsPool one_block
one_block-IsPool = record { min = refl; maps = refl; words = one_block-words }

one_block-used : (k : ℕ) → k < 1 → used one_block k ≡ true
unfolding test_bit
one_block-used zero l = refl
one_block-used (suc k) l = absurd (omega arith)
