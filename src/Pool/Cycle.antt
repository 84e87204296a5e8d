-- ===== src/Pool/Cycle.antt =====
-- `osPoolCreate` and `osPoolFree`, and a block that is taken and freed again.
use native.Mathlib.Nat.{mul-div_cancel}
use cmsis_rtos.Base.{
  ℕ, zero, suc, ◌+◌, ◌*◌, ◌-◌, ◌/◌, ◌%◌, ◌^◌, ◌<◌, ◌≤◌, ◌≡◌, ◌≢◌, refl, ap, ap₂, sym, subst, ◌∙◌,
  bit_and, Bool, Bool-cases, inl, inr, not, true, false, length, length-replicate, replicate,
  get_or, set, get_or-set_self, get_or-set_ne, ◌==◌, ◌&&◌, if◌then◌else◌, ltb, leb, arith,
}
use cmsis_rtos.Base.Bits.{
  test_bit, test_bit-bit_and, test_bit-bit_not, test_bit-pow, test_bit-zero, bit_not, bit_and-lt,
  pow_lt,
}
use cmsis_rtos.Pool.{
  Pool, pool_create, pool_alloc, pool_free, block_index, error_parameter, error_resource, ok,
}
use cmsis_rtos.Pool.Maps.{used, IsPool, set-IsPool, Taken, pool_alloc-Taken}

get_or-replicate : (n i : ℕ) → get_or {A = ℕ} (replicate n 0) i 0 ≡ 0
get_or-replicate zero i = refl
get_or-replicate (suc n) zero = refl
get_or-replicate (suc n) (suc i) = get_or-replicate n i

-- A pool of at most 65535 blocks is created with a word for every 32 blocks, as many words as the
-- blocks need, and no block in use.
pub pool_create-IsPool :
    (pool_sz item_sz base : ℕ)
    → pool_sz < 2 ^ 16
    → let p = pool_create pool_sz item_sz base in
      IsPool p
      × (p.size ≡ pool_sz)
      × (p.size ≤ p.maps * 32)
      × (p.maps * 32 < p.size + 32)
      × ((k : ℕ) → used p k ≡ false)
unfolding pool_create
pool_create-IsPool pool_sz item_sz base l = (
  record {
    min = refl;
    maps = omega (arith, length-replicate {A = ℕ} ((pool_sz + 31) / 32) 0);
    words = λ i. omega (arith, get_or-replicate ((pool_sz + 31) / 32) i);
  },
  omega arith,
  omega arith,
  omega arith,
  λ k.
      ap (λ v. test_bit v (k % 32)) (get_or-replicate ((pool_sz + 31) / 32) (k / 32))
      ∙ test_bit-zero (k % 32),
)

pub block_index_lem :
    (p : Pool) (k : ℕ)
    → 0 < p.item_aligned_size
    → block_index p (p.base + k * p.item_aligned_size) ≡ k
unfolding block_index
block_index_lem p k h =
    let after : ltb (p.base + k * p.item_aligned_size) p.base ≡ false = ground arith in
    let offset : p.base + k * p.item_aligned_size - p.base ≡ k * p.item_aligned_size =
      omega arith in
    rw (after, block_index) (ap (λ n. n / p.item_aligned_size) offset ∙ mul-div_cancel k h)

-- Clearing the bit of a block.
clear_bit-used :
    (p : Pool) (k : ℕ)
    → IsPool p
    → k / 32 < length p.map
    → (j : ℕ)
    → used
        (record p {
          map = set p.map (k / 32) (bit_and (get_or p.map (k / 32) 0) (bit_not 32 (2 ^ (k % 32))));
        })
        j
      ≡ (not (k == j) && used p j)
clear_bit-used p k w b j =
    elim (Bool-cases (k / 32 == j / 32))
      as (λ _.
        used
          (record p {
            map =
                set p.map (k / 32) (bit_and (get_or p.map (k / 32) 0) (bit_not 32 (2 ^ (k % 32))));
          })
          j
        ≡ (not (k == j) && used p j)) [
          | inl here ↦
              let same : k / 32 ≡ j / 32 = ground arith in
              let word = bit_and (get_or p.map (k / 32) 0) (bit_not 32 (2 ^ (k % 32))) in
              let at = get_or-set_self p.map (k / 32) word 0 b in
              let bit : (k % 32 == j % 32) ≡ (k == j) = ground arith in
              let mask =
                test_bit-bit_not 32 (2 ^ (k % 32)) (j % 32) (pow_lt (k % 32) 32 (omega arith))
                  (omega arith) in
              ap (λ n. test_bit (get_or (set p.map (k / 32) word) n 0) (j % 32)) (sym same)
              ∙ ap (λ v. test_bit v (j % 32)) at
              ∙ test_bit-bit_and (get_or p.map (k / 32) 0) (bit_not 32 (2 ^ (k % 32))) (j % 32)
              ∙ ap₂ (λ x y. x && y) (ap (λ n. test_bit (get_or p.map n 0) (j % 32)) same)
                  (mask ∙ ap not (test_bit-pow (k % 32) (j % 32) ∙ bit))
              ∙ and_comm (used p j) (not (k == j))
          | inr other ↦
              let ne : k / 32 ≢ j / 32 = ground arith in
              let differs : (k == j) ≡ false = ground arith in
              let word = bit_and (get_or p.map (k / 32) 0) (bit_not 32 (2 ^ (k % 32))) in
              rw differs
                (ap (λ v. test_bit v (j % 32)) (get_or-set_ne p.map (k / 32) (j / 32) word 0 ne))
        ]
  where
    and_comm : (a b : Bool) → (a && b) ≡ (b && a)
    and_comm false false = refl
    and_comm false true = refl
    and_comm true false = refl
    and_comm true true = refl

-- What the release of the block `k` returns, and the pool after it.
pub record Freed (p : Pool) (k : ℕ) (result : ℕ × Pool) : Type 0 where
  pub status : result.0 ≡ (if used p k then error_resource else ok)
  pub cleared : (j : ℕ) → used result.1 j ≡ (not (k == j) && used p j)
  pub well : IsPool result.1

-- On a pool with a word for every 32 blocks, releasing a block of the pool marks that block and no
-- other as free; it returns `osErrorResource` when the block was in use and `osOK` when it was
-- free already.
pub pool_free-Freed :
    (p : Pool) (k : ℕ)
    → IsPool p
    → p.size ≤ p.maps * 32
    → 0 < p.item_aligned_size
    → k < p.size
    → Freed p k (pool_free p (p.base + k * p.item_aligned_size))
unfolding pool_free
pool_free-Freed p k w fits item l =
    let index = block_index_lem p k item in
    let inside : leb p.size k ≡ false = ground arith in
    let room : k / 32 < length p.map = omega (arith, w.maps) in
    rw (index, inside, pool_free)
      (record {
        status = refl;
        cleared = clear_bit-used p k w room;
        well = set-IsPool p (k / 32) _ w room (
            bit_and-lt 32 (get_or p.map (k / 32) 0) (bit_not 32 (2 ^ (k % 32))) (w.words (k / 32)));
      })

-- A block that `osPoolAlloc` took, with a number below the size of the pool: releasing it leaves in
-- use exactly the blocks that were before, and returns `osErrorResource`.
pub alloc_then_free :
    (p : Pool)
    → IsPool p
    → p.size ≤ p.maps * 32
    → 0 < p.item_aligned_size
    → (t : Taken p (pool_alloc p)) → t.number < p.size
    → let r = pool_free t.after (p.base + t.number * p.item_aligned_size) in
      (r.0 ≡ error_resource) × ((j : ℕ) → used r.1 j ≡ used p j)
alloc_then_free p w fits item t l =
    let freed =
      subst (λ q. Freed q t.number (pool_free q (p.base + t.number * p.item_aligned_size)))
        (sym t.layout)
        (pool_free-Freed (record p { map = t.after.map }) t.number (subst IsPool t.layout t.well)
          fits item l) in
    (
      ground (arith, freed.status, t.taken t.number),
      λ j. ground (arith, freed.cleared j, t.taken j, t.free),
    )

-- When every block below the size of the pool is in use and the last word of the map has a free
-- bit, `osPoolAlloc` gives a block beyond the end of the pool, and `osPoolFree` refuses that block.
pub alloc_beyond :
    (p : Pool) (free : ℕ)
    → IsPool p
    → 0 < p.item_aligned_size
    → ((k : ℕ) → k < p.size → used p k ≡ true)
    → free < p.maps * 32
    → used p free ≡ false
    → (t : Taken p (pool_alloc p)) × (p.size ≤ t.number)
      × (pool_free t.after (p.base + t.number * p.item_aligned_size) ≡ (error_parameter, t.after))
unfolding pool_free
alloc_beyond p free w item all inside clear = elim (pool_alloc-Taken p w) [
  | inl t ↦
      let beyond : p.size ≤ t.number = ground (arith, all t.number, t.free) in
      let index = block_index_lem (record p { map = t.after.map }) t.number item in
      let index' =
        ap (λ q. block_index q (p.base + t.number * p.item_aligned_size)) t.layout ∙ index in
      let size : t.after.size ≡ p.size = ap Pool.size t.layout in
      (t, beyond, ground (arith, index', size))
  | inr (lost, full) ↦ absurd (ground (arith, full free inside))
]
