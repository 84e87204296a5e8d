-- ===== src/Slice/Cover.antt =====
-- How many of the slices cover a byte: the cover by the free slices, by those in use and by the blocks
-- that `malloc` has not given yet adds up to the same whatever is allocated.
use cmsis_rtos.Base.{
  ℕ, zero, suc, ◌+◌, ◌*◌, ◌/◌, ◌^◌, ◌≤◌, ◌<◌, ◌≡◌, ◌⊎◌, refl, sym, ap, ◌∙◌, inl, inr, Bool, false,
  Bool-cases, ◌&&◌, ◌||◌, leb, ltb, ◌==◌, if◌then◌else◌, List, [], ◌∷◌, ◌++◌, Option, none, some,
  arith, ==→eq, eq→==,
}
use native.Mathlib.Nat.{mul-suc, mul-zero}
use cmsis_rtos.Base.Masks.{clz, holds_below, holds_below-true}
use cmsis_rtos.Slice.{Pools, with_pool, bitn_mask_idx, cut, slice_init, slice_alloc}

-- Whether a byte lies in the given number of bytes from an address on, as 0 or 1.
abbrev pub within : ℕ → ℕ → ℕ → ℕ
within x at len = if leb at x && ltb x (at + len) then 1 else 0

abbrev pub covers : ℕ → ℕ → List ℕ → ℕ
covers x len [] = 0
covers x len (at ∷ ats) = within x at len + covers x len ats

-- The size of the slices of a pool.
abbrev pub width : ℕ → ℕ
width i = 4 * 2 ^ i

-- The cover by the first pools.
abbrev pub total : ℕ → Pools → ℕ → ℕ
total zero pools x = 0
total (suc n) pools x = covers x (width n) (pools n) + total n pools x

abbrev pub given : ℕ → ℕ → Option ℕ → ℕ
given x len none = 0
given x len (some at) = within x at len

covers-append :
    (x len : ℕ) (xs ys : List ℕ) → covers x len (xs ++ ys) ≡ covers x len xs + covers x len ys
covers-append x len [] ys = omega arith
covers-append x len (at ∷ xs) ys = omega (arith, covers-append x len xs ys)

-- An array of no size covers nothing, and one that is cut covers what it did.
covers-cut : (x size array n : ℕ) → covers x size (cut size array n) ≡ within x array (size * n)
unfolding cut
covers-cut x size array zero = ground (arith, mul-zero size)
covers-cut x size array (suc n) = ground (arith, covers-cut x size (array + size) n, mul-suc size n)

-- Outside of the first pools a write changes nothing.
total-outside :
    (n : ℕ) (pools : Pools) (x i : ℕ) (free : List ℕ)
    → n ≤ i
    → total n (with_pool pools i free) x ≡ total n pools x
total-outside zero pools x i free h = refl
total-outside (suc n) pools x i free h =
    let other : (n == i) ≡ false = ground arith in
    let rest = total-outside n pools x i free (omega arith) in
    rw other (ap (λ k. covers x (width n) (pools n) + k) rest)

pub total-with_pool :
    (n : ℕ) (pools : Pools) (x i : ℕ) (free : List ℕ)
    → i < n
    → total n (with_pool pools i free) x + covers x (width i) (pools i)
      ≡ total n pools x + covers x (width i) free
total-with_pool zero pools x i free h = absurd (omega arith)
total-with_pool (suc n) pools x i free h = elim (Bool-cases (n == i)) [
  | inl here ↦
      let same : i ≡ n = sym (==→eq n i here) in
      let self = eq→== n n refl in
      rw (same, self) (omega (arith, total-outside n pools x n free (omega arith)))
  | inr other ↦
      let rest = total-with_pool n pools x i free (ground arith) in rw other (omega (arith, rest))
]

-- The sizes of the pools: a slice has at least the bytes that are asked for, and the slices of a pool
-- divide a block.
abbrev fits : ℕ → Bool
fits size = leb size 4 || (ltb (bitn_mask_idx size) 5 && leb size (width (bitn_mask_idx size)))

pub bitn_mask_idx-fits :
    (size : ℕ)
    → 4 < size
    → size ≤ 64
    → (bitn_mask_idx size < 5) × (size ≤ width (bitn_mask_idx size))
unfolding holds_below bitn_mask_idx clz
bitn_mask_idx-fits size low high =
    let all = holds_below-true 65 fits size refl (omega arith) in
    (ground (arith, all), ground (arith, all))

block_divided : (i : ℕ) → i < 5 → width i * (32 / 2 ^ i) ≡ 128
unfolding holds_below
block_divided i h =
    ==→eq (width i * (32 / 2 ^ i)) 128
      (holds_below-true 5 (λ i. width i * (32 / 2 ^ i) == 128) i refl h)

-- What a function on the bytes counts: the free slices and the blocks that are left.
abbrev pub supply : Pools → List ℕ → ℕ → ℕ
supply pools blocks x = total 5 pools x + covers x 128 blocks

empty_or_not : (xs : List ℕ) → (xs ≡ []) ⊎ ((at : ℕ) × (free : List ℕ) × (xs ≡ at ∷ free))
empty_or_not [] = inl refl
empty_or_not (at ∷ free) = inr (at, free, refl)

pop-supply :
    (pools : Pools) (i at : ℕ) (free blocks : List ℕ) (x : ℕ)
    → i < 5
    → pools i ≡ at ∷ free
    → within x at (width i) + supply (with_pool pools i free) blocks x ≡ supply pools blocks x
pop-supply pools i at free blocks x h top =
    omega (arith, total-with_pool 5 pools x i free h, ap (covers x (width i)) top)

refill-supply :
    (pools : Pools) (i block : ℕ) (blocks : List ℕ) (x : ℕ)
    → i < 5
    → supply (with_pool pools i (slice_init (pools i) (width i) block (32 / 2 ^ i))) blocks x
      ≡ supply pools (block ∷ blocks) x
unfolding slice_init
refill-supply pools i block blocks x h =
    let array = cut (width i) block (32 / 2 ^ i) in
    omega (
      arith,
      total-with_pool 5 pools x i (array ++ pools i) h,
      covers-append x (width i) array (pools i),
      covers-cut x (width i) block (32 / 2 ^ i),
      ap (within x block) (block_divided i h),
    )

-- An allocation gives a slice out of the supply, and cuts blocks up within it.
pub slice_alloc-supply :
    (size : ℕ) (pools : Pools) (blocks : List ℕ) (x : ℕ)
    → 4 < size
    → size ≤ 64
    → let a = slice_alloc size pools blocks in
      given x (width (bitn_mask_idx size)) a.slice + supply a.pools a.blocks x
      ≡ supply pools blocks x
unfolding slice_alloc slice_init
slice_alloc-supply size pools [] x low high = elim (empty_or_not (pools (bitn_mask_idx size))) [
  | inl e ↦ rw (e, slice_alloc) (omega arith)
  | inr (at, free, e) ↦
      rw (e, slice_alloc)
        (pop-supply pools (bitn_mask_idx size) at free [] x (bitn_mask_idx-fits size low high).0 e)
]
slice_alloc-supply size pools (block ∷ blocks) x low high =
    let i = bitn_mask_idx size in
    let (i_bound, _) = bitn_mask_idx-fits size low high in
    let refilled = with_pool pools i (slice_init (pools i) (width i) block (32 / 2 ^ i)) in
    let again = slice_alloc-supply size refilled blocks x low high in
    elim (empty_or_not (pools i)) [
      | inl e ↦ rw (e, slice_alloc) (again ∙ refill-supply pools i block blocks x i_bound)
      | inr (at, free, e) ↦
          rw (e, slice_alloc) (pop-supply pools i at free (block ∷ blocks) x i_bound e)
    ]

some_left :
    (size i block : ℕ) (free : List ℕ)
    → i < 5
    → (rest : List ℕ) × (slice_init free size block (32 / 2 ^ i) ≡ block ∷ rest)
unfolding slice_init cut
some_left size zero block free h = (cut size (block + size) 31 ++ free, refl)
some_left size (suc zero) block free h = (cut size (block + size) 15 ++ free, refl)
some_left size (suc (suc zero)) block free h = (cut size (block + size) 7 ++ free, refl)
some_left size (suc (suc (suc zero))) block free h = (cut size (block + size) 3 ++ free, refl)
some_left size (suc (suc (suc (suc zero)))) block free h = (cut size (block + size) 1 ++ free, refl)
some_left size (suc (suc (suc (suc (suc i))))) block free h = absurd (omega arith)

top_taken :
    (size : ℕ) (pools : Pools) (blocks : List ℕ) (at : ℕ) (free : List ℕ)
    → pools (bitn_mask_idx size) ≡ at ∷ free
    → ((slice_alloc size pools blocks).slice ≡ some at)
      × ((slice_alloc size pools blocks).blocks ≡ blocks)
unfolding slice_alloc
top_taken size pools [] at free e = rw (e, slice_alloc) (refl, refl)
top_taken size pools (block ∷ blocks) at free e = rw (e, slice_alloc) (refl, refl)

-- For a size between 5 and 64, as long as `malloc` gives a block, `g_slice_alloc` returns a slice: the
-- top of its pool, or the block itself, which is then the only one that it takes, when the pool is
-- empty.
pub slice_alloc_lem :
    (size : ℕ) (pools : Pools) (block : ℕ) (blocks : List ℕ)
    → 4 < size
    → size ≤ 64
    → let a = slice_alloc size pools (block ∷ blocks) in
      ((pools (bitn_mask_idx size) ≡ []) × (a.slice ≡ some block) × (a.blocks ≡ blocks))
      ⊎ ((at : ℕ) × (free : List ℕ) × (pools (bitn_mask_idx size) ≡ at ∷ free)
          × (a.slice ≡ some at)
          × (a.blocks ≡ block ∷ blocks))
unfolding slice_alloc
slice_alloc_lem size pools block blocks low high =
    let i = bitn_mask_idx size in
    let (i_bound, _) = bitn_mask_idx-fits size low high in
    let refilled = with_pool pools i (slice_init (pools i) (width i) block (32 / 2 ^ i)) in
    let (rest, left) = some_left (width i) i block (pools i) i_bound in
    let self = eq→== i i refl in
    let top : refilled i ≡ block ∷ rest = rw self left in
    elim (empty_or_not (pools i)) [
      | inl e ↦
          let (slice, kept) = top_taken size refilled blocks block rest top in
          inl (e, rw (e, slice_alloc) slice, rw (e, slice_alloc) kept)
      | inr (at, free, e) ↦
          let (slice, kept) = top_taken size pools (block ∷ blocks) at free e in
          inr (at, free, e, slice, kept)
    ]
