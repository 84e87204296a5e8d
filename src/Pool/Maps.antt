-- ===== src/Pool/Maps.antt =====
-- `osPoolAlloc` over the whole map.
use cmsis_rtos.Base.{
  ℕ, zero, suc, ◌+◌, ◌*◌, ◌-◌, ◌/◌, ◌%◌, ◌^◌, ◌<◌, ◌≤◌, ◌≡◌, ◌≢◌, refl, ap, ap₂, sym, subst, ◌∙◌,
  bit_or, Bool, Bool-cases, inl, inr, not, ◌⊎◌, true, false, length, get_or, set, get_or-set_self,
  get_or-set_ne, length-set, Option, none, some, ◌==◌, ◌||◌, arith,
}
use cmsis_rtos.Base.Bits.{
  test_bit, test_bit-bit_or, test_bit-pow, test_bit-bit_not, test_bit-zero, bit_or-lt, pow_lt,
}
use cmsis_rtos.Pool.{Pool, all_ones, alloc_from, pool_alloc}
use cmsis_rtos.Pool.Word.{alloc_word-alone}

-- Whether the block of this number is in use.
abbrev pub used : Pool → ℕ → Bool
used p k = test_bit (get_or p.map (k / 32) 0) (k % 32)

-- A pool as `osPoolCreate` makes it: its map has a word for every 32 blocks.
pub record IsPool (p : Pool) : Type 0 where
  pub min : p.min ≡ 0
  pub maps : p.maps ≡ length p.map
  pub words : (i : ℕ) → get_or p.map i 0 < 2 ^ 32

-- A block that was free is taken, and no other block changes.
pub record Taken (p : Pool) (result : Option (ℕ × Pool)) : Type 0 where
  pub number : ℕ
  pub after : Pool
  pub returns : result ≡ some (p.base + number * p.item_aligned_size, after)
  pub within : number < p.maps * 32
  pub free : used p number ≡ false
  pub taken : (k : ℕ) → used after k ≡ ((number == k) || used p k)
  pub well : IsPool after
  pub layout : after ≡ record p { map = after.map }

or_comm : (a b : Bool) → (a || b) ≡ (b || a)
or_comm false false = refl
or_comm false true = refl
or_comm true false = refl
or_comm true true = refl

-- Writing a word with the bit of a clear block set.
set_bit-used :
    (p : Pool) (i idx : ℕ)
    → i < length p.map
    → idx < 32
    → (k : ℕ)
    → used (record p { map = set p.map i (bit_or (get_or p.map i 0) (2 ^ idx)) }) k
      ≡ ((idx + i * 32 == k) || used p k)
set_bit-used p i idx b c k =
    elim (Bool-cases (i == k / 32))
      as (λ _.
        used (record p { map = set p.map i (bit_or (get_or p.map i 0) (2 ^ idx)) }) k
        ≡ ((idx + i * 32 == k) || used p k)) [
          | inl here ↦
              let same : i ≡ k / 32 = ground arith in
              let at = get_or-set_self p.map i (bit_or (get_or p.map i 0) (2 ^ idx)) 0 b in
              let bit : (idx == k % 32) ≡ (idx + i * 32 == k) = ground arith in
              ap
                (λ n.
                  test_bit (get_or (set p.map i (bit_or (get_or p.map i 0) (2 ^ idx))) n 0)
                    (k % 32))
                (sym same)
              ∙ ap (λ w. test_bit w (k % 32)) at
              ∙ test_bit-bit_or (get_or p.map i 0) (2 ^ idx) (k % 32)
              ∙ ap₂ (λ x y. x || y) (ap (λ n. test_bit (get_or p.map n 0) (k % 32)) same)
                  (test_bit-pow idx (k % 32) ∙ bit)
              ∙ or_comm (used p k) (idx + i * 32 == k)
          | inr other ↦
              let ne : i ≢ k / 32 = ground arith in
              let differs : (idx + i * 32 == k) ≡ false = ground arith in
              rw differs (
                ap (λ w. test_bit w (k % 32))
                  (get_or-set_ne p.map i (k / 32) (bit_or (get_or p.map i 0) (2 ^ idx)) 0 ne))
        ]

-- Writing a 32-bit word leaves a pool.
pub set-IsPool :
    (p : Pool) (i v : ℕ)
    → IsPool p
    → i < length p.map
    → v < 2 ^ 32
    → IsPool (record p { map = set p.map i v })
set-IsPool p i v w b l = record {
  min = w.min;
  maps = w.maps ∙ sym (length-set p.map i v);
  words = λ j. elim (Bool-cases (i == j)) as (λ _. get_or (set p.map i v) j 0 < 2 ^ 32) [
    | inl here ↦
        let same : i ≡ j = ground arith in
        subst (λ n. get_or (set p.map i v) n 0 < 2 ^ 32) same
          (omega (arith, l, get_or-set_self p.map i v 0 b))
    | inr other ↦
        let ne : i ≢ j = ground arith in omega (arith, w.words j, get_or-set_ne p.map i j v 0 ne)
  ];
}

used-at :
    (p : Pool) (i idx : ℕ) → idx < 32 → used p (idx + i * 32) ≡ test_bit (get_or p.map i 0) idx
used-at p i idx b =
    let word : (idx + i * 32) / 32 ≡ i = omega arith in
    let bit : (idx + i * 32) % 32 ≡ idx = omega arith in
    ap₂ (λ n m. test_bit (get_or p.map n 0) m) word bit

ones-used :
    (p : Pool) (i k : ℕ)
    → get_or p.map i 0 ≡ all_ones
    → i * 32 ≤ k
    → ((i + 1) * 32 ≤ k → k < p.maps * 32 → used p k ≡ true)
    → k < p.maps * 32
    → used p k ≡ true
ones-used p i k word above later within =
    elim (Bool-cases (i == k / 32)) as (λ _. used p k ≡ true) [
      | inl here ↦
          let same : k / 32 ≡ i = ground arith in
          ap (λ n. test_bit (get_or p.map n 0) (k % 32)) same
          ∙ ap (λ v. test_bit v (k % 32)) word
          ∙ test_bit-bit_not 32 0 (k % 32) (omega arith) (omega arith)
          ∙ ap not (test_bit-zero (k % 32))
      | inr other ↦ later (ground arith) within
    ]

-- The words from `i` on: a free block is taken, or none of their blocks is free.
alloc_from-Taken :
    (n i : ℕ) (p : Pool)
    → IsPool p
    → i + n ≡ p.maps
    → Taken p (alloc_from n i p)
      ⊎ ((alloc_from n i p ≡ none) × ((k : ℕ) → i * 32 ≤ k → k < p.maps * 32 → used p k ≡ true))
unfolding alloc_from
alloc_from-Taken zero i p w e = inr (refl, λ k a b. absurd (omega arith))
alloc_from-Taken (suc n) i p w e = elim (Bool-cases (get_or p.map i 0 == all_ones)) [
  | inl ones ↦
      let word : get_or p.map i 0 ≡ all_ones = ground arith in
      let skip : alloc_from (suc n) i p ≡ alloc_from n (i + 1) p =
        rw ((alloc_word-alone (get_or p.map i 0) (w.words i)).0 word, alloc_from) refl in
      elim (alloc_from-Taken n (i + 1) p w (omega arith)) [
        | inl taken ↦ inl (subst (Taken p) (sym skip) taken)
        | inr (lost, all) ↦
            inr (skip ∙ lost, λ k above within. ones-used p i k word above (all k) within)
      ]
  | inr more ↦
      let (idx, below, clear, took) =
        (alloc_word-alone (get_or p.map i 0) (w.words i)).1 (ground arith) in
      let inside : i < length p.map = omega (arith, w.maps) in
      inl (record {
        number = idx + i * 32;
        after = record p { map = set p.map i (bit_or (get_or p.map i 0) (2 ^ idx)) };
        returns = rw (took, alloc_from) refl;
        within = omega arith;
        free = used-at p i idx below ∙ clear;
        taken = set_bit-used p i idx inside below;
        well =
            set-IsPool p i _ w inside
              (bit_or-lt 32 (get_or p.map i 0) (2 ^ idx) (w.words i) (pow_lt idx 32 below));
        layout = refl;
      })
]

-- On a pool whose map has a word for every 32 blocks, `osPoolAlloc` with no other thread between
-- takes a block that was free, marks that block and no other as used, and gives the address of the
-- block by its number; it gives NULL only when every block of the map is in use.
pub pool_alloc-Taken :
    (p : Pool)
    → IsPool p
    → Taken p (pool_alloc p)
      ⊎ ((pool_alloc p ≡ none) × ((k : ℕ) → k < p.maps * 32 → used p k ≡ true))
unfolding pool_alloc
pool_alloc-Taken p w = elim (alloc_from-Taken (p.maps - p.min) p.min p w (omega (arith, w.min))) [
  | inl taken ↦ inl taken
  | inr (lost, all) ↦ inr (lost, λ k within. all k (omega (arith, w.min)) within)
]
